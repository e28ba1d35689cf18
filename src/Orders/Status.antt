-- ===== src/Orders/Status.antt =====
-- The table of status changes of apps/api/src/orders/order-status.ts.
pub mod Laws
use hop_and_barley_store.Prelude.{ℕ, Bool, true, false, ◌||◌, List, [], ◌∷◌, if◌then◌else◌}
use hop_and_barley_store.Store.{OrderStatus, placed, paid, shipped, delivered, cancelled}
use hop_and_barley_store.Store.Transaction.{Result, ok, err, invalid_order_transition}

abbrev pub transitions : OrderStatus → List OrderStatus
transitions placed = shipped ∷ cancelled ∷ []
transitions paid = shipped ∷ cancelled ∷ []
transitions shipped = delivered ∷ []
transitions delivered = []
transitions cancelled = []

abbrev pub same_status : OrderStatus → OrderStatus → Bool
same_status placed placed = true
same_status paid paid = true
same_status shipped shipped = true
same_status delivered delivered = true
same_status cancelled cancelled = true
same_status _ _ = false

-- `Array.prototype.includes`.
abbrev pub includes : List OrderStatus → OrderStatus → Bool
includes [] status = false
includes (s ∷ ss) status = same_status s status || includes ss status

unfoldable pub assert_order_status_transition : OrderStatus → OrderStatus → Result (Unit {0})
assert_order_status_transition current next =
    if includes (transitions current) next then ok tt else err invalid_order_transition
