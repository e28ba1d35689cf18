-- ===== src/Orders/Status/Laws.antt =====
-- The sequences of changes that the table of statuses allows.
use hop_and_barley_store.Prelude.{
  ℕ, suc, ◌+◌, ◌≤◌, ◌≡◌, refl, ◌⊎◌, ◌↔◌, List, [], ◌∷◌, length, arith,
}
use hop_and_barley_store.Store.{OrderStatus, placed, paid, shipped, delivered, cancelled}
use hop_and_barley_store.Store.Transaction.{ok}
use hop_and_barley_store.Orders.Status.{assert_order_status_transition}

-- The changes that are allowed.
pub data Change : OrderStatus → OrderStatus → Type 0 where
  ships_placed : Change placed shipped
  ships_paid : Change paid shipped
  cancels_placed : Change placed cancelled
  cancels_paid : Change paid cancelled
  delivers : Change shipped delivered

accepted-Change : (s t : OrderStatus) → assert_order_status_transition s t ≡ ok tt → Change s t
unfolding assert_order_status_transition
accepted-Change placed shipped h = ships_placed
accepted-Change placed cancelled h = cancels_placed
accepted-Change paid shipped h = ships_paid
accepted-Change paid cancelled h = cancels_paid
accepted-Change shipped delivered h = delivers
accepted-Change s t h = absurd (ground arith)

Change-accepted : {s t : OrderStatus} → Change s t → assert_order_status_transition s t ≡ ok tt
unfolding assert_order_status_transition
Change-accepted ships_placed = refl
Change-accepted ships_paid = refl
Change-accepted cancels_placed = refl
Change-accepted cancels_paid = refl
Change-accepted delivers = refl

-- `assertOrderStatusTransition` accepts just the changes that are allowed.
pub assert_iff_Change :
    (s t : OrderStatus) → (assert_order_status_transition s t ≡ ok tt) ↔ Change s t
assert_iff_Change s t = (accepted-Change s t, Change-accepted)

-- Each status of the list is reached from the one before it by an accepted change.
abbrev pub IsHistory : OrderStatus → List OrderStatus → Type 0
IsHistory s [] = Unit {0}
IsHistory s (t ∷ ts) = (assert_order_status_transition s t ≡ ok tt) × IsHistory t ts

abbrev rank : OrderStatus → ℕ
rank placed = 0
rank paid = 0
rank shipped = 1
rank delivered = 2
rank cancelled = 2

change_raises_rank :
    (s t : OrderStatus) → assert_order_status_transition s t ≡ ok tt → suc (rank s) ≤ rank t
unfolding assert_order_status_transition
change_raises_rank s t h = ground arith

history_below_rank :
    (s : OrderStatus) (ts : List OrderStatus) → IsHistory s ts → rank s + length ts ≤ 2
history_below_rank s [] h = ground arith
history_below_rank s (t ∷ ts) h =
    omega (arith, change_raises_rank s t h.0, history_below_rank t ts h.1)

-- A sequence of changes each of which the table allows has two at most, and none from `delivered` or
-- `cancelled`. The payments set a status without asking the table.
pub history_ends :
    (s : OrderStatus) (ts : List OrderStatus)
    → IsHistory s ts
    → (length ts ≤ 2) × ((s ≡ delivered) ⊎ (s ≡ cancelled) → ts ≡ [])
history_ends s ts h =
    (ground (arith, history_below_rank s ts h), λ e. ground (arith, history_below_rank s ts h))
