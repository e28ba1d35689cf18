-- ===== src/Payments/Stripe/Outcomes.antt =====
-- What a payment intent brings about, of apps/api/src/payments/stripe-payment.service.ts:
-- `lockAndLoadAttempt`, `lockAndAttachPaymentReference`, `finalizeCapturedPayment`,
-- `releaseUnpaidPayment`, `markAttemptReconciliation`, the transaction of `requestCapture`,
-- `applyPaymentIntentEvent` and `applyPaymentIntentState`.
pub mod Evolution
pub mod Applied
pub mod Finalized
use text.Mathlib.Text.{◌==◌ as str_eq}
use hop_and_barley_store.Prelude.{
  ℕ, Bool, true, false, not, ◌&&◌, ◌||◌, List, [], ◌∷◌, ◌==◌, Option, none, some, String, is_some,
  if◌then◌else◌,
}
use hop_and_barley_store.Catalog.Amount.{or_else}
use hop_and_barley_store.Store.{
  Database, Order, OrderItem, OrderStatus, PaymentState, Cart, find_cart, set_cart,
}
use hop_and_barley_store.Store.Items.{CartItem, is_line}
use hop_and_barley_store.Store.Transaction.{
  HttpError, attempt_conflict, payment_refused, internal_error,
}
use hop_and_barley_store.Payments.{PaymentDatabase, T}
use hop_and_barley_store.Payments.Action.{◌>>=◌, ◌>>◌, pure, reads, modify, require, branch, lookup}
use hop_and_barley_store.Payments.Attempts.{
  PaymentAttempt, find_attempt, is_started, is_succeeded, PaymentAttemptStatus,
}
use hop_and_barley_store.Payments.Allocations.{
  Allocation, AllocationStatus, AllocationReleaseReason, find_allocation, update_allocation,
  is_released, is_captured, is_settled,
}
use hop_and_barley_store.Payments.Matching.{same_id}
use hop_and_barley_store.Payments.Service.{
  Outcome, cancelled_unpaid, release_definitive_outcome, mark_payment_attempt_succeeded,
  write_attempt, set_pending,
}
use hop_and_barley_store.Payments.Stripe.{
  Runtime, PaymentIntent, require_payment_intent_matches_attempt, is_requires_capture, is_manual,
  is_intent_succeeded, is_canceled,
}
use hop_and_barley_store.Payments.Stripe.Inventory.{
  ActionKind, mark_reconciliation, cart_of_attempt, lock_products, give_back, set_products,
  allocate_inventory,
}

unfoldable pub lock_and_load_attempt : ℕ → T PaymentAttempt
lock_and_load_attempt attempt_id =
    lookup (λ db. find_attempt attempt_id db.attempts) payment_refused

abbrev pub attach_reference : String → ℕ → PaymentAttempt → PaymentAttempt
attach_reference reference occurred_at a = record a {
  pending_at = some (or_else a.pending_at occurred_at);
  provider_payment_reference = some reference;
  status = PaymentAttemptStatus.pending;
}

abbrev is_reference : String → Option String → Bool
is_reference reference none = true
is_reference reference (some held) = str_eq held reference

unfoldable pub lock_and_attach_payment_reference : ℕ → String → ℕ → T PaymentAttempt
lock_and_attach_payment_reference attempt_id reference occurred_at = do
  attempt ← lock_and_load_attempt attempt_id
  require (is_reference reference attempt.provider_payment_reference) payment_refused
  branch (is_some attempt.provider_payment_reference) (pure attempt) (do
    require (is_started attempt.status) payment_refused
    write_attempt attempt_id (attach_reference reference occurred_at)
    lock_and_load_attempt attempt_id)

-- `order.findUnique({ where: { paymentAttemptId } })`.
unfoldable pub find_attempt_order : ℕ → List Order → Option Order
find_attempt_order attempt_id [] = none
find_attempt_order attempt_id (o ∷ os) =
    if same_id o.payment_attempt_id (some attempt_id)
    then some o
    else find_attempt_order attempt_id os

unfoldable pub update_order : ℕ → (Order → Order) → List Order → List Order
update_order order_id f [] = []
update_order order_id f (o ∷ os) =
    if o.id == order_id then f o ∷ os else o ∷ update_order order_id f os

abbrev pub write_order : ℕ → (Order → Order) → T (Unit {0})
write_order order_id f = modify (λ db. record db {
  store = record db.store { orders = update_order order_id f db.store.orders };
})

abbrev pub write_allocation : ℕ → (Allocation → Allocation) → T (Unit {0})
write_allocation attempt_id f =
    modify (λ db. record db { allocations = update_allocation attempt_id f db.allocations })

-- `cartItem.deleteMany({ where: { amount, cartId, productId } })` for each item.
unfoldable pub delete_bought_item : ℕ → OrderItem → List CartItem → List CartItem
delete_bought_item cart_id bought [] = []
delete_bought_item cart_id bought (i ∷ is) =
    let rest = delete_bought_item cart_id bought is in
    if is_line cart_id bought.product_id i && i.amount == bought.amount then rest else i ∷ rest

unfoldable pub delete_bought : ℕ → List OrderItem → List CartItem → List CartItem
delete_bought cart_id [] items = items
delete_bought cart_id (b ∷ bs) items = delete_bought cart_id bs (delete_bought_item cart_id b items)

abbrev pub pay_order : ℕ → Order → Order
pay_order occurred_at o = record o {
  paid_at = some occurred_at;
  payment_state = PaymentState.settled;
  status = OrderStatus.paid;
}

abbrev pub capture_allocation : ℕ → Allocation → Allocation
capture_allocation occurred_at x = record x {
  captured_at = some occurred_at;
  status = AllocationStatus.captured;
}

abbrev pub bought_by : PaymentAttempt → Cart → Cart
bought_by attempt cart =
    if is_some attempt.snapshot.user_id then record cart { user_id = none } else cart

-- The items that were bought leave the cart, and an account lets go of it.
unfoldable pub empty_bought_cart : PaymentAttempt → T (Unit {0})
empty_bought_cart attempt = do
  cart_id ← cart_of_attempt attempt
  modify (λ db. record db {
    store = record db.store { items = delete_bought cart_id attempt.snapshot.items db.store.items };
  })
  cart ← lookup (λ db. find_cart cart_id db.store.carts) internal_error
  modify (λ db. record db {
    store = record db.store { carts = set_cart (bought_by attempt cart) db.store.carts };
  })

unfoldable pub finalize_captured_payment : PaymentAttempt → ℕ → T (Unit {0})
finalize_captured_payment attempt occurred_at = branch (is_succeeded attempt.status) (pure tt) (do
  let attempt_id = attempt.snapshot.id
  allocation ← lookup (λ db. find_allocation attempt_id db.allocations) attempt_conflict
  require (not (is_released allocation.status) && is_some allocation.capture_requested_at)
      attempt_conflict
  order ← lookup (λ db. find_attempt_order attempt_id db.store.orders) attempt_conflict
  write_order order.id (pay_order occurred_at)
  write_allocation attempt_id (capture_allocation occurred_at)
  mark_payment_attempt_succeeded attempt_id order.id occurred_at
  empty_bought_cart attempt)

abbrev pub release_allocation : AllocationReleaseReason → ℕ → Allocation → Allocation
release_allocation reason occurred_at x = record x {
  release_reason = some reason;
  released_at = some occurred_at;
  status = AllocationStatus.released;
}

abbrev pub cancel_order : Order → Order
cancel_order o = record o { payment_state = PaymentState.failed; status = OrderStatus.cancelled }

-- Gives the stock back and cancels the order.
unfoldable pub release_stock :
    PaymentAttempt → Allocation → AllocationReleaseReason → ℕ → T (Unit {0})
release_stock attempt allocation reason occurred_at = do
  require (not (is_captured allocation.status)) attempt_conflict
  lock_products attempt.snapshot.items
  products ← reads (λ db. give_back attempt.snapshot.items db.store.products)
  modify (set_products products)
  write_allocation attempt.snapshot.id (release_allocation reason occurred_at)
  write_order allocation.order_id cancel_order

abbrev pub release_held :
    PaymentAttempt → Option Allocation → AllocationReleaseReason → ℕ → T (Unit {0})
release_held attempt none reason occurred_at = pure tt
release_held attempt (some allocation) reason occurred_at =
    branch (is_released allocation.status) (pure tt)
      (release_stock attempt allocation reason occurred_at)

unfoldable pub release_unpaid_payment :
    PaymentAttempt → AllocationReleaseReason → Outcome → ℕ → T (Unit {0})
release_unpaid_payment attempt reason outcome occurred_at = do
  allocation ← reads (λ db. find_allocation attempt.snapshot.id db.allocations)
  release_held attempt allocation reason occurred_at
  release_definitive_outcome attempt.snapshot.id outcome occurred_at

abbrev pub ask_reconciliation : ℕ → Allocation → Allocation
ask_reconciliation occurred_at x = record x {
  capture_requested_at = some (or_else x.capture_requested_at occurred_at);
  status = AllocationStatus.reconciliation_required;
}

abbrev open_allocation : Option Allocation → Bool
open_allocation none = false
open_allocation (some x) = not (is_settled x.status)

unfoldable pub mark_attempt_reconciliation : ℕ → ℕ → T (Unit {0})
mark_attempt_reconciliation attempt_id occurred_at = do
  mark_reconciliation attempt_id occurred_at
  allocation ← reads (λ db. find_allocation attempt_id db.allocations)
  branch (open_allocation allocation) (write_allocation attempt_id (ask_reconciliation occurred_at))
      (pure tt)

abbrev pub ask_capture : ℕ → Allocation → Allocation
ask_capture requested_at x = record x {
  capture_requested_at = some (or_else x.capture_requested_at requested_at);
  status = AllocationStatus.capture_requested;
}

-- The transaction of `requestCapture`: the reference to be captured.
unfoldable pub capture_reference : ℕ → ℕ → T (Option String)
capture_reference attempt_id requested_at = do
  attempt ← lock_and_load_attempt attempt_id
  allocation ← reads (λ db. find_allocation attempt.snapshot.id db.allocations)
  branch (open_allocation allocation)
      (do
        write_allocation attempt.snapshot.id (ask_capture requested_at)
        pure attempt.provider_payment_reference)
      (pure none)

module _ (js : Runtime) (order_id : ℕ) where
  -- The two ends of a payment that an intent reports.
  unfoldable pub apply_capturable :
      PaymentIntent → PaymentAttempt → HttpError → ℕ → T (Option ActionKind)
  apply_capturable intent attempt refusal occurred_at = do
    require
        (is_manual intent.capture_method
          && intent.amount_capturable == attempt.snapshot.pricing.total_minor)
        refusal
    allocate_inventory js order_id attempt occurred_at

  unfoldable pub apply_received :
      PaymentIntent → PaymentAttempt → HttpError → ℕ → T (Option ActionKind)
  apply_received intent attempt refusal occurred_at = do
    require (intent.amount_received == attempt.snapshot.pricing.total_minor) refusal
    finalize_captured_payment attempt occurred_at
    pure none

  unfoldable pub apply_cancelled : PaymentAttempt → ℕ → T (Option ActionKind)
  apply_cancelled attempt occurred_at = do
    release_unpaid_payment attempt AllocationReleaseReason.payment_cancelled cancelled_unpaid
        occurred_at
    pure none

  unfoldable pub apply_payment_intent_event : String → PaymentIntent → ℕ → ℕ → T (Option ActionKind)
  apply_payment_intent_event event_type intent attempt_id occurred_at = do
    attempt ← lock_and_attach_payment_reference attempt_id intent.id occurred_at
    require_payment_intent_matches_attempt js intent attempt
    branch (str_eq event_type "payment_intent.amount_capturable_updated")
        (do
          require (is_requires_capture intent.status) payment_refused
          apply_capturable intent attempt payment_refused occurred_at)
        (branch (str_eq event_type "payment_intent.succeeded")
          (do
            require (is_intent_succeeded intent.status) payment_refused
            apply_received intent attempt payment_refused occurred_at)
          (branch (str_eq event_type "payment_intent.canceled")
            (apply_cancelled attempt occurred_at) (pure none)))

  unfoldable pub apply_payment_intent_state : PaymentIntent → ℕ → ℕ → T (Option ActionKind)
  apply_payment_intent_state intent attempt_id occurred_at = do
    attempt ← lock_and_load_attempt attempt_id
    require_payment_intent_matches_attempt js intent attempt
    branch (is_requires_capture intent.status)
        (apply_capturable intent attempt attempt_conflict occurred_at)
        (branch (is_intent_succeeded intent.status)
          (apply_received intent attempt attempt_conflict occurred_at)
          (branch (is_canceled intent.status) (apply_cancelled attempt occurred_at)
            (do mark_reconciliation attempt.snapshot.id occurred_at; pure none)))
