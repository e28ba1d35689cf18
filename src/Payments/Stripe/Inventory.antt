-- ===== src/Payments/Stripe/Inventory.antt =====
-- The stock of a payment attempt: `allocateInventory`, and the steps by which
-- `releaseUnpaidPayment` gives it back, of apps/api/src/payments/stripe-payment.service.ts.
pub mod Laws
use Prim.Native.String.{◌++◌ as concat}
use hop_and_barley_store.Prelude.{
  ℕ, ◌+◌, Bool, true, false, not, ◌&&◌, List, [], ◌∷◌, ◌++◌, ◌==◌, Option, none, some, String,
  if◌then◌else◌, is_some,
}
use hop_and_barley_store.Catalog.Product.{Product}
use hop_and_barley_store.Cart.Readiness.{Outcome, available, checkout_line_outcome}
use hop_and_barley_store.Orders.Allocation.{decrement_stock}
use hop_and_barley_store.Store.{
  Database, Order, OrderItem, OrderStatus, PaymentMethod, PaymentState, find_product, find_cart,
}
use hop_and_barley_store.Store.Transaction.{attempt_conflict, attempt_unavailable}
use hop_and_barley_store.Payments.{PaymentDatabase, T}
use hop_and_barley_store.Payments.Action.{◌>>=◌, ◌>>◌, pure, reads, modify, require, branch, lookup}
use hop_and_barley_store.Payments.Attempts.{PaymentAttempt, find_attempt, is_unsettled}
use hop_and_barley_store.Payments.Allocations.{
  Allocation, AllocationStatus, find_allocation, is_settled,
}
use hop_and_barley_store.Checkout.Drafts.{find_draft}
use hop_and_barley_store.Payments.Service.{write_attempt, to_reconcile, unsettled_row}
use hop_and_barley_store.Payments.Stripe.{Runtime, shipping_address}

pub data ActionKind : Type 0 where
  cancel capture : ActionKind

-- An `updateMany` whose count is not looked at.
unfoldable pub mark_reconciliation : ℕ → ℕ → T (Unit {0})
mark_reconciliation attempt_id occurred_at = do
  matches ← reads (λ db. unsettled_row (find_attempt attempt_id db.attempts))
  branch matches (write_attempt attempt_id (to_reconcile occurred_at)) (pure tt)

-- The cart of the attempt's draft; the draft stands, by its foreign key.
unfoldable pub cart_of_attempt : PaymentAttempt → T ℕ
cart_of_attempt attempt = do
  draft ← lookup (λ db. find_draft attempt.snapshot.checkout_draft_id db.drafts) attempt_conflict
  pure draft.cart_id

unfoldable pub all_products_known : List OrderItem → List Product → Bool
all_products_known [] products = true
all_products_known (i ∷ is) products =
    is_some (find_product i.product_id products) && all_products_known is products

unfoldable pub lock_products : List OrderItem → T (Unit {0})
lock_products items = do
  known ← reads (λ db. all_products_known items db.store.products)
  require known attempt_conflict

abbrev pub is_available : Outcome → Bool
is_available available = true
is_available _ = false

unfoldable pub all_items_available : List OrderItem → List Product → ℕ → Bool
all_items_available [] products now = true
all_items_available (i ∷ is) products now =
    is_available (checkout_line_outcome (find_product i.product_id products) i.amount now)
    && all_items_available is products now

-- `none` is an update that found no row with enough stock.
unfoldable pub take_items : List OrderItem → List Product → Option (List Product)
take_items [] products = some products
take_items (i ∷ is) products = elim (decrement_stock i.product_id i.amount products) [
  | none ↦ none
  | some rest ↦ take_items is rest
]

unfoldable pub increment_stock : ℕ → ℕ → List Product → List Product
increment_stock product_id amount [] = []
increment_stock product_id amount (p ∷ ps) =
    if p.id == product_id
    then record p { stock_amount = p.stock_amount + amount } ∷ ps
    else p ∷ increment_stock product_id amount ps

-- `lockProducts` has found every product.
unfoldable pub give_back : List OrderItem → List Product → List Product
give_back [] products = products
give_back (i ∷ is) products = give_back is (increment_stock i.product_id i.amount products)

abbrev pub set_products : List Product → PaymentDatabase → PaymentDatabase
set_products products db = record db { store = record db.store { products = products } }

unfoldable pub take_stock : List OrderItem → T (Unit {0})
take_stock items = do
  left ← lookup (λ db. take_items items db.store.products) attempt_unavailable
  modify (set_products left)

module _ (js : Runtime) (order_id : ℕ) where
  unfoldable pub order_of_attempt : PaymentAttempt → ℕ → ℕ → Order
  order_of_attempt attempt cart_id occurred_at =
      let snapshot = attempt.snapshot in
      record {
        id = order_id;
        user_id = snapshot.user_id;
        cart_id = cart_id;
        payment_attempt_id = some snapshot.id;
        idempotency_key = concat "stripe-" (js.id_text snapshot.id);
        request_hash = snapshot.request_hash;
        status = OrderStatus.placed;
        payment_method = PaymentMethod.stripe_debit_card;
        payment_state = PaymentState.pending;
        provider_payment_reference = attempt.provider_payment_reference;
        currency = snapshot.currency;
        item_subtotal_minor = snapshot.pricing.item_subtotal_minor;
        discount_kind = snapshot.discount_kind;
        discount_basis_points = snapshot.pricing.discount_basis_points;
        discount_minor = snapshot.pricing.discount_minor;
        discount_policy_version = snapshot.pricing.discount_policy_version;
        shipping_minor = snapshot.pricing.shipping_minor;
        total_minor = snapshot.pricing.total_minor;
        shipping = record {
          city = snapshot.contact.city;
          full_name = snapshot.contact.full_name;
          phone_number = snapshot.contact.phone_number;
          shipping_address = shipping_address js snapshot.contact;
        };
        placed_at = occurred_at;
        paid_at = none;
        items = snapshot.items;
      }

  abbrev pub new_allocation : PaymentAttempt → ℕ → Allocation
  new_allocation attempt occurred_at = record {
    payment_attempt_id = attempt.snapshot.id;
    order_id = order_id;
    provider_payment_reference = attempt.provider_payment_reference;
    status = AllocationStatus.allocated;
    authorized_at = occurred_at;
    capture_requested_at = none;
    captured_at = none;
    released_at = none;
    release_reason = none;
  }

  unfoldable pub create_order : PaymentAttempt → ℕ → ℕ → T (Unit {0})
  create_order attempt cart_id occurred_at = modify (λ db. record db {
    store = record db.store {
      orders = db.store.orders ++ order_of_attempt attempt cart_id occurred_at ∷ [];
    };
  })

  unfoldable pub create_allocation : PaymentAttempt → ℕ → T (Unit {0})
  create_allocation attempt occurred_at =
      modify (λ db. record db {
        allocations = db.allocations ++ new_allocation attempt occurred_at ∷ [];
      })

  -- What follows when the attempt has no allocation yet.
  unfoldable pub allocate_new : PaymentAttempt → ℕ → T (Option ActionKind)
  allocate_new attempt occurred_at = do
    cart_id ← cart_of_attempt attempt
    _ ← lookup (λ db. find_cart cart_id db.store.carts) attempt_conflict
    lock_products attempt.snapshot.items
    can_take ←
        reads (λ db. all_items_available attempt.snapshot.items db.store.products occurred_at)
    branch (not can_take)
        (do mark_reconciliation attempt.snapshot.id occurred_at; pure (some cancel))
        (do
          take_stock attempt.snapshot.items
          create_order attempt cart_id occurred_at
          create_allocation attempt occurred_at
          pure (some capture))

  abbrev action_of_existing : Allocation → Option ActionKind
  action_of_existing existing = if is_settled existing.status then none else some capture

  abbrev pub or_existing : Option Allocation → T (Option ActionKind) → T (Option ActionKind)
  or_existing none rest = rest
  or_existing (some existing) rest = pure (action_of_existing existing)

  unfoldable pub allocate_inventory : PaymentAttempt → ℕ → T (Option ActionKind)
  allocate_inventory attempt occurred_at = do
    existing ← reads (λ db. find_allocation attempt.snapshot.id db.allocations)
    or_existing existing (allocate_new attempt occurred_at)
