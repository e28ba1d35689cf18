-- ===== src/Orders/Service.antt =====
-- `OrdersService.create` of apps/api/src/orders/orders.service.ts: the function that it hands to
-- `runOrderSerializable` and what it does with the result. The time given by the caller, the clock,
-- and the id that the database draws for the order are arguments.
pub mod Placed
pub mod Lines
pub mod Laws
pub mod Replay
pub mod Accepts
use hop_and_barley_store.Prelude.{
  ℕ, Bool, true, false, not, ◌&&◌, List, [], ◌∷◌, ◌++◌, map, leb, ltb, ◌==◌, Option, none, some,
  String, if◌then◌else◌, is_some,
}
use text.Mathlib.Text.{◌==◌ as str_eq}
use hop_and_barley_store.Catalog.Amount.{or_else}
use hop_and_barley_store.Catalog.Product.{Product}
use hop_and_barley_store.Checkout.Pricing.{CheckoutPricing, calculate_checkout_pricing}
use hop_and_barley_store.Cart.Readiness.{CheckoutReadinessLine}
use hop_and_barley_store.Cart.Read.{all_available}
use hop_and_barley_store.Cart.Service.{T, is_active, lines_of}
use hop_and_barley_store.Store.{
  Database, User, Cart, Order, OrderItem, OrderStatus, placed, PaymentMethod, PaymentState, settled,
  due_on_delivery, DiscountKind, no_discount, Shipping, find_user, find_cart, find_product,
  find_cart_order, set_cart, is_null, owned_by,
}
use hop_and_barley_store.Store
use hop_and_barley_store.Store.Items.{CartItem, items_of, delete_cart_items}
use hop_and_barley_store.Store.Transaction.{
  HttpError, unauthorized, payment_unavailable, idempotency_conflict, internal_error,
  allocation_unavailable, Result, ok, err, ◌>>=◌, ◌>>◌, pure, reads, modify, require, or_throw,
  throw,
}
use hop_and_barley_store.Orders.Checkout.{
  CheckoutPaymentMethod, cash_on_delivery, stripe_debit_card, Checkout, OrderContext, Runtime,
  canonical_checkout, fingerprint,
}
use hop_and_barley_store.Prelude.Sort.{sort}
use hop_and_barley_store.Orders.Allocation.{
  PricedLine, allocation_outcomes, price_lines, sum_lines, allocate, mark_unpriced,
}

-- `findUnique({ where: { userId_idempotencyKey } })`.
unfoldable pub find_idempotent_order : OrderContext → List Order → Option Order
find_idempotent_order context [] = none
find_idempotent_order context (o ∷ os) =
    if owned_by context.user_id o.user_id && str_eq o.idempotency_key context.idempotency_key
    then some o
    else find_idempotent_order context os

unfoldable pub same_outcome : Order → ℕ → T Order
same_outcome order request_hash =
    if order.request_hash == request_hash then pure order else throw idempotency_conflict

-- `if (replay) return sameOutcome(replay, requestHash)`, and otherwise the rest.
unfoldable pub replay_or : Option Order → ℕ → T Order → T Order
replay_or none request_hash rest = rest
replay_or (some order) request_hash rest = same_outcome order request_hash

unfoldable pub lock_active_user : ℕ → T (Unit {0})
lock_active_user user_id = do
  user ← λ db. or_throw (find_user user_id db.users) unauthorized db
  require (is_active user.status) unauthorized

-- The cart's owner is this user, or nobody.
abbrev pub may_use : ℕ → Option ℕ → Bool
may_use user_id none = true
may_use user_id (some owner) = owner == user_id

unfoldable pub lock_cart : OrderContext → ℕ → T Cart
lock_cart context clock = do
  cart ← λ db. or_throw (find_cart context.cart_id db.carts) (allocation_unavailable clock []) db
  require (may_use context.user_id cart.user_id) unauthorized
  pure cart

abbrev pub is_empty : List CartItem → Bool
is_empty [] = true
is_empty (i ∷ is) = false

-- `lockProducts`: every product of the cart is there.
unfoldable pub all_known : List Product → List CartItem → Bool
all_known products [] = true
all_known products (i ∷ is) = is_some (find_product i.product_id products) && all_known products is

-- The cart's lines in the order of the product ids, which are unique in a cart.
unfoldable pub order_lines : ℕ → Database → List (Product × ℕ)
order_lines cart_id db =
    sort (λ (l r : Product × ℕ). leb l.0.id r.0.id) (lines_of cart_id db.products db.items)

unfoldable pub order_item : PricedLine → OrderItem
order_item line = record {
  amount = line.amount;
  amount_unit = line.product.details.amount_unit;
  line_total_minor = line.line_total_minor;
  price_basis_amount = line.product.price_basis_amount;
  price_minor = line.product.price_minor;
  price_qualifier = line.product.details.price_qualifier;
  product_id = line.product.id;
  product_name = line.product.details.name;
  product_slug = line.product.slug;
  sale_kind = line.product.rules.sale_kind;
}

unfoldable pub new_order :
    OrderContext → Checkout → ℕ → ℕ → ℕ → CheckoutPricing → List PricedLine → Order
unfolding order_item
new_order context checkout request_hash now order_id pricing lines = record {
  id = order_id;
  user_id = some context.user_id;
  cart_id = context.cart_id;
  payment_attempt_id = none;
  idempotency_key = context.idempotency_key;
  request_hash = request_hash;
  status = placed;
  payment_method = Store.PaymentMethod.cash_on_delivery;
  payment_state = due_on_delivery;
  provider_payment_reference = none;
  currency = "EUR";
  item_subtotal_minor = pricing.item_subtotal_minor;
  discount_kind = no_discount;
  discount_basis_points = pricing.discount_basis_points;
  discount_minor = pricing.discount_minor;
  discount_policy_version = pricing.discount_policy_version;
  shipping_minor = pricing.shipping_minor;
  total_minor = pricing.total_minor;
  shipping = record {
    city = checkout.city;
    full_name = checkout.full_name;
    phone_number = checkout.phone_number;
    shipping_address = checkout.shipping_address;
  };
  placed_at = now;
  paid_at = none;
  items = map order_item lines;
}

-- The `try` block: the sum of the lines and its price, with no discount.
unfoldable pub price_order : List PricedLine → Option CheckoutPricing
price_order lines = elim (sum_lines 0 lines) [
  | none ↦ none
  | some subtotal ↦ calculate_checkout_pricing subtotal false
]

-- Takes the amounts from the stock.
unfoldable pub take_stock : ℕ → List CheckoutReadinessLine → List PricedLine → T (Unit {0})
take_stock now outcomes lines db = elim (allocate now outcomes lines db.products) [
  | err e ↦ err e
  | ok (_, products) ↦ ok (tt, record db { products = products })
]

-- Stores the order, and takes the items and the owner from the cart.
unfoldable pub commit_order : Cart → Order → T Order
commit_order cart order = do
  modify (λ db. record db { orders = db.orders ++ order ∷ [] })
  modify (λ db. record db { items = delete_cart_items order.cart_id db.items })
  modify (λ db. record db { carts = set_cart (record cart { user_id = none }) db.carts })
  pure order

module _ (js : Runtime) (context : OrderContext) (checkout : Checkout) (request_hash : ℕ)
    (now order_id : ℕ) where
  unfoldable pub place_lines : Cart → List (Product × ℕ) → T Order
  place_lines cart lines = do
    let outcomes = allocation_outcomes js lines checkout now
    require (all_available outcomes) (allocation_unavailable now outcomes)
    priced ← or_throw (price_lines lines) internal_error
    pricing ←
        or_throw (price_order priced) (allocation_unavailable now (map mark_unpriced outcomes))
    take_stock now outcomes priced
    commit_order cart (new_order context checkout request_hash now order_id pricing priced)

  unfoldable pub place_order : Cart → T Order
  place_order cart = do
    candidates ← reads (λ db. items_of context.cart_id db.items)
    require (not (is_null cart.user_id && leb cart.expires_at now)) (allocation_unavailable now [])
    require (not (is_empty candidates)) (allocation_unavailable now [])
    known ← reads (λ db. all_known db.products candidates)
    require known internal_error
    lines ← reads (order_lines context.cart_id)
    place_lines cart lines

module _ (js : Runtime) (context : OrderContext) (checkout : Checkout) (request_hash : ℕ)
    (requested_now : Option ℕ) (clock order_id : ℕ) where
  -- After the second look for a replay, under the lock of the user.
  unfoldable pub place_in_cart : T Order
  place_in_cart = do
    cart ← lock_cart context clock
    by_cart ← reads (λ db. find_cart_order context.cart_id db.orders)
    replay_or by_cart request_hash
        (place_order js context checkout request_hash (or_else requested_now clock) order_id cart)

  unfoldable pub create_stored : T Order
  create_stored = do
    replay ← reads (λ db. find_idempotent_order context db.orders)
    replay_or replay request_hash (do
      lock_active_user context.user_id
      replay_after_user_lock ← reads (λ db. find_idempotent_order context db.orders)
      replay_or replay_after_user_lock request_hash place_in_cart)

pub data OrderCurrency : Type 0 where
  eur usd : OrderCurrency

pub data ShownPaymentState : Type 0 where
  paid due : ShownPaymentState

-- The fields that `toOrderDto` passes on as they are stand in `order`.
pub record OrderDto : Type 0 where
  pub order : Order
  pub currency : OrderCurrency
  pub payment_state : ShownPaymentState

unfoldable pub require_order_currency : String → Option OrderCurrency
require_order_currency currency =
    if str_eq currency "EUR" then some eur else if str_eq currency "USD" then some usd else none

abbrev shown_payment_state : PaymentState → ShownPaymentState
shown_payment_state settled = paid
shown_payment_state _ = due

unfoldable pub to_order_dto : Order → T OrderDto
to_order_dto order = do
  currency ← or_throw (require_order_currency order.currency) internal_error
  pure (record {
    order = order;
    currency = currency;
    payment_state = shown_payment_state order.payment_state;
  })

abbrev pub is_cash : CheckoutPaymentMethod → Bool
is_cash cash_on_delivery = true
is_cash stripe_debit_card = false

unfoldable pub create : Runtime → OrderContext → Checkout → Option ℕ → ℕ → ℕ → T OrderDto
create js context supplied requested_now clock order_id = do
  require (is_cash supplied.payment_method) payment_unavailable
  let checkout = canonical_checkout js supplied
  stored ←
      create_stored js context checkout (fingerprint js context checkout) requested_now clock
        order_id
  to_order_dto stored
