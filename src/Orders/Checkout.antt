-- ===== src/Orders/Checkout.antt =====
-- The request of `OrdersService.create` (apps/api/src/orders/orders.service.ts) in its canonical
-- form. What the code takes from the JavaScript runtime is a parameter: `trim`, the order of
-- `localeCompare` (`locale_le` is `left.localeCompare(right) <= 0`) and the SHA-256 digest of the
-- JSON text of the request.
use hop_and_barley_store.Prelude.{ℕ, Bool, List, String}
use hop_and_barley_store.Prelude.Sort.{sort}

pub data CheckoutPaymentMethod : Type 0 where
  cash_on_delivery stripe_debit_card : CheckoutPaymentMethod

pub record CheckoutItem : Type 0 where
  pub product_slug : String
  pub amount : ℕ

pub record Checkout : Type 0 where
  pub city : String
  pub full_name : String
  pub items : List CheckoutItem
  pub payment_method : CheckoutPaymentMethod
  pub phone_number : String
  pub shipping_address : String

pub record OrderContext : Type 0 where
  pub cart_id : ℕ
  pub idempotency_key : String
  pub user_id : ℕ

-- The object that is digested; its field `providerPaymentReference` is always null.
pub record Fingerprint : Type 0 where
  pub cart_id : ℕ
  pub checkout : Checkout
  pub user_id : ℕ

pub record Runtime : Type 0 where
  pub trim : String → String
  pub locale_le : String → String → Bool
  pub sha256 : Fingerprint → ℕ

module _ (js : Runtime) where
  unfoldable pub canonical_checkout : Checkout → Checkout
  canonical_checkout checkout = record {
    city = js.trim checkout.city;
    full_name = js.trim checkout.full_name;
    items = sort (λ l r. js.locale_le l.product_slug r.product_slug) checkout.items;
    payment_method = checkout.payment_method;
    phone_number = js.trim checkout.phone_number;
    shipping_address = js.trim checkout.shipping_address;
  }

  unfoldable pub fingerprint : OrderContext → Checkout → ℕ
  fingerprint context checkout =
      js.sha256
        (record { cart_id = context.cart_id; checkout = checkout; user_id = context.user_id })
