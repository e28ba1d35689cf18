-- ===== src/Cart/Readiness.antt =====
-- apps/api/src/cart/checkout-readiness.ts, and its line type of dto/cart-response.dto.ts.
pub mod Laws
use text.Mathlib.Text.{◌==◌ as str_eq}
use hop_and_barley_store.Prelude.{
  ℕ, Bool, true, false, not, ◌&&◌, Option, none, some, String, ltb, if◌then◌else◌,
}
use hop_and_barley_store.Catalog.Amount.{
  calculate_line_total_minor, is_valid_order_amount, is_public_product_eligible,
}
use hop_and_barley_store.Catalog.Product.{Product}

pub data Outcome : Type 0 where
  available product_unavailable invalid_amount price_unavailable insufficient_stock : Outcome

pub record CheckoutReadinessLine : Type 0 where
  pub outcome : Outcome
  pub product_slug : String
  pub requested_amount : ℕ

unfoldable pub is_sold : Product → ℕ → Bool
is_sold product evaluated_at =
    is_public_product_eligible product.eligibility evaluated_at && str_eq product.currency "EUR"

abbrev is_priced : Option ℕ → Bool
is_priced none = false
is_priced (some total) = true

unfoldable pub checkout_line_outcome : Option Product → ℕ → ℕ → Outcome
checkout_line_outcome none requested_amount evaluated_at = product_unavailable
checkout_line_outcome (some product) requested_amount evaluated_at =
    if not (is_sold product evaluated_at)
    then product_unavailable
    else if not (is_valid_order_amount requested_amount product.rules)
    then invalid_amount
    else if not (
        is_priced (
          calculate_line_total_minor product.price_minor requested_amount
            product.price_basis_amount))
    then price_unavailable
    else if ltb product.stock_amount requested_amount
    then insufficient_stock
    else available
