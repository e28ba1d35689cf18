-- ===== src/Checkout/Pricing/Laws.antt =====
-- What the checkout price is made of.
use hop_and_barley_store.Prelude.{
  ℕ, ◌+◌, ◌*◌, ◌≤◌, ◌<◌, ◌≡◌, ◌↔◌, ◌⊎◌, Bool, true, false, none, some, arith,
}
use hop_and_barley_store.Catalog.Amount.{max_money_minor, add_money_minor}
use hop_and_barley_store.Catalog.Amount.Laws.{IsHalfUp}
use hop_and_barley_store.Checkout.Pricing.{
  CheckoutPricing, discount_of, calculate_checkout_pricing, checkout_shipping_minor,
}

discount_of-le : (subtotal : ℕ) (first : Bool) → discount_of subtotal first ≤ subtotal
unfolding discount_of
discount_of-le subtotal true = omega arith
discount_of-le subtotal false = omega arith

-- What a price of `subtotal` must satisfy. A first purchase takes off 600 of 10_000 parts of the
-- items, rounded once with a half up, and nothing of the shipping.
pub record IsPriceOf (subtotal : ℕ) (first : Bool) (p : CheckoutPricing) : Type 0 where
  pub items : p.item_subtotal_minor ≡ subtotal
  pub shipping : p.shipping_minor ≡ 500
  pub sum : p.total_minor + p.discount_minor ≡ p.item_subtotal_minor + p.shipping_minor
  pub total_bound : p.total_minor ≤ max_money_minor
  pub discounted : first ≡ true → IsHalfUp (subtotal * 600) 10_000 p.discount_minor
  pub undiscounted : first ≡ false → p.discount_minor ≡ 0
  pub within_items : p.discount_minor ≤ subtotal

-- A price that is computed is the items, less the discount, and 5 euros of shipping, within the money
-- bound; the discount is 6 % of the items rounded half up for a first purchase, and else nothing.
pub pricing-IsPriceOf :
    (subtotal : ℕ) (first : Bool) {p : CheckoutPricing}
    → calculate_checkout_pricing subtotal first ≡ some p
    → IsPriceOf subtotal first p
unfolding calculate_checkout_pricing add_money_minor
pricing-IsPriceOf subtotal true h = ground (arith, discount_of-le subtotal true)
pricing-IsPriceOf subtotal false h = ground (arith, discount_of-le subtotal false)

-- Pricing fails exactly where the items exceed the money bound, or the total to pay would.
pub pricing_fails_iff :
    (subtotal : ℕ) (first : Bool)
    → (calculate_checkout_pricing subtotal first ≡ none) ↔ (
        (max_money_minor < subtotal)
        ⊎ (max_money_minor + discount_of subtotal first < subtotal + checkout_shipping_minor))
unfolding calculate_checkout_pricing add_money_minor
pricing_fails_iff subtotal first = ground (arith, discount_of-le subtotal first)
