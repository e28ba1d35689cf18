-- ===== src/Tests/Prices.antt =====
-- Amounts, prices and the outcomes of lines.
use hop_and_barley_store.Prelude.{◌*◌, ◌≤◌, ◌≡◌, refl, ◌↔◌, true, some}
use hop_and_barley_store.Catalog.Amount.{
  is_valid_order_amount, calculate_line_total_minor, max_money_minor, max_commerce_amount,
  add_money_minor,
}
use hop_and_barley_store.Catalog.Amount.Laws.{
  IsOrderAmount, valid-IsOrderAmount_iff, line_total_iff, IsHalfUp,
}
use hop_and_barley_store.Checkout.Pricing.{calculate_checkout_pricing, discount_of, CheckoutPricing}
use hop_and_barley_store.Checkout.Pricing.Laws.{IsPriceOf, pricing-IsPriceOf}
use hop_and_barley_store.Cart.Readiness.{checkout_line_outcome}
use hop_and_barley_store.Cart.Readiness.Laws.{Means, outcome-Means}
use hop_and_barley_store.Tests.{hops}

valid-IsOrderAmount_iff_example :
    (is_valid_order_amount 300_000 hops.rules ≡ true) ↔ IsOrderAmount 300_000 hops.rules
valid-IsOrderAmount_iff_example = valid-IsOrderAmount_iff 300_000 hops.rules

line_total_iff_example : (calculate_line_total_minor 1_299 300_000 1_000_000 ≡ some 390) ↔ (
    (1 ≤ 300_000)
    × (300_000 ≤ max_commerce_amount)
    × (1 ≤ 1_000_000)
    × (1_000_000 ≤ max_commerce_amount)
    × IsHalfUp (1_299 * 300_000) 1_000_000 390
    × (390 ≤ max_money_minor))
line_total_iff_example = line_total_iff 1_299 300_000 1_000_000 390

abbrev priced : CheckoutPricing
priced = record {
  discount_basis_points = 600;
  discount_minor = 60;
  discount_policy_version = "registered-first-purchase-v1";
  item_subtotal_minor = 1_000;
  shipping_minor = 500;
  total_minor = 1_440;
}

priced_run : calculate_checkout_pricing 1_000 true ≡ some priced
unfolding calculate_checkout_pricing add_money_minor discount_of
priced_run = refl

pricing-IsPriceOf_example : IsPriceOf 1_000 true priced
pricing-IsPriceOf_example = pricing-IsPriceOf 1_000 true priced_run

outcome-Means_example :
    Means (some hops) 1_000_000 5 (checkout_line_outcome (some hops) 1_000_000 5)
outcome-Means_example = outcome-Means (some hops) 1_000_000 5
