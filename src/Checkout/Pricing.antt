-- ===== src/Checkout/Pricing.antt =====
-- apps/api/src/checkout/checkout-pricing.ts. `none` is a thrown RangeError.
pub mod Laws
use hop_and_barley_store.Prelude.{
  ℕ, ◌+◌, ◌-◌, ◌*◌, ◌/◌, Bool, Option, none, some, map_option, String, ltb, if◌then◌else◌,
}
use hop_and_barley_store.Catalog.Amount.{max_money_minor, add_money_minor}

abbrev pub checkout_shipping_minor : ℕ
checkout_shipping_minor = 500

abbrev pub first_purchase_discount_basis_points : ℕ
first_purchase_discount_basis_points = 600

abbrev pub no_discount_policy_version : String
no_discount_policy_version = "no-discount-v1"

abbrev pub first_purchase_discount_policy_version : String
first_purchase_discount_policy_version = "registered-first-purchase-v1"

-- The field `currency` has the one value 'EUR'.
pub record CheckoutPricing : Type 0 where
  pub discount_basis_points : ℕ
  pub discount_minor : ℕ
  pub discount_policy_version : String
  pub item_subtotal_minor : ℕ
  pub shipping_minor : ℕ
  pub total_minor : ℕ

unfoldable pub discount_of : ℕ → Bool → ℕ
discount_of item_subtotal_minor apply_first_purchase_discount =
    if apply_first_purchase_discount
    then (item_subtotal_minor * first_purchase_discount_basis_points + 5_000) / 10_000
    else 0

unfoldable pub calculate_checkout_pricing : ℕ → Bool → Option CheckoutPricing
unfolding discount_of
calculate_checkout_pricing item_subtotal_minor apply_first_purchase_discount =
    if ltb max_money_minor item_subtotal_minor
    then none
    else let discount_minor = discount_of item_subtotal_minor apply_first_purchase_discount in
      map_option
        (λ total_minor. record {
          discount_basis_points =
              if apply_first_purchase_discount then first_purchase_discount_basis_points else 0;
          discount_minor = discount_minor;
          discount_policy_version =
              if apply_first_purchase_discount
              then first_purchase_discount_policy_version
              else no_discount_policy_version;
          item_subtotal_minor = item_subtotal_minor;
          shipping_minor = checkout_shipping_minor;
          total_minor = total_minor;
        })
        (add_money_minor (item_subtotal_minor - discount_minor) checkout_shipping_minor)
