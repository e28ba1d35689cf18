-- ===== src/Catalog/Amount.antt =====
-- apps/api/src/catalog/product-amount.ts and product-public-eligibility.ts. Amounts and prices are
-- the integers of the database's columns and the validated requests, none of which is negative;
-- `none` is a thrown RangeError; dates are milliseconds.
pub mod Laws
use hop_and_barley_store.Prelude.{
  ℕ, ◌+◌, ◌-◌, ◌*◌, ◌/◌, ◌%◌, min, Bool, true, false, not, ◌&&◌, ◌||◌, Option, none, some, ltb, leb,
  ◌==◌, if◌then◌else◌,
}

abbrev pub max_commerce_amount : ℕ
max_commerce_amount = 2_000_000_000

abbrev pub max_money_minor : ℕ
max_money_minor = 2_147_483_647

abbrev pub max_weight_amount_mg : ℕ
max_weight_amount_mg = 100_000_000

abbrev pub weight_order_step_mg : ℕ
weight_order_step_mg = 100_000

pub data SaleKind : Type 0 where
  kit packaged weight : SaleKind

pub record ProductAmountRules : Type 0 where
  pub maximum_order_amount : Option ℕ
  pub minimum_order_amount : ℕ
  pub order_step_amount : ℕ
  pub sale_kind : SaleKind

abbrev pub is_weight : SaleKind → Bool
is_weight weight = true
is_weight _ = false

-- `value ?? fallback`.
abbrev pub or_else : Option ℕ → ℕ → ℕ
or_else none fallback = fallback
or_else (some n) fallback = n

-- `n % step === 0`: a remainder by zero is NaN, which is not 0.
pub is_multiple : ℕ → ℕ → Bool
is_multiple n step = not (step == 0) && (n % step) == 0

pub maximum_amount : ProductAmountRules → ℕ
maximum_amount rules =
    if is_weight rules.sale_kind
    then min (or_else rules.maximum_order_amount max_weight_amount_mg) max_weight_amount_mg
    else or_else rules.maximum_order_amount max_commerce_amount

unfoldable pub is_valid_order_amount : ℕ → ProductAmountRules → Bool
unfolding maximum_amount is_multiple
is_valid_order_amount amount rules =
    leb rules.minimum_order_amount amount
    && (leb amount (maximum_amount rules)
        && ((not (is_weight rules.sale_kind)
              || (rules.minimum_order_amount == weight_order_step_mg
                  && rules.order_step_amount == weight_order_step_mg))
            && is_multiple (amount - rules.minimum_order_amount) rules.order_step_amount))

unfoldable pub calculate_line_total_minor : ℕ → ℕ → ℕ → Option ℕ
calculate_line_total_minor price_minor amount price_basis_amount =
    if ltb amount 1
      || (ltb max_commerce_amount amount
          || (ltb price_basis_amount 1 || ltb max_commerce_amount price_basis_amount))
    then none
    else let rounded =
        (2 * (price_minor * amount) + price_basis_amount) / (2 * price_basis_amount) in
      if ltb max_money_minor rounded then none else some rounded

unfoldable pub add_money_minor : ℕ → ℕ → Option ℕ
add_money_minor left right =
    if ltb max_money_minor (left + right) then none else some (left + right)

pub record PublicProductEligibility : Type 0 where
  pub active_from : Option ℕ
  pub active_until : Option ℕ
  pub is_active : Bool

abbrev pub has_begun : Option ℕ → ℕ → Bool
has_begun none at = true
has_begun (some from) at = leb from at

abbrev pub has_not_ended : Option ℕ → ℕ → Bool
has_not_ended none at = true
has_not_ended (some until) at = ltb at until

unfoldable pub is_public_product_eligible : PublicProductEligibility → ℕ → Bool
is_public_product_eligible product evaluated_at =
    product.is_active
    && (has_begun product.active_from evaluated_at
        && has_not_ended product.active_until evaluated_at)
