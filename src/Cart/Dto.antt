-- ===== src/Cart/Dto.antt =====
-- `toCartDto` of apps/api/src/cart/cart.service.ts: what a client is told of a cart.
pub mod Laws
use hop_and_barley_store.Prelude.{
  ℕ, Bool, List, [], ◌∷◌, map, length, Option, none, some, String, if◌then◌else◌,
}
use hop_and_barley_store.Catalog.Amount.{
  ProductAmountRules, calculate_line_total_minor, add_money_minor,
}
use hop_and_barley_store.Catalog.Product.{Product, ProductDetails}
use hop_and_barley_store.Cart.Readiness.{is_sold}

-- `details` holds amountUnit, imagePath, kitYieldVolumeMl, name, packageNetWeightMg and
-- priceQualifier; `rules` the maximum, the minimum, the step and saleKind.
pub record CartItemDto : Type 0 where
  pub amount : ℕ
  pub details : ProductDetails
  pub rules : ProductAmountRules
  pub line_total_minor : Option ℕ
  pub price_basis_amount : ℕ
  pub price_minor : Option ℕ
  pub product_id : ℕ
  pub product_slug : String
  pub stock_amount : ℕ

-- The field `currency` has the one value 'EUR'.
pub record CartDto : Type 0 where
  pub distinct_item_count : ℕ
  pub items : List CartItemDto
  pub subtotal_minor : ℕ

unfoldable pub line_total : Product → ℕ → ℕ → Option ℕ
line_total product amount evaluated_at =
    if is_sold product evaluated_at
    then calculate_line_total_minor product.price_minor amount product.price_basis_amount
    else none

-- `priceMinor` is null exactly where the line total is.
abbrev shown_price : ℕ → Option ℕ → Option ℕ
shown_price price none = none
shown_price price (some total) = some price

unfoldable pub to_cart_item_dto : ℕ → Product × ℕ → CartItemDto
unfolding line_total
to_cart_item_dto evaluated_at (product, amount) = record {
  amount = amount;
  details = product.details;
  rules = product.rules;
  line_total_minor = line_total product amount evaluated_at;
  price_basis_amount = product.price_basis_amount;
  price_minor = shown_price product.price_minor (line_total product amount evaluated_at);
  product_id = product.id;
  product_slug = product.slug;
  stock_amount = product.stock_amount;
}

-- The loop over the items: a line with no total is passed over, and a sum beyond the money bound
-- ends the loop with 0.
unfoldable pub subtotal_from : ℕ → List CartItemDto → ℕ
subtotal_from subtotal [] = subtotal
subtotal_from subtotal (item ∷ items) = elim item.line_total_minor [
  | none ↦ subtotal_from subtotal items
  | some total ↦ elim (add_money_minor subtotal total) [
    | none ↦ 0
    | some sum ↦ subtotal_from sum items
  ]
]

unfoldable pub to_cart_dto : List (Product × ℕ) → ℕ → CartDto
unfolding to_cart_item_dto subtotal_from
to_cart_dto lines evaluated_at =
    let items = map (to_cart_item_dto evaluated_at) lines in
    record {
      distinct_item_count = length items;
      items = items;
      subtotal_minor = subtotal_from 0 items;
    }

abbrev pub empty : CartDto
empty = record { distinct_item_count = 0; items = []; subtotal_minor = 0 }
