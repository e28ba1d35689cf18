-- ===== src/Orders/Allocation.antt =====
-- `allocationOutcomes` and the loop that takes the ordered amounts from the stock, of
-- apps/api/src/orders/orders.service.ts.
pub mod Laws
use text.Mathlib.Text.{◌==◌ as str_eq}
use hop_and_barley_store.Prelude.{
  ℕ, suc, ◌-◌, Bool, true, false, not, ◌&&◌, ◌||◌, List, [], ◌∷◌, ◌++◌, map, leb, ◌==◌, Option,
  none, some, String, if◌then◌else◌, map_option,
}
use hop_and_barley_store.Catalog.Amount.{or_else, calculate_line_total_minor, add_money_minor}
use hop_and_barley_store.Catalog.Product.{Product}
use hop_and_barley_store.Cart.Readiness.{
  Outcome, available, invalid_amount, price_unavailable, insufficient_stock, CheckoutReadinessLine,
  checkout_line_outcome,
}
use hop_and_barley_store.Store.{Database}
use hop_and_barley_store.Store.Transaction.{Result, ok, err, allocation_unavailable, Transaction}
use hop_and_barley_store.Prelude.Sort.{sort}
use hop_and_barley_store.Orders.Checkout.{Checkout, CheckoutItem, Runtime}

-- `requestedBySlug.get(slug)`: the last request of the slug.
unfoldable pub requested_by_slug : String → List CheckoutItem → Option ℕ
requested_by_slug slug [] = none
requested_by_slug slug (i ∷ is) = elim (requested_by_slug slug is) [
  | some n ↦ some n
  | none ↦ if str_eq i.product_slug slug then some i.amount else none
]

-- `requestCounts.get(slug) ?? 0`.
unfoldable pub request_count : String → List CheckoutItem → ℕ
request_count slug [] = 0
request_count slug (i ∷ is) =
    if str_eq i.product_slug slug then suc (request_count slug is) else request_count slug is

unfoldable pub in_cart : String → List (Product × ℕ) → Bool
in_cart slug [] = false
in_cart slug ((p, n) ∷ lines) = str_eq p.slug slug || in_cart slug lines

unfoldable pub line_outcome : List CheckoutItem → ℕ → Product × ℕ → CheckoutReadinessLine
line_outcome requested now (product, amount) =
    let requested_amount = or_else (requested_by_slug product.slug requested) amount in
    record {
      outcome =
          if request_count product.slug requested == 1 && requested_amount == amount
          then checkout_line_outcome (some product) amount now
          else invalid_amount;
      product_slug = product.slug;
      requested_amount = requested_amount;
    }

unfoldable pub unknown_outcomes :
    List (Product × ℕ) → List CheckoutItem → List CheckoutReadinessLine
unknown_outcomes lines [] = []
unknown_outcomes lines (i ∷ is) =
    if in_cart i.product_slug lines
    then unknown_outcomes lines is
    else record {
      outcome = invalid_amount;
      product_slug = i.product_slug;
      requested_amount = i.amount;
    }
      ∷ unknown_outcomes lines is

unfoldable pub allocation_outcomes :
    Runtime → List (Product × ℕ) → Checkout → ℕ → List CheckoutReadinessLine
allocation_outcomes js lines checkout now =
    sort (λ l r. js.locale_le l.product_slug r.product_slug)
      (map (line_outcome checkout.items now) lines ++ unknown_outcomes lines checkout.items)

pub record PricedLine : Type 0 where
  pub product : Product
  pub amount : ℕ
  pub line_total_minor : ℕ

-- `none` is the RangeError of a line that has no price.
unfoldable pub price_lines : List (Product × ℕ) → Option (List PricedLine)
price_lines [] = some []
price_lines ((p, n) ∷ lines) =
    elim (calculate_line_total_minor p.price_minor n p.price_basis_amount) [
      | none ↦ none
      | some total ↦
          map_option (λ rest. record { product = p; amount = n; line_total_minor = total } ∷ rest)
            (price_lines lines)
    ]

unfoldable pub sum_lines : ℕ → List PricedLine → Option ℕ
sum_lines subtotal [] = some subtotal
sum_lines subtotal (line ∷ lines) = elim (add_money_minor subtotal line.line_total_minor) [
  | none ↦ none
  | some sum ↦ sum_lines sum lines
]

-- `product.updateMany({ data: { stockAmount: { decrement } }, where: { id, stockAmount: { gte } } })`;
-- `none` is a count of 0 rows.
unfoldable pub decrement_stock : ℕ → ℕ → List Product → Option (List Product)
decrement_stock product_id amount [] = none
decrement_stock product_id amount (p ∷ ps) =
    if p.id == product_id
    then if leb amount p.stock_amount
      then some (record p { stock_amount = p.stock_amount - amount } ∷ ps)
      else none
    else map_option (λ rest. p ∷ rest) (decrement_stock product_id amount ps)

unfoldable pub mark_short : String → List CheckoutReadinessLine → List CheckoutReadinessLine
mark_short slug [] = []
mark_short slug (line ∷ lines) =
    (if str_eq line.product_slug slug then record line { outcome = insufficient_stock } else line)
    ∷ mark_short slug lines

unfoldable pub mark_unpriced : CheckoutReadinessLine → CheckoutReadinessLine
mark_unpriced line = record line { outcome = price_unavailable }

unfoldable pub allocate :
    ℕ → List CheckoutReadinessLine → List PricedLine → Transaction (List Product) (Unit {0})
allocate now outcomes [] products = ok (tt, products)
allocate now outcomes (line ∷ lines) products =
    elim (decrement_stock line.product.id line.amount products) [
      | none ↦ err (allocation_unavailable now (mark_short line.product.slug outcomes))
      | some rest ↦ allocate now outcomes lines rest
    ]
