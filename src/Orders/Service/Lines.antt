-- ===== src/Orders/Service/Lines.antt =====
-- Amounts and totals through the steps that make an order's items of a cart's lines.
use hop_and_barley_store.Prelude.{
  ℕ, ◌+◌, ◌≡◌, refl, Bool, true, List, [], ◌∷◌, map, ◌==◌, none, some, arith, inl, inr,
  if◌then◌else◌, Option-cases,
}
use hop_and_barley_store.Catalog.Amount.{calculate_line_total_minor, add_money_minor, or_else}
use hop_and_barley_store.Catalog.Product.{Product}
use hop_and_barley_store.Store.{OrderItem, find_product}
use hop_and_barley_store.Store.Items.{CartItem, amount_of, items_of}
use hop_and_barley_store.Store.Items.Laws.{IsKeyed}
use hop_and_barley_store.Cart.Service.{lines_of}
use hop_and_barley_store.Prelude.Sort.{sort, sort_insert}
use hop_and_barley_store.Orders.Allocation.{PricedLine, price_lines, sum_lines}
use hop_and_barley_store.Orders.Allocation.Laws.{taken}
use hop_and_barley_store.Orders.Service.{order_item, all_known}

-- How much of product `q` the items hold.
abbrev pub ordered : ℕ → List OrderItem → ℕ
ordered q [] = 0
ordered q (i ∷ is) = (if i.product_id == q then i.amount else 0) + ordered q is

-- The sum of the items' totals.
abbrev pub totals : List OrderItem → ℕ
totals [] = 0
totals (i ∷ is) = i.line_total_minor + totals is

-- Each total is the price of its item.
abbrev pub ArePriced : List OrderItem → Type 0
ArePriced [] = Unit {0}
ArePriced (i ∷ is) =
    (calculate_line_total_minor i.price_minor i.amount i.price_basis_amount
      ≡ some i.line_total_minor)
    × ArePriced is

abbrev pub wanted : ℕ → List (Product × ℕ) → ℕ
wanted q [] = 0
wanted q ((p, n) ∷ lines) = (if p.id == q then n else 0) + wanted q lines

pub ordered-map : (q : ℕ) (ls : List PricedLine) → ordered q (map order_item ls) ≡ taken q ls
unfolding order_item
ordered-map q [] = refl
ordered-map q (l ∷ ls) = ground (arith, ordered-map q ls)

pub taken-price_lines :
    (q : ℕ) (lines : List (Product × ℕ)) {priced : List PricedLine}
    → price_lines lines ≡ some priced
    → taken q priced ≡ wanted q lines
unfolding price_lines
taken-price_lines q [] h = ground arith
taken-price_lines q ((p, n) ∷ lines) h =
    elim (Option-cases (calculate_line_total_minor p.price_minor n p.price_basis_amount)) [
      | inl e ↦ ground (arith, e)
      | inr (t, e) ↦ elim (Option-cases (price_lines lines)) [
        | inl f ↦ ground (arith, e, f)
        | inr (ls, f) ↦ ground (arith, e, f, taken-price_lines q lines f)
      ]
    ]

pub price_lines-ArePriced :
    (lines : List (Product × ℕ)) {priced : List PricedLine}
    → price_lines lines ≡ some priced
    → ArePriced (map order_item priced)
unfolding price_lines order_item
price_lines-ArePriced [] h = ground arith
price_lines-ArePriced ((p, n) ∷ lines) h =
    elim (Option-cases (calculate_line_total_minor p.price_minor n p.price_basis_amount)) [
      | inl e ↦ ground (arith, e)
      | inr (t, e) ↦ elim (Option-cases (price_lines lines)) [
        | inl f ↦ ground (arith, e, f)
        | inr (ls, f) ↦ ground (arith, e, f, price_lines-ArePriced lines f)
      ]
    ]

pub totals-sum_lines :
    (subtotal : ℕ) (ls : List PricedLine) {sum : ℕ}
    → sum_lines subtotal ls ≡ some sum
    → sum ≡ subtotal + totals (map order_item ls)
unfolding sum_lines order_item add_money_minor
totals-sum_lines subtotal [] h = ground arith
totals-sum_lines subtotal (l ∷ ls) {sum} h =
    ground (arith, totals-sum_lines (subtotal + l.line_total_minor) ls {sum = sum})

module _ (le : Product × ℕ → Product × ℕ → Bool) (q : ℕ) where
  wanted-sort_insert :
      (x : Product × ℕ) (xs : List (Product × ℕ))
      → wanted q (sort_insert le x xs) ≡ wanted q (x ∷ xs)
  unfolding sort_insert
  wanted-sort_insert x [] = refl
  wanted-sort_insert x (y ∷ ys) = ground (arith, wanted-sort_insert x ys)

  pub wanted-sort : (xs : List (Product × ℕ)) → wanted q (sort le xs) ≡ wanted q xs
  unfolding sort
  wanted-sort [] = refl
  wanted-sort (x ∷ xs) = ground (arith, wanted-sort xs, wanted-sort_insert x (sort le xs))

pub find_product-id :
    (i : ℕ) (ps : List Product) {p : Product} → find_product i ps ≡ some p → p.id ≡ i
unfolding find_product
find_product-id i [] h = ground arith
find_product-id i (p ∷ ps) {p = found} h = ground (arith, find_product-id i ps {p = found})

lines_of-absent :
    (c q : ℕ) (ps : List Product) (is : List CartItem)
    → amount_of c q is ≡ none
    → wanted q (lines_of c ps is) ≡ 0
unfolding lines_of amount_of
lines_of-absent c q ps [] h = refl
lines_of-absent c q ps (i ∷ is) h = elim (Option-cases (find_product i.product_id ps)) [
  | inl e ↦ ground (arith, e, lines_of-absent c q ps is)
  | inr (p, e) ↦ ground (arith, e, find_product-id i.product_id ps e, lines_of-absent c q ps is)
]

pub wanted-lines_of :
    (c q : ℕ) (ps : List Product) (is : List CartItem)
    → IsKeyed is
    → all_known ps (items_of c is) ≡ true
    → wanted q (lines_of c ps is) ≡ or_else (amount_of c q is) 0
unfolding lines_of amount_of items_of all_known
wanted-lines_of c q ps [] k h = refl
wanted-lines_of c q ps (i ∷ is) k h = elim (Option-cases (find_product i.product_id ps)) [
  | inl e ↦ ground (arith, e, wanted-lines_of c q ps is k.1)
  | inr (p, e) ↦ ground (
    arith,
    e,
    find_product-id i.product_id ps e,
    lines_of-absent c q ps is,
    wanted-lines_of c q ps is k.1,
  )
]
