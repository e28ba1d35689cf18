-- ===== src/Orders/Service/Accepts/Lines.antt =====
-- The lines of a cart that can all be bought are priced, and their amounts are in stock.
use hop_and_barley_store.Prelude.{
  ℕ, ◌≡◌, refl, Bool, true, ◌&&◌, List, [], ◌∷◌, ◌++◌, map, some, arith, All,
}
use hop_and_barley_store.Prelude.Sort.{sort, sort_insert}
use hop_and_barley_store.Catalog.Product.{Product}
use hop_and_barley_store.Cart.Readiness.{CheckoutReadinessLine, available, checkout_line_outcome}
use hop_and_barley_store.Cart.Readiness.Laws.{IsBuyable, available-IsBuyable}
use hop_and_barley_store.Cart.Read.{all_available, is_available}
use hop_and_barley_store.Orders.Checkout.{Checkout, CheckoutItem, Runtime}
use hop_and_barley_store.Orders.Allocation.{
  PricedLine, price_lines, allocation_outcomes, line_outcome, unknown_outcomes,
}

module _ (le : CheckoutReadinessLine → CheckoutReadinessLine → Bool) where
  all_available-sort_insert :
      (x : CheckoutReadinessLine) (xs : List CheckoutReadinessLine)
      → all_available (sort_insert le x xs) ≡ (is_available x.outcome && all_available xs)
  unfolding sort_insert all_available
  all_available-sort_insert x [] = refl
  all_available-sort_insert x (y ∷ ys) = ground (arith, all_available-sort_insert x ys)

  all_available-sort :
      (xs : List CheckoutReadinessLine) → all_available (sort le xs) ≡ all_available xs
  unfolding sort all_available
  all_available-sort [] = refl
  all_available-sort (x ∷ xs) =
      ground (arith, all_available-sort xs, all_available-sort_insert x (sort le xs))

-- Each line can be bought.
abbrev pub AreBuyable : ℕ → List (Product × ℕ) → Type 0
AreBuyable now lines = All (λ l. IsBuyable l.0 l.1 now) lines

line_outcome-available :
    (requested : List CheckoutItem) (now : ℕ) (p : Product) (n : ℕ)
    → is_available (line_outcome requested now (p, n)).outcome ≡ true
    → checkout_line_outcome (some p) n now ≡ available
unfolding line_outcome
line_outcome-available requested now p n h = ground arith

appended-AreBuyable :
    (requested : List CheckoutItem) (now : ℕ) (lines : List (Product × ℕ))
    (rest : List CheckoutReadinessLine)
    → all_available (map (line_outcome requested now) lines ++ rest) ≡ true
    → AreBuyable now lines
unfolding all_available
appended-AreBuyable requested now [] rest h = tt
appended-AreBuyable requested now ((p, n) ∷ lines) rest h = (
  available-IsBuyable p n now (line_outcome-available requested now p n (ground arith)),
  appended-AreBuyable requested now lines rest (ground arith),
)

pub outcomes-AreBuyable :
    (js : Runtime) (lines : List (Product × ℕ)) (checkout : Checkout) (now : ℕ)
    → all_available (allocation_outcomes js lines checkout now) ≡ true
    → AreBuyable now lines
unfolding allocation_outcomes
outcomes-AreBuyable js lines checkout now h =
    appended-AreBuyable checkout.items now lines (unknown_outcomes lines checkout.items) (
      ground (
        arith,
        all_available-sort (λ l r. js.locale_le l.product_slug r.product_slug)
            (map (line_outcome checkout.items now) lines ++ unknown_outcomes lines checkout.items),
      ))

pub price_lines_succeeds :
    (now : ℕ) (lines : List (Product × ℕ))
    → AreBuyable now lines
    → (priced : List PricedLine) × (price_lines lines ≡ some priced)
unfolding price_lines
price_lines_succeeds now [] b = ([], refl)
price_lines_succeeds now ((p, n) ∷ lines) (b, bs) =
    let (rest, e) = price_lines_succeeds now lines bs in
    (
      record { product = p; amount = n; line_total_minor = b.line_total } ∷ rest,
      ground (arith, e, b.priced),
    )
