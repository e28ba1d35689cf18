-- ===== src/Orders/Allocation/Laws.antt =====
-- What the allocation takes from the stock.
use hop_and_barley_store.Prelude.{
  ℕ, ◌+◌, ◌≡◌, List, [], ◌∷◌, ◌==◌, some, arith, inl, inr, if◌then◌else◌, Option-cases,
}
use hop_and_barley_store.Catalog.Product.{Product}
use hop_and_barley_store.Cart.Readiness.{CheckoutReadinessLine}
use hop_and_barley_store.Store.Transaction.{ok}
use hop_and_barley_store.Orders.Allocation.{PricedLine, decrement_stock, allocate}

unfoldable pub stock_of : ℕ → List Product → ℕ
stock_of q [] = 0
stock_of q (p ∷ ps) = if p.id == q then p.stock_amount else stock_of q ps

-- The products with their stock left out.
abbrev pub without_stock : List Product → List Product
without_stock [] = []
without_stock (p ∷ ps) = record p { stock_amount = 0 } ∷ without_stock ps

abbrev pub taken : ℕ → List PricedLine → ℕ
taken q [] = 0
taken q (line ∷ lines) = (if line.product.id == q then line.amount else 0) + taken q lines

pub decrement_stock-stock_of :
    (i n q : ℕ) (ps : List Product) {rest : List Product}
    → decrement_stock i n ps ≡ some rest
    → stock_of q ps ≡ stock_of q rest + (if i == q then n else 0)
unfolding decrement_stock stock_of
decrement_stock-stock_of i n q [] h = ground arith
decrement_stock-stock_of i n q (p ∷ ps) {rest} h = elim (Option-cases (decrement_stock i n ps)) [
  | inl e ↦ ground (arith, e)
  | inr (ts, e) ↦ ground (arith, e, decrement_stock-stock_of i n q ps e)
]

decrement_stock-without_stock :
    (i n : ℕ) (ps : List Product) {rest : List Product}
    → decrement_stock i n ps ≡ some rest
    → without_stock rest ≡ without_stock ps
unfolding decrement_stock
decrement_stock-without_stock i n [] h = ground arith
decrement_stock-without_stock i n (p ∷ ps) {rest} h = elim (Option-cases (decrement_stock i n ps)) [
  | inl e ↦ ground (arith, e)
  | inr (ts, e) ↦ ground (arith, e, decrement_stock-without_stock i n ps e)
]

module _ (now : ℕ) (outcomes : List CheckoutReadinessLine) where
  -- A successful allocation takes each line's amount from the stock of its product.
  pub allocate-stock_of :
      (q : ℕ) (lines : List PricedLine) (ps : List Product) {u : Unit {0}} {rest : List Product}
      → allocate now outcomes lines ps ≡ ok (u, rest)
      → stock_of q ps ≡ stock_of q rest + taken q lines
  unfolding allocate
  allocate-stock_of q [] ps h = ground arith
  allocate-stock_of q (line ∷ lines) ps {rest} h =
      elim (Option-cases (decrement_stock line.product.id line.amount ps)) [
        | inl e ↦ ground (arith, e)
        | inr (ts, e) ↦ ground (
          arith,
          e,
          decrement_stock-stock_of line.product.id line.amount q ps e,
          allocate-stock_of q lines ts {rest = rest},
        )
      ]

  pub allocate-without_stock :
      (lines : List PricedLine) (ps : List Product) {u : Unit {0}} {rest : List Product}
      → allocate now outcomes lines ps ≡ ok (u, rest)
      → without_stock rest ≡ without_stock ps
  unfolding allocate
  allocate-without_stock [] ps h = ground arith
  allocate-without_stock (line ∷ lines) ps {rest} h =
      elim (Option-cases (decrement_stock line.product.id line.amount ps)) [
        | inl e ↦ ground (arith, e)
        | inr (ts, e) ↦ ground (
          arith,
          e,
          decrement_stock-without_stock line.product.id line.amount ps e,
          allocate-without_stock lines ts {rest = rest},
        )
      ]
