-- ===== src/Orders/Service/Accepts/Stock.antt =====
-- The lines of a cart are of distinct products, and what is in stock of each can be taken.
use hop_and_barley_store.Prelude.{
  ℕ, ◌-◌, ◌≤◌, ◌≡◌, Bool, false, List, [], ◌∷◌, ◌==◌, none, some, arith, inl, inr, Option-cases,
  Bool-cases, All, sym, ◌∙◌,
}
use hop_and_barley_store.Prelude.Sort.{sort, sort_insert}
use hop_and_barley_store.Catalog.Amount.{calculate_line_total_minor}
use hop_and_barley_store.Catalog.Product.{Product}
use hop_and_barley_store.Cart.Readiness.{CheckoutReadinessLine}
use hop_and_barley_store.Cart.Readiness.Laws.{IsBuyable}
use hop_and_barley_store.Cart.Service.{lines_of}
use hop_and_barley_store.Store.{find_product}
use hop_and_barley_store.Store.Items.{CartItem, amount_of}
use hop_and_barley_store.Store.Items.Laws.{IsKeyed}
use hop_and_barley_store.Store.Transaction.{ok}
use hop_and_barley_store.Orders.Allocation.{PricedLine, price_lines, decrement_stock, allocate}
use hop_and_barley_store.Orders.Service.Lines.{find_product-id}

module _ {A : Type 0} (P : A → Type 0) (le : A → A → Bool) where
  All-sort_insert : (x : A) (xs : List A) → P x → All P xs → All P (sort_insert le x xs)
  unfolding sort_insert
  All-sort_insert x [] p ps = (p, tt)
  All-sort_insert x (y ∷ ys) p (q, qs) = elim (Bool-cases (le x y)) [
    | inl e ↦ rw (e) (p, (q, qs))
    | inr e ↦ rw (e) (q, All-sort_insert x ys p qs)
  ]

  pub All-sort : (xs : List A) → All P xs → All P (sort le xs)
  unfolding sort
  All-sort [] ps = tt
  All-sort (x ∷ xs) (p, ps) = All-sort_insert x (sort le xs) p (All-sort xs ps)

abbrev pub IsOther : ℕ → Product × ℕ → Type 0
IsOther i l = (l.0.id == i) ≡ false

-- No two lines are of one product.
abbrev pub AreDistinct : List (Product × ℕ) → Type 0
AreDistinct [] = Unit {0}
AreDistinct (l ∷ lines) = All (IsOther l.0.id) lines × AreDistinct lines

module _ (le : Product × ℕ → Product × ℕ → Bool) where
  sort_insert-AreDistinct :
      (x : Product × ℕ) (xs : List (Product × ℕ))
      → All (IsOther x.0.id) xs
      → AreDistinct xs
      → AreDistinct (sort_insert le x xs)
  unfolding sort_insert
  sort_insert-AreDistinct x [] o d = (tt, tt)
  sort_insert-AreDistinct x (y ∷ ys) (o, os) (e, d) = elim (Bool-cases (le x y)) [
    | inl f ↦ rw (f) ((o, os), (e, d))
    | inr f ↦ rw (f) (
      All-sort_insert (IsOther y.0.id) le x ys (ground arith) e,
      sort_insert-AreDistinct x ys os d,
    )
  ]

  pub sort-AreDistinct : (xs : List (Product × ℕ)) → AreDistinct xs → AreDistinct (sort le xs)
  unfolding sort
  sort-AreDistinct [] d = tt
  sort-AreDistinct (x ∷ xs) (o, d) =
      sort_insert-AreDistinct x (sort le xs) (All-sort (IsOther x.0.id) le xs o)
        (sort-AreDistinct xs d)

-- The line's product is the one of the table.
abbrev pub IsListed : List Product → Product × ℕ → Type 0
IsListed products l = find_product l.0.id products ≡ some l.0

pub lines_of-IsListed :
    (c : ℕ) (ps : List Product) (is : List CartItem) → All (IsListed ps) (lines_of c ps is)
unfolding lines_of
lines_of-IsListed c ps [] = tt
lines_of-IsListed c ps (i ∷ is) = elim (Bool-cases (i.cart_id == c)) [
  | inr e ↦ rw (e) (lines_of-IsListed c ps is)
  | inl e ↦ elim (Option-cases (find_product i.product_id ps)) [
    | inl f ↦ rw (e, f) (lines_of-IsListed c ps is)
    | inr (p, f) ↦
        rw (e, f) (rw (sym (find_product-id i.product_id ps f)) at f, lines_of-IsListed c ps is)
  ]
]

lines_of-IsOther :
    (c q : ℕ) (ps : List Product) (is : List CartItem)
    → amount_of c q is ≡ none
    → All (IsOther q) (lines_of c ps is)
unfolding lines_of amount_of
lines_of-IsOther c q ps [] h = tt
lines_of-IsOther c q ps (i ∷ is) h = elim (Bool-cases (i.cart_id == c)) [
  | inr e ↦ rw (e) (lines_of-IsOther c q ps is (ground (arith, e)))
  | inl e ↦ elim (Option-cases (find_product i.product_id ps)) [
    | inl f ↦ rw (e, f) (lines_of-IsOther c q ps is (ground (arith, e)))
    | inr (p, f) ↦
        rw (e, f)
          (
            ground (arith, e, find_product-id i.product_id ps f),
            lines_of-IsOther c q ps is (ground (arith, e)),
          )
  ]
]

pub lines_of-AreDistinct :
    (c : ℕ) (ps : List Product) (is : List CartItem) → IsKeyed is → AreDistinct (lines_of c ps is)
unfolding lines_of
lines_of-AreDistinct c ps [] k = tt
lines_of-AreDistinct c ps (i ∷ is) (absent, k) = elim (Bool-cases (i.cart_id == c)) [
  | inr e ↦ rw (e) (lines_of-AreDistinct c ps is k)
  | inl e ↦ elim (Option-cases (find_product i.product_id ps)) [
    | inl f ↦ rw (e, f) (lines_of-AreDistinct c ps is k)
    | inr (p, f) ↦
        rw (e, f)
          (
            lines_of-IsOther c p.id ps is
                (ground (arith, absent, e, find_product-id i.product_id ps f)),
            lines_of-AreDistinct c ps is k,
          )
  ]
]

-- So much of the product can be taken.
abbrev pub CanTake : List Product → ℕ → ℕ → Type 0
CanTake ps i n = (p : Product) × (find_product i ps ≡ some p) × (n ≤ p.stock_amount)

decrement_stock_succeeds :
    (i n : ℕ) (ps : List Product)
    → CanTake ps i n
    → (rest : List Product) × (decrement_stock i n ps ≡ some rest)
unfolding decrement_stock find_product
decrement_stock_succeeds i n [] (p, e, l) = absurd (ground arith)
decrement_stock_succeeds i n (q ∷ ps) (p, e, l) = elim (Bool-cases (q.id == i)) [
  | inl f ↦ (record q { stock_amount = q.stock_amount - n } ∷ ps, ground (arith, f))
  | inr f ↦
      let (rest, g) = decrement_stock_succeeds i n ps (p, ground (arith, f), l) in
      (q ∷ rest, ground (arith, f, g))
]

find_product-decrement_stock :
    (i n j : ℕ) (ps : List Product) {rest : List Product}
    → (j == i) ≡ false
    → decrement_stock i n ps ≡ some rest
    → find_product j rest ≡ find_product j ps
unfolding decrement_stock find_product
find_product-decrement_stock i n j [] o h = ground arith
find_product-decrement_stock i n j (q ∷ ps) {rest} o h =
    elim (Option-cases (decrement_stock i n ps)) [
      | inl e ↦ ground (arith, e)
      | inr (ts, e) ↦ ground (arith, e, find_product-decrement_stock i n j ps o e)
    ]

-- Each line's amount can be taken.
abbrev pub AreInStock : List Product → List (Product × ℕ) → Type 0
AreInStock ps lines = All (λ l. CanTake ps l.0.id l.1) lines

rest-AreInStock :
    (i n : ℕ) (ps : List Product) {rest : List Product} (lines : List (Product × ℕ))
    → decrement_stock i n ps ≡ some rest
    → All (IsOther i) lines
    → AreInStock ps lines
    → AreInStock rest lines
rest-AreInStock i n ps [] e os ts = tt
rest-AreInStock i n ps (l ∷ lines) e (o, os) ((p, f, g), ts) = (
  (p, find_product-decrement_stock i n l.0.id ps o e ∙ f, g),
  rest-AreInStock i n ps lines e os ts,
)

pub allocate_succeeds :
    (now : ℕ) (outcomes : List CheckoutReadinessLine) (lines : List (Product × ℕ))
    (priced : List PricedLine) (ps : List Product)
    → price_lines lines ≡ some priced
    → AreDistinct lines
    → AreInStock ps lines
    → (rest : List Product) × (allocate now outcomes priced ps ≡ ok (tt, rest))
unfolding price_lines allocate
allocate_succeeds now outcomes [] priced ps h d t = (ps, ground arith)
allocate_succeeds now outcomes ((p, n) ∷ lines) priced ps h (o, d) (t, ts) =
    elim (Option-cases (calculate_line_total_minor p.price_minor n p.price_basis_amount)) [
      | inl e ↦ absurd (ground (arith, e))
      | inr (total, e) ↦ elim (Option-cases (price_lines lines)) [
        | inl f ↦ absurd (ground (arith, e, f))
        | inr (ls, f) ↦
            let (rest, g) = decrement_stock_succeeds p.id n ps t in
            let (last, done) =
              allocate_succeeds now outcomes lines ls rest f d
                (rest-AreInStock p.id n ps lines g o ts) in
            (last, ground (arith, e, f, g, done))
      ]
    ]

-- What can be bought is in stock, if the lines are of the products of the table.
pub listed-AreInStock :
    (now : ℕ) (ps : List Product) (lines : List (Product × ℕ))
    → All (IsListed ps) lines
    → All (λ l. IsBuyable l.0 l.1 now) lines
    → AreInStock ps lines
listed-AreInStock now ps [] l b = tt
listed-AreInStock now ps ((p, n) ∷ lines) (l, ls) (b, bs) =
    ((p, l, b.in_stock), listed-AreInStock now ps lines ls bs)
