-- ===== src/Cart/Readiness/Laws.antt =====
-- When a cart line can be bought.
use text.Mathlib.TextEquality.{eq_iff}
use hop_and_barley_store.Prelude.{
  ℕ, Option, refl, ◌↔◌, ◌≤◌, ◌<◌, ◌≡◌, ◌≢◌, subst, inl, inr, true, none, some, arith, ltb,
  Bool-cases, Option-cases,
}
use hop_and_barley_store.Catalog.Amount.{
  calculate_line_total_minor, is_valid_order_amount, has_begun, has_not_ended,
  is_public_product_eligible,
}
use hop_and_barley_store.Catalog.Amount.Laws.{IsOrderAmount, valid-IsOrderAmount_iff}
use hop_and_barley_store.Catalog.Product.{Product}
use hop_and_barley_store.Cart.Readiness.{
  Outcome, available, product_unavailable, invalid_amount, price_unavailable, insufficient_stock,
  is_sold, checkout_line_outcome,
}

-- When a product is on sale, at a time: published, from its first moment on and before its last, if
-- it has them, and priced in euros.
pub record IsSold (p : Product) (at : ℕ) : Type 0 where
  pub active : p.eligibility.is_active ≡ true
  pub begun : (t : ℕ) → p.eligibility.active_from ≡ some t → t ≤ at
  pub going_on : (t : ℕ) → p.eligibility.active_until ≡ some t → at < t
  pub in_euros : p.currency ≡ "EUR"

begun_iff : (o : Option ℕ) (at : ℕ) → (has_begun o at ≡ true) ↔ ((t : ℕ) → o ≡ some t → t ≤ at)
begun_iff none at = (λ e t h. absurd (ground arith), λ k. refl)
begun_iff (some s) at = (λ e t h. ground arith, λ k. ground (arith, k s refl))

going_on_iff :
    (o : Option ℕ) (at : ℕ) → (has_not_ended o at ≡ true) ↔ ((t : ℕ) → o ≡ some t → at < t)
going_on_iff none at = (λ e t h. absurd (ground arith), λ k. refl)
going_on_iff (some s) at = (λ e t h. ground arith, λ k. ground (arith, k s refl))

pub is_sold-IsSold_iff : (p : Product) (at : ℕ) → (is_sold p at ≡ true) ↔ IsSold p at
unfolding is_sold is_public_product_eligible
is_sold-IsSold_iff p at = (
  λ e. record {
    active = ground arith;
    begun = (begun_iff p.eligibility.active_from at).0 (ground arith);
    going_on = (going_on_iff p.eligibility.active_until at).0 (ground arith);
    in_euros = (eq_iff p.currency "EUR").0 (ground arith);
  },
  λ s.
      let from = (begun_iff p.eligibility.active_from at).1 s.begun in
      let until = (going_on_iff p.eligibility.active_until at).1 s.going_on in
      let euros = (eq_iff p.currency "EUR").1 s.in_euros in
      ground (arith, s.active, from, until, euros),
)

-- What a line that can be bought has.
pub record IsBuyable (p : Product) (amount at : ℕ) : Type 0 where
  pub sold : IsSold p at
  pub order_amount : IsOrderAmount amount p.rules
  pub line_total : ℕ
  pub priced :
      calculate_line_total_minor p.price_minor amount p.price_basis_amount ≡ some line_total
  pub in_stock : amount ≤ p.stock_amount

-- What each outcome says of the line. The checks go from the product to the amount, the price and
-- the stock, and the outcome names the first that fails.
abbrev pub Means : Option Product → ℕ → ℕ → Outcome → Type 0
Means none amount at outcome = outcome ≡ product_unavailable
Means (some p) amount at available = IsBuyable p amount at
Means (some p) amount at product_unavailable = ¬ IsSold p at
Means (some p) amount at invalid_amount = IsSold p at × (¬ IsOrderAmount amount p.rules)
Means (some p) amount at price_unavailable =
    IsSold p at
    × IsOrderAmount amount p.rules
    × (calculate_line_total_minor p.price_minor amount p.price_basis_amount ≡ none)
Means (some p) amount at insufficient_stock =
    IsSold p at
    × IsOrderAmount amount p.rules
    × (calculate_line_total_minor p.price_minor amount p.price_basis_amount ≢ none)
    × (p.stock_amount < amount)

module _ (p : Product) (amount at : ℕ) where
  priced_outcome :
      is_sold p at ≡ true
      → is_valid_order_amount amount p.rules ≡ true
      → Means (some p) amount at (checkout_line_outcome (some p) amount at)
  unfolding checkout_line_outcome
  priced_outcome sold valid =
      let on_sale : IsSold p at = (is_sold-IsSold_iff p at).0 sold in
      let ordered : IsOrderAmount amount p.rules =
        (valid-IsOrderAmount_iff amount p.rules).0 valid in
      elim (Option-cases (calculate_line_total_minor p.price_minor amount p.price_basis_amount)) [
        | inl e ↦ rw (sold, valid, e) (on_sale, ordered, e)
        | inr (t, e) ↦ elim (Bool-cases (ltb p.stock_amount amount)) [
          | inl short ↦ rw (sold, valid, e, short) (on_sale, ordered, λ n. cc, ground arith)
          | inr enough ↦
              rw (sold, valid, e, enough)
                (record {
                  sold = on_sale;
                  order_amount = ordered;
                  line_total = t;
                  priced = e;
                  in_stock = ground arith;
                })
        ]
      ]

  known_outcome : Means (some p) amount at (checkout_line_outcome (some p) amount at)
  unfolding checkout_line_outcome
  known_outcome = elim (Bool-cases (is_sold p at)) [
    | inr unsold ↦ rw unsold (λ s. cc ((is_sold-IsSold_iff p at).1 s))
    | inl sold ↦ elim (Bool-cases (is_valid_order_amount amount p.rules)) [
      | inl valid ↦ priced_outcome sold valid
      | inr bad ↦
          rw (sold, bad)
            (
              (is_sold-IsSold_iff p at).0 sold,
              λ v. cc ((valid-IsOrderAmount_iff amount p.rules).1 v),
            )
    ]
  ]

  pub available-IsBuyable :
      checkout_line_outcome (some p) amount at ≡ available → IsBuyable p amount at
  available-IsBuyable e = subst (Means (some p) amount at) e known_outcome

  pub IsBuyable-available :
      IsBuyable p amount at → checkout_line_outcome (some p) amount at ≡ available
  unfolding checkout_line_outcome
  IsBuyable-available b =
      let valid = (valid-IsOrderAmount_iff amount p.rules).1 b.order_amount in
      let sold = (is_sold-IsSold_iff p at).1 b.sold in
      ground (arith, valid, sold, b.priced, b.in_stock)

-- The outcome of a line at a time names what its product is first found to lack: `available`, it is
-- published, within its time of sale, priced in euros, the amount may be ordered and has a line
-- total, and the stock is enough; `product_unavailable`, there is no such product or it is not on
-- sale in this sense; `invalid_amount`, it is on sale and the amount may not be ordered;
-- `price_unavailable`, the amount may be ordered and has no line total; `insufficient_stock`, it
-- has one and the stock is less than the amount.
pub outcome-Means :
    (o : Option Product) (amount at : ℕ) → Means o amount at (checkout_line_outcome o amount at)
unfolding checkout_line_outcome
outcome-Means none amount at = refl
outcome-Means (some p) amount at = known_outcome p amount at
