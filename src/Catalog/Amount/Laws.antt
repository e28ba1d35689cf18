-- ===== src/Catalog/Amount/Laws.antt =====
-- What the amount and price functions of product-amount.ts compute.
use native.Mathlib.Nat.{div-add-mod, mod-lt, le-div_iff_mul-le, div-lt_iff_lt-mul, mul-mod_right}
use hop_and_barley_store.Prelude.{
  ℕ, ◌+◌, ◌-◌, ◌*◌, ◌/◌, ◌%◌, ◌≤◌, ◌<◌, ◌≡◌, ◌↔◌, sym, subst, true, none, some, arith,
}
use hop_and_barley_store.Catalog.Amount.{
  weight, ProductAmountRules, max_money_minor, max_commerce_amount, calculate_line_total_minor,
  max_weight_amount_mg, weight_order_step_mg, is_valid_order_amount, or_else,
}

-- `t` is `n / b` rounded to the nearest number, a half up.
abbrev pub IsHalfUp : ℕ → ℕ → ℕ → Type 0
IsHalfUp n b t = (2 * n < 2 * (t * b) + b) × (2 * (t * b) ≤ 2 * n + b)

pub half_up : (n b : ℕ) → 0 < b → IsHalfUp n b ((2 * n + b) / (2 * b))
half_up n b h =
    let split = div-add-mod (2 * n + b) (2 * b) in
    let small = mod-lt (2 * n + b) {m = 2 * b} (omega arith) in (omega arith, omega arith)

half_up_unique : (n b t : ℕ) → 0 < b → IsHalfUp n b t → t ≡ (2 * n + b) / (2 * b)
half_up_unique n b t pos h =
    let low =
      (le-div_iff_mul-le {k = 2 * b} {x = t} {y = 2 * n + b} (omega arith)).1 (omega arith) in
    let high =
      (div-lt_iff_lt-mul {k = 2 * b} {x = 2 * n + b} {y = t + 1} (omega arith)).1 (omega arith) in
    omega arith

line_total_value_iff :
    (price amount basis : ℕ) (t : ℕ)
    → (calculate_line_total_minor price amount basis ≡ some t) ↔ (
        (1 ≤ amount)
        × (amount ≤ max_commerce_amount)
        × (1 ≤ basis)
        × (basis ≤ max_commerce_amount)
        × (t ≡ (2 * (price * amount) + basis) / (2 * basis))
        × (t ≤ max_money_minor))
unfolding calculate_line_total_minor
line_total_value_iff price amount basis t = ground arith

-- A line total is `t` exactly when the amount and the basis lie in 1..2_000_000_000 and `t` is the
-- exact price `price * amount / basis` rounded to the nearest unit, a half up, and within the
-- money bound. So the code fails exactly when there is no such `t`.
pub line_total_iff :
    (price amount basis t : ℕ)
    → (calculate_line_total_minor price amount basis ≡ some t) ↔ (
        (1 ≤ amount)
        × (amount ≤ max_commerce_amount)
        × (1 ≤ basis)
        × (basis ≤ max_commerce_amount)
        × IsHalfUp (price * amount) basis t
        × (t ≤ max_money_minor))
line_total_iff price amount basis t =
    let (to, from) = line_total_value_iff price amount basis t in
    (
      λ h.
          let (a, b, c, d, e, f) = to h in
          (
            a,
            b,
            c,
            d,
            subst (IsHalfUp (price * amount) basis) (sym e) (half_up (price * amount) basis c),
            f,
          ),
      λ (a, b, c, d, e, f). from (a, b, c, d, half_up_unique (price * amount) basis t c e, f),
    )

on_lattice-mod :
    (amount low step steps : ℕ) → amount ≡ low + step * steps → (amount - low) % step ≡ 0
on_lattice-mod amount low step steps e =
    let rest : amount - low ≡ step * steps = omega arith in rw rest (mul-mod_right step steps)

-- An amount that a customer may order: on the lattice from the minimum in steps, within the
-- maximum, and for goods sold by weight on the fixed lattice of 100 g up to 100 kg.
pub record IsOrderAmount (amount : ℕ) (rules : ProductAmountRules) : Type 0 where
  pub steps : ℕ
  pub on_lattice : amount ≡ rules.minimum_order_amount + rules.order_step_amount * steps
  pub step_positive : 0 < rules.order_step_amount
  pub capped : (m : ℕ) → rules.maximum_order_amount ≡ some m → amount ≤ m
  pub commerce_cap : rules.maximum_order_amount ≡ none → amount ≤ max_commerce_amount
  pub weight_cap : rules.sale_kind ≡ weight → amount ≤ max_weight_amount_mg
  pub weight_minimum : rules.sale_kind ≡ weight → rules.minimum_order_amount ≡ weight_order_step_mg
  pub weight_step : rules.sale_kind ≡ weight → rules.order_step_amount ≡ weight_order_step_mg

-- `isValidOrderAmount` accepts exactly the amounts that are the minimum and a number of steps above
-- it, with a step that is positive, up to the maximum of the product, or the general one where it has
-- none; for goods sold by weight, up to 100 kg and only with the minimum and the step of 100 g.
pub valid-IsOrderAmount_iff :
    (amount : ℕ) (rules : ProductAmountRules)
    → (is_valid_order_amount amount rules ≡ true) ↔ IsOrderAmount amount rules
unfolding is_valid_order_amount
valid-IsOrderAmount_iff amount rules = (
  λ h.
      let n = amount - rules.minimum_order_amount in
      record {
        steps = n / rules.order_step_amount;
        on_lattice = ground (arith, div-add-mod n rules.order_step_amount);
        step_positive = ground arith;
        capped = λ m e. ground arith;
        commerce_cap = λ e. ground arith;
        weight_cap = λ e. ground arith;
        weight_minimum = λ e. ground arith;
        weight_step = λ e. ground arith;
      },
  λ v. ground (
    arith,
    v.capped (or_else rules.maximum_order_amount 0),
    v.commerce_cap,
    v.weight_cap,
    v.weight_minimum,
    v.weight_step,
    on_lattice-mod amount rules.minimum_order_amount rules.order_step_amount v.steps v.on_lattice,
  ),
)
