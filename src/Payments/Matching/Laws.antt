-- ===== src/Payments/Matching/Laws.antt =====
-- The comparisons of a payment tell equal columns from different ones.
use text.Mathlib.Text.{◌==◌ as str_eq}
use text.Mathlib.TextEquality.{eq_iff}
use hop_and_barley_store.Prelude.{
  ℕ, ◌≡◌, refl, ap, subst, true, List, [], ◌∷◌, ◌==◌, Option, none, some, String, arith, ◌↔◌,
  &&-eq_true, ==_refl,
}
use hop_and_barley_store.Catalog.Amount.{SaleKind}
use hop_and_barley_store.Catalog.Product.{AmountUnit}
use hop_and_barley_store.Store.{OrderItem, Order, OrderStatus}
use hop_and_barley_store.Payments.Attempts.{PaymentAttempt}
use hop_and_barley_store.Payments.Matching.{
  same_id, same_text, same_sale_kind, same_amount_unit, same_item, same_payment_line_snapshots,
  is_paid, successful_order_matches_attempt,
}

pub str_eq_sound : (a b : String) → str_eq a b ≡ true → a ≡ b
str_eq_sound a b = (eq_iff a b).0

pub str_eq_refl : (a : String) → str_eq a a ≡ true
str_eq_refl a = (eq_iff a a).1 refl

pub same_text-eq : (a b : Option String) → same_text a b ≡ true → a ≡ b
same_text-eq none none h = refl
same_text-eq none (some b) h = absurd (ground arith)
same_text-eq (some a) none h = absurd (ground arith)
same_text-eq (some a) (some b) h = ap some (str_eq_sound a b h)

same_sale_kind-eq : (a b : SaleKind) → same_sale_kind a b ≡ true → a ≡ b
same_sale_kind-eq a b h = ground arith

same_amount_unit-eq : (a b : AmountUnit) → same_amount_unit a b ≡ true → a ≡ b
same_amount_unit-eq a b h = ground arith

==-eq : (a b : ℕ) → (a == b) ≡ true → a ≡ b
==-eq a b h = ground arith

same_item-eq : (o a : OrderItem) → same_item o a ≡ true → o ≡ a
unfolding same_item
same_item-eq o a equal =
    let (h, total) = &&-eq_true {b = o.line_total_minor == a.line_total_minor} equal in
    let (h, amount) = &&-eq_true h in
    let (h, basis) = &&-eq_true h in
    let (h, price) = &&-eq_true h in
    let (h, unit) = &&-eq_true h in
    let (h, kind) = &&-eq_true h in
    let (h, qualifier) = &&-eq_true h in
    let (h, name) = &&-eq_true h in
    let (id, slug) = &&-eq_true h in
    λ i. record {
      amount = ==-eq o.amount a.amount amount i;
      amount_unit = same_amount_unit-eq o.amount_unit a.amount_unit unit i;
      line_total_minor = ==-eq o.line_total_minor a.line_total_minor total i;
      price_basis_amount = ==-eq o.price_basis_amount a.price_basis_amount basis i;
      price_minor = ==-eq o.price_minor a.price_minor price i;
      price_qualifier = str_eq_sound o.price_qualifier a.price_qualifier qualifier i;
      product_id = ==-eq o.product_id a.product_id id i;
      product_name = str_eq_sound o.product_name a.product_name name i;
      product_slug = str_eq_sound o.product_slug a.product_slug slug i;
      sale_kind = same_sale_kind-eq o.sale_kind a.sale_kind kind i;
    }

same_sale_kind_refl : (a : SaleKind) → same_sale_kind a a ≡ true
same_sale_kind_refl a = ground arith

same_amount_unit_refl : (a : AmountUnit) → same_amount_unit a a ≡ true
same_amount_unit_refl a = ground arith

same_item_refl : (o : OrderItem) → same_item o o ≡ true
unfolding same_item
same_item_refl o = rw (
  ==_refl o.product_id,
  ==_refl o.price_minor,
  ==_refl o.price_basis_amount,
  ==_refl o.amount,
  ==_refl o.line_total_minor,
  str_eq_refl o.product_slug,
  str_eq_refl o.product_name,
  str_eq_refl o.price_qualifier,
  same_sale_kind_refl o.sale_kind,
  same_amount_unit_refl o.amount_unit,
)

same_lines-eq : (os rows : List OrderItem) → same_payment_line_snapshots os rows ≡ true → os ≡ rows
unfolding same_payment_line_snapshots
same_lines-eq [] [] h = refl
same_lines-eq [] (a ∷ rows) h = absurd (ground arith)
same_lines-eq (o ∷ os) [] h = absurd (ground arith)
same_lines-eq (o ∷ os) (a ∷ rows) h =
    let (one, rest) = &&-eq_true h in λ i. same_item-eq o a one i ∷ same_lines-eq os rows rest i

same_lines_refl : (os : List OrderItem) → same_payment_line_snapshots os os ≡ true
unfolding same_payment_line_snapshots
same_lines_refl [] = refl
same_lines_refl (o ∷ os) = rw (same_item_refl o, same_lines_refl os)

-- The lines of an order and of a payment attempt compare as the same exactly when they are equal
-- in every column, in number and in order.
pub same_lines_iff :
    (os rows : List OrderItem) → (same_payment_line_snapshots os rows ≡ true) ↔ (os ≡ rows)
same_lines_iff os rows = (
  same_lines-eq os rows,
  λ e. subst (λ z. same_payment_line_snapshots os z ≡ true) e (same_lines_refl os),
)

same_id-eq : (a : Option ℕ) (n : ℕ) → same_id a (some n) ≡ true → a ≡ some n
same_id-eq none n h = absurd (ground arith)
same_id-eq (some a) n h = ap some (==-eq a n h)

is_paid-eq : (s : OrderStatus) → is_paid s ≡ true → s ≡ OrderStatus.paid
is_paid-eq s h = ground arith

-- What an order and an attempt that match have in common.
pub record IsPaidFor (order : Order) (a : PaymentAttempt) (attempt_id : ℕ) : Type 0 where
  pub of_attempt : order.payment_attempt_id ≡ some attempt_id
  pub paid : order.status ≡ OrderStatus.paid
  pub reference : order.provider_payment_reference ≡ a.provider_payment_reference
  pub total : order.total_minor ≡ a.snapshot.pricing.total_minor
  pub discount : order.discount_minor ≡ a.snapshot.pricing.discount_minor
  pub items : order.items ≡ a.snapshot.items

pub matches-IsPaidFor :
    (order : Order) (a : PaymentAttempt) (i : ℕ)
    → successful_order_matches_attempt order a i ≡ true
    → IsPaidFor order a i
unfolding successful_order_matches_attempt
matches-IsPaidFor order a i equal =
    let (h, items) =
      &&-eq_true {b = same_payment_line_snapshots order.items a.snapshot.items} equal in
    let (h, total) = &&-eq_true h in
    let (h, shipping) = &&-eq_true h in
    let (h, policy) = &&-eq_true h in
    let (h, discount) = &&-eq_true h in
    let (h, points) = &&-eq_true h in
    let (h, kind) = &&-eq_true h in
    let (h, subtotal) = &&-eq_true h in
    let (h, currency) = &&-eq_true h in
    let (h, user) = &&-eq_true h in
    let (h, reference) = &&-eq_true h in
    let (h, referred) = &&-eq_true h in
    let (h, at) = &&-eq_true h in
    let (h, status) = &&-eq_true h in
    let (h, state) = &&-eq_true h in
    let (attempt, method) = &&-eq_true h in
    record {
      of_attempt = same_id-eq order.payment_attempt_id i attempt;
      paid = is_paid-eq order.status status;
      reference =
          same_text-eq order.provider_payment_reference a.provider_payment_reference reference;
      total = ==-eq order.total_minor a.snapshot.pricing.total_minor total;
      discount = ==-eq order.discount_minor a.snapshot.pricing.discount_minor discount;
      items = same_lines-eq order.items a.snapshot.items items;
    }
