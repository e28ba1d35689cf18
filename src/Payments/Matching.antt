-- ===== src/Payments/Matching.antt =====
-- `successfulOrderMatchesAttempt` and `samePaymentLineSnapshots` of
-- apps/api/src/payments/payment-attempt.service.ts.
pub mod Laws
use text.Mathlib.Text.{◌==◌ as str_eq}
use hop_and_barley_store.Prelude.{
  ℕ, Bool, true, false, ◌&&◌, List, [], ◌∷◌, ◌==◌, Option, none, some, String, is_some,
}
use hop_and_barley_store.Catalog.Amount.{SaleKind, weight, packaged, kit}
use hop_and_barley_store.Catalog.Product.{AmountUnit, milligram, each}
use hop_and_barley_store.Store.{
  OrderItem, Order, OrderStatus, PaymentMethod, PaymentState, DiscountKind, no_discount,
  first_purchase,
}
use hop_and_barley_store.Payments.Attempts.{PaymentAttempt}

-- `===` on columns that may be null.
abbrev pub same_id : Option ℕ → Option ℕ → Bool
same_id none none = true
same_id (some a) (some b) = a == b
same_id _ _ = false

abbrev pub same_text : Option String → Option String → Bool
same_text none none = true
same_text (some a) (some b) = str_eq a b
same_text _ _ = false

abbrev pub same_sale_kind : SaleKind → SaleKind → Bool
same_sale_kind weight weight = true
same_sale_kind packaged packaged = true
same_sale_kind kit kit = true
same_sale_kind _ _ = false

abbrev pub same_amount_unit : AmountUnit → AmountUnit → Bool
same_amount_unit milligram milligram = true
same_amount_unit each each = true
same_amount_unit _ _ = false

abbrev pub same_discount_kind : DiscountKind → DiscountKind → Bool
same_discount_kind no_discount no_discount = true
same_discount_kind first_purchase first_purchase = true
same_discount_kind _ _ = false

abbrev pub is_first_purchase : DiscountKind → Bool
is_first_purchase first_purchase = true
is_first_purchase no_discount = false

abbrev pub is_card : PaymentMethod → Bool
is_card PaymentMethod.stripe_debit_card = true
is_card _ = false

abbrev pub is_settled_state : PaymentState → Bool
is_settled_state PaymentState.settled = true
is_settled_state _ = false

abbrev pub is_paid : OrderStatus → Bool
is_paid OrderStatus.paid = true
is_paid _ = false

unfoldable pub same_item : OrderItem → OrderItem → Bool
same_item order_item attempt_item =
    order_item.product_id == attempt_item.product_id
    && str_eq order_item.product_slug attempt_item.product_slug
    && str_eq order_item.product_name attempt_item.product_name
    && str_eq order_item.price_qualifier attempt_item.price_qualifier
    && same_sale_kind order_item.sale_kind attempt_item.sale_kind
    && same_amount_unit order_item.amount_unit attempt_item.amount_unit
    && order_item.price_minor == attempt_item.price_minor
    && order_item.price_basis_amount == attempt_item.price_basis_amount
    && order_item.amount == attempt_item.amount
    && order_item.line_total_minor == attempt_item.line_total_minor

unfoldable pub same_payment_line_snapshots : List OrderItem → List OrderItem → Bool
same_payment_line_snapshots [] [] = true
same_payment_line_snapshots (o ∷ os) (a ∷ rest) =
    same_item o a && same_payment_line_snapshots os rest
same_payment_line_snapshots _ _ = false

unfoldable pub successful_order_matches_attempt : Order → PaymentAttempt → ℕ → Bool
successful_order_matches_attempt order attempt attempt_id =
    let snapshot = attempt.snapshot in
    same_id order.payment_attempt_id (some attempt_id)
    && is_card order.payment_method
    && is_settled_state order.payment_state
    && is_paid order.status
    && is_some order.paid_at
    && is_some order.provider_payment_reference
    && same_text order.provider_payment_reference attempt.provider_payment_reference
    && same_id order.user_id snapshot.user_id
    && str_eq order.currency snapshot.currency
    && order.item_subtotal_minor == snapshot.pricing.item_subtotal_minor
    && same_discount_kind order.discount_kind snapshot.discount_kind
    && order.discount_basis_points == snapshot.pricing.discount_basis_points
    && order.discount_minor == snapshot.pricing.discount_minor
    && str_eq order.discount_policy_version snapshot.pricing.discount_policy_version
    && order.shipping_minor == snapshot.pricing.shipping_minor
    && order.total_minor == snapshot.pricing.total_minor
    && same_payment_line_snapshots order.items snapshot.items
