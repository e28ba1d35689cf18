-- ===== src/Payments/Prepare.antt =====
-- `PaymentAttemptService.prepare` of apps/api/src/payments/payment-attempt.service.ts. The SHA-256 of
-- the request, the hash of a capability and the id of the new row are parameters.
pub mod Claimed
pub mod Quoted
use text.Mathlib.Text.{◌==◌ as str_eq}
use hop_and_barley_store.Prelude.{
  ℕ, Bool, true, false, not, ◌&&◌, ◌||◌, List, [], ◌∷◌, ◌++◌, ◌==◌, map, Option, none, some, String,
  is_some, if◌then◌else◌,
}
use hop_and_barley_store.Catalog.Amount.{calculate_line_total_minor, add_money_minor}
use hop_and_barley_store.Catalog.Product.{Product}
use hop_and_barley_store.Cart.Readiness.{checkout_line_outcome}
use hop_and_barley_store.Cart.Service.{is_active}
use hop_and_barley_store.Checkout.Drafts.{CheckoutDraft, find_draft, verify_checkout_capability}
use hop_and_barley_store.Checkout.Pricing.{
  CheckoutPricing, calculate_checkout_pricing, first_purchase_discount_policy_version,
}
use hop_and_barley_store.Orders.Allocation.{PricedLine}
use hop_and_barley_store.Orders.Service.{order_lines, order_item, is_empty, all_known}
use hop_and_barley_store.Store.{
  Database, Cart, Order, PaymentMethod, find_user, find_cart, owned_by, DiscountKind, no_discount,
  first_purchase,
}
use hop_and_barley_store.Store.Items.{items_of}
use hop_and_barley_store.Store.Transaction.{
  unauthorized, attempt_conflict, attempt_unavailable, internal_error, idempotency_conflict,
  claim_held,
}
use hop_and_barley_store.Payments.{PaymentDatabase, T}
use hop_and_barley_store.Payments.Action.{
  ◌>>=◌, ◌>>◌, pure, throw, reads, modify, require, branch, lookup,
}
use hop_and_barley_store.Payments.Attempts.{
  PaymentAttempt, PaymentAttemptStatus, prepared, find_attempt_of_key,
}
use hop_and_barley_store.Payments.Claims.{Claim, claimed, find_held_claim, is_consumed}
use hop_and_barley_store.Payments.Matching.{
  same_id, same_text, is_card, is_settled_state, is_first_purchase,
}
use hop_and_barley_store.Payments.Stripe.Inventory.{is_available}

pub data Principal : Type 0 where
  account : (user_id : ℕ) → Principal
  guest : Principal

pub record PreparePaymentAttempt : Type 0 where
  pub cart_id : ℕ
  pub checkout_draft_id : ℕ
  pub raw_guest_capability : Option String
  pub idempotency_key : String
  pub principal : Principal

-- What `fingerprintAttemptRequest` hashes.
pub record AttemptRequest : Type 0 where
  pub draft_id : ℕ
  pub draft_version : ℕ
  pub owner : Option ℕ

abbrev pub user_of : Principal → Option ℕ
user_of (account user_id) = some user_id
user_of guest = none

unfoldable pub lock_active_user : Principal → T (Unit {0})
lock_active_user guest = pure tt
lock_active_user (account user_id) = do
  user ← lookup (λ db. find_user user_id db.store.users) unauthorized
  require (is_active user.status) unauthorized

-- `requirePrincipal`.
unfoldable pub owns : Option ℕ → Principal → Bool
owns stored (account user_id) = same_id stored (some user_id)
owns stored guest = same_id stored none

abbrev pub needs_capability : Principal → Bool
needs_capability (account user_id) = false
needs_capability guest = true

unfoldable pub same_attempt : PaymentAttempt → ℕ → T PaymentAttempt
same_attempt stored expected_hash = do
  require (is_some stored.snapshot_sealed_at) attempt_conflict
  require (stored.snapshot.request_hash == expected_hash) idempotency_conflict
  pure stored

unfoldable pub paid_order : ℕ → List Order → Bool
paid_order user_id [] = false
paid_order user_id (o ∷ os) =
    (is_settled_state o.payment_state && owned_by user_id o.user_id) || paid_order user_id os

abbrev pub claim_allows : Option Claim → T Bool
claim_allows none = pure true
claim_allows (some c) = branch (is_consumed c.status) (pure false) (throw claim_held)

unfoldable pub can_claim_first_purchase_discount : ℕ → T Bool
can_claim_first_purchase_discount user_id = do
  paid ← reads (λ db. paid_order user_id db.store.orders)
  active_claim ← reads (λ db. find_held_claim user_id db.claims)
  branch paid (pure false) (claim_allows active_claim)

unfoldable pub apply_discount_for : Principal → T Bool
apply_discount_for guest = pure false
apply_discount_for (account user_id) = can_claim_first_purchase_discount user_id

-- The lines with their totals, and the subtotal.
unfoldable pub quote_lines : ℕ → List (Product × ℕ) → ℕ → T (List PricedLine × ℕ)
quote_lines now [] subtotal = pure ([], subtotal)
quote_lines now ((p, n) ∷ lines) subtotal = do
  require (str_eq p.currency "EUR" && is_available (checkout_line_outcome (some p) n now))
      attempt_unavailable
  total ←
      lookup (λ db. calculate_line_total_minor p.price_minor n p.price_basis_amount) internal_error
  sum ← lookup (λ db. add_money_minor subtotal total) internal_error
  rest ← quote_lines now lines sum
  pure (record { product = p; amount = n; line_total_minor = total } ∷ rest.0, rest.1)

module _ (hash_request : AttemptRequest → ℕ) (hash_capability : String → ℕ)
    (input : PreparePaymentAttempt) (now attempt_id : ℕ) where
  unfoldable pub request_hash_of : CheckoutDraft → ℕ
  request_hash_of draft = hash_request (record {
    draft_id = draft.id;
    draft_version = draft.version;
    owner = user_of input.principal;
  })

  -- The locks, and the tests of who may pay for the draft.
  unfoldable pub open_draft : T CheckoutDraft
  open_draft = do
    draft ← lookup (λ db. find_draft input.checkout_draft_id db.drafts) unauthorized
    require (draft.cart_id == input.cart_id) unauthorized
    lock_active_user input.principal
    cart ← lookup (λ db. find_cart draft.cart_id db.store.carts) unauthorized
    require (owns draft.user_id input.principal) unauthorized
    require (owns cart.user_id input.principal) unauthorized
    require
        (not (needs_capability input.principal)
          || verify_checkout_capability hash_capability input.raw_guest_capability
              draft.guest_capability_digest draft.guest_capability_expires_at now)
        unauthorized
    require (is_card draft.payment_method) attempt_unavailable
    pure draft

  unfoldable pub new_attempt :
      CheckoutDraft → Bool → CheckoutPricing → List PricedLine → PaymentAttempt
  new_attempt draft apply_discount pricing lines = record {
    snapshot = record {
      id = attempt_id;
      checkout_draft_id = draft.id;
      checkout_draft_version = draft.version;
      user_id = user_of input.principal;
      idempotency_key = input.idempotency_key;
      request_hash = request_hash_of draft;
      currency = "EUR";
      discount_kind = if apply_discount then first_purchase else no_discount;
      pricing = pricing;
      quoted_at = now;
      contact = draft.contact;
      items = map order_item lines;
    };
    snapshot_sealed_at = some now;
    status = prepared;
    provider_payment_reference = none;
    provider_session_id = none;
    provider_session_expires_at = none;
    pending_at = none;
    reconciliation_required_at = none;
    succeeded_at = none;
    definitively_failed_at = none;
    cancelled_at = none;
  }

  abbrev pub new_claim : ℕ → Claim
  new_claim user_id = record {
    user_id = user_id;
    payment_attempt_id = attempt_id;
    status = claimed;
    held_at = now;
    consumed_at = none;
    consumed_order_id = none;
    released_at = none;
    release_reason = none;
  }

  abbrev pub claims_with : Bool → Option ℕ → List Claim → List Claim
  claims_with true (some user_id) claims = claims ++ new_claim user_id ∷ []
  claims_with _ _ claims = claims

  unfoldable pub quote_attempt : CheckoutDraft → T PaymentAttempt
  quote_attempt draft = do
    candidates ← reads (λ db. items_of draft.cart_id db.store.items)
    require (not (is_empty candidates)) attempt_unavailable
    known ← reads (λ db. all_known db.store.products candidates)
    require known attempt_unavailable
    lines ← reads (λ db. order_lines draft.cart_id db.store)
    quoted ← quote_lines now lines 0
    apply_discount ← apply_discount_for input.principal
    pricing ← lookup (λ db. calculate_checkout_pricing quoted.1 apply_discount) internal_error
    let sealed = new_attempt draft apply_discount pricing quoted.0
    modify (λ db. record db { attempts = db.attempts ++ sealed ∷ [] })
    modify (λ db. record db {
      claims = claims_with apply_discount (user_of input.principal) db.claims;
    })
    require
        (not (is_first_purchase sealed.snapshot.discount_kind)
          || str_eq sealed.snapshot.pricing.discount_policy_version
              first_purchase_discount_policy_version)
        internal_error
    pure sealed

  abbrev pub replay_or : Option PaymentAttempt → ℕ → T PaymentAttempt → T PaymentAttempt
  replay_or none request_hash rest = rest
  replay_or (some replay) request_hash rest = same_attempt replay request_hash

  unfoldable pub prepare : T PaymentAttempt
  prepare = do
    draft ← open_draft
    replay ← reads (λ db. find_attempt_of_key draft.id input.idempotency_key db.attempts)
    replay_or replay (request_hash_of draft) (quote_attempt draft)
