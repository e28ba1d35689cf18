-- ===== src/Payments/Attempts.antt =====
-- The table "PaymentAttempt" of apps/api/prisma/schema.prisma with its items, in the order of the
-- product ids. `Snapshot` groups the columns that are written once, when the attempt is prepared.
use text.Mathlib.Text.{◌==◌ as str_eq}
use hop_and_barley_store.Prelude.{
  ℕ, Bool, true, false, ◌&&◌, List, [], ◌∷◌, ◌==◌, Option, none, some, String, if◌then◌else◌,
}
use hop_and_barley_store.Store.{OrderItem, DiscountKind}
use hop_and_barley_store.Checkout.Pricing.{CheckoutPricing}
use hop_and_barley_store.Checkout.Drafts.{Contact}

pub data PaymentAttemptStatus : Type 0 where
  prepared pending reconciliation_required : PaymentAttemptStatus
  succeeded definitively_failed cancelled : PaymentAttemptStatus

pub record Snapshot : Type 0 where
  pub id : ℕ
  pub checkout_draft_id : ℕ
  pub checkout_draft_version : ℕ
  pub user_id : Option ℕ
  pub idempotency_key : String
  pub request_hash : ℕ
  pub currency : String
  pub discount_kind : DiscountKind
  pub pricing : CheckoutPricing
  pub quoted_at : ℕ
  pub contact : Contact
  pub items : List OrderItem

pub record PaymentAttempt : Type 0 where
  pub snapshot : Snapshot
  pub snapshot_sealed_at : Option ℕ
  pub status : PaymentAttemptStatus
  pub provider_payment_reference : Option String
  pub provider_session_id : Option String
  pub provider_session_expires_at : Option ℕ
  pub pending_at : Option ℕ
  pub reconciliation_required_at : Option ℕ
  pub succeeded_at : Option ℕ
  pub definitively_failed_at : Option ℕ
  pub cancelled_at : Option ℕ

-- `['PREPARED', 'PENDING', 'RECONCILIATION_REQUIRED']`.
abbrev pub is_unsettled : PaymentAttemptStatus → Bool
is_unsettled prepared = true
is_unsettled pending = true
is_unsettled reconciliation_required = true
is_unsettled _ = false

abbrev pub is_pending : PaymentAttemptStatus → Bool
is_pending pending = true
is_pending _ = false

abbrev pub is_succeeded : PaymentAttemptStatus → Bool
is_succeeded succeeded = true
is_succeeded _ = false

-- Pending or to be reconciled.
abbrev pub is_started : PaymentAttemptStatus → Bool
is_started pending = true
is_started reconciliation_required = true
is_started _ = false

unfoldable pub find_attempt : ℕ → List PaymentAttempt → Option PaymentAttempt
find_attempt attempt_id [] = none
find_attempt attempt_id (a ∷ rest) =
    if a.snapshot.id == attempt_id then some a else find_attempt attempt_id rest

-- `findUnique({ where: { checkoutDraftId_idempotencyKey } })`.
unfoldable pub find_attempt_of_key : ℕ → String → List PaymentAttempt → Option PaymentAttempt
find_attempt_of_key draft_id key [] = none
find_attempt_of_key draft_id key (a ∷ rest) =
    if a.snapshot.checkout_draft_id == draft_id && str_eq a.snapshot.idempotency_key key
    then some a
    else find_attempt_of_key draft_id key rest

unfoldable pub update_attempt :
    ℕ → (PaymentAttempt → PaymentAttempt) → List PaymentAttempt → List PaymentAttempt
update_attempt attempt_id f [] = []
update_attempt attempt_id f (a ∷ rest) =
    if a.snapshot.id == attempt_id then f a ∷ rest else a ∷ update_attempt attempt_id f rest
