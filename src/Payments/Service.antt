-- ===== src/Payments/Service.antt =====
-- The changes of status of apps/api/src/payments/payment-attempt.service.ts: `PaymentAttemptService`
-- but for `prepare` (Payments/Prepare.antt), and the two functions that the payments of Stripe share
-- with it. Each is the function that is handed to `runCartSerializable` (Store/Retry.antt), with
-- what the code does before it. `trim` is a parameter. A lock that finds no row is modelled; the
-- unique indexes of the tables are not.
pub mod Evolution
use text.Mathlib.Text.{◌==◌ as str_eq}
use hop_and_barley_store.Prelude.{
  ℕ, Bool, true, false, not, ◌&&◌, ◌||◌, List, [], ◌∷◌, ◌==◌, Option, none, some, String, is_some,
  if◌then◌else◌,
}
use hop_and_barley_store.Catalog.Amount.{or_else}
use hop_and_barley_store.Store.{Order, find_user}
use hop_and_barley_store.Store.Transaction.{internal_error, attempt_conflict}
use hop_and_barley_store.Payments.{PaymentDatabase, T}
use hop_and_barley_store.Payments.Action.{◌>>=◌, ◌>>◌, pure, reads, modify, require, branch, lookup}
use hop_and_barley_store.Payments.Attempts.{
  PaymentAttempt, find_attempt, update_attempt, is_unsettled, is_pending, is_started, is_succeeded,
  pending, reconciliation_required, succeeded, definitively_failed, cancelled,
}
use hop_and_barley_store.Payments.Claims.{
  Claim, ClaimReleaseReason, definitive_payment_failed, definitive_payment_cancelled_unpaid,
  is_consumed, find_claim, update_claimed, consumed, released,
}
use hop_and_barley_store.Payments.Matching.{
  same_id, same_text, is_first_purchase, successful_order_matches_attempt,
}

pub data Outcome : Type 0 where
  cancelled_unpaid failed : Outcome

unfoldable pub lock_attempt : ℕ → T PaymentAttempt
lock_attempt attempt_id = do
  attempt ← lookup (λ db. find_attempt attempt_id db.attempts) attempt_conflict
  require (is_some attempt.snapshot_sealed_at) attempt_conflict
  pure attempt

unfoldable pub write_attempt : ℕ → (PaymentAttempt → PaymentAttempt) → T (Unit {0})
write_attempt attempt_id f =
    modify (λ db. record db { attempts = update_attempt attempt_id f db.attempts })

abbrev pub unsettled_row : Option PaymentAttempt → Bool
unsettled_row none = false
unsettled_row (some a) = is_unsettled a.status

-- `updateMany` on an attempt in one of the three statuses, with `count === 1`.
unfoldable pub update_unsettled : ℕ → (PaymentAttempt → PaymentAttempt) → T (Unit {0})
update_unsettled attempt_id f = do
  matches ← reads (λ db. unsettled_row (find_attempt attempt_id db.attempts))
  require matches attempt_conflict
  write_attempt attempt_id f

abbrev pub set_pending : String → ℕ → PaymentAttempt → PaymentAttempt
set_pending reference occurred_at a = record a {
  pending_at = some occurred_at;
  provider_payment_reference = some reference;
  status = pending;
}

unfoldable pub mark_pending : (String → String) → ℕ → String → ℕ → T (Unit {0})
mark_pending trim attempt_id provider_payment_reference occurred_at = do
  let reference = trim provider_payment_reference
  require (not (str_eq reference "")) internal_error
  attempt ← lock_attempt attempt_id
  let held = same_text attempt.provider_payment_reference (some reference)
  require (not (is_some attempt.provider_payment_reference) || held) attempt_conflict
  branch (held && is_pending attempt.status) (pure tt)
      (update_unsettled attempt_id (set_pending reference occurred_at))

unfoldable pub mark_provider_session_created : (String → String) → ℕ → String → ℕ → ℕ → T (Unit {0})
mark_provider_session_created trim attempt_id provider_session_id expires_at occurred_at = do
  let session_id = trim provider_session_id
  require (not (str_eq session_id "")) internal_error
  stored ← lock_attempt attempt_id
  let exact_session =
      same_text stored.provider_session_id (some session_id)
      && same_id stored.provider_session_expires_at (some expires_at)
  require (not (is_some stored.provider_session_id) || exact_session) attempt_conflict
  require (is_some stored.provider_session_id || not (is_some stored.provider_session_expires_at))
      attempt_conflict
  update_unsettled attempt_id (λ a. record a {
    pending_at = some (or_else stored.pending_at occurred_at);
    provider_session_expires_at = some expires_at;
    provider_session_id = some session_id;
    reconciliation_required_at = none;
    status = pending;
  })

abbrev pub to_reconcile : ℕ → PaymentAttempt → PaymentAttempt
to_reconcile occurred_at a = record a {
  reconciliation_required_at = some occurred_at;
  status = reconciliation_required;
}

unfoldable pub mark_reconciliation_required : ℕ → ℕ → T (Unit {0})
mark_reconciliation_required attempt_id occurred_at = do
  _ ← lock_attempt attempt_id
  update_unsettled attempt_id (to_reconcile occurred_at)

-- The status that an outcome ends in.
abbrev pub is_outcome : Outcome → PaymentAttempt → Bool
is_outcome failed a = elim (a.status) [ definitively_failed ↦ true | _ ↦ false ]
is_outcome cancelled_unpaid a = elim (a.status) [ cancelled ↦ true | _ ↦ false ]

abbrev pub end_attempt : Outcome → ℕ → PaymentAttempt → PaymentAttempt
end_attempt failed at a = record a {
  definitively_failed_at = some at;
  status = definitively_failed;
}
end_attempt cancelled_unpaid at a = record a { cancelled_at = some at; status = cancelled }

abbrev pub release_reason_of : Outcome → ClaimReleaseReason
release_reason_of failed = definitive_payment_failed
release_reason_of cancelled_unpaid = definitive_payment_cancelled_unpaid

abbrev pub release_claim : Outcome → ℕ → Claim → Claim
release_claim outcome at c = record c {
  release_reason = some (release_reason_of outcome);
  released_at = some at;
  status = released;
}

unfoldable pub release_definitive_outcome : ℕ → Outcome → ℕ → T (Unit {0})
release_definitive_outcome attempt_id outcome occurred_at = do
  attempt ← lock_attempt attempt_id
  branch (not (is_unsettled attempt.status)) (require (is_outcome outcome attempt) attempt_conflict)
      (do
        write_attempt attempt_id (end_attempt outcome occurred_at)
        modify (λ db. record db {
          claims = (update_claimed attempt_id (release_claim outcome occurred_at) db.claims).0;
        }))

unfoldable pub find_order : ℕ → List Order → Option Order
find_order order_id [] = none
find_order order_id (o ∷ os) = if o.id == order_id then some o else find_order order_id os

unfoldable pub lock_user : Option ℕ → T (Unit {0})
lock_user none = pure tt
lock_user (some user_id) = do
  _ ← lookup (λ db. find_user user_id db.store.users) attempt_conflict
  pure tt

abbrev consumed_by : ℕ → Option Claim → Bool
consumed_by order_id none = false
consumed_by order_id (some c) = is_consumed c.status && same_id c.consumed_order_id (some order_id)

abbrev pub set_consumed : ℕ → ℕ → Claim → Claim
set_consumed order_id occurred_at c = record c {
  consumed_at = some occurred_at;
  consumed_order_id = some order_id;
  status = consumed;
}

unfoldable pub consume_claim : ℕ → ℕ → ℕ → T (Unit {0})
consume_claim attempt_id order_id occurred_at = do
  updated ← reads (λ db. update_claimed attempt_id (set_consumed order_id occurred_at) db.claims)
  modify (λ db. record db { claims = updated.0 })
  require updated.1 attempt_conflict

abbrev pub set_succeeded : ℕ → PaymentAttempt → PaymentAttempt
set_succeeded occurred_at a = record a { status = succeeded; succeeded_at = some occurred_at }

unfoldable pub mark_payment_attempt_succeeded : ℕ → ℕ → ℕ → T (Unit {0})
mark_payment_attempt_succeeded attempt_id order_id occurred_at = do
  initial ← lookup (λ db. find_attempt attempt_id db.attempts) attempt_conflict
  lock_user initial.snapshot.user_id
  attempt ← lock_attempt attempt_id
  order ← lookup (λ db. find_order order_id db.store.orders) attempt_conflict
  require (successful_order_matches_attempt order attempt attempt_id) attempt_conflict
  let discounted = is_first_purchase attempt.snapshot.discount_kind
  branch (is_succeeded attempt.status)
      (do
        claim ← reads (λ db. find_claim attempt_id db.claims)
        require (not discounted || consumed_by order_id claim) attempt_conflict)
      (do
        require (is_started attempt.status) attempt_conflict
        write_attempt attempt_id (set_succeeded occurred_at)
        branch discounted (consume_claim attempt_id order_id occurred_at) (pure tt))
