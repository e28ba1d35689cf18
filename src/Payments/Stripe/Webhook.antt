-- ===== src/Payments/Stripe/Webhook.antt =====
-- `processWebhookEvent` and `applyCheckoutSessionEvent` of
-- apps/api/src/payments/stripe-payment.service.ts.
pub mod Evolution
pub mod Replay
use text.Mathlib.Text.{◌==◌ as str_eq}
use hop_and_barley_store.Prelude.{
  ℕ, ◌*◌, Bool, true, false, not, ◌&&◌, ◌||◌, List, [], ◌∷◌, ◌++◌, ◌==◌, Option, none, some, String,
  is_some, if◌then◌else◌,
}
use hop_and_barley_store.Store.Transaction.{payment_refused}
use hop_and_barley_store.Payments.{
  PaymentDatabase, T, StripeWebhookReceipt, WebhookDisposition, processed, ignored,
}
use hop_and_barley_store.Payments.Action.{◌>>=◌, ◌>>◌, pure, reads, modify, require, branch, lookup}
use hop_and_barley_store.Payments.Attempts.{PaymentAttempt, is_succeeded}
use hop_and_barley_store.Payments.Allocations.{find_allocation}
use hop_and_barley_store.Payments.Matching.{same_text, same_id}
use hop_and_barley_store.Payments.Service.{cancelled_unpaid, release_definitive_outcome}
use hop_and_barley_store.Payments.Stripe.{
  Runtime, Metadata, PaymentIntent, owner_reference, attempt_of_metadata,
}
use hop_and_barley_store.Payments.Stripe.Inventory.{ActionKind, mark_reconciliation}
use hop_and_barley_store.Payments.Stripe.Outcomes.{
  lock_and_load_attempt, lock_and_attach_payment_reference, apply_payment_intent_event,
}

-- A `Stripe.Checkout.Session`; `providerObjectId` has been applied to its payment intent.
pub record EventSession : Type 0 where
  pub id : String
  pub livemode : Bool
  pub client_reference_id : Option String
  pub metadata : Option Metadata
  pub currency : Option String
  pub amount_total : Option ℕ
  pub payment_intent : Option String
  pub payment_status : String

-- `other_object` has the id of an object of any other kind, if it has one.
pub data EventObject : Type 0 where
  payment_intent : PaymentIntent → EventObject
  checkout_session : EventSession → EventObject
  other_object : Option String → EventObject

pub record Event : Type 0 where
  pub id : String
  pub event_type : String
  pub livemode : Bool
  pub created : ℕ
  pub object : EventObject

unfoldable pub provider_event_object_id : EventObject → String
provider_event_object_id (payment_intent intent) = intent.id
provider_event_object_id (checkout_session session) = session.id
provider_event_object_id (other_object (some id)) = id
provider_event_object_id (other_object none) = "unknown"

abbrev pub owner_of_metadata : Option Metadata → Option String
owner_of_metadata none = none
owner_of_metadata (some metadata) = metadata.owner_reference

unfoldable pub find_receipt : String → List StripeWebhookReceipt → Option StripeWebhookReceipt
find_receipt event_id [] = none
find_receipt event_id (r ∷ rs) =
    if str_eq r.provider_event_id event_id then some r else find_receipt event_id rs

abbrev pub attach_or_load : ℕ → Option String → ℕ → T PaymentAttempt
attach_or_load attempt_id none occurred_at = lock_and_load_attempt attempt_id
attach_or_load attempt_id (some reference) occurred_at =
    branch (str_eq reference "") (lock_and_load_attempt attempt_id)
      (lock_and_attach_payment_reference attempt_id reference occurred_at)

module _ (js : Runtime) where
  unfoldable pub event_session_matches : EventSession → PaymentAttempt → Bool
  event_session_matches session attempt =
      not session.livemode
      && same_text attempt.provider_session_id (some session.id)
      && same_text session.client_reference_id (some (js.id_text attempt.snapshot.id))
      && same_text (owner_of_metadata session.metadata) (some (owner_reference js attempt))
      && same_text session.currency (some (js.to_lower_case attempt.snapshot.currency))
      && same_id session.amount_total (some attempt.snapshot.pricing.total_minor)
      && (not (is_some attempt.provider_payment_reference)
          || same_text session.payment_intent attempt.provider_payment_reference)

  unfoldable pub apply_checkout_session_event : String → EventSession → ℕ → ℕ → T (Unit {0})
  apply_checkout_session_event event_type session attempt_id occurred_at = do
    attempt ← attach_or_load attempt_id session.payment_intent occurred_at
    require (event_session_matches session attempt) payment_refused
    branch (str_eq event_type "checkout.session.expired")
        (do
          allocation ← reads (λ db. find_allocation attempt.snapshot.id db.allocations)
          branch (not (is_some allocation) && str_eq session.payment_status "unpaid")
              (release_definitive_outcome attempt.snapshot.id cancelled_unpaid occurred_at)
              (branch (is_succeeded attempt.status) (pure tt)
                (mark_reconciliation attempt.snapshot.id occurred_at)))
        (pure tt)

pub record Applied : Type 0 where
  pub attempt_id : Option ℕ
  pub action : Option (ℕ × ActionKind)
  pub disposition : WebhookDisposition

abbrev pub action_for : ℕ → Option ActionKind → Option (ℕ × ActionKind)
action_for attempt_id none = none
action_for attempt_id (some kind) = some (attempt_id, kind)

module _ (js : Runtime) (order_id : ℕ) where
  unfoldable pub apply_object : String → EventObject → ℕ → T Applied
  apply_object event_type (payment_intent intent) received_at = do
    attempt_id ← lookup (λ db. attempt_of_metadata js (some intent.metadata)) payment_refused
    action ← apply_payment_intent_event js order_id event_type intent attempt_id received_at
    pure (record {
      attempt_id = some attempt_id;
      action = action_for attempt_id action;
      disposition = processed;
    })
  apply_object event_type (checkout_session session) received_at = do
    attempt_id ← lookup (λ db. attempt_of_metadata js session.metadata) payment_refused
    apply_checkout_session_event js event_type session attempt_id received_at
    pure (record { attempt_id = some attempt_id; action = none; disposition = processed })
  apply_object event_type (other_object id) received_at =
      pure (record { attempt_id = none; action = none; disposition = ignored })

  unfoldable pub receipt_of : Event → ℕ → ℕ → Applied → StripeWebhookReceipt
  receipt_of event payload_hash received_at applied = record {
    provider_event_id = event.id;
    payment_attempt_id = applied.attempt_id;
    provider_object_id = provider_event_object_id event.object;
    event_type = event.event_type;
    livemode = event.livemode;
    payload_hash = payload_hash;
    provider_created_at = event.created * 1_000;
    disposition = applied.disposition;
    received_at = received_at;
    processed_at = received_at;
  }

  unfoldable pub process_first : Event → ℕ → ℕ → T (Option (ℕ × ActionKind))
  process_first event payload_hash received_at = do
    applied ← apply_object event.event_type event.object received_at
    modify (λ db. record db {
      receipts = db.receipts ++ receipt_of event payload_hash received_at applied ∷ [];
    })
    pure applied.action

  -- `requireSamePayload`.
  unfoldable pub replay_or :
      Option StripeWebhookReceipt → ℕ → T (Option (ℕ × ActionKind)) → T (Option (ℕ × ActionKind))
  replay_or none payload_hash rest = rest
  replay_or (some replay) payload_hash rest =
      require (replay.payload_hash == payload_hash) payment_refused >> pure none

  unfoldable pub process_webhook_event : Event → ℕ → ℕ → T (Option (ℕ × ActionKind))
  process_webhook_event event payload_hash received_at = do
    replay ← reads (λ db. find_receipt event.id db.receipts)
    replay_or replay payload_hash (process_first event payload_hash received_at)
