-- ===== src/Payments/Stripe.antt =====
-- The payments of apps/api/src/payments/stripe-payment.service.ts: what Stripe sends, and the tests
-- of it against a payment attempt. The requests themselves are parameters (Payments/Stripe/Calls).
pub mod Inventory
pub mod Outcomes
pub mod Webhook
pub mod Calls
pub mod Start
use Prim.Native.String.{◌++◌ as concat}
use text.Mathlib.Text.{◌==◌ as str_eq}
use hop_and_barley_store.Prelude.{
  ℕ, Bool, true, false, not, ◌&&◌, ◌||◌, List, [], ◌∷◌, ◌==◌, Option, none, some, String, ltb,
  is_some, if◌then◌else◌,
}
use hop_and_barley_store.Store.Transaction.{payment_refused, attempt_conflict}
use hop_and_barley_store.Checkout.Drafts.{Contact}
use hop_and_barley_store.Payments.{T}
use hop_and_barley_store.Payments.Action.{require}
use hop_and_barley_store.Payments.Attempts.{
  PaymentAttempt, PaymentAttemptStatus, prepared, pending, reconciliation_required, succeeded,
  definitively_failed, cancelled,
}
use hop_and_barley_store.Payments.Matching.{same_id, same_text}

-- What the code calls of JavaScript: `uuid_of` is the id in a text that the pattern of a UUID of
-- version 4 accepts, `id_text` the text of an id, and `slice_500` is `slice(0, 500)`.
pub record Runtime : Type 0 where
  pub trim : String → String
  pub to_lower_case : String → String
  pub slice_500 : String → String
  pub id_text : ℕ → String
  pub uuid_of : String → Option ℕ
  pub hash_capability : String → ℕ

pub data IntentStatus : Type 0 where
  requires_capture intent_succeeded canceled other_status : IntentStatus

pub data CaptureMethod : Type 0 where
  manual automatic automatic_async : CaptureMethod

-- A key that the metadata lacks is `none`.
pub record Metadata : Type 0 where
  pub payment_attempt_id : Option String
  pub environment : Option String
  pub owner_reference : Option String

pub record PaymentIntent : Type 0 where
  pub id : String
  pub livemode : Bool
  pub metadata : Metadata
  pub currency : String
  pub amount : ℕ
  pub amount_capturable : ℕ
  pub amount_received : ℕ
  pub capture_method : CaptureMethod
  pub status : IntentStatus

-- `CreatedStripeCheckout` of stripe-gateway.service.ts.
pub data SessionStatus : Type 0 where
  complete expired opened : SessionStatus

pub record CreatedStripeCheckout : Type 0 where
  pub amount_total : ℕ
  pub attempt_id : Option String
  pub checkout_url : Option String
  pub currency : String
  pub expires_at : ℕ
  pub payment_intent_id : Option String
  pub payment_status : String
  pub owner_reference : Option String
  pub session_id : String
  pub session_status : SessionStatus

abbrev pub is_requires_capture : IntentStatus → Bool
is_requires_capture requires_capture = true
is_requires_capture _ = false

abbrev pub is_intent_succeeded : IntentStatus → Bool
is_intent_succeeded intent_succeeded = true
is_intent_succeeded _ = false

abbrev pub is_canceled : IntentStatus → Bool
is_canceled canceled = true
is_canceled _ = false

abbrev pub is_manual : CaptureMethod → Bool
is_manual manual = true
is_manual _ = false

abbrev pub is_expired : SessionStatus → Bool
is_expired expired = true
is_expired _ = false

-- The literals that are not null, and not empty, joined by ', '.
unfoldable pub join_parts : List (Option String) → String
join_parts [] = ""
join_parts (none ∷ parts) = join_parts parts
join_parts (some part ∷ parts) =
    let rest = join_parts parts in
    if str_eq part "" then rest else if str_eq rest "" then part else concat part (concat ", " rest)

module _ (js : Runtime) where
  unfoldable pub shipping_address : Contact → String
  shipping_address c = js.slice_500 (
      join_parts
        (some c.street ∷ c.house_number ∷ c.postal_code ∷ some c.city ∷ some c.country_code ∷ []))

  unfoldable pub owner_reference : PaymentAttempt → String
  owner_reference attempt = elim (attempt.snapshot.user_id) [
    | some user_id ↦ concat "user:" (js.id_text user_id)
    | none ↦ concat "draft:" (js.id_text attempt.snapshot.checkout_draft_id)
  ]

  unfoldable pub intent_matches_attempt : PaymentIntent → PaymentAttempt → Bool
  intent_matches_attempt intent attempt =
      not intent.livemode
      && same_text attempt.provider_payment_reference (some intent.id)
      && same_text intent.metadata.payment_attempt_id (some (js.id_text attempt.snapshot.id))
      && same_text intent.metadata.environment (some "sandbox")
      && same_text intent.metadata.owner_reference (some (owner_reference attempt))
      && str_eq intent.currency (js.to_lower_case attempt.snapshot.currency)
      && intent.amount == attempt.snapshot.pricing.total_minor

  unfoldable pub require_payment_intent_matches_attempt :
      PaymentIntent → PaymentAttempt → T (Unit {0})
  require_payment_intent_matches_attempt intent attempt =
      require (intent_matches_attempt intent attempt) payment_refused

  unfoldable pub session_payload_matches_attempt :
      CreatedStripeCheckout → PaymentAttempt → ℕ → Bool → Bool
  session_payload_matches_attempt session attempt requested_now allow_expired =
      same_text session.attempt_id (some (js.id_text attempt.snapshot.id))
      && same_text session.owner_reference (some (owner_reference attempt))
      && (not (is_some attempt.provider_payment_reference)
          || same_text session.payment_intent_id attempt.provider_payment_reference)
      && str_eq session.currency (js.to_lower_case attempt.snapshot.currency)
      && session.amount_total == attempt.snapshot.pricing.total_minor
      && (allow_expired || ltb requested_now session.expires_at)

  unfoldable pub session_matches_attempt : CreatedStripeCheckout → PaymentAttempt → ℕ → Bool → Bool
  session_matches_attempt session attempt requested_now allow_expired =
      same_text attempt.provider_session_id (some session.session_id)
      && same_id attempt.provider_session_expires_at (some session.expires_at)
      && session_payload_matches_attempt session attempt requested_now allow_expired

  -- The id in the metadata of an event.
  unfoldable pub attempt_of_metadata : Option Metadata → Option ℕ
  attempt_of_metadata none = none
  attempt_of_metadata (some metadata) =
      if same_text metadata.environment (some "sandbox")
      then elim (metadata.payment_attempt_id) [ none ↦ none | some text ↦ js.uuid_of text ]
      else none

pub data PaymentStatus : Type 0 where
  status_succeeded status_failed status_cancelled processing ready_for_redirect : PaymentStatus

unfoldable pub to_status : PaymentAttempt → PaymentStatus
to_status attempt = elim (attempt.status) [
  | succeeded ↦ status_succeeded
  | definitively_failed ↦ status_failed
  | cancelled ↦ status_cancelled
  | prepared ↦ processing
  | pending ↦ if is_some attempt.provider_session_id then ready_for_redirect else processing
  | reconciliation_required ↦ processing
]
