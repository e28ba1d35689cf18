-- ===== src/Payments/Stripe/Calls.antt =====
-- The calls of apps/api/src/payments/stripe-payment.service.ts that run several transactions with
-- requests to Stripe between them. A call keeps what its transactions have committed also when it
-- throws. `Gateway` stands for stripe-gateway.service.ts, which passes the requests to the library
-- of Stripe: a request answers, or throws (`none`).
pub mod Answers
pub mod Unconfirmed
use text.Mathlib.Text.{◌==◌ as str_eq}
use hop_and_barley_store.Prelude.{
  ℕ, ◌+◌, Bool, true, false, not, ◌&&◌, ◌||◌, List, [], ◌∷◌, ◌==◌, leb, Option, none, some, String,
  is_some, if◌then◌else◌, length,
}
use hop_and_barley_store.Store.{OrderItem}
use hop_and_barley_store.Store.Transaction.{
  HttpError, Result, ok, err, payment_refused, provider_unavailable, attempt_conflict,
  payments_disabled,
}
use hop_and_barley_store.Payments.{PaymentDatabase, T}
use hop_and_barley_store.Payments.Action.{lookup, require}
use hop_and_barley_store.Payments.Attempts.{
  PaymentAttempt, find_attempt, is_unsettled, is_pending, PaymentAttemptStatus,
}
use hop_and_barley_store.Payments.Service.{
  cancelled_unpaid, mark_pending, mark_provider_session_created, release_definitive_outcome,
}
use hop_and_barley_store.Payments.Stripe.{
  Runtime, PaymentIntent, CreatedStripeCheckout, PaymentStatus, to_status, is_canceled,
  is_intent_succeeded, is_expired, owner_reference, session_matches_attempt,
  session_payload_matches_attempt,
}
use hop_and_barley_store.Payments.Stripe.Inventory.{ActionKind, capture, cancel}
use hop_and_barley_store.Payments.Stripe.Outcomes.{
  mark_attempt_reconciliation, capture_reference, apply_payment_intent_state,
}
use hop_and_barley_store.Payments.Stripe.Webhook.{Event, process_webhook_event}

-- `StripeCheckoutSnapshot`.
pub record StripeCheckoutSnapshot : Type 0 where
  pub currency : String
  pub discount_minor : ℕ
  pub email : String
  pub id : ℕ
  pub item_count : ℕ
  pub item_subtotal_minor : ℕ
  pub owner_reference : String
  pub shipping_minor : ℕ
  pub total_minor : ℕ

pub record Gateway : Type 0 where
  pub enabled : Bool
  pub construct_event : String → String → Option Event
  pub create_checkout_session : StripeCheckoutSnapshot → ℕ → Option CreatedStripeCheckout
  pub retrieve_checkout_session : String → Option CreatedStripeCheckout
  pub retrieve_payment_intent : String → Option PaymentIntent
  pub cancel_payment_intent : String → Option PaymentIntent
  pub capture_payment_intent : String → Option PaymentIntent

abbrev pub Call : Type 0 → Type 0
Call A = PaymentDatabase → Result A × PaymentDatabase

infixl 5 ◌then_call◌
unfoldable pub ◌then_call◌ : {A B : Type 0} → Call A → (A → Call B) → Call B
◌then_call◌ c f db =
    let (result, db') = c db in elim result [ ok a ↦ f a db' | err e ↦ (err e, db') ]

unfoldable pub return : {A : Type 0} → A → Call A
return a db = (ok a, db)

unfoldable pub fail : {A : Type 0} → HttpError → Call A
fail e db = (err e, db)

-- One transaction, which is rolled back when it throws.
unfoldable pub commit : {A : Type 0} → T A → Call A
commit m db = elim (m db) [ ok (a, db') ↦ (ok a, db') | err e ↦ (err e, db) ]

-- `try { … } catch { … }`.
unfoldable pub catch : {A : Type 0} → Call A → Call A → Call A
catch c handler db =
    let (result, db') = c db in elim result [ ok a ↦ (ok a, db') | err e ↦ handler db' ]

unfoldable pub catch_error : {A : Type 0} → Call A → (HttpError → Call A) → Call A
catch_error c handler db =
    let (result, db') = c db in elim result [ ok a ↦ (ok a, db') | err e ↦ handler e db' ]

-- What `catch (error)` of `startCheckout` throws: a `ServiceUnavailableException` again, and one in
-- the place of any other error.
abbrev pub thrown_again : HttpError → HttpError
thrown_again payments_disabled = payments_disabled
thrown_again _ = provider_unavailable

-- A request to Stripe.
unfoldable pub answer : {A : Type 0} → Option A → Call A
answer none = fail provider_unavailable
answer (some a) = return a

abbrev pub choose : {A : Type 0} → Bool → Call A → Call A → Call A
choose true x y = x
choose false x y = y

unfoldable pub load_attempt : ℕ → Call PaymentAttempt
load_attempt attempt_id =
    commit (lookup (λ db. find_attempt attempt_id db.attempts) HttpError.internal_error)

module _ (js : Runtime) (stripe : Gateway) (order_id now : ℕ) where
  abbrev pub mark : ℕ → Call (Unit {0})
  mark attempt_id = commit (mark_attempt_reconciliation attempt_id now)

  abbrev pub apply : PaymentIntent → ℕ → Call (Unit {0})
  apply intent attempt_id =
      commit (apply_payment_intent_state js order_id intent attempt_id now) then_call λ _. return tt

  abbrev pub or_mark : ℕ → Option String → (String → Call (Unit {0})) → Call (Unit {0})
  or_mark attempt_id none f = mark attempt_id
  or_mark attempt_id (some reference) f = f reference

  unfoldable pub request_cancellation : ℕ → Call (Unit {0})
  request_cancellation attempt_id = load_attempt attempt_id then_call λ attempt.
      or_mark attempt_id attempt.provider_payment_reference λ reference.
        catch
          (answer (stripe.cancel_payment_intent reference) then_call λ intent.
            choose (is_canceled intent.status) (apply intent attempt_id) (mark attempt_id))
          (mark attempt_id)

  abbrev pub or_done : Option String → (String → Call (Unit {0})) → Call (Unit {0})
  or_done none f = return tt
  or_done (some reference) f = f reference

  unfoldable pub request_capture : ℕ → Call (Unit {0})
  request_capture attempt_id = commit (capture_reference attempt_id now) then_call λ captured.
      or_done captured λ reference.
        catch
          (answer (stripe.capture_payment_intent reference) then_call λ intent.
            choose (is_intent_succeeded intent.status) (apply intent attempt_id) (mark attempt_id))
          (mark attempt_id)

  unfoldable pub apply_provider_action : Option (ℕ × ActionKind) → Call (Unit {0})
  apply_provider_action none = return tt
  apply_provider_action (some (attempt_id, capture)) = request_capture attempt_id
  apply_provider_action (some (attempt_id, cancel)) = request_cancellation attempt_id

  abbrev kind_for : ℕ → Option ActionKind → Option (ℕ × ActionKind)
  kind_for attempt_id none = none
  kind_for attempt_id (some kind) = some (attempt_id, kind)

  unfoldable pub status_of : ℕ → Call PaymentStatus
  status_of attempt_id = load_attempt attempt_id then_call λ attempt. return (to_status attempt)

  -- `catch { await this.markAttemptReconciliation(…); throw … }`.
  abbrev pub or_unavailable : {A : Type 0} → ℕ → Call A → Call A
  or_unavailable attempt_id c = catch c (mark attempt_id then_call λ _. fail provider_unavailable)

  unfoldable pub reconcile_intent : PaymentAttempt → Call PaymentStatus
  reconcile_intent attempt =
      let attempt_id = attempt.snapshot.id in
      elim (attempt.provider_payment_reference) [
        | none ↦ fail provider_unavailable
        | some reference ↦
            or_unavailable attempt_id (answer (stripe.retrieve_payment_intent reference))
            then_call λ intent.
                commit (apply_payment_intent_state js order_id intent attempt_id now)
                then_call λ action.
                    apply_provider_action (kind_for attempt_id action) then_call λ _.
                    status_of attempt_id
      ]

  unfoldable pub settle_session : PaymentAttempt → CreatedStripeCheckout → Call PaymentStatus
  settle_session attempt session =
      let attempt_id = attempt.snapshot.id in
      elim (session.payment_intent_id) [
        | none ↦
            choose (is_expired session.session_status && str_eq session.payment_status "unpaid")
              (commit (release_definitive_outcome attempt_id cancelled_unpaid now))
              (choose (leb session.expires_at now) (mark attempt_id) (return tt))
            then_call λ _. status_of attempt_id
        | some reference ↦ commit (mark_pending js.trim attempt_id reference now) then_call λ _.
            load_attempt attempt_id then_call reconcile_intent
      ]

  unfoldable pub reconcile_attempt : ℕ → Call PaymentStatus
  reconcile_attempt attempt_id = load_attempt attempt_id then_call λ attempt.
      choose (is_some attempt.provider_payment_reference) (reconcile_intent attempt)
        (elim (attempt.provider_session_id) [
          | none ↦ return (to_status attempt)
          | some session_id ↦
              or_unavailable attempt_id (answer (stripe.retrieve_checkout_session session_id))
              then_call λ session.
                  choose (session_matches_attempt js session attempt now true)
                    (settle_session attempt session) (fail attempt_conflict)
        ])

  abbrev pub accept_event : ℕ → Option Event → Call (Unit {0})
  accept_event payload_hash none = fail payment_refused
  accept_event payload_hash (some event) = choose event.livemode (fail payment_refused) (
      commit (process_webhook_event js order_id event payload_hash now)
      then_call apply_provider_action)

  -- `acceptWebhook`; the hash of the body is a parameter.
  unfoldable pub accept_webhook : (String → ℕ) → String → String → Call (Unit {0})
  accept_webhook sha256 raw_body signature =
      choose (str_eq raw_body "" || str_eq signature "") (fail payment_refused)
        (accept_event (sha256 raw_body) (stripe.construct_event raw_body signature))
