-- ===== src/Payments/Stripe/Webhook/Evolution.antt =====
-- A webhook event keeps to the evolution of the attempts.
use hop_and_barley_store.Prelude.{ℕ, Option, none, some, String}
use hop_and_barley_store.Payments.{PaymentDatabase, StripeWebhookReceipt}
use hop_and_barley_store.Payments.Claims.Held.{FewerHeld, FewerHeld-refl}
use hop_and_barley_store.Payments.Yields.{
  Yields, by_pure, by_reads, by_modify, by_require, by_lookup, by_bind, by_then, by_branch, by_call,
}
use hop_and_barley_store.Payments.Service.{cancelled_unpaid}
use hop_and_barley_store.Payments.Service.Evolution.{
  AllEvolve, AllEvolve-refl, Moves-refl, release_definitive_outcome-Evolved,
}
use hop_and_barley_store.Payments.Stripe.{Runtime}
use hop_and_barley_store.Payments.Stripe.Outcomes.{lock_and_load_attempt}
use hop_and_barley_store.Payments.Stripe.Outcomes.Evolution.{
  Same, after-Same, mark_reconciliation-Same,
}
use hop_and_barley_store.Payments.Stripe.Outcomes.Applied.{
  lock_and_attach-Same, apply_payment_intent_event-Same,
}
use hop_and_barley_store.Payments.Stripe.Webhook.{
  EventSession, EventObject, payment_intent, checkout_session, other_object, Event, attach_or_load,
  apply_checkout_session_event, apply_object, process_first, replay_or, process_webhook_event,
}

lock_and_load-Same : (db : PaymentDatabase) (i : ℕ) → Yields (lock_and_load_attempt i) db (Same db)
unfolding lock_and_load_attempt
lock_and_load-Same db i = by_lookup _ _ λ a found. Moves-refl db

attach_or_load-Same :
    (db : PaymentDatabase) (i : ℕ) (reference : Option String) (now : ℕ)
    → Yields (attach_or_load i reference now) db (Same db)
attach_or_load-Same db i none now = lock_and_load-Same db i
attach_or_load-Same db i (some reference) now =
    by_branch _ (λ empty. lock_and_load-Same db i) λ given. lock_and_attach-Same db i reference now

module _ (js : Runtime) where
  apply_checkout_session_event-Same :
      (db : PaymentDatabase) (event_type : String) (session : EventSession) (i now : ℕ)
      → Yields (apply_checkout_session_event js event_type session i now) db (Same db)
  unfolding apply_checkout_session_event
  apply_checkout_session_event-Same db event_type session i now = by_bind (
      by_call (attach_or_load-Same db i session.payment_intent now) λ a s step. by_then (
        by_require _ _ λ matching. after-Same db a now s step (
          by_branch _
            (λ expired. by_bind (
              by_reads _ (
                by_branch _
                  (λ unpaid.
                    release_definitive_outcome-Evolved s a.snapshot.id cancelled_unpaid now)
                  λ held.
                    by_branch _ (λ done. by_pure _ (Moves-refl s))
                      λ going. mark_reconciliation-Same s a.snapshot.id now)))
            λ other. by_pure _ (Moves-refl s))))

module _ (js : Runtime) (order_id : ℕ) (db : PaymentDatabase) where
  pub apply_object-Same :
      (event_type : String) (object : EventObject) (now : ℕ)
      → Yields (apply_object js order_id event_type object now) db (Same db)
  unfolding apply_object
  apply_object-Same event_type (payment_intent intent) now = by_bind (
      by_lookup _ _ λ i known. by_bind (
        by_call (apply_payment_intent_event-Same js order_id intent now db event_type i)
          λ action s step. by_pure _ step))
  apply_object-Same event_type (checkout_session session) now = by_bind (
      by_lookup _ _ λ i known. by_then (
        by_call (apply_checkout_session_event-Same js db event_type session i now)
          λ u s step. by_pure _ step))
  apply_object-Same event_type (other_object id) now = by_pure _ (Moves-refl db)

  -- `Moves` without the receipts, of which one is written.
  abbrev pub Attempts : {A : Type 0} → A → PaymentDatabase → Type 0
  Attempts a db' = AllEvolve db.attempts db'.attempts × FewerHeld db.claims db'.claims

  process_first-Attempts :
      (event : Event) (hash now : ℕ) → Yields (process_first js order_id event hash now) db Attempts
  unfolding process_first
  process_first-Attempts event hash now = by_bind (
      by_call (apply_object-Same event.event_type event.object now)
        λ applied s step. by_then (by_modify _ (by_pure _ (step.0, step.2))))

  replay_or-Attempts :
      (o : Option StripeWebhookReceipt) (event : Event) (hash now : ℕ)
      → Yields (replay_or js order_id o hash (process_first js order_id event hash now)) db Attempts
  unfolding replay_or
  replay_or-Attempts none event hash now = process_first-Attempts event hash now
  replay_or-Attempts (some r) event hash now =
      by_then
        (by_require _ _ λ same. by_pure _ (AllEvolve-refl db.attempts, FewerHeld-refl db.claims))

  pub process_webhook_event-Attempts :
      (event : Event) (hash now : ℕ)
      → Yields (process_webhook_event js order_id event hash now) db Attempts
  unfolding process_webhook_event
  process_webhook_event-Attempts event hash now =
      by_bind (by_reads _ (replay_or-Attempts _ event hash now))
