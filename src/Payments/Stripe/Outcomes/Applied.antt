-- ===== src/Payments/Stripe/Outcomes/Applied.antt =====
-- The events and states of an intent keep to the evolution of the attempts.
use hop_and_barley_store.Prelude.{ℕ, ◌≡◌, refl, subst, true, false, String, arith, is_some}
use hop_and_barley_store.Store.Transaction.{HttpError}
use hop_and_barley_store.Payments.{PaymentDatabase}
use hop_and_barley_store.Payments.Attempts.{PaymentAttempt, is_started}
use hop_and_barley_store.Payments.Claims.Held.{FewerHeld-refl}
use hop_and_barley_store.Payments.Allocations.{AllocationReleaseReason}
use hop_and_barley_store.Payments.Yields.{
  Yields, by_pure, by_modify, by_require, by_lookup, by_bind, by_then, by_branch, by_call,
}
use hop_and_barley_store.Payments.Service.{cancelled_unpaid, write_attempt}
use hop_and_barley_store.Payments.Service.Evolution.{
  Evolves, Moves-refl, same_row, update_attempt-AllEvolve,
}
use hop_and_barley_store.Payments.Stripe.{
  Runtime, PaymentIntent, require_payment_intent_matches_attempt,
}
use hop_and_barley_store.Payments.Stripe.Outcomes.{
  lock_and_load_attempt, lock_and_attach_payment_reference, attach_reference, apply_capturable,
  apply_received, apply_cancelled, apply_payment_intent_event, apply_payment_intent_state,
}
use hop_and_barley_store.Payments.Stripe.Outcomes.Evolution.{
  Same, after-Same, mark_reconciliation-Same, allocate_inventory-Same, release_unpaid_payment-Same,
  finalize_captured_payment-Same,
}

attach_reference-Evolves :
    (a x : PaymentAttempt) (reference : String) (now : ℕ)
    → a ≡ x
    → is_some a.provider_payment_reference ≡ false
    → is_started a.status ≡ true
    → Evolves x (attach_reference reference now x)
attach_reference-Evolves a x reference now same bare started =
    let bare' : is_some x.provider_payment_reference ≡ false =
      subst (λ (z : PaymentAttempt). is_some z.provider_payment_reference ≡ false) same bare in
    let started' : is_started x.status ≡ true =
      subst (λ (z : PaymentAttempt). is_started z.status ≡ true) same started in
    (
      refl,
      refl,
      λ r e. absurd (ground (arith, bare', e)),
      λ e. absurd (ground (arith, started', e)),
    )

pub lock_and_attach-Same :
    (db : PaymentDatabase) (i : ℕ) (reference : String) (now : ℕ)
    → Yields (lock_and_attach_payment_reference i reference now) db (Same db)
unfolding lock_and_attach_payment_reference lock_and_load_attempt write_attempt
lock_and_attach-Same db i reference now = by_bind (
    by_lookup _ _ λ a found. by_then (
      by_require _ _ λ held.
        by_branch _ (λ there. by_pure _ (Moves-refl db))
          λ bare. by_then (
            by_require _ _ λ started. by_then (
              by_modify _ (
                by_lookup _ _ λ b again. (
                  update_attempt-AllEvolve i (attach_reference reference now) db.attempts (λ x q.
                      attach_reference-Evolves a x reference now (same_row found q) bare started),
                  refl,
                  FewerHeld-refl db.claims,
                ))))))

module _ (js : Runtime) (order_id : ℕ) (intent : PaymentIntent) (now : ℕ) where
  module _ (db : PaymentDatabase) (a : PaymentAttempt) where
    apply_capturable-Same :
        (e : HttpError) → Yields (apply_capturable js order_id intent a e now) db (Same db)
    unfolding apply_capturable
    apply_capturable-Same e =
        by_then (by_require _ _ λ whole. allocate_inventory-Same js order_id db a now)

    apply_received-Same :
        (e : HttpError) → Yields (apply_received js order_id intent a e now) db (Same db)
    unfolding apply_received
    apply_received-Same e = by_then (
        by_require _ _ λ whole.
          by_then (by_call (finalize_captured_payment-Same db a now) λ u s step. by_pure _ step))

    apply_cancelled-Same : Yields (apply_cancelled js order_id a now) db (Same db)
    unfolding apply_cancelled
    apply_cancelled-Same = by_then (
        by_call
          (release_unpaid_payment-Same db a now AllocationReleaseReason.payment_cancelled
            cancelled_unpaid)
          λ u s step. by_pure _ step)

  pub apply_payment_intent_event-Same :
      (db : PaymentDatabase) (event_type : String) (i : ℕ)
      → Yields (apply_payment_intent_event js order_id event_type intent i now) db (Same db)
  unfolding apply_payment_intent_event require_payment_intent_matches_attempt
  apply_payment_intent_event-Same db event_type i = by_bind (
      by_call (lock_and_attach-Same db i intent.id now) λ a s step. by_then (
        by_require _ _ λ matching. after-Same db a now s step (
          by_branch _ (λ capturable. by_then (by_require _ _ λ stated. apply_capturable-Same s a _))
            λ other.
              by_branch _ (λ received. by_then (by_require _ _ λ stated. apply_received-Same s a _))
                λ other.
                  by_branch _ (λ gone. apply_cancelled-Same s a)
                    λ other. by_pure _ (Moves-refl s))))

  pub apply_payment_intent_state-Same :
      (db : PaymentDatabase) (i : ℕ)
      → Yields (apply_payment_intent_state js order_id intent i now) db (Same db)
  unfolding apply_payment_intent_state require_payment_intent_matches_attempt lock_and_load_attempt
  apply_payment_intent_state-Same db i = by_bind (
      by_lookup _ _ λ a found. by_then (
        by_require _ _ λ matching.
          by_branch _ (λ capturable. apply_capturable-Same db a _)
            λ other.
              by_branch _ (λ received. apply_received-Same db a _)
                λ other.
                  by_branch _ (λ gone. apply_cancelled-Same db a)
                    λ other. by_then (
                      by_call (mark_reconciliation-Same db a.snapshot.id now)
                        λ u s step. by_pure _ step)))
