-- ===== src/Payments/Stripe/Outcomes/Evolution.antt =====
-- The steps that an intent brings about keep to the evolution of the attempts.
use hop_and_barley_store.Prelude.{ℕ, ◌≡◌, refl, true, List, Option, none, some, arith}
use hop_and_barley_store.Payments.{PaymentDatabase, T}
use hop_and_barley_store.Payments.Attempts.{
  PaymentAttempt, find_attempt, update_attempt, is_unsettled,
}
use hop_and_barley_store.Payments.Claims.Held.{FewerHeld-refl}
use hop_and_barley_store.Payments.Allocations.{Allocation, AllocationReleaseReason}
use hop_and_barley_store.Payments.Yields.{
  Yields, by_pure, by_reads, by_modify, by_require, by_lookup, by_bind, by_then, by_branch, by_call,
}
use hop_and_barley_store.Payments.Service.{Outcome, write_attempt, to_reconcile, unsettled_row}
use hop_and_barley_store.Payments.Service.Evolution.{
  Evolves, AllEvolve, Moves, Moves-refl, Moves-trans, update_attempt-AllEvolve,
  release_definitive_outcome-Evolved, mark_payment_attempt_succeeded-Evolved,
}
use hop_and_barley_store.Payments.Stripe.{Runtime}
use hop_and_barley_store.Payments.Stripe.Inventory.{
  mark_reconciliation, cart_of_attempt, lock_products, take_stock, create_order, create_allocation,
  allocate_new, or_existing, allocate_inventory,
}
use hop_and_barley_store.Payments.Stripe.Outcomes.{
  lock_and_load_attempt, finalize_captured_payment, empty_bought_cart, release_held, release_stock,
  release_unpaid_payment, mark_attempt_reconciliation, capture_reference,
}

to_reconcile-Evolves :
    (a : PaymentAttempt) (now : ℕ) → is_unsettled a.status ≡ true → Evolves a (to_reconcile now a)
to_reconcile-Evolves a now u = (refl, refl, λ r e. e, λ e. absurd (ground (arith, u, e)))

to_reconcile-AllEvolve :
    (i now : ℕ) (rows : List PaymentAttempt)
    → unsettled_row (find_attempt i rows) ≡ true
    → AllEvolve rows (update_attempt i (to_reconcile now) rows)
to_reconcile-AllEvolve i now rows u =
    update_attempt-AllEvolve i (to_reconcile now) rows λ a q. to_reconcile-Evolves a now (rw q at u)

module _ (db : PaymentDatabase) where
  abbrev pub Same : {A : Type 0} → A → PaymentDatabase → Type 0
  Same a db' = Moves db db'

  Same-after : {A : Type 0} (a : A) → Same a db
  Same-after a = Moves-refl db

  pub mark_reconciliation-Same : (i now : ℕ) → Yields (mark_reconciliation i now) db Same
  unfolding mark_reconciliation write_attempt
  mark_reconciliation-Same i now = by_bind (
      by_reads _ (
        by_branch _
          (λ matched.
            by_modify _
              (to_reconcile-AllEvolve i now db.attempts matched, refl, FewerHeld-refl db.claims))
          λ settled. by_pure _ (Same-after tt)))

  cart_of_attempt-Yields :
      (a : PaymentAttempt) {Q : ℕ → PaymentDatabase → Type 0}
      → ((c : ℕ) → Q c db)
      → Yields (cart_of_attempt a) db Q
  unfolding cart_of_attempt
  cart_of_attempt-Yields a q = by_bind (by_lookup _ _ λ draft found. by_pure _ (q draft.cart_id))

  take_stock-Same : (a : PaymentAttempt) → Yields (take_stock a.snapshot.items) db Same
  unfolding take_stock
  take_stock-Same a = by_bind (by_lookup _ _ λ left found. by_modify _ (Same-after tt))

module _ (js : Runtime) (order_id : ℕ) (db : PaymentDatabase) (a : PaymentAttempt) (now : ℕ) where
  allocate_new-Same : Yields (allocate_new js order_id a now) db (Same db)
  unfolding allocate_new lock_products take_stock create_order create_allocation
  allocate_new-Same = by_bind (
      cart_of_attempt-Yields db a λ c. by_bind (
        by_lookup _ _ λ cart there. by_then (
          by_bind (
            by_reads _ (
              by_require _ _ λ known. by_bind (
                by_reads _ (
                  by_branch _
                    (λ short. by_then (
                      by_call (mark_reconciliation-Same db a.snapshot.id now)
                        λ u s step. by_pure _ step))
                    λ enough. by_then (
                      by_bind (
                        by_lookup _ _ λ left taken. by_modify _ (
                          by_then (
                            by_modify _
                              (by_then (by_modify _ (by_pure _ (Same-after db tt)))))))))))))))

  existing-Same :
      (o : Option Allocation)
      → Yields (or_existing js order_id o (allocate_new js order_id a now)) db (Same db)
  existing-Same none = allocate_new-Same
  existing-Same (some x) = by_pure _ (Same-after db tt)

  pub allocate_inventory-Same : Yields (allocate_inventory js order_id a now) db (Same db)
  unfolding allocate_inventory
  allocate_inventory-Same = by_bind (by_reads _ (existing-Same _))

module _ (db : PaymentDatabase) (a : PaymentAttempt) (now : ℕ) where
  empty_bought_cart-Same : Yields (empty_bought_cart a) db (Same db)
  unfolding empty_bought_cart
  empty_bought_cart-Same = by_bind (
      cart_of_attempt-Yields db a λ c.
        by_then
          (by_modify _ (by_bind (by_lookup _ _ λ cart there. by_modify _ (Same-after db tt)))))

  release_stock-Same :
      (x : Allocation) (reason : AllocationReleaseReason)
      → Yields (release_stock a x reason now) db (Same db)
  unfolding release_stock lock_products
  release_stock-Same x reason = by_then (
      by_require _ _ λ held. by_then (
        by_bind (
          by_reads _ (
            by_require _ _ λ known. by_bind (
              by_reads _ (
                by_then (by_modify _ (by_then (by_modify _ (by_modify _ (Same-after db tt)))))))))))

  release_held-Same :
      (o : Option Allocation) (reason : AllocationReleaseReason)
      → Yields (release_held a o reason now) db (Same db)
  release_held-Same none reason = by_pure _ (Same-after db tt)
  release_held-Same (some x) reason =
      by_branch _ (λ gone. by_pure _ (Same-after db tt)) λ here. release_stock-Same x reason

  -- What runs after a step keeps to the evolution since before it.
  pub after-Same :
      {A : Type 0} (s : PaymentDatabase)
      → Moves db s
      → {m : T A} → Yields m s (Same s)
      → Yields m s (Same db)
  after-Same s step y = by_call y λ b t more. Moves-trans db s t step more

module _ (db : PaymentDatabase) (a : PaymentAttempt) (now : ℕ) where
  pub release_unpaid_payment-Same :
      (reason : AllocationReleaseReason) (outcome : Outcome)
      → Yields (release_unpaid_payment a reason outcome now) db (Same db)
  unfolding release_unpaid_payment
  release_unpaid_payment-Same reason outcome = by_bind (
      by_reads _ (
        by_then (
          by_call (release_held-Same db a now _ reason) λ u s step.
            after-Same db a now s step
              (release_definitive_outcome-Evolved s a.snapshot.id outcome now))))

  pub finalize_captured_payment-Same : Yields (finalize_captured_payment a now) db (Same db)
  unfolding finalize_captured_payment
  finalize_captured_payment-Same =
      by_branch _ (λ done. by_pure _ (Same-after db tt))
        λ new. by_bind (
          by_lookup _ _ λ x held. by_then (
            by_require _ _ λ asked. by_bind (
              by_lookup _ _ λ order placed. by_then (
                by_modify _ (
                  by_then (
                    by_modify _ (
                      by_then (
                        by_call
                          (mark_payment_attempt_succeeded-Evolved _ a.snapshot.id order.id now)
                          λ u s step.
                            after-Same db a now s step (empty_bought_cart-Same s a now)))))))))

pub mark_attempt_reconciliation-Same :
    (db : PaymentDatabase) (i now : ℕ) → Yields (mark_attempt_reconciliation i now) db (Same db)
unfolding mark_attempt_reconciliation
mark_attempt_reconciliation-Same db i now = by_then (
    by_call (mark_reconciliation-Same db i now) λ u s step.
      by_bind (by_reads _ (by_branch _ (λ opened. by_modify _ step) λ closed. by_pure _ step)))

pub capture_reference-Same :
    (db : PaymentDatabase) (i now : ℕ) → Yields (capture_reference i now) db (Same db)
unfolding capture_reference lock_and_load_attempt
capture_reference-Same db i now = by_bind (
    by_lookup _ _ λ a found. by_bind (
      by_reads _ (
        by_branch _ (λ opened. by_then (by_modify _ (by_pure _ (Same-after db tt))))
          λ closed. by_pure _ (Same-after db tt))))
