-- ===== src/Payments/Ledger/Untouched.antt =====
-- The steps of the payments that make no entry in the books of the stock.
use hop_and_barley_store.Prelude.{ℕ, ◌≡◌, refl, ◌∙◌, some, String}
use hop_and_barley_store.Payments.{PaymentDatabase, T}
use hop_and_barley_store.Payments.Attempts.{PaymentAttempt, find_attempt, update_attempt}
use hop_and_barley_store.Payments.Yields.{
  Yields, by_pure, by_reads, by_modify, by_require, by_lookup, by_bind, by_then, by_branch, by_call,
}
use hop_and_barley_store.Payments.Ledger.{SameItems, update_attempt-SameItems}
use hop_and_barley_store.Payments.Service.{
  Outcome, failed, cancelled_unpaid, write_attempt, to_reconcile, end_attempt, set_succeeded,
  release_definitive_outcome, consume_claim, mark_payment_attempt_succeeded,
}
use hop_and_barley_store.Payments.Service.Evolution.{lock_user-Yields, lock_attempt-Yields}
use hop_and_barley_store.Payments.Stripe.Inventory.{mark_reconciliation, cart_of_attempt}
use hop_and_barley_store.Payments.Stripe.Outcomes.{
  lock_and_load_attempt, lock_and_attach_payment_reference, attach_reference, empty_bought_cart,
}

abbrev pub Untouched : PaymentDatabase → PaymentDatabase → Type 0
Untouched db db' =
    (db'.store.products ≡ db.store.products)
    × (db'.allocations ≡ db.allocations)
    × SameItems db.attempts db'.attempts

pub Untouched-refl : (db : PaymentDatabase) → Untouched db db
Untouched-refl db = (refl, refl, λ j. refl)

pub Untouched-trans : (x y z : PaymentDatabase) → Untouched x y → Untouched y z → Untouched x z
Untouched-trans x y z (p, a, k) (p', a', k') = (p' ∙ p, a' ∙ a, λ j. k' j ∙ k j)

end_attempt-snapshot :
    (o : Outcome) (t : ℕ) (a : PaymentAttempt) → (end_attempt o t a).snapshot ≡ a.snapshot
end_attempt-snapshot failed t a = refl
end_attempt-snapshot cancelled_unpaid t a = refl

module _ (db : PaymentDatabase) where
  abbrev pub Quiet : {A : Type 0} → A → PaymentDatabase → Type 0
  Quiet a db' = Untouched db db'

  written :
      (i : ℕ) (f : PaymentAttempt → PaymentAttempt)
      → ((a : PaymentAttempt) → (f a).snapshot ≡ a.snapshot)
      → Untouched db (record db { attempts = update_attempt i f db.attempts })
  written i f k = (refl, refl, update_attempt-SameItems i f db.attempts k)

  pub mark_reconciliation-Quiet : (i now : ℕ) → Yields (mark_reconciliation i now) db Quiet
  unfolding mark_reconciliation write_attempt
  mark_reconciliation-Quiet i now = by_bind (
      by_reads _ (
        by_branch _ (λ unsettled. by_modify _ (written i (to_reconcile now) λ a. refl))
          λ settled. by_pure _ (Untouched-refl db)))

  pub release_definitive_outcome-Quiet :
      (i : ℕ) (outcome : Outcome) (now : ℕ)
      → Yields (release_definitive_outcome i outcome now) db Quiet
  unfolding release_definitive_outcome write_attempt
  release_definitive_outcome-Quiet i outcome now = by_bind (
      lock_attempt-Yields db i λ a found.
        by_branch _ (λ settled. by_require _ _ λ done. Untouched-refl db)
          λ unsettled. by_then (
            by_modify _ (
              by_modify _
                (written i (end_attempt outcome now) (end_attempt-snapshot outcome now)))))

  pub lock_and_load-Yields :
      (i : ℕ) {Q : PaymentAttempt → PaymentDatabase → Type 0}
      → ((a : PaymentAttempt) → find_attempt i db.attempts ≡ some a → Q a db)
      → Yields (lock_and_load_attempt i) db Q
  unfolding lock_and_load_attempt
  lock_and_load-Yields i q = by_lookup _ _ q

  -- The attempt that is loaded stands in the tables that the step leaves.
  pub lock_and_attach-Quiet :
      (i : ℕ) (reference : String) (now : ℕ)
      → Yields
          (lock_and_attach_payment_reference i reference now)
          db
          λ a s. Untouched db s × (find_attempt i s.attempts ≡ some a)
  unfolding lock_and_attach_payment_reference lock_and_load_attempt write_attempt
  lock_and_attach-Quiet i reference now = by_bind (
      by_lookup _ _ λ a found. by_then (
        by_require _ _ λ held.
          by_branch _ (λ there. by_pure _ (Untouched-refl db, found))
            λ bare. by_then (
              by_require _ _ λ started. by_then (
                by_modify _ (
                  by_lookup _ _
                    λ b again. (written i (attach_reference reference now) (λ x. refl), again))))))

  consume_claim-Quiet : (i order_id now : ℕ) → Yields (consume_claim i order_id now) db Quiet
  unfolding consume_claim
  consume_claim-Quiet i order_id now =
      by_bind (by_reads _ (by_then (by_modify _ (by_require _ _ λ consumed. Untouched-refl db))))

  pub empty_bought_cart-Quiet : (a : PaymentAttempt) → Yields (empty_bought_cart a) db Quiet
  unfolding empty_bought_cart cart_of_attempt
  empty_bought_cart-Quiet a = by_bind (
      by_bind (
        by_lookup _ _ λ draft found. by_pure _ (
          by_then
            (by_modify _ (by_bind (by_lookup _ _ λ cart there. by_modify _ (Untouched-refl db)))))))

pub then-Quiet :
    {A : Type 0} (db s : PaymentDatabase) {m : T A}
    → Untouched db s
    → Yields m s (Quiet s)
    → Yields m s (Quiet db)
then-Quiet db s before y = by_call y λ b t more. Untouched-trans db s t before more

pub mark_payment_attempt_succeeded-Quiet :
    (db : PaymentDatabase) (i order_id now : ℕ)
    → Yields (mark_payment_attempt_succeeded i order_id now) db (Quiet db)
unfolding mark_payment_attempt_succeeded write_attempt
mark_payment_attempt_succeeded-Quiet db i order_id now = by_bind (
    by_lookup _ _ λ initial there. by_then (
      lock_user-Yields db i _ (
        by_bind (
          lock_attempt-Yields db i λ a found. by_bind (
            by_lookup _ _ λ order placed. by_then (
              by_require _ _ λ matching.
                by_branch _
                  (λ again. by_bind (by_reads _ (by_require _ _ λ claimed. Untouched-refl db)))
                  λ new. by_then (
                    by_require _ _ λ started. by_then (
                      by_modify _ (
                        let stepped = written db i (set_succeeded now) (λ x. refl) in
                        by_branch _
                          (λ d. then-Quiet db _ stepped (consume_claim-Quiet _ i order_id now))
                          λ d. by_pure _ stepped)))))))))
