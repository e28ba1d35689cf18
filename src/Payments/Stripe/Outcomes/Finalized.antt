-- ===== src/Payments/Stripe/Outcomes/Finalized.antt =====
-- What has been paid when an attempt succeeds.
use hop_and_barley_store.Prelude.{
  ℕ, ◌≡◌, refl, ap, ◌∙◌, true, List, [], ◌∷◌, ◌==◌, some, arith, inl, inr, Bool-cases,
}
use hop_and_barley_store.Store.{Order}
use hop_and_barley_store.Store.Transaction.{ok}
use hop_and_barley_store.Payments.{PaymentDatabase}
use hop_and_barley_store.Payments.Attempts.{
  PaymentAttempt, Snapshot, find_attempt, update_attempt, is_succeeded,
}
use hop_and_barley_store.Payments.Matching.Laws.{IsPaidFor, matches-IsPaidFor}
use hop_and_barley_store.Payments.Yields.{
  Yields, by_pure, by_reads, by_modify, by_require, by_lookup, by_bind, by_then, by_branch, by_call,
}
use hop_and_barley_store.Payments.Service.{
  find_order, write_attempt, set_succeeded, consume_claim, mark_payment_attempt_succeeded,
}
use hop_and_barley_store.Payments.Service.Evolution.{lock_attempt-Yields, lock_user-Yields}

-- The order is paid for this attempt, and the attempt has succeeded.
abbrev pub Succeeds : PaymentDatabase → ℕ → ℕ → PaymentDatabase → Type 0
Succeeds db i order_id db' =
    (a : PaymentAttempt) × (order : Order) × (find_attempt i db.attempts ≡ some a)
    × (find_order order_id db.store.orders ≡ some order)
    × IsPaidFor order a i
    × ((b : PaymentAttempt) × (find_attempt i db'.attempts ≡ some b)
        × (is_succeeded b.status ≡ true))

find_attempt-update :
    (i : ℕ) (f : PaymentAttempt → PaymentAttempt) (rows : List PaymentAttempt) (a : PaymentAttempt)
    → ((x : PaymentAttempt) → (f x).snapshot ≡ x.snapshot)
    → find_attempt i rows ≡ some a
    → find_attempt i (update_attempt i f rows) ≡ some (f a)
unfolding find_attempt update_attempt
find_attempt-update i f [] a k h = absurd (ground arith)
find_attempt-update i f (x ∷ rows) a k h = elim (Bool-cases (x.snapshot.id == i)) [
  | inl e ↦
      let same : x ≡ a = ground (arith, e) in
      let own : ((f x).snapshot.id == i) ≡ true = ap (λ (z : Snapshot). z.id == i) (k x) ∙ e in
      rw e (rw own (ap (λ z. some (f z)) same))
  | inr e ↦ rw e (rw e (find_attempt-update i f rows a k (ground (arith, e))))
]

consume_claim-attempts :
    (db : PaymentDatabase) (i order_id now : ℕ)
    → Yields (consume_claim i order_id now) db λ u s. s.attempts ≡ db.attempts
unfolding consume_claim
consume_claim-attempts db i order_id now =
    by_bind (by_reads _ (by_then (by_modify _ (by_require _ _ λ consumed. refl))))

succeed-Succeeds :
    (db : PaymentDatabase) (i order_id now : ℕ)
    → Yields (mark_payment_attempt_succeeded i order_id now) db λ u s. Succeeds db i order_id s
unfolding mark_payment_attempt_succeeded write_attempt
succeed-Succeeds db i order_id now = by_bind (
    by_lookup _ _ λ initial there. by_then (
      lock_user-Yields db i _ (
        by_bind (
          lock_attempt-Yields db i λ a found. by_bind (
            by_lookup _ _ λ order placed. by_then (
              by_require _ _ λ matching.
                let paid = matches-IsPaidFor order a i matching in
                by_branch _
                  (λ again. by_bind (
                    by_reads _ (
                      by_require _ _
                        λ claimed. (a, order, found, placed, paid, (a, found, again)))))
                  λ new. by_then (
                    by_require _ _ λ started. by_then (
                      by_modify _ (
                        let done =
                          find_attempt-update i (set_succeeded now) db.attempts a (λ x. refl)
                            found in
                        by_branch _
                          (λ d. by_call (consume_claim-attempts _ i order_id now) λ u s same. (
                            a,
                            order,
                            found,
                            placed,
                            paid,
                            (set_succeeded now a, ap (find_attempt i) same ∙ done, refl),
                          ))
                          λ d. by_pure _ (
                            a,
                            order,
                            found,
                            placed,
                            paid,
                            (set_succeeded now a, done, refl),
                          ))))))))))

-- A payment attempt succeeds only with a paid order of its own, placed for its very lines, discount
-- and total and under the reference of its payment at the provider.
pub success_is_paid_for :
    (db : PaymentDatabase) (i order_id now : ℕ) {u : Unit {0}} {db' : PaymentDatabase}
    → mark_payment_attempt_succeeded i order_id now db ≡ ok (u, db')
    → Succeeds db i order_id db'
success_is_paid_for db i order_id now {u} {db'} h =
    (succeed-Succeeds db i order_id now).holds u db' h
