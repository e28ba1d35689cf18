-- ===== src/Payments/Service/Evolution.antt =====
-- What becomes of a payment attempt: what its snapshot says and the provider's reference never
-- change, and an attempt that is settled stays as it ended.
use hop_and_barley_store.Prelude.{
  ℕ, ◌≡◌, refl, sym, ap, subst, not, ◌||◌, is_some, ◌∙◌, true, false, List, [], ◌∷◌, ◌==◌, Option,
  none, some, String, inl, inr, arith, Bool-cases,
}
use hop_and_barley_store.Payments.{PaymentDatabase}
use hop_and_barley_store.Payments.Attempts.{
  PaymentAttempt, find_attempt, update_attempt, is_unsettled, is_started,
}
use hop_and_barley_store.Payments.Claims.Held.{
  FewerHeld, FewerHeld-refl, FewerHeld-trans, update_claimed-held,
}
use hop_and_barley_store.Payments.Matching.{same_text}
use hop_and_barley_store.Payments.Matching.Laws.{same_text-eq}
use hop_and_barley_store.Payments.Yields.{
  Yields, by_pure, by_reads, by_modify, by_require, by_lookup, by_bind, by_then, by_branch, by_call,
}
use hop_and_barley_store.Payments.Service.{
  Outcome, unsettled_row, failed, cancelled_unpaid, lock_attempt, write_attempt, update_unsettled,
  mark_pending, set_pending, mark_provider_session_created, mark_reconciliation_required,
  release_definitive_outcome, end_attempt, release_claim, set_consumed, to_reconcile, lock_user,
  consume_claim, set_succeeded, mark_payment_attempt_succeeded,
}

abbrev pub Evolves : PaymentAttempt → PaymentAttempt → Type 0
Evolves a b =
    (b.snapshot ≡ a.snapshot)
    × (b.snapshot_sealed_at ≡ a.snapshot_sealed_at)
    × ((r : String) → a.provider_payment_reference ≡ some r → b.provider_payment_reference ≡ some r)
    × (is_unsettled a.status ≡ false → b.status ≡ a.status)

pub Evolves-refl : (a : PaymentAttempt) → Evolves a a
Evolves-refl a = (refl, refl, λ r h. h, λ h. refl)

pub Evolves-trans : (a b c : PaymentAttempt) → Evolves a b → Evolves b c → Evolves a c
Evolves-trans a b c (s, z, r, t) (s', z', r', t') =
    (s' ∙ s, z' ∙ z, λ q h. r' q (r q h), λ h. ground (arith, t h, t'))

abbrev pub AllEvolve : List PaymentAttempt → List PaymentAttempt → Type 0
AllEvolve olds news =
    (i : ℕ) (a : PaymentAttempt)
    → find_attempt i olds ≡ some a
    → (b : PaymentAttempt) × (find_attempt i news ≡ some b) × Evolves a b

pub AllEvolve-refl : (rows : List PaymentAttempt) → AllEvolve rows rows
AllEvolve-refl rows i a h = (a, h, Evolves-refl a)

pub AllEvolve-trans : (x y z : List PaymentAttempt) → AllEvolve x y → AllEvolve y z → AllEvolve x z
AllEvolve-trans x y z f g i a h =
    let (b, hb, eb) = f i a h in let (c, hc, ec) = g i b hb in (c, hc, Evolves-trans a b c eb ec)

-- The attempts evolve, no receipt of a webhook comes or goes, and no user holds another discount.
abbrev pub Moves : PaymentDatabase → PaymentDatabase → Type 0
Moves db db' =
    AllEvolve db.attempts db'.attempts
    × (db'.receipts ≡ db.receipts)
    × FewerHeld db.claims db'.claims

pub Moves-refl : (db : PaymentDatabase) → Moves db db
Moves-refl db = (AllEvolve-refl db.attempts, refl, FewerHeld-refl db.claims)

pub Moves-trans : (x y z : PaymentDatabase) → Moves x y → Moves y z → Moves x z
Moves-trans x y z (f, p, h) (g, q, k) = (
  AllEvolve-trans x.attempts y.attempts z.attempts f g,
  q ∙ p,
  FewerHeld-trans x.claims y.claims z.claims h k,
)

find_attempt-id :
    (i : ℕ) (rows : List PaymentAttempt) (a : PaymentAttempt)
    → find_attempt i rows ≡ some a
    → (a.snapshot.id == i) ≡ true
unfolding find_attempt
find_attempt-id i [] a h = ground arith
find_attempt-id i (x ∷ rows) a h = ground (arith, find_attempt-id i rows a)

pub update_attempt-AllEvolve :
    (i : ℕ) (f : PaymentAttempt → PaymentAttempt) (rows : List PaymentAttempt)
    → ((a : PaymentAttempt) → find_attempt i rows ≡ some a → Evolves a (f a))
    → AllEvolve rows (update_attempt i f rows)
unfolding find_attempt update_attempt
update_attempt-AllEvolve i f [] k j a h = absurd (ground arith)
update_attempt-AllEvolve i f (x ∷ rows) k j a h = elim (Bool-cases (x.snapshot.id == i)) [
  | inl e ↦
      let step : Evolves x (f x) = k x (ground (arith, e)) in
      elim (Bool-cases (x.snapshot.id == j)) [
        | inl g ↦
            let found : x ≡ a = ground (arith, g) in
            (f x, rw (e, step.0) (ground (arith, g)), subst (λ z. Evolves z (f x)) found step)
        | inr g ↦ (a, rw (e, step.0) (ground (arith, g)), Evolves-refl a)
      ]
  | inr e ↦ elim (Bool-cases (x.snapshot.id == j)) [
    | inl g ↦ (a, rw e (ground (arith, g)), Evolves-refl a)
    | inr g ↦
        let (b, q, s) =
          update_attempt-AllEvolve i f rows (λ y hy. k y (ground (arith, e))) j a
            (ground (arith, g)) in
        (b, rw e (ground (arith, g)), s)
  ]
]

pub same_row {ℓ} : {A : Type ℓ} {o : Option A} {a x : A} → o ≡ some a → o ≡ some x → a ≡ x
same_row e g = ground (arith, e, g)

set_pending-Evolves :
    (a x : PaymentAttempt) (reference : String) (now : ℕ)
    → a ≡ x
    → (not (is_some a.provider_payment_reference)
        || same_text a.provider_payment_reference (some reference))
      ≡ true
    → is_unsettled x.status ≡ true
    → Evolves x (set_pending reference now x)
set_pending-Evolves a x reference now same held u = (
  refl,
  refl,
  λ r e.
      let found : a.provider_payment_reference ≡ some r =
        ap (λ (z : PaymentAttempt). z.provider_payment_reference) same ∙ e in
      sym (same_text-eq (some r) (some reference) (ground (arith, held, found))),
  λ e. absurd (ground (arith, e, u)),
)

end_attempt-Evolves :
    (a x : PaymentAttempt) (outcome : Outcome) (now : ℕ)
    → a ≡ x
    → not (is_unsettled a.status) ≡ false
    → Evolves x (end_attempt outcome now x)
end_attempt-Evolves a x failed now e u =
    (refl, refl, λ r h. h, λ h. absurd (ground (arith, e, u, h)))
end_attempt-Evolves a x cancelled_unpaid now e u =
    (refl, refl, λ r h. h, λ h. absurd (ground (arith, e, u, h)))

set_succeeded-Evolves :
    (a x : PaymentAttempt) (now : ℕ)
    → a ≡ x
    → is_started a.status ≡ true
    → Evolves x (set_succeeded now x)
set_succeeded-Evolves a x now e started =
    (refl, refl, λ r h. h, λ h. absurd (ground (arith, e, started, h)))

-- What the test of an `updateMany` says of the row that is there.
unsettled_found :
    (o : Option PaymentAttempt) (a : PaymentAttempt)
    → unsettled_row o ≡ true
    → o ≡ some a
    → is_unsettled a.status ≡ true
unsettled_found o a h e = ground (arith, e)

module _ (db : PaymentDatabase) (i : ℕ) where
  abbrev pub Evolved : {A : Type 0} → A → PaymentDatabase → Type 0
  Evolved a db' = Moves db db'

  -- What a lock finds.
  pub lock_attempt-Yields :
      {Q : PaymentAttempt → PaymentDatabase → Type 0}
      → ((a : PaymentAttempt) → find_attempt i db.attempts ≡ some a → Q a db)
      → Yields (lock_attempt i) db Q
  unfolding lock_attempt
  lock_attempt-Yields q =
      by_bind (by_lookup _ _ λ a found. by_then (by_require _ _ λ sealed. by_pure _ (q a found)))

  pub update_unsettled-Evolved :
      (f : PaymentAttempt → PaymentAttempt)
      → ((a : PaymentAttempt)
          → find_attempt i db.attempts ≡ some a
          → is_unsettled a.status ≡ true
          → Evolves a (f a))
      → Yields (update_unsettled i f) db Evolved
  unfolding update_unsettled write_attempt
  update_unsettled-Evolved f k = by_bind (
      by_reads _ (
        by_then (
          by_require _ _ λ matches. by_modify _ (
            update_attempt-AllEvolve i f db.attempts
                (λ a found. k a found (unsettled_found _ a matches found)),
            refl,
            FewerHeld-refl db.claims,
          ))))

  pub mark_reconciliation_required-Evolved :
      (now : ℕ) → Yields (mark_reconciliation_required i now) db Evolved
  unfolding mark_reconciliation_required
  mark_reconciliation_required-Evolved now = by_bind (
      lock_attempt-Yields λ a found.
        update_unsettled-Evolved (to_reconcile now)
          λ x q u. (refl, refl, λ r e. e, λ e. absurd (ground (arith, u))))

  pub mark_provider_session_created-Evolved :
      (trim : String → String) (session : String) (expires now : ℕ)
      → Yields (mark_provider_session_created trim i session expires now) db Evolved
  unfolding mark_provider_session_created
  mark_provider_session_created-Evolved trim session expires now = by_then (
      by_require _ _ λ filled. by_bind (
        lock_attempt-Yields λ a found. by_then (
          by_require _ _ λ same. by_then (
            by_require _ _ λ bare.
              update_unsettled-Evolved _
                λ x q u. (refl, refl, λ r e. e, λ e. absurd (ground (arith, u)))))))

  pub mark_pending-Evolved :
      (trim : String → String) (reference : String) (now : ℕ)
      → Yields (mark_pending trim i reference now) db Evolved
  unfolding mark_pending
  mark_pending-Evolved trim reference now = by_then (
      by_require _ _ λ filled. by_bind (
        lock_attempt-Yields λ a found. by_then (
          by_require _ _ λ held.
            by_branch _ (λ done. by_pure _ (Moves-refl db))
              λ new.
                update_unsettled-Evolved (set_pending (trim reference) now)
                  λ x q u. set_pending-Evolves a x (trim reference) now (same_row found q) held u)))

  pub release_definitive_outcome-Evolved :
      (outcome : Outcome) (now : ℕ) → Yields (release_definitive_outcome i outcome now) db Evolved
  unfolding release_definitive_outcome write_attempt
  release_definitive_outcome-Evolved outcome now = by_bind (
      lock_attempt-Yields λ a found.
        by_branch _ (λ settled. by_require _ _ λ done. Moves-refl db)
          λ unsettled. by_then (
            by_modify _ (
              by_modify _ (
                update_attempt-AllEvolve i (end_attempt outcome now) db.attempts
                    (λ x q. end_attempt-Evolves a x outcome now (same_row found q) unsettled),
                refl,
                λ u. update_claimed-held u i (release_claim outcome now) (λ c. refl) db.claims,
              ))))

  -- The locks and the consumption of a claim leave the attempts alone.
  pub lock_user-Yields :
      (owner : Option ℕ) {Q : Unit {0} → PaymentDatabase → Type 0}
      → Q tt db
      → Yields (lock_user owner) db Q
  unfolding lock_user
  lock_user-Yields none q = by_pure _ q
  lock_user-Yields (some user_id) q = by_bind (by_lookup _ _ λ u found. by_pure _ q)

consume_claim-Keeps :
    (db : PaymentDatabase) (i order_id now : ℕ)
    → Yields (consume_claim i order_id now) db (λ u s.
      (s.attempts ≡ db.attempts) × (s.receipts ≡ db.receipts) × FewerHeld db.claims s.claims)
unfolding consume_claim
consume_claim-Keeps db i order_id now = by_bind (
    by_reads _ (
      by_then (
        by_modify _ (
          by_require _ _ λ consumed. (
            refl,
            refl,
            λ u. update_claimed-held u i (set_consumed order_id now) (λ c. refl) db.claims,
          )))))

pub mark_payment_attempt_succeeded-Evolved :
    (db : PaymentDatabase) (i order_id now : ℕ)
    → Yields (mark_payment_attempt_succeeded i order_id now) db (Evolved db i)
unfolding mark_payment_attempt_succeeded write_attempt
mark_payment_attempt_succeeded-Evolved db i order_id now = by_bind (
    by_lookup _ _ λ initial there. by_then (
      lock_user-Yields db i _ (
        by_bind (
          lock_attempt-Yields db i λ a found. by_bind (
            by_lookup _ _ λ order placed. by_then (
              by_require _ _ λ matching.
                by_branch _
                  (λ again. by_bind (by_reads _ (by_require _ _ λ claimed. Moves-refl db)))
                  λ new. by_then (
                    by_require _ _ λ started. by_then (
                      by_modify _ (
                        let stepped =
                          update_attempt-AllEvolve i (set_succeeded now) db.attempts
                            λ x q. set_succeeded-Evolves a x now (same_row found q) started in
                        by_branch _
                          (λ d.
                            by_call (consume_claim-Keeps _ i order_id now)
                              λ u s (rows, kept, fewer). (
                                subst (λ z. AllEvolve db.attempts z) (sym rows) stepped,
                                kept,
                                fewer,
                              ))
                          λ d. by_pure _ (stepped, refl, FewerHeld-refl db.claims))))))))))
