-- ===== src/Store/Retry/Laws.antt =====
-- How long the loop runs and what comes of it.
use hop_and_barley_store.Prelude.{
  ℕ, zero, suc, ◌+◌, ◌≤◌, ◌<◌, ◌≡◌, ◌⊎◌, inl, inr, refl, sym, subst, Bool, true, false, not, List,
  [], ◌∷◌, length, arith, ◌==◌, ◌||◌, if◌then◌else◌, Bool-cases,
}
use hop_and_barley_store.Store.Thrown.{Value, is_p2034, is_retryable_serialization}
use hop_and_barley_store.Store.Retry.{
  Outcome, returned, thrown, ceiling, run_serializable, max_attempts, run_cart_serializable,
  run_order_serializable, serializable,
}

abbrev pub sum : List ℕ → ℕ
sum [] = 0
sum (x ∷ xs) = x + sum xs

Outcome-cases :
    {A W : Type 0} (x : Outcome A × W)
    → ((a : A) × (w : W) × (x ≡ (returned a, w))) ⊎ ((e : Value) × (w : W) × (x ≡ (thrown e, w)))
Outcome-cases (returned a, w) = inl (a, w, refl)
Outcome-cases (thrown e, w) = inr (e, w, refl)

module _ {A W : Type 0} (is_retryable : Value → Bool) (attempt_in : W → Outcome A × W) where
  -- From attempt `attempt` in world `w` the outcome is `r` in world `w'` after `slept`: the attempts
  -- before the last threw errors worth another attempt, and the last one returned, or threw an
  -- error that is not, or was the eighth.
  pub data Settles : (attempt : ℕ) (w : W) (r : Outcome A) (w' : W) (retries : ℕ) → Type 0 where
    returns :
        {n : ℕ} {w w' : W} {a : A} → attempt_in w ≡ (returned a, w') → Settles n w (returned a) w' 0
    gives_up :
        {n : ℕ} {w w' : W} {e : Value}
        → attempt_in w ≡ (thrown e, w')
        → (is_retryable e ≡ false) ⊎ (n ≡ 8)
        → Settles n w (thrown e) w' 0
    retries :
        {n k : ℕ} {w w' w'' : W} {e : Value} {r : Outcome A}
        → attempt_in w ≡ (thrown e, w')
        → is_retryable e ≡ true
        → n < 8
        → Settles (suc n) w' r w'' k
        → Settles n w r w'' (suc k)

  -- What the loop gives when it starts at attempt `n` in world `w`.
  abbrev SettlesTo : ℕ → W → Outcome A × W × List ℕ → Type 0
  SettlesTo n w (r, w', slept) = Settles n w r w' (length slept)

  -- The loop settles after at most seven retries, which sleep for at most 355 ms in all.
  pub record IsBoundedRun (w : W) (x : Outcome A × W × List ℕ) : Type 0 where
    pub settles : SettlesTo 1 w x
    pub few : length x.2 ≤ 7
    pub short : sum x.2 ≤ 355

  -- The ceilings of the delays from attempt `n` on, of `left` attempts.
  abbrev ceilings : ℕ → ℕ → ℕ
  ceilings zero n = 0
  ceilings (suc left) n = (if n == 8 then 0 else ceiling n) + ceilings left (suc n)

  Settles-few : {n k : ℕ} {w w' : W} {r : Outcome A} → Settles n w r w' k → n ≤ 8 → k + n ≤ 8
  Settles-few (returns e) l = omega arith
  Settles-few (gives_up e why) l = omega arith
  Settles-few (retries e t b s) l = omega (arith, Settles-few s (omega arith))

  module _ (jitter : ℕ → ℕ → ℕ) where
    run_returned :
        (left n : ℕ) (w : W) {a : A} {w' : W}
        → attempt_in w ≡ (returned a, w')
        → run_serializable is_retryable jitter attempt_in (suc left) n w ≡ (returned a, w', [])
    unfolding run_serializable
    run_returned left n w e = ground (arith, e)

    run_thrown :
        (left n : ℕ) (w : W) {x : Value} {w' : W}
        → attempt_in w ≡ (thrown x, w')
        → run_serializable is_retryable jitter attempt_in (suc left) n w ≡ (
            if not (is_retryable x) || n == 8 then (thrown x, w', []) else (
              (run_serializable is_retryable jitter attempt_in left (suc n) w').0,
              (run_serializable is_retryable jitter attempt_in left (suc n) w').1,
              jitter n (ceiling n)
                  ∷ (run_serializable is_retryable jitter attempt_in left (suc n) w').2,
            ))
    unfolding run_serializable
    run_thrown left n w e = ground (arith, e)

    run_serializable-SettlesTo :
        (left n : ℕ) (w : W)
        → left + n ≡ 9
        → 1 ≤ left
        → SettlesTo n w (run_serializable is_retryable jitter attempt_in left n w)
    run_serializable-SettlesTo zero n w e l = absurd (omega arith)
    run_serializable-SettlesTo (suc left) n w e l = elim (Outcome-cases (attempt_in w)) [
      | inl (a, w', e') ↦ subst (SettlesTo n w) (sym (run_returned left n w e')) (returns e')
      | inr (x, w', e') ↦
          subst (SettlesTo n w) (sym (run_thrown left n w e')) (elim (Bool-cases (is_retryable x)) [
            | inr f ↦ rw (f) (gives_up e' (inl f))
            | inl t ↦ elim (Bool-cases (n == 8)) [
              | inl m ↦ rw (t, m) (gives_up e' (inr (ground arith)))
              | inr m ↦
                  rw (t, m)
                    (retries e' t (ground arith)
                      (run_serializable-SettlesTo left (suc n) w' (omega arith) (ground arith)))
            ]
          ])
    ]

    sum-run :
        ((n c : ℕ) → jitter n c ≤ c)
        → (left n : ℕ) (w : W)
        → sum (run_serializable is_retryable jitter attempt_in left n w).2 ≤ ceilings left n
    unfolding run_serializable
    sum-run j zero n w = ground arith
    sum-run j (suc left) n w = elim (Outcome-cases (attempt_in w)) [
      | inl (a, w', e') ↦ ground (arith, run_returned left n w e')
      | inr (x, w', e') ↦
          ground (arith, run_thrown left n w e', sum-run j left (suc n) w', j n (ceiling n))
    ]

    ceilings-sum : ceilings 8 1 ≡ 355
    unfolding ceiling
    ceilings-sum = refl

    run_serializable-IsBoundedRun :
        ((n c : ℕ) → jitter n c ≤ c)
        → (w : W)
        → IsBoundedRun w (run_serializable is_retryable jitter attempt_in max_attempts 1 w)
    run_serializable-IsBoundedRun j w =
        let settles = run_serializable-SettlesTo 8 1 w refl (omega arith) in
        record {
          settles = settles;
          few = omega (arith, Settles-few settles (omega arith));
          short = omega (arith, sum-run j 8 1 w, ceilings-sum);
        }

module _ {A W : Type 0} (attempt_in : W → Outcome A × W) (jitter : ℕ → ℕ → ℕ) where
  -- If a random delay stays within its ceiling, each of the three loops settles: all attempts but
  -- the last threw an error worth another attempt, and the last one returned, or threw another
  -- error, or was the eighth; there are at most seven delays, of at most 355 ms in all.
  pub serializable-IsBoundedRun :
      ((n c : ℕ) → jitter n c ≤ c)
      → (w : W)
      → IsBoundedRun is_retryable_serialization attempt_in w
          (run_cart_serializable jitter attempt_in w)
        × IsBoundedRun is_retryable_serialization attempt_in w
            (run_order_serializable jitter attempt_in w)
        × IsBoundedRun is_p2034 attempt_in w (serializable jitter attempt_in w)
  unfolding run_cart_serializable run_order_serializable serializable
  serializable-IsBoundedRun j w = (
    run_serializable-IsBoundedRun is_retryable_serialization attempt_in jitter j w,
    run_serializable-IsBoundedRun is_retryable_serialization attempt_in jitter j w,
    run_serializable-IsBoundedRun is_p2034 attempt_in jitter j w,
  )
