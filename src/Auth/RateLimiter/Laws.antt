-- ===== src/Auth/RateLimiter/Laws.antt =====
-- What one call does to the times that are kept of each identity.
use text.Mathlib.Text.{◌==◌ as str_eq}
use hop_and_barley_store.Prelude.{
  ℕ, ◌+◌, ◌≤◌, ◌<◌, ◌≡◌, refl, ap, ◌∙◌, Bool, true, false, ◌&&◌, List, [], ◌∷◌, ◌++◌, String,
  if◌then◌else◌, length, arith, inl, inr, Bool-cases,
}
use hop_and_barley_store.Auth.RateLimiter.{
  Attempts, BucketLimits, recent, store, prune_expired, consume_tracked, is_over, is_full, consume,
  hour_ms, minute_ms, max_tracked_identities,
}
use hop_and_barley_store.Auth.RateLimiter.Entries.{
  IsMap, times_of, same, times_of-store, store-IsMap, prune_expired-IsMap, times_of-prune_expired,
  length-store, length-prune_expired,
}

-- The times that are recent in a later or shorter window are so in an earlier or longer one.
pub recent-recent :
    (w t v s : ℕ) (ts : List ℕ) → s + w ≤ t + v → recent w t (recent v s ts) ≡ recent w t ts
recent-recent w t v s [] h = refl
recent-recent w t v s (x ∷ ts) h = ground (arith, recent-recent w t v s ts h)

pub recent-append :
    (w t : ℕ) (ss ts : List ℕ) → recent w t (ss ++ ts) ≡ recent w t ss ++ recent w t ts
recent-append w t [] ts = refl
recent-append w t (x ∷ ss) ts = ground (arith, recent-append w t ss ts)

-- One call at `now` for `identity`: it accepts only within both limits, and keeps of each identity
-- the times of the last hour, and its own time if it accepts.
pub record Consumes (limits : BucketLimits) (identity : String) (now : ℕ) (m : Attempts)
    (accepted : Bool) (m' : Attempts) : Type 0 where
  pub is_map : IsMap m'
  pub kept :
      (y : String)
      → recent hour_ms now (times_of y m') ≡ (
          if accepted && str_eq identity y
          then recent hour_ms now (times_of y m) ++ now ∷ []
          else recent hour_ms now (times_of y m))
  pub within :
      accepted ≡ true
      → (length (recent hour_ms now (times_of identity m)) < limits.hour)
        × (length (recent minute_ms now (times_of identity m)) < limits.minute)

module _ (limits : BucketLimits) (x : String) (now : ℕ) (m : Attempts) (k : IsMap m) where
  abbrev IsConsumed : Bool × Attempts → Type 0
  IsConsumed (accepted, m') = Consumes limits x now m accepted m'

  abbrev retained : List ℕ
  retained = recent hour_ms now (times_of x m)

  twice :
      (y : String)
      → recent hour_ms now (recent hour_ms now (times_of y m)) ≡ recent hour_ms now (times_of y m)
  twice y = recent-recent hour_ms now hour_ms now (times_of y m) (omega arith)

  kept_by :
      (ts : List ℕ) (y : String)
      → recent hour_ms now (times_of y (store x ts m))
        ≡ (if str_eq x y then recent hour_ms now ts else recent hour_ms now (times_of y m))
  kept_by ts y = elim (Bool-cases (str_eq x y)) [
    | inl e ↦ rw (times_of-store x y ts m k, e) refl
    | inr e ↦ rw (times_of-store x y ts m k, e) refl
  ]

  own : (y : String) → str_eq x y ≡ true → retained ≡ recent hour_ms now (times_of y m)
  own y e = ap (λ z. recent hour_ms now (times_of z m)) (same x y e)

  rejects : IsConsumed (false, store x retained m)
  rejects = record {
    is_map = store-IsMap x retained m k;
    kept = λ y. elim (Bool-cases (str_eq x y)) [
      | inl e ↦ kept_by retained y ∙ rw (e) (twice x ∙ own y e)
      | inr e ↦ kept_by retained y ∙ rw (e) refl
    ];
    within = λ e. absurd (ground arith);
  }

  accepts :
      is_over limits now retained ≡ false → IsConsumed (true, store x (retained ++ now ∷ []) m)
  unfolding is_over
  accepts e = record {
    is_map = store-IsMap x (retained ++ now ∷ []) m k;
    kept = λ y. elim (Bool-cases (str_eq x y)) [
      | inl e' ↦
          kept_by (retained ++ now ∷ []) y
          ∙ rw (e')
              (recent-append hour_ms now retained (now ∷ []) ∙ ground (arith, twice x, own y e'))
      | inr e' ↦ kept_by (retained ++ now ∷ []) y ∙ rw (e') refl
    ];
    within = λ e'. ground (arith, recent-recent minute_ms now hour_ms now (times_of x m));
  }

  consume_tracked-IsConsumed : IsConsumed (consume_tracked limits x now m)
  unfolding consume_tracked
  consume_tracked-IsConsumed = elim (Bool-cases (is_over limits now retained)) [
    | inl e ↦ rw (e) rejects
    | inr e ↦ rw (e) (accepts e)
  ]

  consume_tracked-size :
      length m ≤ max_tracked_identities
      → is_full x m ≡ false
      → length (consume_tracked limits x now m).1 ≤ max_tracked_identities
  unfolding consume_tracked
  consume_tracked-size h f = elim (Bool-cases (is_over limits now retained)) [
    | inl e ↦ rw (e) (length-store x retained m h f)
    | inr e ↦ rw (e) (length-store x (retained ++ now ∷ []) m h f)
  ]

  pruned_same :
      (y : String)
      → recent hour_ms now (times_of y (prune_expired now m)) ≡ recent hour_ms now (times_of y m)
  pruned_same y = ap (recent hour_ms now) (times_of-prune_expired y now m k) ∙ twice y

  pruned_same_minute :
      (y : String)
      → recent minute_ms now (times_of y (prune_expired now m))
        ≡ recent minute_ms now (times_of y m)
  pruned_same_minute y =
      ap (recent minute_ms now) (times_of-prune_expired y now m k)
      ∙ recent-recent minute_ms now hour_ms now (times_of y m) (omega arith)

module _ (limits : BucketLimits) (x : String) (now : ℕ) (m : Attempts) (k : IsMap m) where
  from_pruned :
      (r : Bool × Attempts)
      → IsConsumed limits x now (prune_expired now m) (prune_expired-IsMap now m k) r
      → IsConsumed limits x now m k r
  from_pruned (accepted, m') c = record {
    is_map = c.is_map;
    kept = λ y. c.kept y ∙ rw (pruned_same limits x now m k y) refl;
    within = λ e.
        rw (pruned_same limits x now m k x, pruned_same_minute limits x now m k x) at (c.within e);
  }

  pruned_rejects : IsConsumed limits x now m k (false, prune_expired now m)
  pruned_rejects = record {
    is_map = prune_expired-IsMap now m k;
    kept = λ y. pruned_same limits x now m k y;
    within = λ e. absurd (ground arith);
  }

  -- If no identity has two entries, a call accepts only within both limits, and keeps of each
  -- identity the times of the last hour and, if it accepts, its own time; then no identity has two
  -- entries, and at most 10_000 identities have entries if they were as few.
  pub consume-Consumes :
      (Consumes limits x now m (consume limits x now m).0 (consume limits x now m).1)
      × (length m ≤ max_tracked_identities
          → length (consume limits x now m).1 ≤ max_tracked_identities)
  unfolding consume
  consume-Consumes = (
    elim (Bool-cases (is_full x m)) [
      | inr e ↦ rw (e) (consume_tracked-IsConsumed limits x now m k)
      | inl e ↦ elim (Bool-cases (is_full x (prune_expired now m))) [
        | inl f ↦ rw (e, f) pruned_rejects
        | inr f ↦
            rw (e, f)
              (from_pruned (consume_tracked limits x now (prune_expired now m)) (
                consume_tracked-IsConsumed limits x now (prune_expired now m)
                  (prune_expired-IsMap now m k)))
      ]
    ],
    λ h. elim (Bool-cases (is_full x m)) [
      | inr e ↦ rw (e) (consume_tracked-size limits x now m k h e)
      | inl e ↦ elim (Bool-cases (is_full x (prune_expired now m))) [
        | inl f ↦ rw (e, f) (omega (arith, length-prune_expired now m))
        | inr f ↦
            rw (e, f)
              (consume_tracked-size limits x now (prune_expired now m) (prune_expired-IsMap now m k)
                (omega (arith, length-prune_expired now m)) f)
      ]
    ],
  )
