-- ===== src/Auth/RateLimiter/Accepts.antt =====
-- When a limiter accepts a call.
use hop_and_barley_store.Prelude.{
  ℕ, ◌<◌, ◌≡◌, ◌↔◌, ◌⊎◌, inl, inr, true, false, length, arith, String, Bool-cases, ap, ◌∙◌,
}
use hop_and_barley_store.Auth.RateLimiter.{
  Attempts, BucketLimits, recent, is_over, is_full, prune_expired, consume, consume_tracked,
  hour_ms, minute_ms,
}
use hop_and_barley_store.Auth.RateLimiter.Entries.{IsMap, times_of, times_of-prune_expired}
use hop_and_barley_store.Auth.RateLimiter.Laws.{recent-recent}

module _ (limits : BucketLimits) (x : String) (now : ℕ) where
  -- Both windows have room for one more call.
  abbrev pub IsWithin : Attempts → Type 0
  IsWithin m =
      (length (recent hour_ms now (times_of x m)) < limits.hour)
      × (length (recent minute_ms now (times_of x m)) < limits.minute)

  tracked_iff : (m : Attempts) → ((consume_tracked limits x now m).0 ≡ true) ↔ IsWithin m
  unfolding consume_tracked is_over
  tracked_iff m = ground (arith, recent-recent minute_ms now hour_ms now (times_of x m))

  module _ (m : Attempts) (k : IsMap m) where
    pruned_hour :
        recent hour_ms now (times_of x (prune_expired now m)) ≡ recent hour_ms now (times_of x m)
    pruned_hour =
        ap (recent hour_ms now) (times_of-prune_expired x now m k)
        ∙ recent-recent hour_ms now hour_ms now (times_of x m) (omega arith)

    pruned_minute :
        recent minute_ms now (times_of x (prune_expired now m))
        ≡ recent minute_ms now (times_of x m)
    pruned_minute =
        ap (recent minute_ms now) (times_of-prune_expired x now m k)
        ∙ recent-recent minute_ms now hour_ms now (times_of x m) (omega arith)

    -- If no identity has two entries, a call is accepted just when both windows have room for it and
    -- the identity has a place: the map is not full for it, or not after the old times are gone.
    pub consume_iff :
        ((consume limits x now m).0 ≡ true)
        ↔ (IsWithin m × ((is_full x m ≡ false) ⊎ (is_full x (prune_expired now m) ≡ false)))
    unfolding consume
    consume_iff = elim (Bool-cases (is_full x m)) [
      | inr e ↦ ground (arith, e, tracked_iff m)
      | inl e ↦ elim (Bool-cases (is_full x (prune_expired now m))) [
        | inl f ↦ ground (arith, e, f)
        | inr f ↦
            ground (arith, e, f, tracked_iff (prune_expired now m), pruned_hour, pruned_minute)
      ]
    ]
