-- ===== src/Auth/RateLimiter/History.antt =====
-- The calls that a limiter accepts in the course of time.
use text.Mathlib.Text.{◌==◌ as str_eq}
use hop_and_barley_store.Prelude.{
  ℕ, ◌+◌, ◌≤◌, ◌<◌, ◌≡◌, refl, sym, ap, ◌∙◌, Bool, true, false, ◌&&◌, List, [], ◌∷◌, ◌++◌, length,
  length-append, length-keep_if-le, String, if◌then◌else◌, arith, inl, inr, Bool-cases, ltb,
}
use hop_and_barley_store.Auth.RateLimiter.{
  Attempts, BucketLimits, get, recent, consume, hour_ms, minute_ms, max_tracked_identities,
}
use hop_and_barley_store.Auth.RateLimiter.Entries.{IsMap, times_of, same}
use hop_and_barley_store.Auth.RateLimiter.Laws.{
  Consumes, consume-Consumes, recent-recent, recent-append,
}

module _ (limits : BucketLimits) where
  -- After calls at times up to `now` that did not go back, the limiter keeps `m`, and `log` has the
  -- times of the calls that it accepted for each identity.
  pub data History : (now : ℕ) (m : Attempts) (log : String → List ℕ) → Type 0 where
    starts : History 0 [] (λ y. [])
    consumes :
        {now : ℕ} {m : Attempts} {log : String → List ℕ}
        → History now m log
        → (identity : String) (time : ℕ) → now ≤ time
        → History time (consume limits identity time m).1 (λ y.
          if (consume limits identity time m).0 && str_eq identity y
          then log y ++ time ∷ []
          else log y)

  record Tracks (now : ℕ) (m : Attempts) (log : String → List ℕ) : Type 0 where
    is_map : IsMap m
    few : length m ≤ max_tracked_identities
    same_times : (y : String) → recent hour_ms now (log y) ≡ recent hour_ms now (times_of y m)
    hourly : (y : String) → length (recent hour_ms now (log y)) ≤ limits.hour
    minutely : (y : String) → length (recent minute_ms now (log y)) ≤ limits.minute

  module _ {now : ℕ} {m : Attempts} {log : String → List ℕ} (h : Tracks now m log) (x : String)
      (t : ℕ) (later : now ≤ t) where
    still : (y : String) → recent hour_ms t (log y) ≡ recent hour_ms t (times_of y m)
    still y =
        sym (recent-recent hour_ms t hour_ms now (log y) (omega arith))
        ∙ ap (recent hour_ms t) (h.same_times y)
        ∙ recent-recent hour_ms t hour_ms now (times_of y m) (omega arith)

    still_minute : (y : String) → recent minute_ms t (log y) ≡ recent minute_ms t (times_of y m)
    still_minute y =
        sym (recent-recent minute_ms t hour_ms t (log y) (omega arith))
        ∙ ap (recent minute_ms t) (still y)
        ∙ recent-recent minute_ms t hour_ms t (times_of y m) (omega arith)

    -- A window that ends later holds no more of the times.
    fewer : (w : ℕ) (ts : List ℕ) → length (recent w t ts) ≤ length (recent w now ts)
    fewer w ts =
        rw (recent-recent w t w now ts (omega arith)) at
          (length-keep_if-le (λ a. ltb t (a + w)) (recent w now ts))

    own_time : (w : ℕ) → 1 ≤ w → recent w t (t ∷ []) ≡ t ∷ []
    own_time w h' = ground arith

    one_more : (w : ℕ) (ts : List ℕ) → 1 ≤ w → recent w t (ts ++ t ∷ []) ≡ recent w t ts ++ t ∷ []
    one_more w ts p = recent-append w t ts (t ∷ []) ∙ ap (λ z. recent w t ts ++ z) (own_time w p)

    -- A list of recent times that stays below a limit has room for one more.
    room :
        (w n : ℕ) (y : String)
        → 1 ≤ w
        → str_eq x y ≡ true
        → recent w t (log y) ≡ recent w t (times_of y m)
        → length (recent w t (times_of x m)) < n
        → length (recent w t (log y ++ t ∷ [])) ≤ n
    room w n y p e s b = omega (
      arith,
      ap length (one_more w (log y) p),
      length-append (recent w t (log y)) (t ∷ []),
      ap length s,
      ap (λ z. length (recent w t (times_of z m))) (same x y e),
    )

    Consumes-Tracks :
        (accepted : Bool) (m' : Attempts)
        → Consumes limits x t m accepted m'
        → length m' ≤ max_tracked_identities
        → Tracks t m' (λ y. if accepted && str_eq x y then log y ++ t ∷ [] else log y)
    Consumes-Tracks true m' c few = record {
      is_map = c.is_map;
      few = few;
      same_times = λ y. elim (Bool-cases (str_eq x y)) [
        | inl e ↦ rw (e) (
            one_more hour_ms (log y) (omega arith)
            ∙ ap (λ z. z ++ t ∷ []) (still y)
            ∙ sym (rw (e) at (c.kept y)))
        | inr e ↦ rw (e) (still y ∙ sym (rw (e) at (c.kept y)))
      ];
      hourly = λ y. elim (Bool-cases (str_eq x y)) [
        | inl e ↦ rw (e) (room hour_ms limits.hour y (omega arith) e (still y) (c.within refl).0)
        | inr e ↦ rw (e) (omega (arith, fewer hour_ms (log y), h.hourly y))
      ];
      minutely = λ y. elim (Bool-cases (str_eq x y)) [
        | inl e ↦
            rw (e)
              (room minute_ms limits.minute y (omega arith) e (still_minute y) (c.within refl).1)
        | inr e ↦ rw (e) (omega (arith, fewer minute_ms (log y), h.minutely y))
      ];
    }
    Consumes-Tracks false m' c few = record {
      is_map = c.is_map;
      few = few;
      same_times = λ y. still y ∙ sym (c.kept y);
      hourly = λ y. omega (arith, fewer hour_ms (log y), h.hourly y);
      minutely = λ y. omega (arith, fewer minute_ms (log y), h.minutely y);
    }

  History-Tracks :
      {now : ℕ} {m : Attempts} {log : String → List ℕ} → History now m log → Tracks now m log
  unfolding get
  History-Tracks starts = record {
    is_map = tt;
    few = omega arith;
    same_times = λ y. refl;
    hourly = λ y. omega arith;
    minutely = λ y. omega arith;
  }
  History-Tracks (consumes {now} {m} {log} h identity time later) =
      let tracks = History-Tracks h in
      let (step, few) = consume-Consumes limits identity time m tracks.is_map in
      Consumes-Tracks tracks identity time later (consume limits identity time m).0
        (consume limits identity time m).1 step (few tracks.few)

  -- At every time, and for every identity, the limiter has accepted at most the hourly number of
  -- calls in the last hour and at most the number of a minute in the last minute, and it keeps at
  -- most 10_000 identities.
  pub accepted_within_limits :
      {now : ℕ} {m : Attempts} {log : String → List ℕ}
      → History now m log
      → ((y : String)
          → (length (recent hour_ms now (log y)) ≤ limits.hour)
            × (length (recent minute_ms now (log y)) ≤ limits.minute))
        × (length m ≤ max_tracked_identities)
  accepted_within_limits h =
      let tracks = History-Tracks h in (λ y. (tracks.hourly y, tracks.minutely y), tracks.few)
