-- ===== src/Auth/RateLimiter.antt =====
-- The sliding windows of apps/api/src/auth/login-rate-limiter.ts and of
-- apps/api/src/auth/registration-rate-limiter.ts, whose class repeats the code of the first with its
-- own limits. A `Map` is the list of its entries; a time is in milliseconds.
pub mod Entries
pub mod Laws
pub mod Accepts
pub mod History
use text.Mathlib.Text.{◌==◌ as str_eq}
use hop_and_barley_store.Prelude.{
  ℕ, ◌+◌, Bool, true, false, not, ◌&&◌, ◌||◌, List, [], ◌∷◌, ◌++◌, leb, ltb, Option, none, some,
  String, if◌then◌else◌, length, keep_if, is_some,
}

abbrev pub minute_ms : ℕ
minute_ms = 60_000

abbrev pub hour_ms : ℕ
hour_ms = 3_600_000

abbrev pub max_tracked_identities : ℕ
max_tracked_identities = 10_000

pub record BucketLimits : Type 0 where
  pub hour : ℕ
  pub minute : ℕ

abbrev pub Attempts : Type 0
Attempts = List (String × List ℕ)

unfoldable pub get : String → Attempts → Option (List ℕ)
get identity [] = none
get identity ((id, times) ∷ attempts) =
    if str_eq id identity then some times else get identity attempts

unfoldable pub set : String → List ℕ → Attempts → Attempts
set identity times [] = (identity, times) ∷ []
set identity times ((id, old) ∷ attempts) =
    if str_eq id identity then (id, times) ∷ attempts else (id, old) ∷ set identity times attempts

unfoldable pub delete : String → Attempts → Attempts
delete identity [] = []
delete identity ((id, times) ∷ attempts) =
    if str_eq id identity then attempts else (id, times) ∷ delete identity attempts

-- `attempts.filter((attempt) => attempt > now - windowMs)`.
abbrev pub recent : ℕ → ℕ → List ℕ → List ℕ
recent window_ms now times = keep_if (λ attempt. ltb now (attempt + window_ms)) times

abbrev pub or_empty : Option (List ℕ) → List ℕ
or_empty none = []
or_empty (some times) = times

unfoldable pub store : String → List ℕ → Attempts → Attempts
store identity [] attempts = delete identity attempts
store identity (t ∷ ts) attempts = set identity (t ∷ ts) attempts

-- An entry is put back in its place, or taken out.
abbrev pub put_back : String → List ℕ → Attempts → Attempts
put_back identity [] rest = rest
put_back identity (t ∷ ts) rest = (identity, t ∷ ts) ∷ rest

unfoldable pub prune_expired : ℕ → Attempts → Attempts
prune_expired now [] = []
prune_expired now ((id, times) ∷ attempts) =
    put_back id (recent hour_ms now times) (prune_expired now attempts)

unfoldable pub is_over : BucketLimits → ℕ → List ℕ → Bool
is_over limits now retained =
    leb limits.minute (length (recent minute_ms now retained)) || leb limits.hour (length retained)

-- What follows the two tests of the number of identities.
unfoldable pub consume_tracked : BucketLimits → String → ℕ → Attempts → Bool × Attempts
consume_tracked limits identity now attempts =
    let retained = recent hour_ms now (or_empty (get identity attempts)) in
    if is_over limits now retained
    then (false, store identity retained attempts)
    else (true, store identity (retained ++ now ∷ []) attempts)

abbrev pub is_full : String → Attempts → Bool
is_full identity attempts =
    not (is_some (get identity attempts)) && leb max_tracked_identities (length attempts)

unfoldable pub consume : BucketLimits → String → ℕ → Attempts → Bool × Attempts
consume limits identity now attempts =
    let pruned = prune_expired now attempts in
    if is_full identity attempts
    then (if is_full identity pruned
        then (false, pruned)
        else consume_tracked limits identity now pruned)
    else consume_tracked limits identity now attempts

pub record LoginRateLimiter : Type 0 where
  pub account_buckets : Attempts
  pub ip_buckets : Attempts

abbrev pub account_limits : BucketLimits
account_limits = record { hour = 20; minute = 5 }

abbrev pub ip_limits : BucketLimits
ip_limits = record { hour = 50; minute = 10 }

abbrev pub client_limits : BucketLimits
client_limits = record { hour = 20; minute = 5 }

unfoldable pub consume_ip : String → ℕ → LoginRateLimiter → Bool × LoginRateLimiter
consume_ip client_address now limiter =
    let (accepted, buckets) = consume ip_limits client_address now limiter.ip_buckets in
    (accepted, record limiter { ip_buckets = buckets })

unfoldable pub consume_account : String → ℕ → LoginRateLimiter → Bool × LoginRateLimiter
consume_account account_key now limiter =
    let (accepted, buckets) = consume account_limits account_key now limiter.account_buckets in
    (accepted, record limiter { account_buckets = buckets })

-- `RegistrationRateLimiter.consume`.
unfoldable pub consume_client : String → ℕ → Attempts → Bool × Attempts
consume_client client_address now attempts = consume client_limits client_address now attempts
