-- ===== src/Tests/Access.antt =====
-- Sessions, rate limits and password hashing.
use text.Mathlib.Text.{◌==◌ as str_eq}
use hop_and_barley_store.Prelude.{
  ℕ, ◌+◌, ◌≤◌, ◌<◌, ◌≡◌, refl, true, false, ◌&&◌, ◌++◌, if◌then◌else◌, Option, none, some, ◌∷◌, [],
  ◌↔◌, ◌⊎◌, List, length, arith, String, suc,
}
use hop_and_barley_store.Store.{active}
use hop_and_barley_store.Auth.Session.{
  Account, customer, AuthSession, Sessions, Tokens, ActiveSession, find_session, find_account,
  count_where, is_active_of, issue,
}
use hop_and_barley_store.Auth.Session.Authentication.{authenticate, touch}
use hop_and_barley_store.Auth.Session.Issue.{issue_iff, issue_caps, issue_authenticates}
use hop_and_barley_store.Auth.Session.Vouched.{Vouches, authenticate-Vouches}
use hop_and_barley_store.Auth.RateLimiter.{
  recent, consume, is_full, prune_expired, account_limits, hour_ms, minute_ms,
  max_tracked_identities,
}
use hop_and_barley_store.Auth.RateLimiter.History.{starts, consumes, accepted_within_limits}
use hop_and_barley_store.Auth.Password.{
  acquire, release, Reaches, idle, starts as starts_call, ends, at_most_five,
}
use hop_and_barley_store.Auth.RateLimiter.Accepts.{IsWithin, consume_iff}
use hop_and_barley_store.Auth
use hop_and_barley_store.Prelude

runs : Unit {0}
unfolding Prelude.Sort.sort Prelude.Sort.sort_insert Auth.Session.issue Auth.Session.revoke_overflow
    Auth.Session.revoke_presented Auth.Session.active_sessions Auth.Session.revoke_where
    Auth.Session.has_id Auth.Session.new_session Auth.Session.find_account Auth.Session.find_session
    Auth.Session.Authentication.authenticate Auth.Session.Authentication.authenticate_internal
    Auth.Session.Authentication.touch_session Auth.Session.Authentication.touch
    Auth.Session.Authentication.is_current Auth.Session.count_where Auth.Password.acquire
runs = tt

abbrev tokens : Tokens
tokens = record {
  is_session_token = λ s. true;
  hash_session_token = λ s. if str_eq s "new" then 2 else 1;
}

abbrev ann : Account
ann = record { id = 7; role = customer; status = active; credential_changed_at = some 3 }

abbrev old : AuthSession
old = record {
  id = 1;
  user_id = 7;
  token_hash = 1;
  expires_at = 90_000_000;
  issued_at = 10;
  last_seen_at = 10;
  revoked_at = none;
  role_at_issue = customer;
  credential_changed_at_at_issue = 3;
}

abbrev before : Sessions
before = record { accounts = ann ∷ []; sessions = old ∷ [] }

abbrev created : AuthSession
created = record old {
  id = 2;
  token_hash = 2;
  expires_at = 604_800_100;
  issued_at = 100;
  last_seen_at = 100;
}

abbrev active_session : ActiveSession
active_session = record {
  expires_at = 604_800_100;
  issued_at = 100;
  last_seen_at = 100;
  raw_token = "new";
  role = customer;
  session_id = 2;
  status = active;
  user_id = 7;
}

abbrev issued : Sessions
issued = record before { sessions = old ∷ created ∷ [] }

issued_run : issue tokens 7 none 100 false "new" 2 before ≡ some (active_session, issued)
unfolding runs
issued_run = refl

new_is_fresh : find_session 2 before.sessions ≡ none
unfolding runs
new_is_fresh = refl

issue_caps_example : count_where (is_active_of 7 100) issued.sessions ≤ 5
issue_caps_example = issue_caps tokens 7 none 100 false "new" 2 before issued_run

issue_authenticates_example :
    authenticate tokens "new" 5_000 (λ db. db) (λ db. db) issued ≡ (some active_session, issued)
issue_authenticates_example =
    issue_authenticates tokens 7 none 100 false "new" 2 before issued_run refl new_is_fresh 5_000
      (omega arith) (omega arith) (λ db. db) (λ db. db)

-- An hour later the session is touched.
abbrev touched : Sessions
touched = record before { sessions = old ∷ record created { last_seen_at = 3_600_100 } ∷ [] }

seen_run :
    authenticate tokens "new" 3_600_100 (λ db. db) (λ db. db) issued
    ≡ (some (record active_session { last_seen_at = 3_600_100 }), touched)
unfolding runs
seen_run = refl

authenticate-Vouches_example :
    Vouches tokens "new" 3_600_100 issued (record active_session { last_seen_at = 3_600_100 })
    ⊎ ((s : AuthSession) × (find_session 2 issued.sessions ≡ some s)
        × Vouches tokens "new" 3_600_100
            (record issued { sessions = touch tokens s.id 3_600_100 issued.sessions })
            (record active_session { last_seen_at = 3_600_100 }))
authenticate-Vouches_example =
    authenticate-Vouches tokens "new" 3_600_100 (λ db. db) (λ db. db) issued seen_run

accepted_within_limits_example :
    ((y : String)
      → (length (
            recent hour_ms 9 (
              if (consume account_limits "ann" 9 []).0 && str_eq "ann" y then [] ++ 9 ∷ [] else []))
          ≤ 20)
        × (length (
              recent minute_ms 9 (
                if (consume account_limits "ann" 9 []).0 && str_eq "ann" y
                then [] ++ 9 ∷ []
                else []))
            ≤ 5))
    × (length (consume account_limits "ann" 9 []).1 ≤ max_tracked_identities)
accepted_within_limits_example =
    accepted_within_limits account_limits (consumes starts "ann" 9 (omega arith))

abbrev in_flight : List ℕ
in_flight = 8 ∷ []

one_ended : Reaches 1 in_flight
unfolding runs release
one_ended = ends (starts_call (starts_call idle 8 refl) 9 refl) [] (8 ∷ []) 9 refl

at_most_five_example :
    (1 ≡ length in_flight) × (length in_flight ≤ 5) × ((acquire 1 ≡ none) ↔ (length in_flight ≡ 5))
at_most_five_example = at_most_five one_ended

consume_iff_example : ((consume account_limits "ann" 9 []).0 ≡ true) ↔ (
    IsWithin account_limits "ann" 9 []
    × ((is_full "ann" [] ≡ false) ⊎ (is_full "ann" (prune_expired 9 []) ≡ false)))
consume_iff_example = consume_iff account_limits "ann" 9 [] tt

issue_iff_example :
    ((a : ActiveSession) × (db' : Sessions) × (issue tokens 7 none 100 false "new" 2 before
        ≡ some (a, db')))
    ↔ ((account : Account) × (find_account 7 before.accounts ≡ some account)
        × (account.status ≡ active)
        × ((changed_at : ℕ) × (account.credential_changed_at ≡ some changed_at)))
issue_iff_example = issue_iff tokens 7 none 100 false "new" 2 before
