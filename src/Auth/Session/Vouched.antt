-- ===== src/Auth/Session/Vouched.antt =====
-- What makes a token stand for a session.
use hop_and_barley_store.Prelude.{
  ℕ, ◌+◌, ◌<◌, ◌≡◌, true, false, ◌&&◌, leb, ◌==◌, Option, none, some, ◌⊎◌, String, if◌then◌else◌,
  arith, inl, inr, Option-cases, Bool-cases, is_some, &&-eq_true,
}
use hop_and_barley_store.Store.{UserStatus, active}
use hop_and_barley_store.Cart.Service.{is_active}
use hop_and_barley_store.Auth.Session.{
  UserRole, Account, AuthSession, Sessions, Tokens, ActiveSession, find_account, find_session,
  count_where, idle_lifetime_ms, touch_interval_ms, same_role, to_active,
}
use hop_and_barley_store.Auth.Session.Authentication.{
  authenticate, authenticate_internal, touch_session, is_current, touch, is_touchable,
}

-- What makes a session current.
pub record IsCurrent (account : Account) (s : AuthSession) (now : ℕ) : Type 0 where
  pub unrevoked : s.revoked_at ≡ none
  pub unexpired : now < s.expires_at
  pub seen : now < s.last_seen_at + idle_lifetime_ms
  pub is_active : account.status ≡ active
  pub role : account.role ≡ s.role_at_issue
  pub credential : account.credential_changed_at ≡ some s.credential_changed_at_at_issue

-- `a` is told of a current session of the token, which is seen now if it was not seen for long.
pub record Vouches (tokens : Tokens) (raw_token : String) (now : ℕ) (db : Sessions)
    (a : ActiveSession) : Type 0 where
  pub account : Account
  pub session : AuthSession
  pub well_formed : tokens.is_session_token raw_token ≡ true
  pub found : find_session (tokens.hash_session_token raw_token) db.sessions ≡ some session
  pub owner : find_account session.user_id db.accounts ≡ some account
  pub current : IsCurrent account session now
  pub told :
      a
      ≡ to_active tokens raw_token account (record session {
        last_seen_at =
            if leb (session.last_seen_at + touch_interval_ms) now
            then now
            else session.last_seen_at;
      })

unrevoked-eq : (o : Option ℕ) → is_some o ≡ false → o ≡ none
unrevoked-eq o h = ground arith

is_active-eq : (u : UserStatus) → is_active u ≡ true → u ≡ active
is_active-eq u h = ground arith

same_role-eq : (r q : UserRole) → same_role r q ≡ true → r ≡ q
same_role-eq r q h = ground arith

is_current-IsCurrent :
    (tokens : Tokens) (account : Account) (s : AuthSession) (now : ℕ)
    → is_current tokens account s now ≡ true
    → IsCurrent account s now
unfolding is_current
is_current-IsCurrent tokens account s now h = record {
  unrevoked = unrevoked-eq s.revoked_at (ground arith);
  unexpired = ground arith;
  seen = ground arith;
  is_active = is_active-eq account.status (ground arith);
  role = same_role-eq account.role s.role_at_issue (ground arith);
  credential = ground arith;
}

module _ (tokens : Tokens) (raw_token : String) (now : ℕ) (meanwhile : Sessions → Sessions)
    (on_lost : Sessions → Option ActiveSession × Sessions) (db : Sessions) where
  touch_session-cases :
      (account : Account) (s : AuthSession) {a : ActiveSession} {db' : Sessions}
      → touch_session tokens raw_token now account s meanwhile on_lost db ≡ (some a, db')
      → (a
          ≡ to_active tokens raw_token account (record s {
            last_seen_at =
                if leb (s.last_seen_at + touch_interval_ms) now then now else s.last_seen_at;
          }))
        ⊎ (on_lost
              (record (meanwhile db) { sessions = touch tokens s.id now (meanwhile db).sessions })
            ≡ (some a, db'))
  unfolding touch_session
  touch_session-cases account s {a} {db'} h =
      elim (Bool-cases (leb (s.last_seen_at + touch_interval_ms) now)) [
        | inr e ↦ inl (ground (arith, e))
        | inl e ↦
            elim (Bool-cases
              (count_where (is_touchable tokens s.id now) (meanwhile db).sessions == 1)) [
                | inl f ↦ inl (ground (arith, e, f))
                | inr f ↦ inr (rw (e, f) at h)
              ]
      ]

  internal-cases :
      {a : ActiveSession} {db' : Sessions}
      → authenticate_internal tokens raw_token now meanwhile on_lost db ≡ (some a, db')
      → Vouches tokens raw_token now db a
        ⊎ ((s : AuthSession) × (find_session (tokens.hash_session_token raw_token) db.sessions
              ≡ some s)
            × (on_lost (record (meanwhile db) {
              sessions = touch tokens s.id now (meanwhile db).sessions;
            })
                ≡ (some a, db')))
  unfolding authenticate_internal
  internal-cases {a} {db'} h =
      elim (Option-cases (find_session (tokens.hash_session_token raw_token) db.sessions)) [
        | inl e ↦ absurd (ground (arith, e))
        | inr (s, e) ↦ elim (Option-cases (find_account s.user_id db.accounts)) [
          | inl f ↦ absurd (ground (arith, e, f))
          | inr (account, f) ↦
              elim (Bool-cases
                (tokens.is_session_token raw_token && is_current tokens account s now)) [
                  | inr c ↦ absurd (ground (arith, e, f, c))
                  | inl c ↦
                      elim (touch_session-cases account s {a = a} {db' = db'}
                        (ground (arith, e, f, c))) [
                          | inr lost ↦ inr (s, e, lost)
                          | inl told ↦ inl (record {
                            account = account;
                            session = s;
                            well_formed = (&&-eq_true c).0;
                            found = e;
                            owner = f;
                            current = is_current-IsCurrent tokens account s now (&&-eq_true c).1;
                            told = told;
                          })
                        ]
                ]
        ]
      ]

-- A session that `authenticate` returns is vouched for by the tables, as they were read at first, or
-- as they were after another request had won the touch.
pub authenticate-Vouches :
    (tokens : Tokens) (raw_token : String) (now : ℕ) (meanwhile again : Sessions → Sessions)
    (db : Sessions) {a : ActiveSession} {db' : Sessions}
    → authenticate tokens raw_token now meanwhile again db ≡ (some a, db')
    → Vouches tokens raw_token now db a
      ⊎ ((s : AuthSession) × (find_session (tokens.hash_session_token raw_token) db.sessions
            ≡ some s)
          × Vouches tokens raw_token now
              (record (meanwhile db) { sessions = touch tokens s.id now (meanwhile db).sessions })
              a)
unfolding authenticate
authenticate-Vouches tokens raw_token now meanwhile again db h =
    elim (internal-cases tokens raw_token now meanwhile
      (authenticate_internal tokens raw_token now again (λ x. (none, x))) db h) [
        | inl v ↦ inl v
        | inr (s, e, lost) ↦
            elim (internal-cases tokens raw_token now again (λ x. (none, x))
              (record (meanwhile db) { sessions = touch tokens s.id now (meanwhile db).sessions })
              lost) [ inl v ↦ inr (s, e, v) | inr (t, f, bad) ↦ absurd (ground arith) ]
      ]
