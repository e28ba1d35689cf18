-- ===== src/Auth/Session/Authentication.antt =====
-- `authenticate`, `revokeCurrent` and `revokeAll` of
-- apps/api/src/auth/session/session.service.ts.
use hop_and_barley_store.Prelude.{
  ℕ, ◌+◌, Bool, false, ◌&&◌, List, [], ◌∷◌, ltb, leb, ◌==◌, Option, none, some, String,
  if◌then◌else◌, is_some,
}
use hop_and_barley_store.Cart.Service.{is_active}
use hop_and_barley_store.Auth.Session.{
  Account, AuthSession, Sessions, Tokens, ActiveSession, find_account, find_session, is_unrevoked,
  revoke_where, count_where, same_role, to_active, idle_lifetime_ms, touch_interval_ms,
}

module _ (tokens : Tokens) where
  -- The tests of `authenticateInternal`.
  unfoldable pub is_current : Account → AuthSession → ℕ → Bool
  is_current account s now =
      is_unrevoked s
      && ltb now s.expires_at
      && ltb now (s.last_seen_at + idle_lifetime_ms)
      && is_active account.status
      && same_role account.role s.role_at_issue
      && (elim account.credential_changed_at [
        | none ↦ false
        | some changed_at ↦ changed_at == s.credential_changed_at_at_issue
      ])

  -- The rows that `updateMany` touches: the session itself, if it is still due.
  abbrev pub is_touchable : ℕ → ℕ → AuthSession → Bool
  is_touchable id now s =
      ltb now s.expires_at
      && s.id == id
      && ltb now (s.last_seen_at + idle_lifetime_ms)
      && leb (s.last_seen_at + touch_interval_ms) now
      && is_unrevoked s

  unfoldable pub touch : ℕ → ℕ → List AuthSession → List AuthSession
  touch id now [] = []
  touch id now (s ∷ ss) =
      (if is_touchable id now s then record s { last_seen_at = now } else s) ∷ touch id now ss

  -- What follows the tests. Between the read of the session and the touch other transactions may
  -- run: `meanwhile` is what they do to the tables.
  unfoldable pub touch_session :
      String
      → ℕ
      → Account
      → AuthSession
      → (Sessions → Sessions)
      → (Sessions → Option ActiveSession × Sessions)
      → Sessions
      → Option ActiveSession × Sessions
  touch_session raw_token now account s meanwhile on_lost db =
      if leb (s.last_seen_at + touch_interval_ms) now
      then (let later = meanwhile db in
          let touched = record later { sessions = touch s.id now later.sessions } in
          if count_where (is_touchable s.id now) later.sessions == 1
          then (
            some (to_active tokens raw_token account (record s { last_seen_at = now })),
            touched,
          )
          else on_lost touched)
      else (some (to_active tokens raw_token account s), db)

  unfoldable pub authenticate_internal :
      String
      → ℕ
      → (Sessions → Sessions)
      → (Sessions → Option ActiveSession × Sessions)
      → Sessions
      → Option ActiveSession × Sessions
  authenticate_internal raw_token now meanwhile on_lost db =
      elim (find_session (tokens.hash_session_token raw_token) db.sessions) [
        | none ↦ (none, db)
        | some s ↦ elim (find_account s.user_id db.accounts) [
          | none ↦ (none, db)
          | some account ↦
              if tokens.is_session_token raw_token && is_current account s now
              then touch_session raw_token now account s meanwhile on_lost db
              else (none, db)
        ]
      ]

  -- A touch that another request won is tried once more.
  unfoldable pub authenticate :
      String
      → ℕ
      → (Sessions → Sessions)
      → (Sessions → Sessions)
      → Sessions
      → Option ActiveSession × Sessions
  authenticate raw_token now meanwhile again =
      authenticate_internal raw_token now meanwhile
        (authenticate_internal raw_token now again (λ db. (none, db)))

  -- Between the read of the session and the transaction other transactions may run.
  unfoldable pub revoke_current : String → ℕ → (Sessions → Sessions) → Sessions → Bool × Sessions
  revoke_current raw_token now meanwhile db =
      elim (find_session (tokens.hash_session_token raw_token) db.sessions) [
        | none ↦ (false, db)
        | some s ↦
            let later = meanwhile db in
            let mine = λ (r : AuthSession).
              is_unrevoked r
              && r.token_hash == tokens.hash_session_token raw_token
              && r.user_id == s.user_id in
            if tokens.is_session_token raw_token
            then (if is_some (find_account s.user_id later.accounts)
                then (
                  count_where mine later.sessions == 1,
                  record later { sessions = revoke_where mine now later.sessions },
                )
                else (false, later))
            else (false, db)
      ]

unfoldable pub revoke_all : ℕ → ℕ → Sessions → ℕ × Sessions
revoke_all user_id now db =
    let mine = λ (s : AuthSession). is_unrevoked s && s.user_id == user_id in
    if is_some (find_account user_id db.accounts)
    then (count_where mine db.sessions, record db { sessions = revoke_where mine now db.sessions })
    else (0, db)
