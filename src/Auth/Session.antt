-- ===== src/Auth/Session.antt =====
-- `SessionService` of apps/api/src/auth/session/session.service.ts. Each method is the function that
-- it hands to `serializable` (Store/Retry.antt), with what stands around it. The clock, the id of a
-- new row and the random token are arguments. A token's form and its SHA-256 digest (session-token.ts,
-- which calls the Node codecs) are the parameter `tokens`. A session row stands with the columns that
-- the service reads; a row of a user with the user's password credential. `issue` is here, and the
-- other methods are in Auth/Session/Authentication.antt.
pub mod Authentication
pub mod Overflow
pub mod Issue
pub mod Revoked
pub mod Vouched
use text.Mathlib.Text.{◌==◌ as str_eq}
use hop_and_barley_store.Prelude.{
  ℕ, ◌+◌, ◌-◌, ◌*◌, Bool, true, false, not, ◌&&◌, ◌||◌, List, [], ◌∷◌, ◌++◌, map, ltb, leb, ◌==◌,
  Option, none, some, String, if◌then◌else◌, length, take, keep_if, is_some,
}
use hop_and_barley_store.Prelude.Sort.{sort}
use hop_and_barley_store.Store.{UserStatus, active}
use hop_and_barley_store.Cart.Service.{is_active}

abbrev pub default_absolute_lifetime_ms : ℕ
default_absolute_lifetime_ms = 7 * 24 * 60 * 60 * 1_000

abbrev pub remembered_absolute_lifetime_ms : ℕ
remembered_absolute_lifetime_ms = 30 * 24 * 60 * 60 * 1_000

abbrev pub idle_lifetime_ms : ℕ
idle_lifetime_ms = 24 * 60 * 60 * 1_000

abbrev pub touch_interval_ms : ℕ
touch_interval_ms = 15 * 60 * 1_000

abbrev pub max_active_sessions : ℕ
max_active_sessions = 5

pub data UserRole : Type 0 where
  customer admin : UserRole

abbrev pub same_role : UserRole → UserRole → Bool
same_role customer customer = true
same_role admin admin = true
same_role _ _ = false

-- `credential_changed_at` is null for a user with no password credential.
pub record Account : Type 0 where
  pub id : ℕ
  pub role : UserRole
  pub status : UserStatus
  pub credential_changed_at : Option ℕ

pub record AuthSession : Type 0 where
  pub id : ℕ
  pub user_id : ℕ
  pub token_hash : ℕ
  pub expires_at : ℕ
  pub issued_at : ℕ
  pub last_seen_at : ℕ
  pub revoked_at : Option ℕ
  pub role_at_issue : UserRole
  pub credential_changed_at_at_issue : ℕ

pub record Sessions : Type 0 where
  pub accounts : List Account
  pub sessions : List AuthSession

pub record Tokens : Type 0 where
  pub is_session_token : String → Bool
  pub hash_session_token : String → ℕ

pub record ActiveSession : Type 0 where
  pub expires_at : ℕ
  pub issued_at : ℕ
  pub last_seen_at : ℕ
  pub raw_token : String
  pub role : UserRole
  pub session_id : ℕ
  pub status : UserStatus
  pub user_id : ℕ

unfoldable pub find_account : ℕ → List Account → Option Account
find_account user_id [] = none
find_account user_id (a ∷ rest) = if a.id == user_id then some a else find_account user_id rest

unfoldable pub find_session : ℕ → List AuthSession → Option AuthSession
find_session token_hash [] = none
find_session token_hash (s ∷ ss) =
    if s.token_hash == token_hash then some s else find_session token_hash ss

abbrev pub is_unrevoked : AuthSession → Bool
is_unrevoked s = not (is_some s.revoked_at)

-- The rows that count as a user's active sessions.
abbrev pub is_active_of : ℕ → ℕ → AuthSession → Bool
is_active_of user_id now s =
    ltb now s.expires_at
    && ltb now (s.last_seen_at + idle_lifetime_ms)
    && is_unrevoked s
    && s.user_id == user_id

-- `updateMany({ data: { revokedAt: now }, where })`.
unfoldable pub revoke_where : (AuthSession → Bool) → ℕ → List AuthSession → List AuthSession
revoke_where p now [] = []
revoke_where p now (s ∷ ss) =
    (if p s then record s { revoked_at = some now } else s) ∷ revoke_where p now ss

unfoldable pub count_where : (AuthSession → Bool) → List AuthSession → ℕ
count_where p ss = length (keep_if p ss)

unfoldable pub has_id : List ℕ → ℕ → Bool
has_id [] id = false
has_id (i ∷ is) id = i == id || has_id is id

-- `orderBy: [{ issuedAt: 'asc' }, { id: 'asc' }]`.
abbrev pub issued_before : AuthSession → AuthSession → Bool
issued_before l r = ltb l.issued_at r.issued_at || (l.issued_at == r.issued_at && leb l.id r.id)

abbrev pub ids_of : List AuthSession → List ℕ
ids_of ss = map (λ s. s.id) ss

unfoldable pub active_sessions : ℕ → ℕ → List AuthSession → List AuthSession
active_sessions user_id now ss = sort issued_before (keep_if (is_active_of user_id now) ss)

-- The sessions beyond the newest four are revoked; with none beyond, `take` is of nothing.
unfoldable pub revoke_overflow : ℕ → ℕ → List AuthSession → List AuthSession
revoke_overflow user_id now ss =
    let active = active_sessions user_id now ss in
    let overflow = length active - (max_active_sessions - 1) in
    revoke_where (λ s. has_id (ids_of (take overflow active)) s.id && is_unrevoked s) now ss

module _ (tokens : Tokens) where
  -- An empty text is falsy, as null is.
  unfoldable pub revoke_presented : ℕ → Option String → ℕ → List AuthSession → List AuthSession
  revoke_presented user_id none now ss = ss
  revoke_presented user_id (some raw) now ss =
      if str_eq raw ""
      then ss
      else revoke_where
          (λ s. is_active_of user_id now s && s.token_hash == tokens.hash_session_token raw) now ss

  abbrev pub lifetime : Bool → ℕ
  lifetime true = remembered_absolute_lifetime_ms
  lifetime false = default_absolute_lifetime_ms

  unfoldable pub new_session : Account → ℕ → ℕ → Bool → String → ℕ → AuthSession
  new_session account changed_at now remember_me raw_token id = record {
    id = id;
    user_id = account.id;
    token_hash = tokens.hash_session_token raw_token;
    expires_at = now + lifetime remember_me;
    issued_at = now;
    last_seen_at = now;
    revoked_at = none;
    role_at_issue = account.role;
    credential_changed_at_at_issue = changed_at;
  }

  abbrev pub to_active : String → Account → AuthSession → ActiveSession
  to_active raw_token account s = record {
    expires_at = s.expires_at;
    issued_at = s.issued_at;
    last_seen_at = s.last_seen_at;
    raw_token = raw_token;
    role = account.role;
    session_id = s.id;
    status = account.status;
    user_id = account.id;
  }

  -- `none` is a `SessionIssueRejectedError`.
  unfoldable pub issue :
      ℕ → Option String → ℕ → Bool → String → ℕ → Sessions → Option (ActiveSession × Sessions)
  issue user_id presented now remember_me raw_token id db =
      elim (find_account user_id db.accounts) [
        | none ↦ none
        | some account ↦ elim account.credential_changed_at [
          | none ↦ none
          | some changed_at ↦
              let created = new_session account changed_at now remember_me raw_token id in
              let kept =
                revoke_overflow user_id now (revoke_presented user_id presented now db.sessions) in
              if is_active account.status
              then some (
                to_active raw_token account created,
                record db { sessions = kept ++ created ∷ [] },
              )
              else none
        ]
      ]
