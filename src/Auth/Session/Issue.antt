-- ===== src/Auth/Session/Issue.antt =====
-- What `SessionService.issue` promises.
use text.Mathlib.Text.{◌==◌ as str_eq}
use hop_and_barley_store.Prelude.{
  ℕ, ◌+◌, ◌≤◌, ◌<◌, ◌≡◌, ◌↔◌, refl, ◌∙◌, ap, Bool, true, List, [], ◌∷◌, ◌++◌, Option, none, some,
  String, arith, inl, inr, Option-cases, Bool-cases,
}
use hop_and_barley_store.Store.{UserStatus, active}
use hop_and_barley_store.Cart.Service.{is_active}
use hop_and_barley_store.Auth.Session.{
  UserRole, customer, admin, same_role, Account, AuthSession, Sessions, Tokens, ActiveSession,
  find_account, find_session, is_active_of, revoke_where, count_where, revoke_overflow,
  revoke_presented, new_session, to_active, issue, touch_interval_ms,
}
use hop_and_barley_store.Auth.Session.Authentication.{
  authenticate, authenticate_internal, touch_session, is_current,
}
use hop_and_barley_store.Auth.Session.Overflow.{count_where-append, revoke_overflow_leaves_four}

is_active-eq : (u : UserStatus) → is_active u ≡ true → u ≡ active
is_active-eq u h = ground arith

same_role_refl : (r : UserRole) → same_role r r ≡ true
same_role_refl customer = refl
same_role_refl admin = refl

find_session-revoke_where :
    (h : ℕ) (p : AuthSession → Bool) (now : ℕ) (ss : List AuthSession)
    → find_session h ss ≡ none
    → find_session h (revoke_where p now ss) ≡ none
unfolding find_session revoke_where
find_session-revoke_where h p now [] e = refl
find_session-revoke_where h p now (s ∷ ss) e = ground (arith, find_session-revoke_where h p now ss)

find_session-append :
    (ss : List AuthSession) (s : AuthSession)
    → find_session s.token_hash ss ≡ none
    → find_session s.token_hash (ss ++ s ∷ []) ≡ some s
unfolding find_session
find_session-append [] s e = ground arith
find_session-append (r ∷ ss) s e = ground (arith, find_session-append ss s)

find_session-revoke_presented :
    (tokens : Tokens) (h user_id : ℕ) (presented : Option String) (now : ℕ) (ss : List AuthSession)
    → find_session h ss ≡ none
    → find_session h
        (revoke_overflow user_id now (revoke_presented tokens user_id presented now ss))
      ≡ none
unfolding revoke_overflow revoke_presented
find_session-revoke_presented tokens h user_id none now ss e =
    find_session-revoke_where h _ now ss e
find_session-revoke_presented tokens h user_id (some raw) now ss e =
    elim (Bool-cases (str_eq raw "")) [
      | inl f ↦ find_session-revoke_where h _ now _ (rw (f) e)
      | inr f ↦
          find_session-revoke_where h _ now _ (rw (f) (find_session-revoke_where h _ now ss e))
    ]

find_account-id :
    (i : ℕ) (rows : List Account) {a : Account} → find_account i rows ≡ some a → a.id ≡ i
unfolding find_account
find_account-id i [] h = ground arith
find_account-id i (b ∷ rows) {a} h = ground (arith, find_account-id i rows {a = a})

module _ (tokens : Tokens) (user_id : ℕ) (presented : Option String) (now : ℕ) (remember_me : Bool)
    (raw_token : String) (id : ℕ) (db : Sessions) where
  -- What a call that issued a session has done.
  record IsIssued (a : ActiveSession) (db' : Sessions) : Type 0 where
    account : Account
    changed_at : ℕ
    found : find_account user_id db.accounts ≡ some account
    credential : account.credential_changed_at ≡ some changed_at
    is_active : is_active account.status ≡ true
    told :
        a
        ≡ to_active tokens raw_token account
            (new_session tokens account changed_at now remember_me raw_token id)
    tables : db' ≡ record db {
      sessions =
          revoke_overflow user_id now (revoke_presented tokens user_id presented now db.sessions)
          ++ new_session tokens account changed_at now remember_me raw_token id ∷ [];
    }

  issued_current :
      (account : Account) (changed_at : ℕ)
      → account.credential_changed_at ≡ some changed_at
      → is_active account.status ≡ true
      → (at : ℕ) → now ≤ at
      → at < now + touch_interval_ms
      → is_current tokens account
          (new_session tokens account changed_at now remember_me raw_token id)
          at
        ≡ true
  unfolding is_current new_session
  issued_current account changed_at e f at after before = elim (Bool-cases remember_me) [
    | inl g ↦ ground (arith, g, same_role_refl account.role)
    | inr g ↦ ground (arith, g, same_role_refl account.role)
  ]

  issue-inv :
      {a : ActiveSession} {db' : Sessions}
      → issue tokens user_id presented now remember_me raw_token id db ≡ some (a, db')
      → IsIssued a db'
  unfolding issue
  issue-inv h = elim (Option-cases (find_account user_id db.accounts)) [
    | inl e ↦ absurd (ground (arith, e))
    | inr (account, e) ↦ elim (Option-cases account.credential_changed_at) [
      | inl f ↦ absurd (ground (arith, e, f))
      | inr (changed_at, f) ↦ record {
        account = account;
        changed_at = changed_at;
        found = e;
        credential = f;
        is_active = ground (arith, e, f);
        told = ground (arith, e, f);
        tables = ground (arith, e, f);
      }
    ]
  ]

  -- After a session was issued to a user at `now`, at most five sessions of the user are active.
  pub issue_caps :
      {a : ActiveSession} {db' : Sessions}
      → issue tokens user_id presented now remember_me raw_token id db ≡ some (a, db')
      → count_where (is_active_of user_id now) db'.sessions ≤ 5
  issue_caps h =
      let d = issue-inv h in
      let before = revoke_presented tokens user_id presented now db.sessions in
      let created = new_session tokens d.account d.changed_at now remember_me raw_token id in
      rw (d.tables) (
        omega (
          arith,
          count_where-append (is_active_of user_id now) (revoke_overflow user_id now before)
              created,
          revoke_overflow_leaves_four user_id now before,
        ))

  -- A session that was issued at `now` under a well-formed token whose digest no other session has is
  -- what the token stands for, as it was told, for the next fifteen minutes.
  pub issue_authenticates :
      {a : ActiveSession} {db' : Sessions}
      → issue tokens user_id presented now remember_me raw_token id db ≡ some (a, db')
      → tokens.is_session_token raw_token ≡ true
      → find_session (tokens.hash_session_token raw_token) db.sessions ≡ none
      → (at : ℕ) → now ≤ at
      → at < now + touch_interval_ms
      → (meanwhile again : Sessions → Sessions)
      → authenticate tokens raw_token at meanwhile again db' ≡ (some a, db')
  unfolding authenticate authenticate_internal touch_session is_current new_session
  issue_authenticates {a} {db'} h well fresh at after before meanwhile again =
      let d = issue-inv h in
      let created = new_session tokens d.account d.changed_at now remember_me raw_token id in
      let kept =
        revoke_overflow user_id now (revoke_presented tokens user_id presented now db.sessions) in
      let seen : find_session (tokens.hash_session_token raw_token) db'.sessions ≡ some created =
        ap (λ x. find_session (tokens.hash_session_token raw_token) x.sessions) d.tables
        ∙ find_session-append kept created (
            find_session-revoke_presented tokens (tokens.hash_session_token raw_token) user_id
              presented now db.sessions fresh) in
      let owner : find_account created.user_id db'.accounts ≡ some d.account =
        ap (λ x. find_account created.user_id x.accounts) d.tables
        ∙ ap (λ i. find_account i db.accounts) (find_account-id user_id db.accounts d.found)
        ∙ d.found in
      let current : is_current tokens d.account created at ≡ true =
        issued_current d.account d.changed_at d.credential d.is_active at after before in
      let told = d.told in ground (arith, seen, owner, current, well, told)

  -- A session is issued just when the user is there, is active and has a password.
  pub issue_iff :
      ((a : ActiveSession) × (db' : Sessions) × (issue tokens user_id presented now remember_me
            raw_token id db
          ≡ some (a, db')))
      ↔ ((account : Account) × (find_account user_id db.accounts ≡ some account)
          × (account.status ≡ active)
          × ((changed_at : ℕ) × (account.credential_changed_at ≡ some changed_at)))
  unfolding issue
  issue_iff = (
    λ (a, db', h).
        let d = issue-inv h in
        (
          d.account,
          d.found,
          is_active-eq d.account.status d.is_active,
          (d.changed_at, d.credential),
        ),
    λ (account, found, act, (changed_at, credential)).
        elim (Option-cases (issue tokens user_id presented now remember_me raw_token id db)) [
          | inl e ↦ absurd (ground (arith, e, found, act, credential))
          | inr ((a, db'), e) ↦ (a, db', e)
        ],
  )
