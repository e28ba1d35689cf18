-- ===== src/Auth/Session/Overflow.antt =====
-- How many of a user's sessions stay active when one more is issued.
use hop_and_barley_store.Prelude.{
  ℕ, zero, suc, ◌-◌, ◌≤◌, ◌≡◌, refl, Bool, true, not, ◌&&◌, List, [], ◌∷◌, ◌++◌, length,
  length-keep_if-le, take, keep_if, arith, inl, inr, Bool-cases,
}
use hop_and_barley_store.Prelude.Sort.{sort, sort_insert}
use hop_and_barley_store.Auth.Session.{
  AuthSession, is_unrevoked, is_active_of, revoke_where, count_where, has_id, issued_before, ids_of,
  active_sessions, revoke_overflow,
}

module _ (p : AuthSession → Bool) where
  pub count_where-append :
      (ss : List AuthSession) (s : AuthSession)
      → count_where p (ss ++ s ∷ []) ≤ suc (count_where p ss)
  unfolding count_where
  count_where-append [] s = ground arith
  count_where-append (r ∷ ss) s = ground (arith, count_where-append ss s)

  count_where-sort_insert :
      (le : AuthSession → AuthSession → Bool) (s : AuthSession) (ss : List AuthSession)
      → count_where p (sort_insert le s ss) ≡ count_where p (s ∷ ss)
  unfolding count_where sort_insert
  count_where-sort_insert le s [] = refl
  count_where-sort_insert le s (r ∷ ss) = ground (arith, count_where-sort_insert le s ss)

  count_where-sort :
      (le : AuthSession → AuthSession → Bool) (ss : List AuthSession)
      → count_where p (sort le ss) ≡ count_where p ss
  unfolding sort count_where
  count_where-sort le [] = refl
  count_where-sort le (s ∷ ss) =
      ground (arith, count_where-sort le ss, count_where-sort_insert le s (sort le ss))

-- A row that was revoked is not active any more.
count_where-revoke_where :
    (user_id now : ℕ) (ids : List ℕ) (ss : List AuthSession)
    → count_where
        (is_active_of user_id now)
        (revoke_where (λ s. has_id ids s.id && is_unrevoked s) now ss)
      ≡ count_where (λ s. not (has_id ids s.id)) (keep_if (is_active_of user_id now) ss)
unfolding count_where revoke_where
count_where-revoke_where user_id now ids [] = refl
count_where-revoke_where user_id now ids (s ∷ ss) = elim (Bool-cases (has_id ids s.id)) [
  | inl e ↦ ground (arith, e, count_where-revoke_where user_id now ids ss)
  | inr e ↦ ground (arith, e, count_where-revoke_where user_id now ids ss)
]

has_id-here : (i : ℕ) (is : List ℕ) → has_id (i ∷ is) i ≡ true
unfolding has_id
has_id-here i is = ground arith

-- Fewer rows have none of more ids.
count_where-fewer :
    (i : ℕ) (is : List ℕ) (ss : List AuthSession)
    → count_where (λ s. not (has_id (i ∷ is) s.id)) ss ≤ count_where (λ s. not (has_id is s.id)) ss
unfolding count_where has_id
count_where-fewer i is [] = omega arith
count_where-fewer i is (s ∷ ss) = ground (arith, count_where-fewer i is ss)

count_where-take :
    (k : ℕ) (ss : List AuthSession)
    → count_where (λ s. not (has_id (ids_of (take k ss)) s.id)) ss ≤ length ss - k
unfolding count_where
count_where-take zero [] = omega arith
count_where-take zero (s ∷ ss) =
    omega (arith, length-keep_if-le (λ r. not (has_id [] r.id)) (s ∷ ss))
count_where-take (suc k) [] = omega arith
count_where-take (suc k) (s ∷ ss) = ground (
  arith,
  has_id-here s.id (ids_of (take k ss)),
  count_where-fewer s.id (ids_of (take k ss)) ss,
  count_where-take k ss,
)

-- Of a user's active sessions at most four are left active.
pub revoke_overflow_leaves_four :
    (user_id now : ℕ) (ss : List AuthSession)
    → count_where (is_active_of user_id now) (revoke_overflow user_id now ss) ≤ 4
unfolding revoke_overflow active_sessions
revoke_overflow_leaves_four user_id now ss =
    let kept = keep_if (is_active_of user_id now) ss in
    let sorted = sort issued_before kept in
    let ids = ids_of (take (length sorted - 4) sorted) in
    omega (
      arith,
      count_where-revoke_where user_id now ids ss,
      count_where-sort (λ s. not (has_id ids s.id)) issued_before kept,
      count_where-take (length sorted - 4) sorted,
    )
