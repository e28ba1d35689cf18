-- ===== src/Auth/Password.antt =====
-- `PasswordHashExecutor` of apps/api/src/auth/password/password-hash-executor.ts: the counter that
-- `hash` and `verify` raise before they call Argon2 and lower in their `finally`. Node runs many
-- calls at a time; the relation below lets them start and end in any order.
use hop_and_barley_store.Prelude.{
  ℕ, suc, ◌-◌, ◌≤◌, ◌≡◌, ap, ◌↔◌, List, [], ◌∷◌, ◌++◌, length, length-append, leb, Option, none,
  some, if◌then◌else◌, arith,
}

abbrev pub max_active_password_operations : ℕ
max_active_password_operations = 5

-- `none` is a ServiceUnavailableException.
unfoldable pub acquire : ℕ → Option ℕ
acquire active_operations =
    if leb max_active_password_operations active_operations
    then none
    else some (suc active_operations)

unfoldable pub release : ℕ → ℕ
release active_operations = active_operations - 1

-- The counter, and the calls that Argon2 works on, after some calls started and ended.
pub data Reaches : ℕ → List ℕ → Type 0 where
  idle : Reaches 0 []
  starts :
      {n m : ℕ} {calls : List ℕ}
      → Reaches n calls
      → (call : ℕ) → acquire n ≡ some m
      → Reaches m (call ∷ calls)
  ends :
      {n : ℕ} {calls : List ℕ}
      → Reaches n calls
      → (before after : List ℕ) (call : ℕ) → calls ≡ before ++ call ∷ after
      → Reaches (release n) (before ++ after)

counts_calls : {n : ℕ} {calls : List ℕ} → Reaches n calls → (n ≡ length calls) × (length calls ≤ 5)
unfolding acquire release
counts_calls idle = (omega arith, omega arith)
counts_calls (starts r call e) = ground (arith, counts_calls r, e)
counts_calls (ends r before after call e) =
    let (same, few) = counts_calls r in
    let whole = ap length e in
    let split = length-append before (call ∷ after) in
    let rest = length-append before after in (omega arith, omega arith)

-- At most five calls are in Argon2 at a time, in whatever order they start and end; the counter is
-- their number, and a further call is refused just when there are five.
pub at_most_five :
    {n : ℕ} {calls : List ℕ}
    → Reaches n calls
    → (n ≡ length calls) × (length calls ≤ 5) × ((acquire n ≡ none) ↔ (length calls ≡ 5))
unfolding acquire
at_most_five r = let (same, few) = counts_calls r in (same, few, ground arith)
