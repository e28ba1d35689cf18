-- ===== src/Payments/Claims/Held.antt =====
-- How many discounts a user holds.
use hop_and_barley_store.Prelude.{
  ℕ, ◌+◌, ◌≤◌, ◌≡◌, refl, ◌&&◌, List, [], ◌∷◌, ◌++◌, ◌==◌, none, arith, if◌then◌else◌,
}
use hop_and_barley_store.Payments.Claims.{Claim, find_held_claim, update_claimed, holds_discount}

-- The claims of a user that are not released.
unfoldable pub held_claims : ℕ → List Claim → ℕ
held_claims u [] = 0
held_claims u (c ∷ cs) =
    (if c.user_id == u && holds_discount c.status then 1 else 0) + held_claims u cs

pub held_claims-append :
    (u : ℕ) (cs : List Claim) (c : Claim)
    → held_claims u (cs ++ c ∷ [])
      ≡ held_claims u cs + (if c.user_id == u && holds_discount c.status then 1 else 0)
unfolding held_claims
held_claims-append u [] c = omega arith
held_claims-append u (x ∷ cs) c = omega (arith, held_claims-append u cs c)

pub none_held : (u : ℕ) (cs : List Claim) → find_held_claim u cs ≡ none → held_claims u cs ≡ 0
unfolding held_claims find_held_claim
none_held u [] h = refl
none_held u (c ∷ cs) h = ground (arith, none_held u cs)

-- A change of a claim that keeps its user and does not take a released discount back.
pub update_claimed-held :
    (u i : ℕ) (f : Claim → Claim)
    → ((c : Claim) → (f c).user_id ≡ c.user_id)
    → (cs : List Claim) → held_claims u (update_claimed i f cs).0 ≤ held_claims u cs
unfolding held_claims update_claimed
update_claimed-held u i f k [] = omega arith
update_claimed-held u i f k (c ∷ cs) = ground (arith, k c, update_claimed-held u i f k cs)

-- No user holds more than before.
abbrev pub FewerHeld : List Claim → List Claim → Type 0
FewerHeld olds news = (u : ℕ) → held_claims u news ≤ held_claims u olds

pub FewerHeld-refl : (cs : List Claim) → FewerHeld cs cs
FewerHeld-refl cs u = omega arith

pub FewerHeld-trans : (x y z : List Claim) → FewerHeld x y → FewerHeld y z → FewerHeld x z
FewerHeld-trans x y z f g u = omega (arith, f u, g u)
