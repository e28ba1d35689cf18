-- ===== src/Payments/Claims.antt =====
-- The table "FirstPurchaseDiscountClaim" of apps/api/prisma/schema.prisma.
pub mod Held
use hop_and_barley_store.Prelude.{
  ℕ, Bool, true, false, ◌&&◌, List, [], ◌∷◌, ◌==◌, Option, none, some, if◌then◌else◌,
}

pub data DiscountClaimStatus : Type 0 where
  claimed consumed released : DiscountClaimStatus

pub data ClaimReleaseReason : Type 0 where
  definitive_payment_failed definitive_payment_cancelled_unpaid : ClaimReleaseReason

pub record Claim : Type 0 where
  pub user_id : ℕ
  pub payment_attempt_id : ℕ
  pub status : DiscountClaimStatus
  pub held_at : ℕ
  pub consumed_at : Option ℕ
  pub consumed_order_id : Option ℕ
  pub released_at : Option ℕ
  pub release_reason : Option ClaimReleaseReason

abbrev pub is_claimed : DiscountClaimStatus → Bool
is_claimed claimed = true
is_claimed _ = false

abbrev pub is_consumed : DiscountClaimStatus → Bool
is_consumed consumed = true
is_consumed _ = false

abbrev pub holds_discount : DiscountClaimStatus → Bool
holds_discount released = false
holds_discount _ = true

-- `findFirst({ where: { status: { in: ['CLAIMED', 'CONSUMED'] }, userId } })`.
unfoldable pub find_held_claim : ℕ → List Claim → Option Claim
find_held_claim user_id [] = none
find_held_claim user_id (c ∷ cs) =
    if c.user_id == user_id && holds_discount c.status then some c else find_held_claim user_id cs

-- `findUnique({ where: { paymentAttemptId } })`.
unfoldable pub find_claim : ℕ → List Claim → Option Claim
find_claim attempt_id [] = none
find_claim attempt_id (c ∷ cs) =
    if c.payment_attempt_id == attempt_id then some c else find_claim attempt_id cs

-- `updateMany({ data, where: { paymentAttemptId, status: 'CLAIMED' } })`, of which an attempt has
-- one row at most; the flag says whether it was updated.
unfoldable pub update_claimed : ℕ → (Claim → Claim) → List Claim → List Claim × Bool
update_claimed attempt_id f [] = ([], false)
update_claimed attempt_id f (c ∷ cs) =
    let rest = update_claimed attempt_id f cs in
    if c.payment_attempt_id == attempt_id && is_claimed c.status
    then (f c ∷ cs, true)
    else (c ∷ rest.0, rest.1)
