-- ===== src/Payments/Allocations.antt =====
-- The table "PaymentAllocation" of apps/api/prisma/schema.prisma, keyed by its attempt.
use hop_and_barley_store.Prelude.{
  ℕ, Bool, true, false, List, [], ◌∷◌, ◌==◌, Option, none, some, String, if◌then◌else◌,
}

pub data AllocationStatus : Type 0 where
  allocated capture_requested reconciliation_required captured released : AllocationStatus

pub data AllocationReleaseReason : Type 0 where
  payment_failed payment_cancelled authorization_expired stock_unavailable : AllocationReleaseReason

pub record Allocation : Type 0 where
  pub payment_attempt_id : ℕ
  pub order_id : ℕ
  pub provider_payment_reference : Option String
  pub status : AllocationStatus
  pub authorized_at : ℕ
  pub capture_requested_at : Option ℕ
  pub captured_at : Option ℕ
  pub released_at : Option ℕ
  pub release_reason : Option AllocationReleaseReason

abbrev pub is_released : AllocationStatus → Bool
is_released released = true
is_released _ = false

abbrev pub is_captured : AllocationStatus → Bool
is_captured captured = true
is_captured _ = false

abbrev pub is_settled : AllocationStatus → Bool
is_settled captured = true
is_settled released = true
is_settled _ = false

unfoldable pub find_allocation : ℕ → List Allocation → Option Allocation
find_allocation attempt_id [] = none
find_allocation attempt_id (x ∷ xs) =
    if x.payment_attempt_id == attempt_id then some x else find_allocation attempt_id xs

unfoldable pub update_allocation : ℕ → (Allocation → Allocation) → List Allocation → List Allocation
update_allocation attempt_id f [] = []
update_allocation attempt_id f (x ∷ xs) =
    if x.payment_attempt_id == attempt_id then f x ∷ xs else x ∷ update_allocation attempt_id f xs
