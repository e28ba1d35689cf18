-- ===== src/Payments/Prepare/Claimed.antt =====
-- What `prepare` does to the claims and to the attempts that are there.
use hop_and_barley_store.Prelude.{
  ℕ, ◌≤◌, ◌≡◌, refl, Bool, true, false, List, [], ◌∷◌, ◌++◌, ◌==◌, Option, none, some, String,
  arith,
}
use hop_and_barley_store.Catalog.Product.{Product}
use hop_and_barley_store.Orders.Allocation.{PricedLine}
use hop_and_barley_store.Checkout.Drafts.{CheckoutDraft, find_draft}
use hop_and_barley_store.Payments.{PaymentDatabase}
use hop_and_barley_store.Payments.Attempts.{PaymentAttempt, find_attempt}
use hop_and_barley_store.Payments.Claims.{Claim, find_held_claim}
use hop_and_barley_store.Payments.Claims.Held.{held_claims, held_claims-append, none_held}
use hop_and_barley_store.Payments.Service.Evolution.{Evolves-refl, AllEvolve, AllEvolve-refl}
use hop_and_barley_store.Payments.Yields.{
  Yields, by_pure, by_reads, by_modify, by_require, by_lookup, by_bind, by_then, by_branch,
  by_throw,
}
use hop_and_barley_store.Payments.Prepare.{
  Principal, account, guest, PreparePaymentAttempt, AttemptRequest, user_of, lock_active_user,
  same_attempt, claim_allows, can_claim_first_purchase_discount, apply_discount_for, quote_lines,
  open_draft, new_claim, claims_with, quote_attempt, replay_or, prepare,
}

abbrev pub AtMostOne : List Claim → Type 0
AtMostOne claims = (u : ℕ) → held_claims u claims ≤ 1

-- The steps that only look at the tables.
lock_active_user-Yields :
    (p : Principal) (db : PaymentDatabase) {Q : Unit {0} → PaymentDatabase → Type 0}
    → Q tt db
    → Yields (lock_active_user p) db Q
unfolding lock_active_user
lock_active_user-Yields guest db q = by_pure _ q
lock_active_user-Yields (account user_id) db q =
    by_bind (by_lookup _ _ λ u found. by_require _ _ λ live. q)

pub open_draft-Yields :
    (hash_request : AttemptRequest → ℕ) (hash_capability : String → ℕ)
    (input : PreparePaymentAttempt) (now attempt_id : ℕ) (db : PaymentDatabase)
    {Q : CheckoutDraft → PaymentDatabase → Type 0}
    → ((d : CheckoutDraft)
        → find_draft input.checkout_draft_id db.drafts ≡ some d
        → (d.cart_id == input.cart_id) ≡ true
        → Q d db)
    → Yields (open_draft hash_request hash_capability input now attempt_id) db Q
unfolding open_draft
open_draft-Yields hash_request hash_capability input now attempt_id db q = by_bind (
    by_lookup _ _ λ draft found. by_then (
      by_require _ _ λ of_cart. by_then (
        lock_active_user-Yields input.principal db (
          by_bind (
            by_lookup _ _ λ cart there. by_then (
              by_require _ _ λ owned. by_then (
                by_require _ _ λ held. by_then (
                  by_require _ _ λ capable.
                    by_then (by_require _ _ λ card. by_pure _ (q draft found of_cart))))))))))

pub quote_lines-Yields :
    (now : ℕ) (lines : List (Product × ℕ)) (subtotal : ℕ) (db : PaymentDatabase)
    {Q : List PricedLine × ℕ → PaymentDatabase → Type 0}
    → ((q : List PricedLine × ℕ) → Q q db)
    → Yields (quote_lines now lines subtotal) db Q
unfolding quote_lines
quote_lines-Yields now [] subtotal db k = by_pure _ (k _)
quote_lines-Yields now ((p, n) ∷ lines) subtotal db k = by_then (
    by_require _ _ λ sold. by_bind (
      by_lookup _ _ λ total priced. by_bind (
        by_lookup _ _
          λ sum added. by_bind (quote_lines-Yields now lines sum db λ rest. by_pure _ (k _)))))

-- The discount is granted to a user who holds none.
abbrev pub Granted : Principal → Bool → List Claim → Type 0
Granted guest apply_discount claims = apply_discount ≡ false
Granted (account u) apply_discount claims = apply_discount ≡ true → held_claims u claims ≡ 0

claim_allows-Yields :
    (o : Option Claim) (db : PaymentDatabase) {Q : Bool → PaymentDatabase → Type 0}
    → ((b : Bool) → (b ≡ true → o ≡ none) → Q b db)
    → Yields (claim_allows o) db Q
claim_allows-Yields none db k = by_pure _ (k true λ h. refl)
claim_allows-Yields (some c) db k =
    by_branch _ (λ used. by_pure _ (k false λ h. absurd (ground arith))) λ held. by_throw _

pub apply_discount_for-Yields :
    (p : Principal) (db : PaymentDatabase) {Q : Bool → PaymentDatabase → Type 0}
    → ((b : Bool) → Granted p b db.claims → Q b db)
    → Yields (apply_discount_for p) db Q
unfolding apply_discount_for can_claim_first_purchase_discount
apply_discount_for-Yields guest db k = by_pure _ (k false refl)
apply_discount_for-Yields (account u) db k = by_bind (
    by_reads _ (
      by_bind (
        by_reads _ (
          by_branch _ (λ paid. by_pure _ (k false λ h. absurd (ground arith)))
            λ new.
              claim_allows-Yields (find_held_claim u db.claims) db
                λ b free. k b λ h. none_held u db.claims (free h)))))

module _ (hash_request : AttemptRequest → ℕ) (hash_capability : String → ℕ)
    (input : PreparePaymentAttempt) (now attempt_id : ℕ) where
  claims_with-AtMostOne :
      (p : Principal) (b : Bool) (claims : List Claim)
      → Granted p b claims
      → AtMostOne claims
      → AtMostOne
          (claims_with hash_request hash_capability input now attempt_id b (user_of p) claims)
  claims_with-AtMostOne guest true claims g one u = one u
  claims_with-AtMostOne guest false claims g one u = one u
  claims_with-AtMostOne (account v) false claims g one u = one u
  claims_with-AtMostOne (account v) true claims g one u = ground (
    arith,
    one u,
    g refl,
    held_claims-append u claims (new_claim hash_request hash_capability input now attempt_id v),
  )

  find_attempt-append :
      (i : ℕ) (rows : List PaymentAttempt) (a b : PaymentAttempt)
      → find_attempt i rows ≡ some a
      → find_attempt i (rows ++ b ∷ []) ≡ some a
  unfolding find_attempt
  find_attempt-append i [] a b h = absurd (ground arith)
  find_attempt-append i (x ∷ rows) a b h = ground (arith, find_attempt-append i rows a b)

  -- The attempts stay, and no user comes to hold two discounts.
  abbrev pub Prepared : PaymentDatabase → PaymentDatabase → Type 0
  Prepared db db' =
      AllEvolve db.attempts db'.attempts × (AtMostOne db.claims → AtMostOne db'.claims)

  quote_attempt-Prepared :
      (draft : CheckoutDraft) (db : PaymentDatabase)
      → Yields
          (quote_attempt hash_request hash_capability input now attempt_id draft)
          db
          λ a s. Prepared db s
  unfolding quote_attempt
  quote_attempt-Prepared draft db = by_bind (
      by_reads _ (
        by_then (
          by_require _ _ λ filled. by_bind (
            by_reads _ (
              by_then (
                by_require _ _ λ known. by_bind (
                  by_reads _ (
                    by_bind (
                      quote_lines-Yields now _ 0 db λ quoted. by_bind (
                        apply_discount_for-Yields input.principal db λ b granted. by_bind (
                          by_lookup _ _ λ pricing priced. by_then (
                            by_modify _ (
                              by_then (
                                by_modify _ (
                                  by_then (
                                    by_require _ _ λ consistent. by_pure _ (
                                      λ i a h. (
                                        a,
                                        find_attempt-append i db.attempts a _ h,
                                        Evolves-refl a,
                                      ),
                                      claims_with-AtMostOne input.principal b db.claims granted,
                                    )))))))))))))))))

  replay_or-Prepared :
      (o : Option PaymentAttempt) (draft : CheckoutDraft) (db : PaymentDatabase) (hash : ℕ)
      → Yields
          (replay_or hash_request hash_capability input now attempt_id o hash
            (quote_attempt hash_request hash_capability input now attempt_id draft))
          db
          λ a s. Prepared db s
  unfolding same_attempt
  replay_or-Prepared none draft db hash = quote_attempt-Prepared draft db
  replay_or-Prepared (some a) draft db hash = by_then (
      by_require _ _ λ sealed.
        by_then (by_require _ _ λ same. by_pure _ (AllEvolve-refl db.attempts, λ one. one)))

  pub prepare-Prepared :
      (db : PaymentDatabase)
      → Yields (prepare hash_request hash_capability input now attempt_id) db λ a s. Prepared db s
  unfolding prepare
  prepare-Prepared db = by_bind (
      open_draft-Yields hash_request hash_capability input now attempt_id db
        λ draft found of_cart. by_bind (by_reads _ (replay_or-Prepared _ draft db _)))
