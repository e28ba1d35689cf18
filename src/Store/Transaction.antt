-- ===== src/Store/Transaction.antt =====
-- A transaction: a function of the tables that returns a value and the new tables, or throws. A
-- throw carries no tables, since the database rolls the transaction back. `HttpError` lists what the
-- services throw; `internal_error` is any error but a Nest exception, which the client sees as 500.
-- Of the payment errors, `attempt_conflict` (409) and `attempt_unavailable` (422) have the one body
-- 'payment-attempt-unavailable', and `payment_refused` (400) and `provider_unavailable` (503) have
-- 'payment-unavailable'.
use hop_and_barley_store.Prelude.{
  ℕ, ◌≡◌, refl, ◌⊎◌, inl, inr, Bool, true, false, List, Option, none, some,
}
use hop_and_barley_store.Cart.Readiness.{CheckoutReadinessLine}

pub data HttpError : Type 0 where
  unauthorized unavailable not_found payment_unavailable invalid_order_transition : HttpError
  idempotency_conflict internal_error : HttpError
  attempt_conflict attempt_unavailable claim_held payment_refused : HttpError
  provider_unavailable payments_disabled : HttpError
  allocation_unavailable : (checked_at : ℕ) → List CheckoutReadinessLine → HttpError

pub data Result {ℓ} (A : Type ℓ) : Type ℓ where
  ok : A → Result A
  err : HttpError → Result A

abbrev pub Transaction : Type 0 → Type 0 → Type 0
Transaction S A = S → Result (A × S)

module _ {S : Type 0} where
  infixl 5 ◌>>=◌ ◌>>◌
  abbrev pub ◌>>=◌ : {A B : Type 0} → Transaction S A → (A → Transaction S B) → Transaction S B
  ◌>>=◌ m f s = elim (m s) [ ok (a, s') ↦ f a s' | err e ↦ err e ]

  abbrev pub ◌>>◌ : {B : Type 0} → Transaction S (Unit {0}) → Transaction S B → Transaction S B
  m >> k = m >>= λ _. k

  abbrev pub pure : {A : Type 0} → A → Transaction S A
  pure a s = ok (a, s)

  abbrev pub throw : {A : Type 0} → HttpError → Transaction S A
  throw e s = err e

  abbrev pub reads : {A : Type 0} → (S → A) → Transaction S A
  reads f s = ok (f s, s)

  abbrev pub modify : (S → S) → Transaction S (Unit {0})
  modify f s = ok (tt, f s)

  abbrev pub require : Bool → HttpError → Transaction S (Unit {0})
  require true e s = ok (tt, s)
  require false e s = err e

  abbrev pub or_throw : {A : Type 0} → Option A → HttpError → Transaction S A
  or_throw none e s = err e
  or_throw (some a) e s = ok (a, s)

pub Result-cases :
    {A S : Type 0} (x : Result (A × S))
    → ((a : A) × (s : S) × (x ≡ ok (a, s))) ⊎ ((e : HttpError) × (x ≡ err e))
Result-cases (ok (a, s)) = inl (a, s, refl)
Result-cases (err e) = inr (e, refl)

-- The parts of a step that succeeds.
pub >>=-eq_ok :
    {S A B : Type 0} (m : Transaction S A) (f : A → Transaction S B) (s : S) {r : B × S}
    → (m >>= f) s ≡ ok r
    → (a : A) × (s' : S) × (m s ≡ ok (a, s')) × (f a s' ≡ ok r)
>>=-eq_ok m f s h = elim (Result-cases (m s)) [
  | inl (a, s', e) ↦ (a, s', e, rw (e, ◌>>=◌) at h)
  | inr (x, e) ↦ absurd (let bad = rw (e, ◌>>=◌) at h in cc)
]
