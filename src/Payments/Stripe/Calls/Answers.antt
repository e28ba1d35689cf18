-- ===== src/Payments/Stripe/Calls/Answers.antt =====
-- What a call of the payments answers when it does not throw: one rule for each way to build it.
use hop_and_barley_store.Prelude.{
  ◌≡◌, refl, subst, ◌⊎◌, inl, inr, Bool, true, false, Option, none, some, String, arith,
}
use hop_and_barley_store.Store.Transaction.{HttpError, Result, ok, err, Result-cases}
use hop_and_barley_store.Payments.{PaymentDatabase, T}
use hop_and_barley_store.Payments.Yields.{Yields}
use hop_and_barley_store.Payments.Stripe.Calls.{
  Call, ◌then_call◌, return, fail, commit, catch_error, answer, choose,
}

pub record Answers {A : Type 0} (c : Call A) (db : PaymentDatabase)
    (Q : A → PaymentDatabase → Type 0) : Type 0 where
  pub holds : (a : A) → (c db).0 ≡ ok a → Q a (c db).1

outcome : {A : Type 0} (r : Result A) → ((a : A) × (r ≡ ok a)) ⊎ ((e : HttpError) × (r ≡ err e))
outcome (ok a) = inl (a, refl)
outcome (err e) = inr (e, refl)

module _ {A : Type 0} {db : PaymentDatabase} {Q : A → PaymentDatabase → Type 0} where
  pub on_return : (x : A) → Q x db → Answers (return x) db Q
  unfolding return
  on_return x q = record {
    holds = λ a h. let same : x ≡ a = ground arith in subst (λ b. Q b db) same q;
  }

  pub on_fail : (e : HttpError) → Answers (fail e) db Q
  unfolding fail
  on_fail e = record { holds = λ a h. absurd (ground arith) }

  pub on_answer : (o : Option A) → ((a : A) → o ≡ some a → Q a db) → Answers (answer o) db Q
  unfolding answer
  on_answer none k = on_fail _
  on_answer (some x) k = on_return x (k x refl)

  pub on_choose :
      (b : Bool) {x y : Call A}
      → (b ≡ true → Answers x db Q)
      → (b ≡ false → Answers y db Q)
      → Answers (choose b x y) db Q
  on_choose true hx hy = hx refl
  on_choose false hx hy = hy refl

  pub on_option :
      (o : Option String) {x : Call A} {f : String → Call A}
      → (o ≡ none → Answers x db Q)
      → ((r : String) → o ≡ some r → Answers (f r) db Q)
      → Answers (elim o [ none ↦ x | some r ↦ f r ]) db Q
  on_option none kx k = kx refl
  on_option (some r) kx k = k r refl

  pub on_commit : {m : T A} → Yields m db Q → Answers (commit m) db Q
  unfolding commit
  on_commit {m} y = record {
    holds = λ a. elim (Result-cases (m db)) [
      | inl (b, s, e) ↦
          rw (commit, e)
            (λ h. let same : b ≡ a = ground arith in subst (λ z. Q z s) same (y.holds b s e))
      | inr (x, e) ↦ rw (commit, e) (λ h. absurd (ground arith))
    ];
  }

  pub on_then :
      {B : Type 0} {c : Call B} {f : B → Call A}
      → Answers c db (λ b s. Answers (f b) s Q)
      → Answers (c then_call f) db Q
  unfolding ◌then_call◌
  on_then {c} {f} y = record {
    holds = λ a. elim (outcome (c db).0) [
      | inl (b, e) ↦ rw (◌then_call◌, e) ((y.holds b e).holds a)
      | inr (x, e) ↦ rw (◌then_call◌, e) (λ h. absurd (ground arith))
    ];
  }

  pub on_catch :
      {c : Call A} {handler : HttpError → Call A}
      → Answers c db Q
      → ((e : HttpError) (s : PaymentDatabase) → Answers (handler e) s Q)
      → Answers (catch_error c handler) db Q
  unfolding catch_error
  on_catch {c} {handler} y k = record {
    holds = λ a. elim (outcome (c db).0) [
      | inl (b, e) ↦
          rw (catch_error, e)
            (λ h. let same : b ≡ a = ground arith in subst (λ z. Q z (c db).1) same (y.holds b e))
      | inr (x, e) ↦ rw (catch_error, e) ((k x (c db).1).holds a)
    ];
  }

  pub on_call :
      {c : Call A} {Y : A → PaymentDatabase → Type 0}
      → Answers c db Y
      → ((a : A) (s : PaymentDatabase) → Y a s → Q a s)
      → Answers c db Q
  on_call {c} y k = record { holds = λ a h. k a (c db).1 (y.holds a h) }
