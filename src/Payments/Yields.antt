-- ===== src/Payments/Yields.antt =====
-- What a transaction over the tables of the payments yields when it does not throw: one rule for
-- each way to build it, with what its tests and lookups found as hypotheses of the rest.
use hop_and_barley_store.Prelude.{
  ◌≡◌, refl, subst, subst₂, Bool, true, false, Option, some, inl, inr, arith, Option-cases,
}
use hop_and_barley_store.Store.Transaction.{HttpError, ok, Result-cases}
use hop_and_barley_store.Payments.{PaymentDatabase, T}
use hop_and_barley_store.Payments.Action.{
  ◌>>=◌, ◌>>◌, pure, throw, reads, modify, require, branch, lookup,
}

-- What a step that succeeds did.
module _ {A : Type 0} (db : PaymentDatabase) (a : A) (db' : PaymentDatabase) where
  pure-eq_ok : (x : A) → pure x db ≡ ok (a, db') → (x ≡ a) × (db ≡ db')
  unfolding pure
  pure-eq_ok x h = (ground arith, ground arith)

  reads-eq_ok : (f : PaymentDatabase → A) → reads f db ≡ ok (a, db') → (f db ≡ a) × (db ≡ db')
  unfolding reads
  reads-eq_ok f h = (ground arith, ground arith)

  lookup-eq_ok :
      (o : PaymentDatabase → Option A) (e : HttpError)
      → lookup o e db ≡ ok (a, db')
      → (o db ≡ some a) × (db ≡ db')
  unfolding lookup
  lookup-eq_ok o e h = elim (Option-cases (o db)) [
    | inl z ↦ absurd (ground (arith, z))
    | inr (x, z) ↦ (ground (arith, z), ground (arith, z))
  ]

  throw-eq_ok : (e : HttpError) → throw e db ≡ ok (a, db') → ⊥
  unfolding throw
  throw-eq_ok e h = ground arith

  bind-eq_ok :
      {B : Type 0} (m : T B) (f : B → T A)
      → (m >>= f) db ≡ ok (a, db')
      → (b : B) × (s : PaymentDatabase) × (m db ≡ ok (b, s)) × (f b s ≡ ok (a, db'))
  unfolding ◌>>=◌
  bind-eq_ok m f h = elim (Result-cases (m db)) [
    | inl (b, s, e) ↦ (b, s, e, ground (arith, e))
    | inr (x, e) ↦ absurd (ground (arith, e))
  ]

  then-eq_ok :
      (m : T (Unit {0})) (k : T A)
      → (m >> k) db ≡ ok (a, db')
      → (s : PaymentDatabase) × (m db ≡ ok (tt, s)) × (k s ≡ ok (a, db'))
  unfolding ◌>>◌
  then-eq_ok m k h = elim (Result-cases (m db)) [
    | inl (b, s, e) ↦ (s, e, ground (arith, e))
    | inr (x, e) ↦ absurd (ground (arith, e))
  ]

module _ (db : PaymentDatabase) (a : Unit {0}) (db' : PaymentDatabase) where
  modify-eq_ok : (f : PaymentDatabase → PaymentDatabase) → modify f db ≡ ok (a, db') → f db ≡ db'
  unfolding modify
  modify-eq_ok f h = ground arith

  require-eq_ok :
      (b : Bool) (e : HttpError) → require b e db ≡ ok (a, db') → (b ≡ true) × (db ≡ db')
  unfolding require
  require-eq_ok true e h = (refl, ground arith)
  require-eq_ok false e h = absurd (ground arith)

pub record Yields {A : Type 0} (m : T A) (db : PaymentDatabase) (Q : A → PaymentDatabase → Type 0)
    : Type 0 where
  pub holds : (a : A) (db' : PaymentDatabase) → m db ≡ ok (a, db') → Q a db'

module _ {A : Type 0} {db : PaymentDatabase} {Q : A → PaymentDatabase → Type 0} where
  pub by_pure : (x : A) → Q x db → Yields (pure x) db Q
  by_pure x q = record { holds = λ a db' h. let (e, s) = pure-eq_ok db a db' x h in subst₂ Q e s q }

  pub by_reads : (f : PaymentDatabase → A) → Q (f db) db → Yields (reads f) db Q
  by_reads f q = record {
    holds = λ a db' h. let (e, s) = reads-eq_ok db a db' f h in subst₂ Q e s q;
  }

  pub by_lookup :
      (o : PaymentDatabase → Option A) (e : HttpError)
      → ((a : A) → o db ≡ some a → Q a db)
      → Yields (lookup o e) db Q
  by_lookup o e q = record {
    holds =
        λ a db' h. let (found, s) = lookup-eq_ok db a db' o e h in subst (λ d. Q a d) s (q a found);
  }

  pub by_bind :
      {B : Type 0} {m : T B} {f : B → T A}
      → Yields m db (λ b s. Yields (f b) s Q)
      → Yields (m >>= f) db Q
  by_bind {m} {f} y = record {
    holds =
        λ a db' h. let (b, s, e, g) = bind-eq_ok db a db' m f h in (y.holds b s e).holds a db' g;
  }

  pub by_then :
      {m : T (Unit {0})} {k : T A} → Yields m db (λ b s. Yields k s Q) → Yields (m >> k) db Q
  by_then {m} {k} y = record {
    holds = λ a db' h. let (s, e, g) = then-eq_ok db a db' m k h in (y.holds tt s e).holds a db' g;
  }

  pub by_branch :
      (b : Bool) {x y : T A}
      → (b ≡ true → Yields x db Q)
      → (b ≡ false → Yields y db Q)
      → Yields (branch b x y) db Q
  by_branch true {x} {y} hx hy = record {
    holds = λ a db' h. (hx refl).holds a db' (unfold branch in h);
  }
  by_branch false {x} {y} hx hy = record {
    holds = λ a db' h. (hy refl).holds a db' (unfold branch in h);
  }

  pub by_throw : (e : HttpError) → Yields (throw e) db Q
  by_throw e = record { holds = λ a db' h. absurd (throw-eq_ok db a db' e h) }

  -- A call of a transaction of which `Y` is known.
  pub by_call :
      {m : T A} {Y : A → PaymentDatabase → Type 0}
      → Yields m db Y
      → ((a : A) (s : PaymentDatabase) → Y a s → Q a s)
      → Yields m db Q
  by_call y k = record { holds = λ a db' h. k a db' (y.holds a db' h) }

module _ {db : PaymentDatabase} {Q : Unit {0} → PaymentDatabase → Type 0} where
  pub by_modify : (f : PaymentDatabase → PaymentDatabase) → Q tt (f db) → Yields (modify f) db Q
  by_modify f q = record { holds = λ a db' h. subst (λ d. Q tt d) (modify-eq_ok db a db' f h) q }

  pub by_require : (b : Bool) (e : HttpError) → (b ≡ true → Q tt db) → Yields (require b e) db Q
  by_require b e q = record {
    holds = λ a db' h. let (t, s) = require-eq_ok db a db' b e h in subst (λ d. Q tt d) s (q t);
  }
