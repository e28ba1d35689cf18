-- ===== src/Payments/Stripe/Calls/Unconfirmed.antt =====
-- What a capture and a cancellation leave alone as long as Stripe does not confirm them.
use hop_and_barley_store.Prelude.{
  ℕ, ◌≡◌, refl, ◌∙◌, ◌⊎◌, inl, inr, Bool, true, false, Option, none, some, String, arith,
}
use hop_and_barley_store.Store.Transaction.{HttpError, Result, ok, err, Result-cases}
use hop_and_barley_store.Payments.{PaymentDatabase, T}
use hop_and_barley_store.Payments.Yields.{
  Yields, by_pure, by_reads, by_modify, by_lookup, by_bind, by_then, by_branch, by_call,
}
use hop_and_barley_store.Payments.Stripe.{Runtime, PaymentIntent, is_canceled, is_intent_succeeded}
use hop_and_barley_store.Payments.Service.{write_attempt}
use hop_and_barley_store.Payments.Stripe.Inventory.{
  ActionKind, capture, cancel, mark_reconciliation,
}
use hop_and_barley_store.Payments.Stripe.Outcomes.{
  mark_attempt_reconciliation, capture_reference, lock_and_load_attempt,
}
use hop_and_barley_store.Payments.Stripe.Calls.{
  Gateway, Call, ◌then_call◌, return, fail, commit, catch, answer, choose, load_attempt, mark,
  or_mark, or_done, request_cancellation, request_capture, apply_provider_action,
}

-- The carts, orders and products stay, and the claims on the discount.
abbrev pub SameShop : PaymentDatabase → PaymentDatabase → Type 0
SameShop db db' = (db'.store ≡ db.store) × (db'.claims ≡ db.claims)

record Spares {A : Type 0} (c : Call A) : Type 0 where
  at : (db : PaymentDatabase) → SameShop db (c db).1

outcome : {A : Type 0} (r : Result A) → ((a : A) × (r ≡ ok a)) ⊎ ((e : HttpError) × (r ≡ err e))
outcome (ok a) = inl (a, refl)
outcome (err e) = inr (e, refl)

commit-Spares :
    {A : Type 0} (m : T A)
    → ((db : PaymentDatabase) → Yields m db λ a s. SameShop db s)
    → Spares (commit m)
unfolding commit
commit-Spares m y = record {
  at = λ db. elim (Result-cases (m db)) [
    | inl (a, s, e) ↦ rw (commit, e) ((y db).holds a s e)
    | inr (x, e) ↦ rw (commit, e) (refl, refl)
  ];
}

then-Spares :
    {A B : Type 0} (c : Call A) (f : A → Call B)
    → Spares c
    → ((a : A) → Spares (f a))
    → Spares (c then_call f)
unfolding ◌then_call◌
then-Spares c f k ks = record {
  at = λ db. elim (outcome (c db).0) [
    | inl (a, e) ↦
        let (s, d) = (ks a).at (c db).1 in rw (◌then_call◌, e) (s ∙ (k.at db).0, d ∙ (k.at db).1)
    | inr (x, e) ↦ rw (◌then_call◌, e) (k.at db)
  ];
}

-- A request, and what is done with its answer.
answer_then-Spares :
    {A B : Type 0} (o : Option A) (f : A → Call B)
    → ((a : A) → o ≡ some a → Spares (f a))
    → Spares (answer o then_call f)
unfolding ◌then_call◌ answer fail return
answer_then-Spares none f k = record { at = λ db. (refl, refl) }
answer_then-Spares (some a) f k = record { at = λ db. (k a refl).at db }

catch-Spares :
    {A : Type 0} (c handler : Call A) → Spares c → Spares handler → Spares (catch c handler)
unfolding catch
catch-Spares c handler k kh = record {
  at = λ db. elim (outcome (c db).0) [
    | inl (a, e) ↦ rw (catch, e) (k.at db)
    | inr (x, e) ↦ let (s, d) = kh.at (c db).1 in rw (catch, e) (s ∙ (k.at db).0, d ∙ (k.at db).1)
  ];
}

refused-Spares :
    {A : Type 0} (b : Bool) (x y : Call A) → b ≡ false → Spares y → Spares (choose b x y)
refused-Spares true x y e k = absurd (ground arith)
refused-Spares false x y e k = k

done-Spares : Spares (return tt)
unfolding return
done-Spares = record { at = λ db. (refl, refl) }

load_attempt-Spares : (i : ℕ) → Spares (load_attempt i)
unfolding load_attempt
load_attempt-Spares i = commit-Spares _ λ db. by_lookup _ _ λ a found. (refl, refl)

mark_reconciliation-SameShop :
    (db : PaymentDatabase) (i now : ℕ) → Yields (mark_reconciliation i now) db λ u s. SameShop db s
unfolding mark_reconciliation write_attempt
mark_reconciliation-SameShop db i now = by_bind (
    by_reads _
      (by_branch _ (λ unsettled. by_modify _ (refl, refl)) λ settled. by_pure _ (refl, refl)))

module _ (js : Runtime) (stripe : Gateway) (order_id now : ℕ) where
  mark-Spares : (i : ℕ) → Spares (mark js stripe order_id now i)
  unfolding mark_attempt_reconciliation
  mark-Spares i = commit-Spares _ λ db. by_then (
      by_call (mark_reconciliation-SameShop db i now) λ u s same.
        by_bind (by_reads _ (by_branch _ (λ opened. by_modify _ same) λ closed. by_pure _ same)))

  reference-Spares : (i : ℕ) → Spares (commit (capture_reference i now))
  unfolding capture_reference lock_and_load_attempt
  reference-Spares i = commit-Spares _ λ db. by_bind (
      by_lookup _ _ λ a found. by_bind (
        by_reads _ (
          by_branch _ (λ opened. by_then (by_modify _ (by_pure _ (refl, refl))))
            λ closed. by_pure _ (refl, refl))))

  or_mark-Spares :
      (i : ℕ) (o : Option String) (f : String → Call (Unit {0}))
      → ((reference : String) → Spares (f reference))
      → Spares (or_mark js stripe order_id now i o f)
  or_mark-Spares i none f k = mark-Spares i
  or_mark-Spares i (some reference) f k = k reference

  or_done-Spares :
      (o : Option String) (f : String → Call (Unit {0}))
      → ((reference : String) → Spares (f reference))
      → Spares (or_done js stripe order_id now o f)
  or_done-Spares none f k = done-Spares
  or_done-Spares (some reference) f k = k reference

  request_cancellation-Spares :
      ((reference : String) (intent : PaymentIntent)
        → stripe.cancel_payment_intent reference ≡ some intent
        → is_canceled intent.status ≡ false)
      → (i : ℕ) → Spares (request_cancellation js stripe order_id now i)
  unfolding request_cancellation
  request_cancellation-Spares never i = then-Spares _ _ (load_attempt-Spares i) λ a.
      or_mark-Spares i _ _ λ reference.
        catch-Spares _ _
          (answer_then-Spares _ _
            λ intent told. refused-Spares _ _ _ (never reference intent told) (mark-Spares i))
          (mark-Spares i)

  request_capture-Spares :
      ((reference : String) (intent : PaymentIntent)
        → stripe.capture_payment_intent reference ≡ some intent
        → is_intent_succeeded intent.status ≡ false)
      → (i : ℕ) → Spares (request_capture js stripe order_id now i)
  unfolding request_capture
  request_capture-Spares never i = then-Spares _ _ (reference-Spares i) λ o.
      or_done-Spares o _ λ reference.
        catch-Spares _ _
          (answer_then-Spares _ _
            λ intent told. refused-Spares _ _ _ (never reference intent told) (mark-Spares i))
          (mark-Spares i)

  action-Spares :
      ((reference : String) (intent : PaymentIntent)
        → stripe.capture_payment_intent reference ≡ some intent
        → is_intent_succeeded intent.status ≡ false)
      → ((reference : String) (intent : PaymentIntent)
          → stripe.cancel_payment_intent reference ≡ some intent
          → is_canceled intent.status ≡ false)
      → (action : Option (ℕ × ActionKind))
      → Spares (apply_provider_action js stripe order_id now action)
  unfolding apply_provider_action
  action-Spares captures cancels none = done-Spares
  action-Spares captures cancels (some (i, capture)) = request_capture-Spares captures i
  action-Spares captures cancels (some (i, cancel)) = request_cancellation-Spares cancels i

  -- While Stripe answers no capture with an intent that succeeded and no cancellation with one that
  -- is cancelled, asking it for them, whatever it answers or throws, changes no order, no stock, no
  -- cart and no user, and no claim on the discount.
  pub unconfirmed_keeps_shop :
      ((reference : String) (intent : PaymentIntent)
        → stripe.capture_payment_intent reference ≡ some intent
        → is_intent_succeeded intent.status ≡ false)
      → ((reference : String) (intent : PaymentIntent)
          → stripe.cancel_payment_intent reference ≡ some intent
          → is_canceled intent.status ≡ false)
      → (action : Option (ℕ × ActionKind)) (db : PaymentDatabase)
      → SameShop db (apply_provider_action js stripe order_id now action db).1
  unconfirmed_keeps_shop captures cancels action db = (action-Spares captures cancels action).at db
