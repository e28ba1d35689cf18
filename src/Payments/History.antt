-- ===== src/Payments/History.antt =====
-- Any sequence of committed transactions of apps/api/src/payments, in whatever order the database
-- serialized them.
use hop_and_barley_store.Prelude.{ℕ, ◌≡◌, String, Option, List, arith}
use hop_and_barley_store.Store.Transaction.{ok}
use hop_and_barley_store.Payments.{PaymentDatabase}
use hop_and_barley_store.Payments.Attempts.{PaymentAttempt}
use hop_and_barley_store.Payments.Claims.{Claim}
use hop_and_barley_store.Payments.Claims.Held.{FewerHeld}
use hop_and_barley_store.Payments.Prepare.{AttemptRequest, PreparePaymentAttempt, prepare}
use hop_and_barley_store.Payments.Prepare.Claimed.{AtMostOne, prepare-Prepared}
use hop_and_barley_store.Payments.Service.{
  Outcome, mark_pending, mark_provider_session_created, mark_reconciliation_required,
  release_definitive_outcome,
}
use hop_and_barley_store.Payments.Service.Evolution.{
  AllEvolve, AllEvolve-refl, AllEvolve-trans, Moves, mark_pending-Evolved,
  mark_provider_session_created-Evolved, mark_reconciliation_required-Evolved,
  release_definitive_outcome-Evolved,
}
use hop_and_barley_store.Payments.Stripe.{Runtime, PaymentIntent}
use hop_and_barley_store.Payments.Stripe.Inventory.{ActionKind}
use hop_and_barley_store.Payments.Stripe.Outcomes.{
  mark_attempt_reconciliation, capture_reference, apply_payment_intent_state,
}
use hop_and_barley_store.Payments.Stripe.Outcomes.Evolution.{
  mark_attempt_reconciliation-Same, capture_reference-Same,
}
use hop_and_barley_store.Payments.Stripe.Outcomes.Applied.{apply_payment_intent_state-Same}
use hop_and_barley_store.Payments.Stripe.Webhook.{Event, process_webhook_event}
use hop_and_barley_store.Payments.Stripe.Webhook.Evolution.{process_webhook_event-Attempts}

pub data Step (db db' : PaymentDatabase) : Type 0 where
  prepares :
      (hash_request : AttemptRequest → ℕ) (hash_capability : String → ℕ)
      (input : PreparePaymentAttempt) (now attempt_id : ℕ) (a : PaymentAttempt)
      → prepare hash_request hash_capability input now attempt_id db ≡ ok (a, db')
      → Step db db'
  creates_session :
      (trim : String → String) (i : ℕ) (session : String) (expires now : ℕ)
      → mark_provider_session_created trim i session expires now db ≡ ok (tt, db')
      → Step db db'
  pends :
      (trim : String → String) (i : ℕ) (reference : String) (now : ℕ)
      → mark_pending trim i reference now db ≡ ok (tt, db')
      → Step db db'
  requires_reconciliation :
      (i now : ℕ) → mark_reconciliation_required i now db ≡ ok (tt, db') → Step db db'
  releases :
      (i : ℕ) (outcome : Outcome) (now : ℕ)
      → release_definitive_outcome i outcome now db ≡ ok (tt, db')
      → Step db db'
  receives :
      (js : Runtime) (order_id : ℕ) (event : Event) (hash now : ℕ) (r : Option (ℕ × ActionKind))
      → process_webhook_event js order_id event hash now db ≡ ok (r, db')
      → Step db db'
  applies :
      (js : Runtime) (order_id : ℕ) (intent : PaymentIntent) (i now : ℕ) (r : Option ActionKind)
      → apply_payment_intent_state js order_id intent i now db ≡ ok (r, db')
      → Step db db'
  captures :
      (i now : ℕ) (r : Option String) → capture_reference i now db ≡ ok (r, db') → Step db db'
  marks : (i now : ℕ) → mark_attempt_reconciliation i now db ≡ ok (tt, db') → Step db db'

pub data Reaches (db : PaymentDatabase) : PaymentDatabase → Type 0 where
  start : Reaches db db
  step : (s t : PaymentDatabase) → Reaches db s → Step s t → Reaches db t

abbrev Good : PaymentDatabase → PaymentDatabase → Type 0
Good db db' = AllEvolve db.attempts db'.attempts × (AtMostOne db.claims → AtMostOne db'.claims)

fewer : (x y : List Claim) → FewerHeld x y → AtMostOne x → AtMostOne y
fewer x y f one u = omega (arith, f u, one u)

moved : (db db' : PaymentDatabase) → Moves db db' → Good db db'
moved db db' (evolve, kept, f) = (evolve, fewer db.claims db'.claims f)

Step-Good : (db db' : PaymentDatabase) → Step db db' → Good db db'
Step-Good db db' (prepares hr hc input now i a h) =
    (prepare-Prepared hr hc input now i db).holds a db' h
Step-Good db db' (creates_session trim i session expires now h) =
    moved db db'
      ((mark_provider_session_created-Evolved db i trim session expires now).holds tt db' h)
Step-Good db db' (pends trim i reference now h) =
    moved db db' ((mark_pending-Evolved db i trim reference now).holds tt db' h)
Step-Good db db' (requires_reconciliation i now h) =
    moved db db' ((mark_reconciliation_required-Evolved db i now).holds tt db' h)
Step-Good db db' (releases i outcome now h) =
    moved db db' ((release_definitive_outcome-Evolved db i outcome now).holds tt db' h)
Step-Good db db' (receives js order_id event hash now r h) =
    let (evolve, f) =
      (process_webhook_event-Attempts js order_id db event hash now).holds r db' h in
    (evolve, fewer db.claims db'.claims f)
Step-Good db db' (applies js order_id intent i now r h) =
    moved db db' ((apply_payment_intent_state-Same js order_id intent now db i).holds r db' h)
Step-Good db db' (captures i now r h) =
    moved db db' ((capture_reference-Same db i now).holds r db' h)
Step-Good db db' (marks i now h) =
    moved db db' ((mark_attempt_reconciliation-Same db i now).holds tt db' h)

-- However the payment transactions follow on each other, every attempt stays: its price, lines and
-- owner do not change, a reference of the provider that it has stays its reference, and one that
-- succeeded, failed or was cancelled keeps that status.
pub history_keeps_attempts :
    (db db' : PaymentDatabase) → Reaches db db' → AllEvolve db.attempts db'.attempts
history_keeps_attempts db db' start = AllEvolve-refl db.attempts
history_keeps_attempts db db' (step s _ r h) =
    AllEvolve-trans db.attempts s.attempts db'.attempts (history_keeps_attempts db s r)
      (Step-Good s db' h).0

-- However the payment transactions follow on each other, no user comes to hold the discount on the
-- first purchase twice: when each user has at most one claim that is not released, so it stays.
pub history_one_discount :
    (db db' : PaymentDatabase) → Reaches db db' → AtMostOne db.claims → AtMostOne db'.claims
history_one_discount db db' start one = one
history_one_discount db db' (step s _ r h) one =
    (Step-Good s db' h).1 (history_one_discount db s r one)
