-- ===== src/Payments/Ledger/Entries/Events.antt =====
-- The transaction of a webhook event makes one entry at most.
use text.Mathlib.Text.{◌==◌ as str_eq}
use hop_and_barley_store.Prelude.{ℕ, ◌≡◌, none, some, String}
use hop_and_barley_store.Payments.{PaymentDatabase}
use hop_and_barley_store.Payments.Yields.{Yields}
use hop_and_barley_store.Payments.Ledger.Untouched.{Untouched}
use hop_and_barley_store.Payments.Stripe.{
  requires_capture, attempt_of_metadata, Runtime, PaymentIntent,
}
use hop_and_barley_store.Payments.Stripe.Webhook.{EventObject, payment_intent, Event, find_receipt}

-- An event of Stripe that commits the items of an attempt: an intent that names the attempt waits to
-- be captured, and the event says so.
pub record Captures (js : Runtime) (event_type : String) (object : EventObject) (i : ℕ)
    : Type 0 where
  pub intent : PaymentIntent
  pub reports : object ≡ payment_intent intent
  pub kind : event_type ≡ "payment_intent.amount_capturable_updated"
  pub waits : intent.status ≡ requires_capture
  pub named : attempt_of_metadata js (some intent.metadata) ≡ some i

-- An event that gives the items of an attempt back: the intent that names the attempt was cancelled.
pub record Cancels (js : Runtime) (event_type : String) (object : EventObject) (i : ℕ)
    : Type 0 where
  pub intent : PaymentIntent
  pub reports : object ≡ payment_intent intent
  pub kind : event_type ≡ "payment_intent.canceled"
  pub named : attempt_of_metadata js (some intent.metadata) ≡ some i

abbrev CapturesIntent : PaymentIntent → String → ℕ → ℕ → Type 0
CapturesIntent intent event_type i j =
    (j ≡ i)
    × (event_type ≡ "payment_intent.amount_capturable_updated")
    × (intent.status ≡ requires_capture)

abbrev CancelsIntent : String → ℕ → ℕ → Type 0
CancelsIntent event_type i j = (j ≡ i) × (event_type ≡ "payment_intent.canceled")

module _ (js : Runtime) (order_id : ℕ) (db : PaymentDatabase) where
  -- The event has no receipt yet, and captures or cancels.
  abbrev pub Takes : Event → ℕ → Type 0
  Takes event i =
      (find_receipt event.id db.receipts ≡ none) × Captures js event.event_type event.object i

  abbrev pub Gives : Event → ℕ → Type 0
  Gives event i =
      (find_receipt event.id db.receipts ≡ none) × Cancels js event.event_type event.object i
