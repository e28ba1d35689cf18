-- ===== src/Payments/Stripe/Webhook/Replay.antt =====
-- An event that Stripe sends again.
use hop_and_barley_store.Prelude.{
  ℕ, ◌≡◌, refl, ap, ◌∙◌, true, false, List, [], ◌∷◌, ◌++◌, ◌==◌, Option, none, some, String, arith,
  ==_refl, if◌then◌else◌, inl, inr, Bool-cases,
}
use hop_and_barley_store.Store.Transaction.{ok, err, payment_refused}
use hop_and_barley_store.Payments.{PaymentDatabase, StripeWebhookReceipt}
use hop_and_barley_store.Payments.Action.{◌>>=◌, ◌>>◌, pure, reads, require}
use hop_and_barley_store.Payments.Yields.{
  Yields, by_pure, by_reads, by_modify, by_require, by_bind, by_then, by_call,
}
use hop_and_barley_store.Payments.Matching.Laws.{str_eq_refl}
use hop_and_barley_store.Payments.Stripe.{Runtime}
use hop_and_barley_store.Payments.Stripe.Inventory.{ActionKind}
use hop_and_barley_store.Payments.Stripe.Webhook.{
  Event, find_receipt, receipt_of, process_first, replay_or, process_webhook_event,
}
use hop_and_barley_store.Payments.Stripe.Webhook.Evolution.{apply_object-Same}

find_receipt-append :
    (event_id : String) (rows : List StripeWebhookReceipt) (r : StripeWebhookReceipt)
    → find_receipt event_id rows ≡ none
    → r.provider_event_id ≡ event_id
    → find_receipt event_id (rows ++ r ∷ []) ≡ some r
unfolding find_receipt
find_receipt-append event_id [] r h e = rw (e, str_eq_refl event_id) refl
find_receipt-append event_id (x ∷ rows) r h e =
    ground (arith, find_receipt-append event_id rows r (ground arith) e)

module _ (js : Runtime) (order_id : ℕ) (event : Event) (hash now : ℕ) where
  abbrev Recorded : PaymentDatabase → Type 0
  Recorded db =
      (r : StripeWebhookReceipt) × (find_receipt event.id db.receipts ≡ some r)
      × ((r.payload_hash == hash) ≡ true)

  process_first-Recorded :
      (db : PaymentDatabase)
      → find_receipt event.id db.receipts ≡ none
      → Yields (process_first js order_id event hash now) db λ a s. Recorded s
  unfolding process_first receipt_of
  process_first-Recorded db new = by_bind (
      by_call (apply_object-Same js order_id db event.event_type event.object now) λ applied s step.
        by_then (
          by_modify _ (
            by_pure _ (
              _,
              find_receipt-append event.id s.receipts _ (ap (find_receipt event.id) step.1 ∙ new)
                  refl,
              ==_refl hash,
            ))))

  replay_or-Recorded :
      (o : Option StripeWebhookReceipt) (db : PaymentDatabase)
      → find_receipt event.id db.receipts ≡ o
      → Yields
          (replay_or js order_id o hash (process_first js order_id event hash now))
          db
          λ a s. Recorded s
  unfolding replay_or
  replay_or-Recorded none db h = process_first-Recorded db h
  replay_or-Recorded (some r) db h = by_then (by_require _ _ λ same. by_pure _ (r, h, same))

  process_webhook_event-Recorded :
      (db : PaymentDatabase)
      → Yields (process_webhook_event js order_id event hash now) db λ a s. Recorded s
  unfolding process_webhook_event
  process_webhook_event-Recorded db = by_bind (by_reads _ (replay_or-Recorded _ db refl))

  recorded_again :
      (db : PaymentDatabase) (r : StripeWebhookReceipt) (again later : ℕ)
      → find_receipt event.id db.receipts ≡ some r
      → process_webhook_event js order_id event again later db
        ≡ (if r.payload_hash == again then ok (none, db) else err payment_refused)
  unfolding process_webhook_event replay_or ◌>>=◌ ◌>>◌ pure reads require
  recorded_again db r again later h =
      rw h (elim (Bool-cases (r.payload_hash == again)) [ inl e ↦ rw e refl | inr e ↦ rw e refl ])

  -- An event that was accepted and comes again, at any later time, changes no table and asks for
  -- nothing of Stripe; with another payload under the same id it is refused.
  pub event_again :
      (later other : ℕ) (db : PaymentDatabase) {a : Option (ℕ × ActionKind)} {db' : PaymentDatabase}
      → process_webhook_event js order_id event hash now db ≡ ok (a, db')
      → (process_webhook_event js order_id event hash later db' ≡ ok (none, db'))
        × ((hash == other) ≡ false
            → process_webhook_event js order_id event other later db' ≡ err payment_refused)
  event_again later other db {a} {db'} h =
      let (r, found, same) = (process_webhook_event-Recorded db).holds a db' h in
      (
        recorded_again db' r hash later found ∙ rw same refl,
        λ differs.
            let no : (r.payload_hash == other) ≡ false = ground (arith, same, differs) in
            recorded_again db' r other later found ∙ rw no refl,
      )
