-- ===== src/Payments/Ledger/Entries/Applied.antt =====
-- The transaction of a webhook event makes one entry in the books at most.
use hop_and_barley_store.Prelude.{
  ℕ, ◌≡◌, refl, subst, sym, true, false, not, ◌&&◌, Option, none, some, arith, is_some,
}
use hop_and_barley_store.Orders.Allocation.Laws.{stock_of}
use hop_and_barley_store.Store.Transaction.{HttpError}
use hop_and_barley_store.Payments.{PaymentDatabase}
use hop_and_barley_store.Payments.Attempts.{PaymentAttempt, find_attempt}
use hop_and_barley_store.Payments.Allocations.{
  Allocation, AllocationReleaseReason, find_allocation, update_allocation, is_released,
}
use hop_and_barley_store.Payments.Yields.{
  Yields, by_pure, by_reads, by_modify, by_require, by_lookup, by_bind, by_then, by_branch, by_call,
}
use hop_and_barley_store.Payments.Ledger.{
  Books, Moved, committed, items_for, allocated, short, unheld, given_back, apart, Entry, idle,
  commit, restore,
}
use hop_and_barley_store.Payments.Ledger.Untouched.{
  Untouched, mark_reconciliation-Quiet, release_definitive_outcome-Quiet,
  mark_payment_attempt_succeeded-Quiet, empty_bought_cart-Quiet, then-Quiet,
}
use hop_and_barley_store.Payments.Ledger.Entries.{
  Untouched-Unchanged, items_for_found, Enters, Entry-after, idle_refl, idle_of, commit-entry,
  restore-entry, capture-entry,
}
use hop_and_barley_store.Payments.Service.{Outcome, cancelled_unpaid}
use hop_and_barley_store.Payments.Stripe.{Runtime, PaymentIntent}
use hop_and_barley_store.Payments.Stripe.Inventory.{
  cart_of_attempt, lock_products, take_stock, create_order, create_allocation, allocate_new,
  or_existing, allocate_inventory, all_items_available,
}
use hop_and_barley_store.Payments.Stripe.Outcomes.{
  capture_allocation, pay_order, update_order, release_stock, release_held, release_unpaid_payment,
  finalize_captured_payment, apply_capturable, apply_received, apply_cancelled,
}

not_released :
    (x : Allocation)
    → (not (is_released x.status) && is_some x.capture_requested_at) ≡ true
    → is_released x.status ≡ false
not_released x h = ground arith

module _ (db : PaymentDatabase) (a : PaymentAttempt)
    (found : find_attempt a.snapshot.id db.attempts ≡ some a) where
  -- What moves are the items of the attempt.
  moves :
      (b b' : Books)
      → Moved a.snapshot.items b b'
      → Moved (items_for a.snapshot.id db.attempts) b b'
  moves b b' =
      subst (λ items. Moved items b b') (sym (items_for_found db.attempts a.snapshot.id a found))

  falls_short :
      (now : ℕ)
      → not (all_items_available a.snapshot.items db.store.products now) ≡ true
      → all_items_available (items_for a.snapshot.id db.attempts) db.store.products now ≡ false
  falls_short now few = rw (items_for_found db.attempts a.snapshot.id a found) (ground arith)

module _ (db : PaymentDatabase) (a : PaymentAttempt) (now : ℕ) where
  captured_books :
      (x : Allocation)
      → find_allocation a.snapshot.id db.allocations ≡ some x
      → (not (is_released x.status) && is_some x.capture_requested_at) ≡ true
      → (q : ℕ)
      → (stock_of q db.store.products ≡ stock_of q db.store.products)
        × (committed q db.attempts
              (update_allocation a.snapshot.id (capture_allocation now) db.allocations)
            ≡ committed q db.attempts db.allocations)
  captured_books x held asked q =
      (refl, capture-entry db a.snapshot.id now q x held (not_released x asked))

  -- The tables with the order paid and the allocation captured.
  abbrev captured_tables : ℕ → PaymentDatabase
  captured_tables order_id = record db {
    store = record db.store { orders = update_order order_id (pay_order now) db.store.orders };
    allocations = update_allocation a.snapshot.id (capture_allocation now) db.allocations;
  }

module _ (db : PaymentDatabase) (a : PaymentAttempt)
    (found : find_attempt a.snapshot.id db.attempts ≡ some a) (now : ℕ)
    {Takes Gives : ℕ → Type 0} where
  module _ (js : Runtime) (order_id : ℕ) where
    allocate_new-Enters :
        Takes a.snapshot.id
        → find_allocation a.snapshot.id db.allocations ≡ none
        → Yields (allocate_new js order_id a now) db (Enters Takes Gives now db)
    unfolding allocate_new cart_of_attempt lock_products take_stock create_order create_allocation
    allocate_new-Enters may free = by_bind (
        by_bind (
          by_lookup _ _ λ draft there. by_pure _ (
            by_bind (
              by_lookup _ _ λ cart c. by_then (
                by_bind (
                  by_reads _ (
                    by_require _ _ λ known. by_bind (
                      by_reads _ (
                        by_branch _
                          (λ few. by_then (
                            by_call (mark_reconciliation-Quiet db a.snapshot.id now) λ u s quiet.
                              by_pure _ (
                                idle_of db s
                                  (short a.snapshot.id may (falls_short db a found now few))
                                  quiet)))
                          λ enough. by_then (
                            by_bind (
                              by_lookup _ _ λ left taken. by_modify _ (
                                by_then (
                                  by_modify _ (
                                    by_then (
                                      by_modify _ (
                                        by_pure _ (
                                          commit a.snapshot.id may free (
                                            moves db a found _ _ λ q.
                                              commit-entry db a found order_id now q js left
                                                taken))))))))))))))))))

    existing-Enters :
        (o : Option Allocation)
        → Takes a.snapshot.id
        → find_allocation a.snapshot.id db.allocations ≡ o
        → Yields
            (or_existing js order_id o (allocate_new js order_id a now))
            db
            (Enters Takes Gives now db)
    existing-Enters none may free = allocate_new-Enters may free
    existing-Enters (some x) may here =
        by_pure _ (idle_refl db (allocated a.snapshot.id x may here))

    allocate_inventory-Enters :
        Takes a.snapshot.id
        → Yields (allocate_inventory js order_id a now) db (Enters Takes Gives now db)
    unfolding allocate_inventory
    allocate_inventory-Enters may = by_bind (by_reads _ (existing-Enters _ may refl))

  release_stock-Enters :
      (x : Allocation) (reason : AllocationReleaseReason)
      → Gives a.snapshot.id
      → find_allocation a.snapshot.id db.allocations ≡ some x
      → is_released x.status ≡ false
      → Yields (release_stock a x reason now) db (Enters Takes Gives now db)
  unfolding release_stock lock_products
  release_stock-Enters x reason may here kept = by_then (
      by_require _ _ λ held. by_then (
        by_bind (
          by_reads _ (
            by_require _ _ λ known. by_bind (
              by_reads _ (
                by_then (
                  by_modify _ (
                    by_then (
                      by_modify _ (
                        by_modify _ (
                          restore a.snapshot.id x may here kept (
                            moves db a found _ _ λ q.
                              restore-entry db a found x reason now q here kept known))))))))))))

  release_held-Enters :
      (o : Option Allocation) (reason : AllocationReleaseReason)
      → Gives a.snapshot.id
      → find_allocation a.snapshot.id db.allocations ≡ o
      → Yields (release_held a o reason now) db (Enters Takes Gives now db)
  release_held-Enters none reason may here =
      by_pure _ (idle_refl db (unheld a.snapshot.id may here))
  release_held-Enters (some x) reason may here =
      by_branch _ (λ gone. by_pure _ (idle_refl db (given_back a.snapshot.id x may here gone)))
        λ kept. release_stock-Enters x reason may here kept

  -- A quiet step after an entry.
  pub quiet_after :
      {A : Type 0} (s : PaymentDatabase)
      → Entry Takes Gives now db s
      → (b : A) (t : PaymentDatabase) → Untouched s t
      → Entry Takes Gives now db t
  quiet_after s entry b t quiet = Entry-after db s t (Untouched-Unchanged s t quiet) entry

  release_unpaid_payment-Enters :
      (reason : AllocationReleaseReason) (outcome : Outcome)
      → Gives a.snapshot.id
      → Yields (release_unpaid_payment a reason outcome now) db (Enters Takes Gives now db)
  unfolding release_unpaid_payment
  release_unpaid_payment-Enters reason outcome may = by_bind (
      by_reads _ (
        by_then (
          by_call (release_held-Enters _ reason may refl) λ u s entry.
            by_call (release_definitive_outcome-Quiet s a.snapshot.id outcome now)
              (quiet_after s entry))))

  finalize_captured_payment-Enters :
      ((i : ℕ) → ¬ Takes i)
      → ((i : ℕ) → ¬ Gives i)
      → Yields (finalize_captured_payment a now) db (Enters Takes Gives now db)
  unfolding finalize_captured_payment
  finalize_captured_payment-Enters nt ng =
      by_branch _ (λ done. by_pure _ (idle_refl db (apart nt ng)))
        λ new. by_bind (
          by_lookup _ _ λ x held. by_then (
            by_require _ _ λ asked. by_bind (
              by_lookup _ _ λ order placed. by_then (
                by_modify _ (
                  by_then (
                    by_modify _ (
                      by_then (
                        by_call (mark_payment_attempt_succeeded-Quiet _ a.snapshot.id order.id now)
                          λ u s quiet.
                            by_call
                              (then-Quiet (captured_tables db a now order.id) s quiet
                                (empty_bought_cart-Quiet s a))
                              λ b t more.
                                Entry-after db (captured_tables db a now order.id) t
                                  (Untouched-Unchanged (captured_tables db a now order.id) t more)
                                  (idle (apart nt ng)
                                    (captured_books db a now x held asked))))))))))

  module _ (js : Runtime) (order_id : ℕ) (intent : PaymentIntent) where
    pub apply_capturable-Enters :
        (e : HttpError)
        → Takes a.snapshot.id
        → Yields (apply_capturable js order_id intent a e now) db (Enters Takes Gives now db)
    unfolding apply_capturable
    apply_capturable-Enters e may =
        by_then (by_require _ _ λ whole. allocate_inventory-Enters js order_id may)

    pub apply_received-Enters :
        (e : HttpError)
        → ((i : ℕ) → ¬ Takes i)
        → ((i : ℕ) → ¬ Gives i)
        → Yields (apply_received js order_id intent a e now) db (Enters Takes Gives now db)
    unfolding apply_received
    apply_received-Enters e nt ng = by_then (
        by_require _ _ λ whole.
          by_then (by_call (finalize_captured_payment-Enters nt ng) λ u s entry. by_pure _ entry))

    pub apply_cancelled-Enters :
        Gives a.snapshot.id
        → Yields (apply_cancelled js order_id a now) db (Enters Takes Gives now db)
    unfolding apply_cancelled
    apply_cancelled-Enters may = by_then (
        by_call
          (release_unpaid_payment-Enters AllocationReleaseReason.payment_cancelled cancelled_unpaid
            may)
          λ u s entry. by_pure _ entry)
