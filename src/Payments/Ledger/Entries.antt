-- ===== src/Payments/Ledger/Entries.antt =====
-- The entries that the steps of a payment make in the books of the stock.
pub mod Applied
pub mod Events
use hop_and_barley_store.Prelude.{
  ℕ, ◌+◌, ◌≡◌, refl, sym, ap, subst, subst₂, ◌∙◌, Bool, true, false, not, ◌&&◌, List, [], ◌∷◌, ◌++◌,
  ◌==◌, Option, none, some, arith, &&-eq_true, is_some, if◌then◌else◌,
}
use hop_and_barley_store.Catalog.Product.{Product}
use hop_and_barley_store.Orders.Allocation.Laws.{stock_of}
use hop_and_barley_store.Store.{OrderItem}
use hop_and_barley_store.Payments.{PaymentDatabase}
use hop_and_barley_store.Payments.Attempts.{PaymentAttempt, find_attempt}
use hop_and_barley_store.Payments.Allocations.{
  Allocation, AllocationReleaseReason, find_allocation, update_allocation, is_released,
}
use hop_and_barley_store.Payments.Yields.{
  Yields, by_pure, by_reads, by_modify, by_require, by_lookup, by_bind, by_then, by_branch, by_call,
}
use hop_and_barley_store.Payments.Ledger.{
  books, Moved, Rests, allocated, short, unheld, given_back, apart, Entry, idle, commit, restore,
  items_for, committed, committed_by, committed_congr, committed-append, committed-update,
  find_allocation-id,
}
use hop_and_barley_store.Payments.Ledger.Untouched.{
  Untouched, Untouched-refl, Quiet, mark_reconciliation-Quiet, release_definitive_outcome-Quiet,
  mark_payment_attempt_succeeded-Quiet, empty_bought_cart-Quiet, then-Quiet,
}
use hop_and_barley_store.Payments.Service.{Outcome}
use hop_and_barley_store.Payments.Stripe.{Runtime}
use hop_and_barley_store.Payments.Stripe.Inventory.{
  cart_of_attempt, lock_products, take_stock, create_order, create_allocation, new_allocation,
  allocate_new, or_existing, allocate_inventory, take_items, give_back, all_products_known,
  all_items_available,
}
use hop_and_barley_store.Orders.Service.Lines.{ordered}
use hop_and_barley_store.Payments.Stripe.Inventory.Laws.{take_items-stock_of, give_back-stock_of}
use hop_and_barley_store.Payments.Stripe.Outcomes.{
  release_stock, release_held, release_unpaid_payment, release_allocation, capture_allocation,
  finalize_captured_payment,
}

abbrev pub Unchanged : PaymentDatabase → PaymentDatabase → Type 0
Unchanged db db' =
    (q : ℕ)
    → ((books db').free q ≡ (books db).free q) × ((books db').committed q ≡ (books db).committed q)

pub Untouched-Unchanged : (db db' : PaymentDatabase) → Untouched db db' → Unchanged db db'
Untouched-Unchanged db db' (p, x, k) q = (
  ap (stock_of q) p,
  ap (committed q db'.attempts) x ∙ committed_congr q db.attempts db'.attempts db.allocations k,
)

abbrev pub Enters :
    (ℕ → Type 0) → (ℕ → Type 0) → ℕ → PaymentDatabase → {A : Type 0} → A → PaymentDatabase → Type 0
Enters Takes Gives now db a db' = Entry Takes Gives now db db'

module _ {Takes Gives : ℕ → Type 0} {now : ℕ} where
  Rests-before :
      (db s : PaymentDatabase) → Untouched db s → Rests Takes Gives now s → Rests Takes Gives now db
  Rests-before db s (p, x, k) (allocated i y may here) =
      allocated i y may (subst (λ xs. find_allocation i xs ≡ some y) x here)
  Rests-before db s (p, x, k) (short i may few) =
      short i may (subst₂ (λ items ps. all_items_available items ps now ≡ false) (k i) p few)
  Rests-before db s (p, x, k) (unheld i may free) =
      unheld i may (subst (λ xs. find_allocation i xs ≡ none) x free)
  Rests-before db s (p, x, k) (given_back i y may here gone) =
      given_back i y may (subst (λ xs. find_allocation i xs ≡ some y) x here) gone
  Rests-before db s (p, x, k) (apart nt ng) = apart nt ng

  pub Entry-before :
      (db s t : PaymentDatabase)
      → Untouched db s
      → Entry Takes Gives now s t
      → Entry Takes Gives now db t
  Entry-before db s t (p, x, k) (idle why h) =
      let same = Untouched-Unchanged db s (p, x, k) in
      idle (Rests-before db s (p, x, k) why) (λ q. ((h q).0 ∙ (same q).0, (h q).1 ∙ (same q).1))
  Entry-before db s t (p, x, k) (commit i may free h) =
      let same = Untouched-Unchanged db s (p, x, k) in
      commit i may (subst (λ xs. find_allocation i xs ≡ none) x free) (
        subst (λ items. Moved items (books db) (books t)) (k i)
          (λ q. (omega (arith, (h q).0, (same q).0), omega (arith, (h q).1, (same q).1))))
  Entry-before db s t (p, x, k) (restore i y may here kept h) =
      let same = Untouched-Unchanged db s (p, x, k) in
      restore i y may (subst (λ xs. find_allocation i xs ≡ some y) x here) kept (
        subst (λ items. Moved items (books t) (books db)) (k i)
          (λ q. (omega (arith, (h q).0, (same q).0), omega (arith, (h q).1, (same q).1))))

  pub Entry-after :
      (db s t : PaymentDatabase)
      → Unchanged s t
      → Entry Takes Gives now db s
      → Entry Takes Gives now db t
  Entry-after db s t k (idle why h) = idle why (λ q. ((k q).0 ∙ (h q).0, (k q).1 ∙ (h q).1))
  Entry-after db s t k (commit i may free h) =
      commit i may free (λ q. (omega (arith, (h q).0, (k q).0), omega (arith, (h q).1, (k q).1)))
  Entry-after db s t k (restore i x may here kept h) =
      restore i x may here kept
        (λ q. (omega (arith, (h q).0, (k q).0), omega (arith, (h q).1, (k q).1)))

  pub idle_refl : (db : PaymentDatabase) → Rests Takes Gives now db → Entry Takes Gives now db db
  idle_refl db why = idle why (λ q. (refl, refl))

  pub idle_of :
      (db s : PaymentDatabase)
      → Rests Takes Gives now db
      → Untouched db s
      → Entry Takes Gives now db s
  idle_of db s why u = idle why (Untouched-Unchanged db s u)

pub items_for_found :
    (rows : List PaymentAttempt) (i : ℕ) (a : PaymentAttempt)
    → find_attempt i rows ≡ some a
    → items_for i rows ≡ a.snapshot.items
items_for_found rows i a h = rw (items_for, h) refl

module _ (db : PaymentDatabase) (a : PaymentAttempt)
    (found : find_attempt a.snapshot.id db.attempts ≡ some a) where
  pub commit-entry :
      (order_id now q : ℕ) (js : Runtime) (left : List Product)
      → take_items a.snapshot.items db.store.products ≡ some left
      → (stock_of q db.store.products ≡ stock_of q left + ordered q a.snapshot.items)
        × (committed q db.attempts (db.allocations ++ new_allocation js order_id a now ∷ [])
            ≡ committed q db.attempts db.allocations + ordered q a.snapshot.items)
  commit-entry order_id now q js left taken = (
    take_items-stock_of q a.snapshot.items db.store.products {rest = left} taken,
    committed-append q db.attempts db.allocations (new_allocation js order_id a now)
        ∙ ap (λ items. committed q db.attempts db.allocations + ordered q items)
            (items_for_found db.attempts a.snapshot.id a found),
  )

  pub restore-entry :
      (x : Allocation) (reason : AllocationReleaseReason) (now q : ℕ)
      → find_allocation a.snapshot.id db.allocations ≡ some x
      → is_released x.status ≡ false
      → all_products_known a.snapshot.items db.store.products ≡ true
      → (stock_of q (give_back a.snapshot.items db.store.products)
          ≡ stock_of q db.store.products + ordered q a.snapshot.items)
        × (committed q db.attempts db.allocations
            ≡ committed q db.attempts
                (update_allocation a.snapshot.id (release_allocation reason now) db.allocations)
              + ordered q a.snapshot.items)
  restore-entry x reason now q here kept known =
      let held : committed_by q db.attempts x ≡ ordered q a.snapshot.items =
        rw
          (
            kept,
            find_allocation-id a.snapshot.id db.allocations x here,
            items_for_found db.attempts a.snapshot.id a found,
          )
          refl in
      let update =
        committed-update q a.snapshot.id db.attempts (release_allocation reason now) db.allocations
          x here in
      (give_back-stock_of q a.snapshot.items db.store.products known, omega (arith, held, update))

pub capture-entry :
    (db : PaymentDatabase) (i now q : ℕ) (x : Allocation)
    → find_allocation i db.allocations ≡ some x
    → is_released x.status ≡ false
    → committed q db.attempts (update_allocation i (capture_allocation now) db.allocations)
      ≡ committed q db.attempts db.allocations
capture-entry db i now q x here kept =
    let held : committed_by q db.attempts x
        ≡ committed_by q db.attempts (capture_allocation now x) =
      rw kept refl in
    omega
      (arith, held, committed-update q i db.attempts (capture_allocation now) db.allocations x here)
