-- ===== src/Payments/Ledger.antt =====
-- The books of the stock: of each product, what is free and what the allocations that were not
-- released have committed to payment attempts. A transaction of the payments makes at most one
-- entry: it commits the items of an attempt, or gives them back.
pub mod Untouched
pub mod Entries
use hop_and_barley_store.Prelude.{
  ℕ, ◌+◌, ◌≡◌, ◌↔◌, refl, sym, subst, ◌∙◌, Bool, true, false, not, List, [], ◌∷◌, ◌++◌, ◌==◌,
  Option, none, some, arith, inl, inr, if◌then◌else◌, Option-cases, Bool-cases,
}
use hop_and_barley_store.Orders.Allocation.Laws.{stock_of}
use hop_and_barley_store.Store.{OrderItem}
use hop_and_barley_store.Payments.Stripe.Inventory.{all_items_available}
use hop_and_barley_store.Payments.{PaymentDatabase}
use hop_and_barley_store.Payments.Attempts.{PaymentAttempt, find_attempt, update_attempt}
use hop_and_barley_store.Payments.Allocations.{
  Allocation, find_allocation, update_allocation, is_released,
}
use hop_and_barley_store.Orders.Service.Lines.{ordered}

abbrev pub items_for : ℕ → List PaymentAttempt → List OrderItem
items_for i rows = elim (find_attempt i rows) [ none ↦ [] | some a ↦ a.snapshot.items ]

abbrev pub committed_by : ℕ → List PaymentAttempt → Allocation → ℕ
committed_by q rows x =
    if is_released x.status then 0 else ordered q (items_for x.payment_attempt_id rows)

pub committed : ℕ → List PaymentAttempt → List Allocation → ℕ
committed q rows [] = 0
committed q rows (x ∷ xs) = committed_by q rows x + committed q rows xs

pub record Books : Type 0 where
  pub free : ℕ → ℕ
  pub committed : ℕ → ℕ

abbrev pub books : PaymentDatabase → Books
books db = record {
  free = λ q. stock_of q db.store.products;
  committed = λ q. committed q db.attempts db.allocations;
}

-- The items go from what is free to what is committed.
abbrev pub Moved : List OrderItem → Books → Books → Type 0
Moved items b b' =
    (q : ℕ)
    → (b.free q ≡ b'.free q + ordered q items) × (b'.committed q ≡ b.committed q + ordered q items)

-- Why no items move. An attempt whose items may be taken has an allocation already, or its items are
-- not on sale in the amounts at the time; of an attempt whose items may be given back no allocation
-- is there, or it was released; or the transaction is about neither.
pub data Rests (Takes Gives : ℕ → Type 0) (now : ℕ) (db : PaymentDatabase) : Type 0 where
  allocated :
      (i : ℕ) (x : Allocation)
      → Takes i
      → find_allocation i db.allocations ≡ some x
      → Rests Takes Gives now db
  short :
      (i : ℕ)
      → Takes i
      → all_items_available (items_for i db.attempts) db.store.products now ≡ false
      → Rests Takes Gives now db
  unheld : (i : ℕ) → Gives i → find_allocation i db.allocations ≡ none → Rests Takes Gives now db
  given_back :
      (i : ℕ) (x : Allocation)
      → Gives i
      → find_allocation i db.allocations ≡ some x
      → is_released x.status ≡ true
      → Rests Takes Gives now db
  apart : ((i : ℕ) → ¬ Takes i) → ((i : ℕ) → ¬ Gives i) → Rests Takes Gives now db

-- An entry: none, for a reason; the items of one attempt, which has no allocation, are committed; or
-- the items of one attempt, which has an allocation that was not released, are free again. `Takes`
-- and `Gives` say of which attempts the transaction is to do so.
pub data Entry (Takes Gives : ℕ → Type 0) (now : ℕ) (db db' : PaymentDatabase) : Type 0 where
  idle :
      Rests Takes Gives now db
      → ((q : ℕ)
          → ((books db').free q ≡ (books db).free q)
            × ((books db').committed q ≡ (books db).committed q))
      → Entry Takes Gives now db db'
  commit :
      (i : ℕ)
      → Takes i
      → find_allocation i db.allocations ≡ none
      → Moved (items_for i db.attempts) (books db) (books db')
      → Entry Takes Gives now db db'
  restore :
      (i : ℕ) (x : Allocation)
      → Gives i
      → find_allocation i db.allocations ≡ some x
      → is_released x.status ≡ false
      → Moved (items_for i db.attempts) (books db') (books db)
      → Entry Takes Gives now db db'

module _ {Takes Takes' Gives Gives' : ℕ → Type 0} {now : ℕ} {db : PaymentDatabase}
    (t : (i : ℕ) → Takes i ↔ Takes' i) (g : (i : ℕ) → Gives i ↔ Gives' i) where
  Rests-map : Rests Takes Gives now db → Rests Takes' Gives' now db
  Rests-map (allocated i x may here) = allocated i x ((t i).0 may) here
  Rests-map (short i may few) = short i ((t i).0 may) few
  Rests-map (unheld i may free) = unheld i ((g i).0 may) free
  Rests-map (given_back i x may here gone) = given_back i x ((g i).0 may) here gone
  Rests-map (apart nt ng) = apart (λ i c. nt i ((t i).1 c)) (λ i c. ng i ((g i).1 c))

  pub Entry-map :
      {db' : PaymentDatabase} → Entry Takes Gives now db db' → Entry Takes' Gives' now db db'
  Entry-map (idle why h) = idle (Rests-map why) h
  Entry-map (commit i may free h) = commit i ((t i).0 may) free h
  Entry-map (restore i x may here kept h) = restore i x ((g i).0 may) here kept h

-- The same items stand for every attempt.
abbrev pub SameItems : List PaymentAttempt → List PaymentAttempt → Type 0
SameItems olds news = (j : ℕ) → items_for j news ≡ items_for j olds

pub update_attempt-SameItems :
    (i : ℕ) (f : PaymentAttempt → PaymentAttempt) (rows : List PaymentAttempt)
    → ((a : PaymentAttempt) → (f a).snapshot ≡ a.snapshot)
    → SameItems rows (update_attempt i f rows)
unfolding find_attempt update_attempt
update_attempt-SameItems i f [] k j = refl
update_attempt-SameItems i f (x ∷ rows) k j =
    grind (arith, k x, update_attempt-SameItems i f rows k j)

pub committed_congr :
    (q : ℕ) (olds news : List PaymentAttempt) (xs : List Allocation)
    → SameItems olds news
    → committed q news xs ≡ committed q olds xs
unfolding committed
committed_congr q olds news [] k = refl
committed_congr q olds news (x ∷ xs) k =
    rw (k x.payment_attempt_id, committed_congr q olds news xs k)

pub committed-append :
    (q : ℕ) (rows : List PaymentAttempt) (xs : List Allocation) (x : Allocation)
    → committed q rows (xs ++ x ∷ []) ≡ committed q rows xs + committed_by q rows x
unfolding committed
committed-append q rows [] x = omega arith
committed-append q rows (y ∷ xs) x = omega (arith, committed-append q rows xs x)

-- A change of an allocation that leaves it open, or that releases it.
pub committed-update :
    (q i : ℕ) (rows : List PaymentAttempt) (f : Allocation → Allocation) (xs : List Allocation)
    (x : Allocation)
    → find_allocation i xs ≡ some x
    → committed q rows (update_allocation i f xs) + committed_by q rows x
      ≡ committed q rows xs + committed_by q rows (f x)
unfolding committed find_allocation update_allocation
committed-update q i rows f [] x h = absurd (ground arith)
committed-update q i rows f (y ∷ xs) x h = elim (Bool-cases (y.payment_attempt_id == i)) [
  | inl e ↦ let same : y ≡ x = ground (arith, e) in rw (e, same) (omega arith)
  | inr e ↦ rw e (omega (arith, committed-update q i rows f xs x (ground (arith, e))))
]

pub find_allocation-id :
    (i : ℕ) (xs : List Allocation) (x : Allocation)
    → find_allocation i xs ≡ some x
    → x.payment_attempt_id ≡ i
unfolding find_allocation
find_allocation-id i [] x h = absurd (ground arith)
find_allocation-id i (y ∷ xs) x h = ground (arith, find_allocation-id i xs x)

pub find_attempt-id :
    (i : ℕ) (rows : List PaymentAttempt) (a : PaymentAttempt)
    → find_attempt i rows ≡ some a
    → i ≡ a.snapshot.id
unfolding find_attempt
find_attempt-id i [] a h = absurd (ground arith)
find_attempt-id i (x ∷ rows) a h = ground (arith, find_attempt-id i rows a)
