-- ===== src/Cart/Account/Merge.antt =====
-- What `mergeGuestIntoAccount` leaves in the tables.
use hop_and_barley_store.Prelude.{
  ℕ, Bool, ◌≤◌, ◌≡◌, ◌≢◌, refl, sym, subst, true, false, [], ◌==◌, Option, none, some, String,
  arith, if◌then◌else◌, length,
}
use hop_and_barley_store.Store.{Database, Cart, find_user_cart, has_order, delete_cart}
use hop_and_barley_store.Store.Items.{amount_of, items_of, delete_cart_items}
use hop_and_barley_store.Store.Items.Laws.{IsKeyed, amount_of-delete_cart_items}
use hop_and_barley_store.Store.Transaction.{ok, >>=-eq_ok}
use hop_and_barley_store.Cart.Service.{lock_active_user, max_distinct_items}
use hop_and_barley_store.Cart.Account.{
  Fresh, Amounts, map_get, amounts_from, merge_amounts, selected, all_valid,
  require_canonical_merged_items, upsert_all, remove_cart, MergeOutcome, digest_of,
  find_active_guest, ensure_account_cart, merge_two, merge_into, merge_carts,
  merge_guest_into_account,
}
use hop_and_barley_store.Cart.Account.Amounts.{
  larger, HasKeys, map_get-amounts_from, map_get-merge_amounts, amounts_from-HasKeys,
  merge_amounts-HasKeys, amount_of-upsert_all,
}

-- The merged map holds at most 50 products, all of which exist and may be ordered in the amount.
pub record IsCanonical (m : Amounts) (db : Database) : Type 0 where
  pub few : length m ≤ max_distinct_items
  pub exist : length (selected m db.products) ≡ length m
  pub valid : all_valid m (selected m db.products) ≡ true

pub require_merged-IsCanonical :
    (m : Amounts) (db : Database) {u : Unit {0}} {db' : Database}
    → require_canonical_merged_items m db ≡ ok (u, db')
    → IsCanonical m db × (db' ≡ db)
unfolding require_canonical_merged_items
require_merged-IsCanonical m db {u} {db'} h =
    (record { few = ground arith; exist = ground arith; valid = ground arith }, ground arith)

abbrev pub merged_of : ℕ → ℕ → Database → Amounts
merged_of a g db = merge_amounts (amounts_from [] (items_of a db.items)) (items_of g db.items)

pub map_get-merged_of :
    (a g q : ℕ) (db : Database)
    → IsKeyed db.items
    → map_get q (merged_of a g db) ≡ larger (amount_of a q db.items) (amount_of g q db.items)
unfolding map_get
map_get-merged_of a g q db k = ground (
  arith,
  map_get-merge_amounts g q (amounts_from [] (items_of a db.items)) db.items k,
  map_get-amounts_from a q [] db.items k,
)

pub merged_of-HasKeys : (a g : ℕ) (db : Database) → HasKeys (merged_of a g db)
merged_of-HasKeys a g db =
    merge_amounts-HasKeys (amounts_from [] (items_of a db.items)) (items_of g db.items)
      (amounts_from-HasKeys [] (items_of a db.items) tt)

abbrev pub after_merge : ℕ → ℕ → Database → Database
after_merge a g db = record db {
  carts = delete_cart g db.carts;
  items = delete_cart_items g (upsert_all a (merged_of a g db) db.items);
}

pub merge_two-inv :
    (has_attempts : ℕ → Bool) (a g : ℕ) (db : Database) {o : MergeOutcome} {db' : Database}
    → merge_two has_attempts a g db ≡ ok (o, db')
    → IsCanonical (merged_of a g db) db
      × (has_order g db.orders ≡ false)
      × (db' ≡ after_merge a g db)
unfolding merge_two require_canonical_merged_items remove_cart
merge_two-inv has_attempts a g db {o} {db'} h = (ground arith, ground arith, ground arith)

-- The tables after a merge of the guest cart `g` into the account cart `a`.
pub record IsMerged (a g : ℕ) (db db' : Database) : Type 0 where
  pub amounts :
      (c p : ℕ)
      → amount_of c p db'.items ≡ (
          if g == c
          then none
          else if a == c
          then larger (amount_of a p db.items) (amount_of g p db.items)
          else amount_of c p db.items)
  pub carts : db'.carts ≡ delete_cart g db.carts
  pub products : db'.products ≡ db.products
  pub orders : db'.orders ≡ db.orders
  pub users : db'.users ≡ db.users

pub after_merge-amount_of :
    (a g c p : ℕ) (db : Database)
    → IsKeyed db.items
    → amount_of c p (after_merge a g db).items ≡ (
        if g == c
        then none
        else if a == c
        then larger (amount_of a p db.items) (amount_of g p db.items)
        else amount_of c p db.items)
after_merge-amount_of a g c p db k = ground (
  arith,
  amount_of-delete_cart_items g c p (upsert_all a (merged_of a g db) db.items),
  amount_of-upsert_all a c p (merged_of a g db) db.items (merged_of-HasKeys a g db),
  map_get-merged_of a g p db k,
)

after_merge-IsMerged :
    (a g : ℕ) (db : Database) → IsKeyed db.items → IsMerged a g db (after_merge a g db)
after_merge-IsMerged a g db k = record {
  amounts = λ c p. after_merge-amount_of a g c p db k;
  carts = refl;
  products = refl;
  orders = refl;
  users = refl;
}

pub lock_active_user-same :
    (user_id : ℕ) (db : Database) {u : Unit {0}} {db' : Database}
    → lock_active_user user_id db ≡ ok (u, db')
    → db' ≡ db
unfolding lock_active_user
lock_active_user-same user_id db h = ground arith

module _ (hash_cart_token : String → ℕ) (has_attempts : ℕ → Bool) (user_id : ℕ)
    (raw_guest_token : Option String) (now : ℕ) (fresh : Fresh) (db : Database) (a g : Cart)
    (owned : find_user_cart user_id db.carts ≡ some a)
    (active : find_active_guest hash_cart_token (digest_of hash_cart_token raw_guest_token) now db
      ≡ some g)
    (distinct : g.id ≢ a.id) where
  -- With both carts there, the operation is the merge of the two.
  merge_guest-eq-merge_two :
      {r : MergeOutcome × Database}
      → merge_guest_into_account hash_cart_token has_attempts user_id raw_guest_token now fresh db
        ≡ ok r
      → merge_two has_attempts a.id g.id db ≡ ok r
  unfolding merge_guest_into_account merge_carts ensure_account_cart merge_into
  merge_guest-eq-merge_two {r} h =
      let (_, db1, locked, h1) = >>=-eq_ok (lock_active_user user_id) _ db h in
      let same = lock_active_user-same user_id db locked in ground (arith, same, h1)

  -- When the active guest cart of a login is merged into the cart that the account has, another one,
  -- the merge does not throw, and no two lines of the table are of one cart and one product, then
  -- each product of either cart is in the account's with the larger of its two amounts, the guest
  -- cart and its lines are gone, and the other lines and carts, the products, the orders and the
  -- users stay.
  pub merge_keeps_larger :
      IsKeyed db.items
      → {o : MergeOutcome} {db' : Database}
      → merge_guest_into_account hash_cart_token has_attempts user_id raw_guest_token now fresh db
        ≡ ok (o, db')
      → IsMerged a.id g.id db db'
  merge_keeps_larger k {db'} h =
      let inv = merge_two-inv has_attempts a.id g.id db (merge_guest-eq-merge_two h) in
      subst (IsMerged a.id g.id db) (sym inv.2) (after_merge-IsMerged a.id g.id db k)

  -- While an order, which then is a cancelled one, refers to the active guest cart of a login, the
  -- merge into the cart that the account has, another one, does not succeed.
  pub merge_refused_by_order :
      has_order g.id db.orders ≡ true
      → (r : MergeOutcome × Database)
      → merge_guest_into_account hash_cart_token has_attempts user_id raw_guest_token now fresh db
        ≢ ok r
  merge_refused_by_order placed (o, db') h =
      let inv = merge_two-inv has_attempts a.id g.id db (merge_guest-eq-merge_two h) in cc
