-- ===== src/Cart/Invariant/Preserved.antt =====
-- Every call of the cart service keeps the carts in order, and so does every history of calls.
use hop_and_barley_store.Prelude.{
  Bool, ℕ, ◌≡◌, refl, sym, subst, [], Option, some, none, String, arith, inl, inr, Bool-cases, ◌==◌,
}
use hop_and_barley_store.Catalog.Product.{Product}
use hop_and_barley_store.Store.{Database, Cart, find_product, find_user_cart}
use hop_and_barley_store.Store.Items.{count_items, items_of}
use hop_and_barley_store.Store.Transaction.{Result, ok, err, >>=-eq_ok}
use hop_and_barley_store.Cart.Service.{
  ActiveCartAccess, cart_of, add, update, remove, clear, load_cart, require_cart_product,
  require_valid_cart_amount, lock_active_user,
}
use hop_and_barley_store.Cart.Service.Effects.{
  Adds, creates, increases, add-inv, update-inv, remove-inv, clear-inv, require_cart_product-inv,
}
use hop_and_barley_store.Cart.Account.{
  Fresh, ensure_account_cart, create_account_cart, create_and_add, merge_into, merge_two,
  adopt_guest, merge_carts, merge_guest_into_account, digest_of, find_active_guest,
  require_canonical_merged_items, amounts_from,
}
use hop_and_barley_store.Cart.Account.Merge.{
  merge_two-inv, lock_active_user-same, require_merged-IsCanonical,
}
use hop_and_barley_store.Cart.Invariant.{CartsOk, HasIds, IsOrderable}
use hop_and_barley_store.Store.Items.Laws.{IsKeyed}
use hop_and_barley_store.Cart.Invariant.Lookups.{
  find_slug-find_product, find_line-amount_of, amount_of-none_of_count,
}
use hop_and_barley_store.Cart.Invariant.Writes.{
  create_item-CartsOk, update_item-CartsOk, delete_item-CartsOk, delete_cart_items-CartsOk,
  after_merge-CartsOk,
}
use hop_and_barley_store.Cart.Calls.{
  Call, adds, updates, removes, clears, creates_and_adds, creates_account_cart, merges, after, step,
}

-- What holds of the tables of every result, and of the tables that there were, holds afterwards.
after_cases :
    {A : Type 0} (P : Database → Type 0) (db : Database) (r : Result (A × Database))
    → P db
    → ((a : A) (db' : Database) → r ≡ ok (a, db') → P db')
    → P (after db r)
after_cases P db (ok (a, db')) old new = new a db' refl
after_cases P db (err e) old new = old

module _ (access : ActiveCartAccess) (now : ℕ) (db : Database) (v : CartsOk db) where
  Adds-CartsOk :
      (p : Product) (n : ℕ) {db' : Database}
      → find_product p.id db.products ≡ some p
      → Adds (cart_of access) p n db db'
      → CartsOk db'
  Adds-CartsOk p n known (creates absent room valid e) =
      subst CartsOk (sym e) (create_item-CartsOk db v (cart_of access) p known n absent room valid)
  Adds-CartsOk p n known (increases old had valid e) =
      subst CartsOk (sym e)
        (update_item-CartsOk db v (cart_of access) p known _ (λ absent. ground arith) valid)

  add-CartsOk : (slug : String) (n : ℕ) → CartsOk (after db (add access slug n now db))
  add-CartsOk slug n = after_cases CartsOk db (add access slug n now db) v λ dto db' h.
      let (p, found, _, _, write, _) = add-inv access now db slug n h in
      Adds-CartsOk p n (find_slug-find_product slug db.products v.ids found) write

  update-CartsOk : (slug : String) (n : ℕ) → CartsOk (after db (update access slug n now db))
  unfolding load_cart
  update-CartsOk slug n = after_cases CartsOk db (update access slug n now db) v λ dto db' h.
      let (p, found, _, valid, _, e, _) = update-inv access now db slug n h in
      let (present, known) = find_line-amount_of slug (cart_of access) db.products db.items found in
      subst CartsOk (sym e) (update_item-CartsOk db v (cart_of access) p known n present valid)

  remove-CartsOk : (slug : String) → CartsOk (after db (remove access slug now db))
  remove-CartsOk slug = after_cases CartsOk db (remove access slug now db) v λ dto db' h.
      let (p, _, _, e, _) = remove-inv access now db slug 0 h in
      subst CartsOk (sym e) (delete_item-CartsOk db v (cart_of access) p.id)

  clear-CartsOk : CartsOk (after db (clear access now db))
  clear-CartsOk = after_cases CartsOk db (clear access now db) v λ dto db' h.
      let (_, e, _) = clear-inv access now db h in
      subst CartsOk (sym e) (delete_cart_items-CartsOk db v (cart_of access))

CartsOk-same :
    {db db' : Database}
    → db'.items ≡ db.items
    → db'.products ≡ db.products
    → CartsOk db
    → CartsOk db'
CartsOk-same {db} {db'} e f v = record {
  ids = subst HasIds (sym f) v.ids;
  keyed = subst IsKeyed (sym e) v.keyed;
  bounded = λ c. ground (arith, e, v.bounded c);
  orderable =
      λ c p a h. subst (λ ps. IsOrderable ps p a) (sym f) (v.orderable c p a (ground (arith, e)));
}

module _ (hash_cart_token : String → ℕ) (now : ℕ) (fresh : Fresh) (db : Database)
    (v : CartsOk db) where
  create_and_add-CartsOk :
      (slug : String) (n : ℕ)
      → count_items fresh.cart_id db.items ≡ 0
      → CartsOk (after db (create_and_add hash_cart_token slug n now fresh db))
  unfolding create_and_add require_valid_cart_amount
  create_and_add-CartsOk slug n unused =
      after_cases CartsOk db (create_and_add hash_cart_token slug n now fresh db) v λ a db' h.
        let (p, db1, taken, h1) = >>=-eq_ok (require_cart_product slug now) _ db h in
        let (found, _, same) = require_cart_product-inv slug now db taken in
        let known = find_slug-find_product slug db.products v.ids found in
        let written =
          create_item-CartsOk db v fresh.cart_id p known n
            (amount_of-none_of_count fresh.cart_id p.id db.items unused) (ground (arith, unused))
            (ground (arith, h1)) in
        CartsOk-same (ground (arith, h1, same)) (ground (arith, h1, same)) written

  create_account_cart-CartsOk :
      (user_id : ℕ) (token : String)
      → CartsOk (after db (create_account_cart hash_cart_token user_id token now fresh db))
  unfolding create_account_cart ensure_account_cart
  create_account_cart-CartsOk user_id token =
      after_cases CartsOk db (create_account_cart hash_cart_token user_id token now fresh db) v
        λ a db' h.
          let (_, db1, locked, h1) = >>=-eq_ok (lock_active_user user_id) _ db h in
          let same = lock_active_user-same user_id db locked in
          CartsOk-same (ground (arith, h1, same)) (ground (arith, h1, same)) v

  adopt_guest-CartsOk :
      (user_id : ℕ) (g : Cart)
      → CartsOk (after db (adopt_guest hash_cart_token user_id now fresh g db))
  unfolding adopt_guest
  adopt_guest-CartsOk user_id g =
      after_cases CartsOk db (adopt_guest hash_cart_token user_id now fresh g db) v λ o db' h.
        let (_, db1, checked, h1) =
          >>=-eq_ok (require_canonical_merged_items (amounts_from [] (items_of g.id db.items))) _ db
            h in
        let (_, same) =
          require_merged-IsCanonical (amounts_from [] (items_of g.id db.items)) db checked in
        CartsOk-same (ground (arith, h1, same)) (ground (arith, h1, same)) v

  merge_two-CartsOk :
      (has_attempts : ℕ → Bool) (a g : ℕ) → CartsOk (after db (merge_two has_attempts a g db))
  merge_two-CartsOk has_attempts a g =
      after_cases CartsOk db (merge_two has_attempts a g db) v λ o db' h.
        let (canonical, _, e) = merge_two-inv has_attempts a g db h in
        subst CartsOk (sym e) (after_merge-CartsOk db v a g canonical)

  merge_carts-CartsOk :
      (has_attempts : ℕ → Bool) (user_id : ℕ) (owned active_guest : Option Cart)
      → CartsOk (
          after db
            (merge_carts hash_cart_token has_attempts user_id now fresh owned active_guest db))
  unfolding merge_carts ensure_account_cart merge_into
  merge_carts-CartsOk has_attempts user_id none none = CartsOk-same refl refl v
  merge_carts-CartsOk has_attempts user_id none (some g) = adopt_guest-CartsOk user_id g
  merge_carts-CartsOk has_attempts user_id (some a) none = v
  merge_carts-CartsOk has_attempts user_id (some a) (some g) = elim (Bool-cases (g.id == a.id)) [
    | inl same ↦ rw same v
    | inr other ↦ rw other (merge_two-CartsOk has_attempts a.id g.id)
  ]

  merge_guest-CartsOk :
      (has_attempts : ℕ → Bool) (user_id : ℕ) (token : Option String)
      → CartsOk (
          after db
            (merge_guest_into_account hash_cart_token has_attempts user_id token now fresh db))
  unfolding merge_guest_into_account
  merge_guest-CartsOk has_attempts user_id token =
      after_cases CartsOk db
        (merge_guest_into_account hash_cart_token has_attempts user_id token now fresh db) v
        λ o db' h.
          let (_, db1, locked, h1) = >>=-eq_ok (lock_active_user user_id) _ db h in
          let same = lock_active_user-same user_id db locked in
          let merged =
            merge_carts-CartsOk has_attempts user_id (find_user_cart user_id db.carts)
              (find_active_guest hash_cart_token (digest_of hash_cart_token token) now db) in
          let e : merge_carts hash_cart_token has_attempts user_id now fresh
                (find_user_cart user_id db.carts)
                (find_active_guest hash_cart_token (digest_of hash_cart_token token) now db) db
              ≡ ok (o, db') =
            ground (arith, h1, same) in
          subst (λ r. CartsOk (after db r)) e merged

-- The id that the database draws for the cart of a new guest is that of no cart item.
abbrev pub IsFreshFor : Database → Call → Type 0
IsFreshFor db (creates_and_adds slug n fresh) = count_items fresh.cart_id db.items ≡ 0
IsFreshFor db _ = Unit {0}

-- Every call keeps the carts in order, whether it succeeds or throws: no cart has two lines of a
-- product or more than 50 lines, and each line is of a product that exists in an amount that may be
-- ordered. The id drawn for a new guest's cart is assumed to be that of no cart item.
pub step-CartsOk :
    (hash_cart_token : String → ℕ) (db : Database) (now : ℕ) (call : Call)
    → CartsOk db
    → IsFreshFor db call
    → CartsOk (step hash_cart_token db (now, call))
unfolding step
step-CartsOk hash db now (adds access slug n) v f = add-CartsOk access now db v slug n
step-CartsOk hash db now (updates access slug n) v f = update-CartsOk access now db v slug n
step-CartsOk hash db now (removes access slug) v f = remove-CartsOk access now db v slug
step-CartsOk hash db now (clears access) v f = clear-CartsOk access now db v
step-CartsOk hash db now (creates_and_adds slug n fresh) v f =
    create_and_add-CartsOk hash now fresh db v slug n f
step-CartsOk hash db now (creates_account_cart user_id token fresh) v f =
    create_account_cart-CartsOk hash now fresh db v user_id token
step-CartsOk hash db now (merges has_attempts user_id token fresh) v f =
    merge_guest-CartsOk hash now fresh db v has_attempts user_id token
