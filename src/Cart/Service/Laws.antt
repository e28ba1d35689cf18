-- ===== src/Cart/Service/Laws.antt =====
-- What the operations on one cart promise to a client.
use hop_and_barley_store.Prelude.{
  ℕ, ◌≤◌, ◌≡◌, ◌≢◌, refl, sym, subst, true, false, ◌&&◌, ◌==◌, Option, some, none, String, arith,
  if◌then◌else◌, ◌⊎◌, inl, inr, Option-cases,
}
use hop_and_barley_store.Catalog.Amount.{or_else, is_public_product_eligible}
use hop_and_barley_store.Catalog.Amount.Laws.{IsOrderAmount, valid-IsOrderAmount_iff}
use hop_and_barley_store.Catalog.Product.{Product}
use hop_and_barley_store.Cart.Dto.{CartDto, to_cart_dto, empty}
use hop_and_barley_store.Store.{Database, Cart, find_cart, has_order}
use hop_and_barley_store.Store.Items.{amount_of, update_item, delete_item}
use hop_and_barley_store.Store.Items.Laws.{
  IsKeyed, amount_of-update_item, amount_of-delete_item, amount_of-delete_cart_items,
}
use hop_and_barley_store.Store.Transaction.{HttpError, ok, err, unauthorized, unavailable, ◌>>=◌}
use hop_and_barley_store.Cart.Service.{
  ActiveCartAccess, cart_of, is_account, lock_cart, require_active_cart, open_cart, add, update,
  remove, clear, find_line, load_cart,
}
use hop_and_barley_store.Cart.Service.Effects.{IsOpen, update-inv, remove-inv, clear-inv}
use hop_and_barley_store.Cart.Invariant.Lookups.{find_line-amount_of}

-- From `db` to `db'` the line of product `p` in cart `c` becomes `value`, and nothing else changes.
pub record Assigns (c p : ℕ) (value : Option ℕ) (db db' : Database) : Type 0 where
  pub amounts :
      (d q : ℕ)
      → amount_of d q db'.items ≡ (if c == d && p == q then value else amount_of d q db.items)
  pub rest : db' ≡ record db { items = db'.items }

abbrev pub amount_in : Database → ℕ → ℕ → ℕ
amount_in db c p = or_else (amount_of c p db.items) 0

module _ (c p : ℕ) (db : Database) where
  update_item-Assigns :
      (n : ℕ)
      → amount_of c p db.items ≢ none
      → Assigns c p (some n) db (record db { items = update_item c p n db.items })
  update_item-Assigns n present = elim (Option-cases (amount_of c p db.items)) [
    | inl absent ↦ absurd (present absent)
    | inr (old, had) ↦ record {
      amounts = λ d q. amount_of-update_item c p n d q db.items had;
      rest = refl;
    }
  ]

  delete_item-Assigns :
      IsKeyed db.items → Assigns c p none db (record db { items = delete_item c p db.items })
  delete_item-Assigns k = record {
    amounts = λ d q. amount_of-delete_item c p d q db.items k;
    rest = refl;
  }

module _ (access : ActiveCartAccess) (now : ℕ) (db : Database) (slug : String) (n : ℕ) where
  -- An `update` that succeeds was of a line of an open cart whose product is on sale; it sets the line
  -- to the amount, which may be ordered, changes nothing else, and tells the client the new cart.
  pub update-Assigns :
      {dto : CartDto} {db' : Database}
      → update access slug n now db ≡ ok (dto, db')
      → (p : Product) × (find_line slug (load_cart (cart_of access) db) ≡ some p)
        × (is_public_product_eligible p.eligibility now ≡ true)
        × IsOpen access now db
        × IsOrderAmount n p.rules
        × Assigns (cart_of access) p.id (some n) db db'
        × (dto ≡ to_cart_dto (load_cart (cart_of access) db') now)
  unfolding load_cart
  update-Assigns h =
      let (p, found, eligible, valid, is_open, e, told) = update-inv access now db slug n h in
      let (present, _) = find_line-amount_of slug (cart_of access) db.products db.items found in
      (
        p,
        found,
        eligible,
        is_open,
        (valid-IsOrderAmount_iff n p.rules).0 valid,
        subst (Assigns (cart_of access) p.id (some n) db) (sym e)
            (update_item-Assigns (cart_of access) p.id db n present),
        told,
      )

  -- If no two lines are of one cart and one product, a `remove` that succeeds was of a line of an open
  -- cart; it drops the line, changes nothing else, and tells the client the new cart.
  pub remove-Assigns :
      IsKeyed db.items
      → {dto : CartDto} {db' : Database} → remove access slug now db ≡ ok (dto, db')
      → (p : Product) × (find_line slug (load_cart (cart_of access) db) ≡ some p)
        × IsOpen access now db
        × Assigns (cart_of access) p.id none db db'
        × (dto ≡ to_cart_dto (load_cart (cart_of access) db') now)
  remove-Assigns k h =
      let (p, found, is_open, e, told) = remove-inv access now db slug n h in
      (
        p,
        found,
        is_open,
        subst (Assigns (cart_of access) p.id none db) (sym e)
            (delete_item-Assigns (cart_of access) p.id db k),
        told,
      )

module _ (access : ActiveCartAccess) (now : ℕ) (db : Database) where
  -- A `clear` that succeeds was of an open cart; it leaves the cart with no line and everything else
  -- as it was, and tells the client an empty cart.
  pub clear_empties :
      {dto : CartDto} {db' : Database}
      → clear access now db ≡ ok (dto, db')
      → IsOpen access now db
        × ((d q : ℕ)
            → amount_of d q db'.items
              ≡ (if cart_of access == d then none else amount_of d q db.items))
        × (db' ≡ record db { items = db'.items })
        × (dto ≡ empty)
  clear_empties {dto} {db'} h =
      let (is_open, e, told) = clear-inv access now db h in
      (
        is_open,
        λ d q. ground (arith, e, amount_of-delete_cart_items (cart_of access) d q db.items),
        ground (arith, e),
        told,
      )

  open_cart_refuses :
      {c : Cart}
      → find_cart (cart_of access) db.carts ≡ some c
      → ((has_order (cart_of access) db.orders ≡ true) → open_cart access now db ≡ err unavailable)
        × ((has_order (cart_of access) db.orders ≡ false)
            → is_account access ≡ false
            → c.expires_at ≤ now
            → open_cart access now db ≡ err unauthorized)
  unfolding open_cart lock_cart require_active_cart
  open_cart_refuses {c} found = (λ e. ground arith, λ e f g. ground arith)

  -- `add`, `update`, `remove` and `clear` refuse a cart to which an order refers, with `unavailable`,
  -- and the cart of a guest to which none refers and which has expired, with `unauthorized`.
  pub closed_cart_refuses :
      (slug : String) (n : ℕ) (c : Cart)
      → find_cart (cart_of access) db.carts ≡ some c
      → (e : HttpError)
      → ((has_order (cart_of access) db.orders ≡ true) × (e ≡ unavailable))
        ⊎ ((has_order (cart_of access) db.orders ≡ false)
            × (is_account access ≡ false)
            × (c.expires_at ≤ now)
            × (e ≡ unauthorized))
      → (add access slug n now db ≡ err e)
        × (update access slug n now db ≡ err e)
        × (remove access slug now db ≡ err e)
        × (clear access now db ≡ err e)
  unfolding add update remove clear
  closed_cart_refuses slug n c found e why =
      let refused : open_cart access now db ≡ err e = ground (arith, open_cart_refuses found) in
      (
        rw (refused, ◌>>=◌),
        ground (arith, refused),
        ground (arith, refused),
        ground (arith, refused),
      )
