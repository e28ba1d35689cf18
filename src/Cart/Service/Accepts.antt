-- ===== src/Cart/Service/Accepts.antt =====
-- When `add` and `update` of the cart service succeed.
use hop_and_barley_store.Prelude.{ℕ, ◌+◌, ◌<◌, ◌≡◌, ◌⊎◌, inl, inr, true, none, some, String, arith}
use hop_and_barley_store.Catalog.Amount.{is_public_product_eligible}
use hop_and_barley_store.Catalog.Amount.Laws.{IsOrderAmount, valid-IsOrderAmount_iff}
use hop_and_barley_store.Catalog.Product.{Product}
use hop_and_barley_store.Cart.Readiness.{is_sold}
use hop_and_barley_store.Cart.Dto.{CartDto}
use hop_and_barley_store.Store.{Database, find_slug}
use hop_and_barley_store.Store.Items.{amount_of, count_items}
use hop_and_barley_store.Store.Transaction.{ok, Result-cases}
use hop_and_barley_store.Cart.Service.{
  ActiveCartAccess, cart_of, open_cart, lock_cart, require_active_cart, add, add_line, update,
  find_line, load_cart, require_cart_product, require_valid_cart_amount, max_distinct_items,
}
use hop_and_barley_store.Cart.Service.Effects.{IsOpen}
use hop_and_barley_store.Cart.Service.Laws.{amount_in}

module _ (access : ActiveCartAccess) (now : ℕ) (db : Database) where
  IsOpen-open_cart : IsOpen access now db → open_cart access now db ≡ ok (tt, db)
  unfolding open_cart lock_cart require_active_cart
  IsOpen-open_cart o = elim o.alive [
    | inl e ↦ ground (arith, o.found, o.unplaced, e)
    | inr e ↦ ground (arith, o.found, o.unplaced, e)
  ]

  -- There is a line of the product in the cart, or room for one.
  abbrev pub HasRoom : Product → Type 0
  HasRoom p =
      ((old : ℕ) × (amount_of (cart_of access) p.id db.items ≡ some old))
      ⊎ ((amount_of (cart_of access) p.id db.items ≡ none)
          × (count_items (cart_of access) db.items < max_distinct_items))

  add_line_succeeds :
      (p : Product) (n : ℕ)
      → IsOrderAmount (amount_in db (cart_of access) p.id + n) p.rules
      → HasRoom p
      → (db' : Database) × (add_line
            (cart_of access)
            p
            n
            (amount_of (cart_of access) p.id db.items)
            db
          ≡ ok (tt, db'))
  unfolding add_line require_valid_cart_amount
  add_line_succeeds p n v room =
      let valid = (valid-IsOrderAmount_iff (amount_in db (cart_of access) p.id + n) p.rules).1 v in
      elim (Result-cases
        (add_line (cart_of access) p n (amount_of (cart_of access) p.id db.items) db)) [
          | inl (u, db', e) ↦ (db', e)
          | inr (x, e) ↦ elim room [
            | inl (old, had) ↦ absurd (ground (arith, e, had, valid))
            | inr (absent, few) ↦ absurd (ground (arith, e, absent, few, valid))
          ]
        ]

  -- An `add` to an open cart succeeds for a product on sale in euros, if the amount then in the cart
  -- may be ordered and the cart has a line of the product or fewer than 50 lines.
  pub add_succeeds :
      (slug : String) (n : ℕ) (p : Product)
      → IsOpen access now db
      → find_slug slug db.products ≡ some p
      → is_sold p now ≡ true
      → IsOrderAmount (amount_in db (cart_of access) p.id + n) p.rules
      → HasRoom p
      → (dto : CartDto) × (db' : Database) × (add access slug n now db ≡ ok (dto, db'))
  unfolding add require_cart_product
  add_succeeds slug n p o found sold v room =
      let opened = IsOpen-open_cart o in
      let (db1, added) = add_line_succeeds p n v room in
      elim (Result-cases (add access slug n now db)) [
        | inl (dto, db', e) ↦ (dto, db', e)
        | inr (x, e) ↦ absurd (ground (arith, e, opened, found, sold, added))
      ]

  -- An `update` of a line of an open cart succeeds for a product on sale, if the amount may be
  -- ordered.
  pub update_succeeds :
      (slug : String) (n : ℕ) (p : Product)
      → IsOpen access now db
      → find_line slug (load_cart (cart_of access) db) ≡ some p
      → is_public_product_eligible p.eligibility now ≡ true
      → IsOrderAmount n p.rules
      → (dto : CartDto) × (db' : Database) × (update access slug n now db ≡ ok (dto, db'))
  unfolding update require_valid_cart_amount
  update_succeeds slug n p o found eligible v =
      let opened = IsOpen-open_cart o in
      let valid = (valid-IsOrderAmount_iff n p.rules).1 v in
      elim (Result-cases (update access slug n now db)) [
        | inl (dto, db', e) ↦ (dto, db', e)
        | inr (x, e) ↦ absurd (ground (arith, e, opened, found, eligible, valid))
      ]
