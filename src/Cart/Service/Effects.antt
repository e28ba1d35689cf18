-- ===== src/Cart/Service/Effects.antt =====
-- What a successful operation on a cart has checked, and what it writes.
use hop_and_barley_store.Prelude.{
  ℕ, ◌+◌, ◌<◌, ◌≡◌, refl, ◌⊎◌, inl, inr, true, false, Option, none, some, String, arith, ◌∙◌,
  subst₂, Option-cases,
}
use hop_and_barley_store.Catalog.Amount.{is_valid_order_amount, is_public_product_eligible}
use hop_and_barley_store.Catalog.Product.{Product}
use hop_and_barley_store.Cart.Readiness.{is_sold}
use hop_and_barley_store.Cart.Dto.{CartDto, to_cart_dto, empty}
use hop_and_barley_store.Store.{Database, find_slug, has_order, Cart, find_cart}
use hop_and_barley_store.Store.Items.{
  amount_of, count_items, create_item, update_item, delete_item, delete_cart_items,
}
use hop_and_barley_store.Store.Transaction.{ok, >>=-eq_ok}
use hop_and_barley_store.Cart.Service.{
  ActiveCartAccess, cart_of, is_account, open_cart, add, update, remove, clear, find_line,
  load_cart, add_line, require_valid_cart_amount, lock_cart, require_active_cart,
  require_cart_product, max_distinct_items,
}

-- The cart can be changed: it exists, no order was placed from it, and a guest's has not expired.
pub record IsOpen (access : ActiveCartAccess) (now : ℕ) (db : Database) : Type 0 where
  pub cart : Cart
  pub found : find_cart (cart_of access) db.carts ≡ some cart
  pub unplaced : has_order (cart_of access) db.orders ≡ false
  pub alive : (is_account access ≡ true) ⊎ (now < cart.expires_at)

module _ (access : ActiveCartAccess) (now : ℕ) (db : Database) where
  pub open_cart-IsOpen :
      {u : Unit {0}} {db' : Database}
      → open_cart access now db ≡ ok (u, db')
      → IsOpen access now db × (db' ≡ db)
  unfolding open_cart lock_cart require_active_cart
  open_cart-IsOpen h = elim (Option-cases (find_cart (cart_of access) db.carts)) [
    | inl e ↦ ground arith
    | inr (cart, e) ↦ (
      record { cart = cart; found = e; unplaced = ground arith; alive = ground arith },
      ground arith,
    )
  ]

pub require_cart_product-inv :
    (slug : String) (now : ℕ) (db : Database) {p : Product} {db' : Database}
    → require_cart_product slug now db ≡ ok (p, db')
    → (find_slug slug db.products ≡ some p) × (is_sold p now ≡ true) × (db' ≡ db)
unfolding require_cart_product
require_cart_product-inv slug now db {p} {db'} h = ground arith

-- The write of `add`: a line with the amount, or the amount on top of the line's.
pub data Adds (c : ℕ) (p : Product) (n : ℕ) (db db' : Database) : Type 0 where
  creates :
      amount_of c p.id db.items ≡ none
      → count_items c db.items < max_distinct_items
      → is_valid_order_amount n p.rules ≡ true
      → db' ≡ record db { items = create_item c p.id n db.items }
      → Adds c p n db db'
  increases :
      (old : ℕ)
      → amount_of c p.id db.items ≡ some old
      → is_valid_order_amount (old + n) p.rules ≡ true
      → db' ≡ record db { items = update_item c p.id (old + n) db.items }
      → Adds c p n db db'

module _ (c : ℕ) (p : Product) (n : ℕ) (db : Database) where
  add_line-Adds :
      (existing : Option ℕ) {u : Unit {0}} {db' : Database}
      → amount_of c p.id db.items ≡ existing
      → add_line c p n existing db ≡ ok (u, db')
      → Adds c p n db db'
  unfolding add_line require_valid_cart_amount
  add_line-Adds none e h = creates e (ground arith) (ground arith) (ground arith)
  add_line-Adds (some old) e h = increases old e (ground arith) (ground arith)

module _ (access : ActiveCartAccess) (now : ℕ) (db : Database) (slug : String) (n : ℕ) where
  pub add-inv :
      {dto : CartDto} {db' : Database}
      → add access slug n now db ≡ ok (dto, db')
      → (p : Product) × (find_slug slug db.products ≡ some p)
        × (is_sold p now ≡ true)
        × IsOpen access now db
        × Adds (cart_of access) p n db db'
        × (dto ≡ to_cart_dto (load_cart (cart_of access) db') now)
  unfolding add
  add-inv {dto} {db'} h =
      let (_, db1, opened, h1) = >>=-eq_ok (open_cart access now) _ db h in
      let (p, db2, taken, h2) = >>=-eq_ok (require_cart_product slug now) _ db1 h1 in
      let (_, db3, added, h3) =
        >>=-eq_ok (add_line (cart_of access) p n (amount_of (cart_of access) p.id db2.items)) _ db2
          h2 in
      let (is_open, same1) = open_cart-IsOpen access now db opened in
      let (found, sold, same2) = require_cart_product-inv slug now db1 taken in
      let same3 : db3 ≡ db' = cc in
      (
        p,
        cc,
        sold,
        is_open,
        subst₂ (Adds (cart_of access) p n) (same2 ∙ same1) same3
            (add_line-Adds (cart_of access) p n db2 _ refl added),
        cc,
      )

  pub update-inv :
      {dto : CartDto} {db' : Database}
      → update access slug n now db ≡ ok (dto, db')
      → (p : Product) × (find_line slug (load_cart (cart_of access) db) ≡ some p)
        × (is_public_product_eligible p.eligibility now ≡ true)
        × (is_valid_order_amount n p.rules ≡ true)
        × IsOpen access now db
        × (db' ≡ record db { items = update_item (cart_of access) p.id n db.items })
        × (dto ≡ to_cart_dto (load_cart (cart_of access) db') now)
  unfolding update require_valid_cart_amount
  update-inv {dto} {db'} h =
      let (_, db1, opened, h1) = >>=-eq_ok (open_cart access now) _ db h in
      let (is_open, same) = open_cart-IsOpen access now db opened in
      elim (Option-cases (find_line slug (load_cart (cart_of access) db))) [
        | inl missing ↦ absurd (ground (arith, h1, same))
        | inr (p, found) ↦ (
          p,
          found,
          ground (arith, h1, same),
          ground (arith, h1, same),
          is_open,
          ground (arith, h1, same),
          ground (arith, h1, same),
        )
      ]

  pub remove-inv :
      {dto : CartDto} {db' : Database}
      → remove access slug now db ≡ ok (dto, db')
      → (p : Product) × (find_line slug (load_cart (cart_of access) db) ≡ some p)
        × IsOpen access now db
        × (db' ≡ record db { items = delete_item (cart_of access) p.id db.items })
        × (dto ≡ to_cart_dto (load_cart (cart_of access) db') now)
  unfolding remove
  remove-inv {dto} {db'} h =
      let (_, db1, opened, h1) = >>=-eq_ok (open_cart access now) _ db h in
      let (is_open, same) = open_cart-IsOpen access now db opened in
      elim (Option-cases (find_line slug (load_cart (cart_of access) db))) [
        | inl missing ↦ absurd (ground (arith, h1, same))
        | inr (p, found) ↦ (p, found, is_open, ground (arith, h1, same), ground (arith, h1, same))
      ]

module _ (access : ActiveCartAccess) (now : ℕ) (db : Database) where
  pub clear-inv :
      {dto : CartDto} {db' : Database}
      → clear access now db ≡ ok (dto, db')
      → IsOpen access now db
        × (db' ≡ record db { items = delete_cart_items (cart_of access) db.items })
        × (dto ≡ empty)
  unfolding clear
  clear-inv {dto} {db'} h =
      let (_, db1, opened, h1) = >>=-eq_ok (open_cart access now) _ db h in
      let (is_open, same) = open_cart-IsOpen access now db opened in
      (is_open, ground (arith, h1, same), ground (arith, h1, same))
