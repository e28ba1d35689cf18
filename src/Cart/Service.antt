-- ===== src/Cart/Service.antt =====
-- The service of apps/api/src/cart/cart.service.ts. Each operation is the function that the service
-- hands to `runCartSerializable` (Store/Retry.antt), followed by what it does with the result. The
-- clock (`now`), the id of a new row and a generated token are arguments. Raw tokens are texts.
pub mod Effects
pub mod Laws
pub mod Accepts
use text.Mathlib.Text.{◌==◌ as str_eq}
use hop_and_barley_store.Prelude.{
  ℕ, ◌+◌, ◌*◌, Bool, true, false, not, ◌||◌, List, [], ◌∷◌, ◌==◌, leb, ltb, Option, none, some,
  String, if◌then◌else◌, map,
}
use hop_and_barley_store.Catalog.Amount.{
  ProductAmountRules, is_valid_order_amount, is_public_product_eligible,
}
use hop_and_barley_store.Catalog.Product.{Product}
use hop_and_barley_store.Cart.Readiness.{
  Outcome, available, CheckoutReadinessLine, checkout_line_outcome, is_sold,
}
use hop_and_barley_store.Cart.Dto.{CartDto, to_cart_dto, empty}
use hop_and_barley_store.Store.{
  Database, User, UserStatus, active, Cart, find_user, find_cart, find_user_cart, find_guest_cart,
  find_product, find_slug, has_order,
}
use hop_and_barley_store.Store.Items.{
  CartItem, amount_of, count_items, create_item, update_item, delete_item, delete_cart_items,
}
use hop_and_barley_store.Store.Transaction.{
  HttpError, unauthorized, unavailable, not_found, Transaction, ◌>>=◌, ◌>>◌, pure, throw, reads,
  modify, require, or_throw,
}

abbrev pub cart_lifetime_ms : ℕ
cart_lifetime_ms = 30 * 24 * 60 * 60 * 1_000

abbrev pub max_distinct_items : ℕ
max_distinct_items = 50

-- `kind` is absent in some guest capabilities, which the code reads as 'guest'.
pub data ActiveCartAccess : Type 0 where
  guest : (cart_id expires_at : ℕ) (raw_token : String) → ActiveCartAccess
  account : (cart_id : ℕ) (raw_token : String) (user_id : ℕ) → ActiveCartAccess

abbrev pub cart_of : ActiveCartAccess → ℕ
cart_of (guest cart_id expires_at raw_token) = cart_id
cart_of (account cart_id raw_token user_id) = cart_id

abbrev pub is_account : ActiveCartAccess → Bool
is_account (guest cart_id expires_at raw_token) = false
is_account (account cart_id raw_token user_id) = true

abbrev pub T : Type 0 → Type 0
T A = Transaction Database A

abbrev pub is_active : UserStatus → Bool
is_active active = true
is_active _ = false

unfoldable pub lock_active_user : ℕ → T (Unit {0})
lock_active_user user_id = do
  user ← λ db. or_throw (find_user user_id db.users) unauthorized db
  require (is_active user.status) unauthorized

unfoldable pub lock_cart : ℕ → T ℕ
lock_cart cart_id = do
  cart ← λ db. or_throw (find_cart cart_id db.carts) unauthorized db
  placed ← reads (λ db. has_order cart_id db.orders)
  require (not placed) unavailable
  pure cart.expires_at

unfoldable pub require_active_cart : ActiveCartAccess → ℕ → ℕ → T (Unit {0})
require_active_cart access expires_at now =
    require (is_account access || ltb now expires_at) unauthorized

unfoldable pub require_cart_product : String → ℕ → T Product
require_cart_product slug evaluated_at = do
  product ← λ db. or_throw (find_slug slug db.products) unavailable db
  require (is_sold product evaluated_at) unavailable
  pure product

unfoldable pub require_valid_cart_amount : ℕ → ProductAmountRules → T (Unit {0})
require_valid_cart_amount amount rules = require (is_valid_order_amount amount rules) unavailable

-- The lines of a cart joined with their products. The foreign key of "CartItem" gives each its
-- product; a line with none would be left out.
unfoldable pub lines_of : ℕ → List Product → List CartItem → List (Product × ℕ)
lines_of cart_id products [] = []
lines_of cart_id products (i ∷ is) =
    let rest = lines_of cart_id products is in
    if i.cart_id == cart_id
    then elim (find_product i.product_id products) [ none ↦ rest | some p ↦ (p, i.amount) ∷ rest ]
    else rest

unfoldable pub load_cart : ℕ → Database → List (Product × ℕ)
load_cart cart_id db = lines_of cart_id db.products db.items

-- `findFirst({ where: { cartId, product: { slug } } })`.
unfoldable pub find_line : String → List (Product × ℕ) → Option Product
find_line slug [] = none
find_line slug ((p, amount) ∷ lines) = if str_eq p.slug slug then some p else find_line slug lines

-- The two cases of `add`: a product that the cart has, and one that it has not.
unfoldable pub add_line : ℕ → Product → ℕ → Option ℕ → T (Unit {0})
add_line cart_id product amount none = do
  count ← reads (λ db. count_items cart_id db.items)
  require (not (leb max_distinct_items count)) unavailable
  require_valid_cart_amount amount product.rules
  modify (λ db. record db { items = create_item cart_id product.id amount db.items })
add_line cart_id product amount (some existing) = do
  require_valid_cart_amount (existing + amount) product.rules
  modify (λ db. record db { items = update_item cart_id product.id (existing + amount) db.items })

-- What every operation on an existing cart starts with.
unfoldable pub open_cart : ActiveCartAccess → ℕ → T (Unit {0})
open_cart access now = do
  expires_at ← lock_cart (cart_of access)
  require_active_cart access expires_at now

unfoldable pub add : ActiveCartAccess → String → ℕ → ℕ → T CartDto
add access product_slug amount now = do
  open_cart access now
  product ← require_cart_product product_slug now
  existing ← reads (λ db. amount_of (cart_of access) product.id db.items)
  add_line (cart_of access) product amount existing
  reads (λ db. to_cart_dto (load_cart (cart_of access) db) now)

unfoldable pub update : ActiveCartAccess → String → ℕ → ℕ → T CartDto
update access product_slug amount now = do
  open_cart access now
  product ← λ db. or_throw (find_line product_slug (load_cart (cart_of access) db)) not_found db
  require (is_public_product_eligible product.eligibility now) unavailable
  require_valid_cart_amount amount product.rules
  modify (λ db. record db { items = update_item (cart_of access) product.id amount db.items })
  reads (λ db. to_cart_dto (load_cart (cart_of access) db) now)

unfoldable pub remove : ActiveCartAccess → String → ℕ → T CartDto
remove access product_slug now = do
  open_cart access now
  product ← λ db. or_throw (find_line product_slug (load_cart (cart_of access) db)) not_found db
  modify (λ db. record db { items = delete_item (cart_of access) product.id db.items })
  reads (λ db. to_cart_dto (load_cart (cart_of access) db) now)

unfoldable pub clear : ActiveCartAccess → ℕ → T CartDto
clear access now = do
  open_cart access now
  modify (λ db. record db { items = delete_cart_items (cart_of access) db.items })
  pure empty
