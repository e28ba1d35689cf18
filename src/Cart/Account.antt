-- ===== src/Cart/Account.antt =====
-- The operations of apps/api/src/cart/cart.service.ts that find, make and merge carts. The digest
-- of a token (SHA-256, cart-token.ts) is the parameter `hash_cart_token`; the id and the token of a
-- new cart, which the database and `generateCartToken` draw at random, are the argument `fresh`.
pub mod Amounts
pub mod Merge
use text.Mathlib.Text.{◌==◌ as str_eq}
use hop_and_barley_store.Prelude.{
  ℕ, ◌+◌, Bool, true, false, not, ◌&&◌, List, [], ◌∷◌, ◌==◌, leb, ltb, max, Option, none, some,
  String, ◌++◌, if◌then◌else◌, length, is_some, map_option,
}
use hop_and_barley_store.Catalog.Amount.{is_valid_order_amount, or_else}
use hop_and_barley_store.Catalog.Product.{Product}
use hop_and_barley_store.Cart.Dto.{CartDto, to_cart_dto}
use hop_and_barley_store.Store.{
  Database, Cart, Order, find_user_cart, find_guest_cart, find_cart_order, set_cart, delete_cart,
  has_order,
}
use hop_and_barley_store.Store.Items.{
  CartItem, items_of, create_item, upsert_item, delete_cart_items,
}
use hop_and_barley_store.Store.Transaction.{
  unavailable, internal_error, ◌>>=◌, ◌>>◌, pure, reads, modify, require, throw,
}
use hop_and_barley_store.Cart.Service.{
  T, ActiveCartAccess, guest, account, cart_lifetime_ms, max_distinct_items, lock_active_user,
  require_cart_product, require_valid_cart_amount, load_cart,
}

pub record Fresh : Type 0 where
  pub cart_id : ℕ
  pub token : String

-- A `Map` from product ids to amounts, in insertion order.
abbrev pub Amounts : Type 0
Amounts = List (ℕ × ℕ)

unfoldable pub map_get : ℕ → Amounts → Option ℕ
map_get k [] = none
map_get k ((j, v) ∷ m) = if j == k then some v else map_get k m

unfoldable pub map_set : ℕ → ℕ → Amounts → Amounts
map_set k v [] = (k, v) ∷ []
map_set k v ((j, w) ∷ m) = if j == k then (k, v) ∷ m else (j, w) ∷ map_set k v m

-- `new Map(items.map(({ amount, productId }) => [productId, amount]))`.
unfoldable pub amounts_from : Amounts → List CartItem → Amounts
amounts_from m [] = m
amounts_from m (i ∷ is) = amounts_from (map_set i.product_id i.amount m) is

-- The loop that takes the larger amount of the two carts.
unfoldable pub merge_amounts : Amounts → List CartItem → Amounts
merge_amounts merged [] = merged
merge_amounts merged (i ∷ is) =
    merge_amounts
      (map_set i.product_id (max (or_else (map_get i.product_id merged) 0) i.amount) merged) is

-- `product.findMany({ where: { id: { in: [...merged.keys()] } } })`.
unfoldable pub selected : Amounts → List Product → List Product
selected merged [] = []
selected merged (p ∷ ps) =
    if is_some (map_get p.id merged) then p ∷ selected merged ps else selected merged ps

unfoldable pub all_valid : Amounts → List Product → Bool
all_valid merged [] = true
all_valid merged (p ∷ ps) =
    is_valid_order_amount (or_else (map_get p.id merged) 0) p.rules && all_valid merged ps

unfoldable pub require_canonical_merged_items : Amounts → T (Unit {0})
require_canonical_merged_items merged = do
  require (leb (length merged) max_distinct_items) unavailable
  products ← reads (λ db. selected merged db.products)
  require (length products == length merged) unavailable
  require (all_valid merged products) unavailable

unfoldable pub upsert_all : ℕ → Amounts → List CartItem → List CartItem
upsert_all cart_id [] items = items
upsert_all cart_id ((product_id, amount) ∷ m) items =
    upsert_all cart_id m (upsert_item cart_id product_id amount items)

-- `cart.delete`: the cart's items and its checkout draft go with it (ON DELETE CASCADE). An order of
-- the cart refuses it ("Order_cartId_fkey", ON DELETE RESTRICT), and so does a payment attempt of
-- the draft ("PaymentAttempt_checkoutDraftId_fkey", ON DELETE RESTRICT). The tables of the drafts
-- and the attempts are not among those of the cart service: `has_attempts` says of which carts the
-- draft has an attempt.
unfoldable pub remove_cart : (ℕ → Bool) → ℕ → T (Unit {0})
remove_cart has_attempts cart_id = do
  ordered ← reads (λ db. has_order cart_id db.orders)
  require (not ordered && not (has_attempts cart_id)) internal_error
  modify (λ db. record db {
    carts = delete_cart cart_id db.carts;
    items = delete_cart_items cart_id db.items;
  })

pub data MergeOutcome : Type 0 where
  not_present succeeded : MergeOutcome

-- The larger amounts of both carts go into the account's, and the guest's is deleted.
unfoldable pub merge_two : (ℕ → Bool) → ℕ → ℕ → T MergeOutcome
merge_two has_attempts account_id guest_id = do
  merged ← reads (λ db.
      merge_amounts (amounts_from [] (items_of account_id db.items)) (items_of guest_id db.items))
  require_canonical_merged_items merged
  modify (λ db. record db { items = upsert_all account_id merged db.items })
  remove_cart has_attempts guest_id
  pure succeeded

unfoldable pub merge_into : (ℕ → Bool) → ℕ → Option Cart → T MergeOutcome
merge_into has_attempts account_id none = pure not_present
merge_into has_attempts account_id (some cart) =
    if cart.id == account_id then pure not_present else merge_two has_attempts account_id cart.id

module _ (hash_cart_token : String → ℕ) where
  unfoldable pub authenticate : String → ℕ → Database → Option ActiveCartAccess
  authenticate raw_token now db = elim (find_guest_cart (hash_cart_token raw_token) db.carts) [
    | none ↦ none
    | some cart ↦
        if leb cart.expires_at now then none else some (guest cart.id cart.expires_at raw_token)
  ]

  unfoldable pub authenticate_account : ℕ → String → Database → Option ActiveCartAccess
  authenticate_account user_id raw_session_token db =
      map_option (λ cart. account cart.id raw_session_token user_id)
        (find_user_cart user_id db.carts)

  abbrev new_cart : Fresh → Option ℕ → ℕ → Cart
  new_cart fresh user_id now = record {
    id = fresh.cart_id;
    token_digest = hash_cart_token fresh.token;
    user_id = user_id;
    expires_at = now + cart_lifetime_ms;
  }

  abbrev insert_cart : Cart → T (Unit {0})
  insert_cart cart = modify (λ db. record db { carts = db.carts ++ cart ∷ [] })

  unfoldable pub ensure_account_cart : ℕ → ℕ → Fresh → Option Cart → T ℕ
  ensure_account_cart user_id now fresh (some cart) = pure cart.id
  ensure_account_cart user_id now fresh none = do
    insert_cart (new_cart fresh (some user_id) now)
    pure fresh.cart_id

  unfoldable pub create_account_cart : ℕ → String → ℕ → Fresh → T ActiveCartAccess
  create_account_cart user_id raw_session_token now fresh = do
    lock_active_user user_id
    existing ← reads (λ db. find_user_cart user_id db.carts)
    cart_id ← ensure_account_cart user_id now fresh existing
    pure (account cart_id raw_session_token user_id)

  unfoldable pub create_and_add : String → ℕ → ℕ → Fresh → T (CartDto × ℕ × String)
  create_and_add product_slug amount now fresh = do
    product ← require_cart_product product_slug now
    require_valid_cart_amount amount product.rules
    insert_cart (new_cart fresh none now)
    modify (λ db. record db { items = create_item fresh.cart_id product.id amount db.items })
    reads
        (λ db. (to_cart_dto (load_cart fresh.cart_id db) now, now + cart_lifetime_ms, fresh.token))

  -- An empty text is falsy, as null is.
  unfoldable pub digest_of : Option String → Option ℕ
  digest_of none = none
  digest_of (some raw_token) =
      if str_eq raw_token "" then none else some (hash_cart_token raw_token)

  -- The guest cart of the digest, if no order holds it and it has not expired.
  unfoldable pub find_active_guest : Option ℕ → ℕ → Database → Option Cart
  find_active_guest none now db = none
  find_active_guest (some digest) now db = elim (find_guest_cart digest db.carts) [
    | none ↦ none
    | some cart ↦
        if not (is_some (find_cart_order cart.id db.orders)) && ltb now cart.expires_at
        then some cart
        else none
  ]

  -- With no account cart the guest cart becomes the account's, under a new token.
  unfoldable pub adopt_guest : ℕ → ℕ → Fresh → Cart → T MergeOutcome
  adopt_guest user_id now fresh cart = do
    merged ← reads (λ db. amounts_from [] (items_of cart.id db.items))
    require_canonical_merged_items merged
    modify (λ db. record db {
      carts =
          set_cart
            (record cart {
              expires_at = now + cart_lifetime_ms;
              token_digest = hash_cart_token fresh.token;
              user_id = some user_id;
            })
            db.carts;
    })
    pure succeeded

  unfoldable pub merge_carts :
      (ℕ → Bool) → ℕ → ℕ → Fresh → Option Cart → Option Cart → T MergeOutcome
  merge_carts has_attempts user_id now fresh none (some cart) = adopt_guest user_id now fresh cart
  merge_carts has_attempts user_id now fresh owned active_guest = do
    account_id ← ensure_account_cart user_id now fresh owned
    merge_into has_attempts account_id active_guest

  unfoldable pub merge_guest_into_account :
      (ℕ → Bool) → ℕ → Option String → ℕ → Fresh → T MergeOutcome
  merge_guest_into_account has_attempts user_id raw_guest_token now fresh = do
    lock_active_user user_id
    owned ← reads (λ db. find_user_cart user_id db.carts)
    active_guest ← reads (find_active_guest (digest_of raw_guest_token) now)
    merge_carts has_attempts user_id now fresh owned active_guest
