-- ===== src/Store/Items.antt =====
-- The table "CartItem", keyed by cart and product (`@@unique([cartId, productId])`), so that a row
-- needs no id of its own. A new row is the last one, and an update leaves a row in its place.
pub mod Laws
use hop_and_barley_store.Prelude.{
  ℕ, suc, Bool, ◌&&◌, List, [], ◌∷◌, ◌++◌, ◌==◌, Option, none, some, if◌then◌else◌,
}

pub record CartItem : Type 0 where
  pub cart_id : ℕ
  pub product_id : ℕ
  pub amount : ℕ

abbrev pub is_line : ℕ → ℕ → CartItem → Bool
is_line cart_id product_id item = item.cart_id == cart_id && item.product_id == product_id

-- `findUnique({ where: { cartId_productId } })`, of which the code reads the amount.
unfoldable pub amount_of : ℕ → ℕ → List CartItem → Option ℕ
amount_of cart_id product_id [] = none
amount_of cart_id product_id (i ∷ is) =
    if is_line cart_id product_id i then some i.amount else amount_of cart_id product_id is

-- `count({ where: { cartId } })`.
unfoldable pub count_items : ℕ → List CartItem → ℕ
count_items cart_id [] = 0
count_items cart_id (i ∷ is) =
    if i.cart_id == cart_id then suc (count_items cart_id is) else count_items cart_id is

unfoldable pub create_item : ℕ → ℕ → ℕ → List CartItem → List CartItem
create_item cart_id product_id amount items =
    items ++ record { cart_id = cart_id; product_id = product_id; amount = amount } ∷ []

unfoldable pub update_item : ℕ → ℕ → ℕ → List CartItem → List CartItem
update_item cart_id product_id amount [] = []
update_item cart_id product_id amount (i ∷ is) =
    if is_line cart_id product_id i
    then record i { amount = amount } ∷ is
    else i ∷ update_item cart_id product_id amount is

unfoldable pub upsert_item : ℕ → ℕ → ℕ → List CartItem → List CartItem
upsert_item cart_id product_id amount [] =
    record { cart_id = cart_id; product_id = product_id; amount = amount } ∷ []
upsert_item cart_id product_id amount (i ∷ is) =
    if is_line cart_id product_id i
    then record i { amount = amount } ∷ is
    else i ∷ upsert_item cart_id product_id amount is

unfoldable pub delete_item : ℕ → ℕ → List CartItem → List CartItem
delete_item cart_id product_id [] = []
delete_item cart_id product_id (i ∷ is) =
    if is_line cart_id product_id i then is else i ∷ delete_item cart_id product_id is

-- `deleteMany({ where: { cartId } })`, and what `ON DELETE CASCADE` does to a cart's items.
unfoldable pub delete_cart_items : ℕ → List CartItem → List CartItem
delete_cart_items cart_id [] = []
delete_cart_items cart_id (i ∷ is) =
    if i.cart_id == cart_id then delete_cart_items cart_id is else i ∷ delete_cart_items cart_id is

-- `findMany({ where: { cartId } })`.
unfoldable pub items_of : ℕ → List CartItem → List CartItem
items_of cart_id [] = []
items_of cart_id (i ∷ is) =
    if i.cart_id == cart_id then i ∷ items_of cart_id is else items_of cart_id is
