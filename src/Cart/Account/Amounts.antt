-- ===== src/Cart/Account/Amounts.antt =====
-- The maps that `mergeGuestIntoAccount` builds, read as functions of the product.
use hop_and_barley_store.Prelude.{
  ℕ, ◌≡◌, refl, List, [], ◌∷◌, ◌==◌, Option, none, some, max, if◌then◌else◌, arith,
}
use hop_and_barley_store.Catalog.Amount.{or_else}
use hop_and_barley_store.Store.Items.{CartItem, amount_of, items_of, upsert_item}
use hop_and_barley_store.Store.Items.Laws.{IsKeyed, amount_of-upsert_item}
use hop_and_barley_store.Cart.Account.{
  Amounts, map_get, map_set, amounts_from, merge_amounts, upsert_all,
}

-- The larger of two amounts, of which either may be missing.
abbrev pub larger : Option ℕ → Option ℕ → Option ℕ
larger none b = b
larger (some a) none = some a
larger (some a) (some b) = some (max a b)

abbrev pub first_of_two : Option ℕ → Option ℕ → Option ℕ
first_of_two none b = b
first_of_two (some a) b = some a

pub map_get-map_set :
    (k j v : ℕ) (m : Amounts) → map_get j (map_set k v m) ≡ (if k == j then some v else map_get j m)
unfolding map_get map_set
map_get-map_set k j v [] = refl
map_get-map_set k j v ((i, w) ∷ m) = ground (arith, map_get-map_set k j v m)

abbrev pub HasKeys : Amounts → Type 0
HasKeys [] = Unit {0}
HasKeys ((k, v) ∷ m) = (map_get k m ≡ none) × HasKeys m

module _ (c p : ℕ) where
  amount_of-items_of : (is : List CartItem) → amount_of c p (items_of c is) ≡ amount_of c p is
  unfolding amount_of items_of
  amount_of-items_of [] = refl
  amount_of-items_of (i ∷ is) = ground (arith, amount_of-items_of is)

  pub map_get-amounts_from :
      (m : Amounts) (is : List CartItem)
      → IsKeyed is
      → map_get p (amounts_from m (items_of c is)) ≡ first_of_two (amount_of c p is) (map_get p m)
  unfolding amounts_from amount_of items_of
  map_get-amounts_from m [] k = refl
  map_get-amounts_from m (i ∷ is) k = ground (
    arith,
    map_get-amounts_from m is k.1,
    map_get-amounts_from (map_set i.product_id i.amount m) is k.1,
    map_get-map_set i.product_id p i.amount m,
  )

  pub map_get-merge_amounts :
      (m : Amounts) (is : List CartItem)
      → IsKeyed is
      → map_get p (merge_amounts m (items_of c is)) ≡ larger (map_get p m) (amount_of c p is)
  unfolding merge_amounts amount_of items_of
  map_get-merge_amounts m [] k = ground arith
  map_get-merge_amounts m (i ∷ is) k = ground (
    arith,
    map_get-merge_amounts m is k.1,
    map_get-merge_amounts
        (map_set i.product_id (max (or_else (map_get i.product_id m) 0) i.amount) m) is k.1,
    map_get-map_set i.product_id p (max (or_else (map_get i.product_id m) 0) i.amount) m,
  )

map_set-HasKeys : (k v : ℕ) (m : Amounts) → HasKeys m → HasKeys (map_set k v m)
unfolding map_set map_get
map_set-HasKeys k v [] h = (refl, tt)
map_set-HasKeys k v ((j, w) ∷ m) h = ground (arith, map_set-HasKeys k v m, map_get-map_set k j v m)

pub amounts_from-HasKeys :
    (m : Amounts) (is : List CartItem) → HasKeys m → HasKeys (amounts_from m is)
unfolding amounts_from
amounts_from-HasKeys m [] h = h
amounts_from-HasKeys m (i ∷ is) h =
    amounts_from-HasKeys (map_set i.product_id i.amount m) is
      (map_set-HasKeys i.product_id i.amount m h)

pub merge_amounts-HasKeys :
    (m : Amounts) (is : List CartItem) → HasKeys m → HasKeys (merge_amounts m is)
unfolding merge_amounts
merge_amounts-HasKeys m [] h = h
merge_amounts-HasKeys m (i ∷ is) h =
    merge_amounts-HasKeys
      (map_set i.product_id (max (or_else (map_get i.product_id m) 0) i.amount) m) is
      (map_set-HasKeys i.product_id (max (or_else (map_get i.product_id m) 0) i.amount) m h)

module _ (c d q : ℕ) where
  pub amount_of-upsert_all :
      (m : Amounts) (is : List CartItem)
      → HasKeys m
      → amount_of d q (upsert_all c m is)
        ≡ (if c == d then first_of_two (map_get q m) (amount_of d q is) else amount_of d q is)
  unfolding upsert_all map_get
  amount_of-upsert_all [] is h = ground arith
  amount_of-upsert_all ((p, n) ∷ m) is h =
      ground (
        arith,
        amount_of-upsert_all m (upsert_item c p n is) h.1,
        amount_of-upsert_item c p n d q is,
      )
