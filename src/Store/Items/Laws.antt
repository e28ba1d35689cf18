-- ===== src/Store/Items/Laws.antt =====
-- How the writes of the table of cart items change what is read from it.
use hop_and_barley_store.Prelude.{
  ℕ, suc, ◌≤◌, ◌≡◌, ◌≢◌, refl, ◌&&◌, List, [], ◌∷◌, ◌==◌, none, some, if◌then◌else◌, arith,
}
use hop_and_barley_store.Store.Items.{
  CartItem, amount_of, count_items, create_item, update_item, upsert_item, delete_item,
  delete_cart_items,
}

-- The unique key: no two rows are of one cart and one product.
abbrev pub IsKeyed : List CartItem → Type 0
IsKeyed [] = Unit {0}
IsKeyed (i ∷ is) = (amount_of i.cart_id i.product_id is ≡ none) × IsKeyed is

module _ (c p n : ℕ) where
  pub amount_of-create_item :
      (d q : ℕ) (is : List CartItem)
      → amount_of c p is ≡ none
      → amount_of d q (create_item c p n is)
        ≡ (if c == d && p == q then some n else amount_of d q is)
  unfolding amount_of create_item
  amount_of-create_item d q [] h = refl
  amount_of-create_item d q (i ∷ is) h = ground (arith, amount_of-create_item d q is)

  pub amount_of-update_item :
      (d q : ℕ) (is : List CartItem) {old : ℕ}
      → amount_of c p is ≡ some old
      → amount_of d q (update_item c p n is)
        ≡ (if c == d && p == q then some n else amount_of d q is)
  unfolding amount_of update_item
  amount_of-update_item d q [] h = ground arith
  amount_of-update_item d q (i ∷ is) {old} h =
      ground (arith, amount_of-update_item d q is {old = old})

  pub amount_of-upsert_item :
      (d q : ℕ) (is : List CartItem)
      → amount_of d q (upsert_item c p n is)
        ≡ (if c == d && p == q then some n else amount_of d q is)
  unfolding amount_of upsert_item
  amount_of-upsert_item d q [] = refl
  amount_of-upsert_item d q (i ∷ is) = ground (arith, amount_of-upsert_item d q is)

  pub count_items-create_item :
      (d : ℕ) (is : List CartItem)
      → count_items d (create_item c p n is)
        ≡ (if c == d then suc (count_items d is) else count_items d is)
  unfolding count_items create_item
  count_items-create_item d [] = refl
  count_items-create_item d (i ∷ is) = ground (arith, count_items-create_item d is)

  pub count_items-update_item :
      (d : ℕ) (is : List CartItem) → count_items d (update_item c p n is) ≡ count_items d is
  unfolding count_items update_item
  count_items-update_item d [] = refl
  count_items-update_item d (i ∷ is) = ground (arith, count_items-update_item d is)

  pub create_item-IsKeyed :
      (is : List CartItem) → amount_of c p is ≡ none → IsKeyed is → IsKeyed (create_item c p n is)
  unfolding amount_of create_item
  create_item-IsKeyed [] h k = (refl, tt)
  create_item-IsKeyed (i ∷ is) h k =
      ground (arith, create_item-IsKeyed is, amount_of-create_item i.cart_id i.product_id is)

  amount_of-update_item-none :
      (d q : ℕ) (is : List CartItem)
      → amount_of d q is ≡ none
      → amount_of d q (update_item c p n is) ≡ none
  unfolding amount_of update_item
  amount_of-update_item-none d q [] h = refl
  amount_of-update_item-none d q (i ∷ is) h = ground (arith, amount_of-update_item-none d q is)

  pub update_item-IsKeyed : (is : List CartItem) → IsKeyed is → IsKeyed (update_item c p n is)
  unfolding amount_of update_item
  update_item-IsKeyed [] k = tt
  update_item-IsKeyed (i ∷ is) k =
      ground (arith, update_item-IsKeyed is, amount_of-update_item-none i.cart_id i.product_id is)

  pub upsert_item-IsKeyed : (is : List CartItem) → IsKeyed is → IsKeyed (upsert_item c p n is)
  unfolding amount_of upsert_item
  upsert_item-IsKeyed [] k = (refl, tt)
  upsert_item-IsKeyed (i ∷ is) k =
      ground (arith, upsert_item-IsKeyed is, amount_of-upsert_item i.cart_id i.product_id is)

  pub count_items-upsert_item :
      (d : ℕ) (is : List CartItem) → c ≢ d → count_items d (upsert_item c p n is) ≡ count_items d is
  unfolding count_items upsert_item
  count_items-upsert_item d [] h = ground arith
  count_items-upsert_item d (i ∷ is) h = ground (arith, count_items-upsert_item d is h)

module _ (c p : ℕ) where
  pub amount_of-delete_item :
      (d q : ℕ) (is : List CartItem)
      → IsKeyed is
      → amount_of d q (delete_item c p is) ≡ (if c == d && p == q then none else amount_of d q is)
  unfolding amount_of delete_item
  amount_of-delete_item d q [] k = ground arith
  amount_of-delete_item d q (i ∷ is) k = ground (arith, amount_of-delete_item d q is)

  amount_of-delete_item-none :
      (d q : ℕ) (is : List CartItem)
      → amount_of d q is ≡ none
      → amount_of d q (delete_item c p is) ≡ none
  unfolding amount_of delete_item
  amount_of-delete_item-none d q [] h = refl
  amount_of-delete_item-none d q (i ∷ is) h = ground (arith, amount_of-delete_item-none d q is)

  pub delete_item-IsKeyed : (is : List CartItem) → IsKeyed is → IsKeyed (delete_item c p is)
  unfolding amount_of delete_item
  delete_item-IsKeyed [] k = tt
  delete_item-IsKeyed (i ∷ is) k =
      ground (arith, delete_item-IsKeyed is, amount_of-delete_item-none i.cart_id i.product_id is)

  pub count_items-delete_item-le :
      (d : ℕ) (is : List CartItem) → count_items d (delete_item c p is) ≤ count_items d is
  unfolding count_items delete_item
  count_items-delete_item-le d [] = omega arith
  count_items-delete_item-le d (i ∷ is) = ground (arith, count_items-delete_item-le d is)

  pub count_items-le-delete_item :
      (d : ℕ) (is : List CartItem) → count_items d is ≤ suc (count_items d (delete_item c p is))
  unfolding count_items delete_item
  count_items-le-delete_item d [] = omega arith
  count_items-le-delete_item d (i ∷ is) = ground (arith, count_items-le-delete_item d is)

module _ (c : ℕ) where
  pub amount_of-delete_cart_items :
      (d q : ℕ) (is : List CartItem)
      → amount_of d q (delete_cart_items c is) ≡ (if c == d then none else amount_of d q is)
  unfolding amount_of delete_cart_items
  amount_of-delete_cart_items d q [] = ground arith
  amount_of-delete_cart_items d q (i ∷ is) = ground (arith, amount_of-delete_cart_items d q is)

  pub delete_cart_items-IsKeyed :
      (is : List CartItem) → IsKeyed is → IsKeyed (delete_cart_items c is)
  unfolding amount_of delete_cart_items
  delete_cart_items-IsKeyed [] k = tt
  delete_cart_items-IsKeyed (i ∷ is) k =
      ground
        (arith, delete_cart_items-IsKeyed is, amount_of-delete_cart_items i.cart_id i.product_id is)

  pub count_items-delete_cart_items :
      (d : ℕ) (is : List CartItem)
      → count_items d (delete_cart_items c is) ≡ (if c == d then 0 else count_items d is)
  unfolding count_items delete_cart_items
  count_items-delete_cart_items d [] = ground arith
  count_items-delete_cart_items d (i ∷ is) = ground (arith, count_items-delete_cart_items d is)
