-- ===== src/Cart/Invariant/Lookups.antt =====
-- How the ways to find a product and a cart line agree.
use hop_and_barley_store.Prelude.{
  ℕ, ◌≤◌, ◌≡◌, ◌≢◌, refl, true, List, [], ◌∷◌, ◌==◌, some, none, String, arith, inl, inr,
  Bool-cases, Option-cases, length,
}
use hop_and_barley_store.Catalog.Amount.{is_valid_order_amount}
use hop_and_barley_store.Catalog.Product.{Product}
use hop_and_barley_store.Store.{find_product, find_slug}
use hop_and_barley_store.Store.Items.{CartItem, amount_of, count_items, delete_item}
use hop_and_barley_store.Store.Items.Laws.{
  IsKeyed, amount_of-delete_item, delete_item-IsKeyed, count_items-le-delete_item,
}
use hop_and_barley_store.Cart.Service.{lines_of, find_line}
use hop_and_barley_store.Cart.Account.{Amounts, map_get, selected, all_valid}
use hop_and_barley_store.Cart.Invariant.{HasIds}

find_product-id : (n : ℕ) (ps : List Product) {p : Product} → find_product n ps ≡ some p → p.id ≡ n
unfolding find_product
find_product-id n [] h = ground arith
find_product-id n (q ∷ ps) {p} h = ground (arith, find_product-id n ps {p = p})

pub find_slug-find_product :
    (slug : String) (ps : List Product) {p : Product}
    → HasIds ps
    → find_slug slug ps ≡ some p
    → find_product p.id ps ≡ some p
unfolding find_slug find_product
find_slug-find_product slug [] u h = ground arith
find_slug-find_product slug (q ∷ ps) {p} u h =
    ground (arith, find_slug-find_product slug ps {p = p} u.1)

-- A line that is found by its slug is a line of the cart with a product that exists.
pub find_line-amount_of :
    (slug : String) (c : ℕ) (ps : List Product) (is : List CartItem) {p : Product}
    → find_line slug (lines_of c ps is) ≡ some p
    → (amount_of c p.id is ≢ none) × (find_product p.id ps ≡ some p)
unfolding find_line lines_of amount_of
find_line-amount_of slug c ps [] h = ground arith
find_line-amount_of slug c ps (i ∷ is) {p} h = elim (Option-cases (find_product i.product_id ps)) [
  | inl e ↦ ground (arith, find_line-amount_of slug c ps is {p = p})
  | inr (q, e) ↦
      ground
        (arith, find_line-amount_of slug c ps is {p = p}, find_product-id i.product_id ps {p = q} e)
]

pub amount_of-none_of_count :
    (c p : ℕ) (is : List CartItem) → count_items c is ≡ 0 → amount_of c p is ≡ none
unfolding count_items amount_of
amount_of-none_of_count c p [] h = refl
amount_of-none_of_count c p (i ∷ is) h = ground (arith, amount_of-none_of_count c p is)

count-zero :
    (c : ℕ) (is : List CartItem) → ((q : ℕ) → amount_of c q is ≡ none) → count_items c is ≡ 0
unfolding count_items amount_of
count-zero c [] h = refl
count-zero c (i ∷ is) h = elim (Bool-cases (i.cart_id == c)) [
  | inl own ↦ absurd (ground (arith, h i.product_id))
  | inr other ↦ ground (arith, count-zero c is (λ q. ground (arith, h q)))
]

-- A cart whose products are all keys of a map has no more lines than the map has entries.
pub count_items-le-length :
    (c : ℕ) (m : Amounts) (is : List CartItem)
    → IsKeyed is
    → ((q : ℕ) → map_get q m ≡ none → amount_of c q is ≡ none)
    → count_items c is ≤ length m
unfolding map_get
count_items-le-length c [] is k h = omega (arith, count-zero c is (λ q. h q refl))
count_items-le-length c ((p, n) ∷ m) is k h =
    let rest =
      count_items-le-length c m (delete_item c p is) (delete_item-IsKeyed c p is k)
        (λ q e. ground (arith, h q, amount_of-delete_item c p c q is k)) in
    omega (arith, rest, count_items-le-delete_item c p c is)

pub all_valid-selected :
    (m : Amounts) (q v : ℕ) (ps : List Product) {p : Product}
    → all_valid m (selected m ps) ≡ true
    → find_product q ps ≡ some p
    → map_get q m ≡ some v
    → is_valid_order_amount v p.rules ≡ true
unfolding all_valid selected find_product
all_valid-selected m q v [] ok_all found e = ground arith
all_valid-selected m q v (r ∷ ps) {p} ok_all found e = elim (Bool-cases (r.id == q)) [
  | inl here ↦ ground arith
  | inr there ↦ ground (arith, all_valid-selected m q v ps {p = p})
]
