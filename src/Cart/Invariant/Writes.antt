-- ===== src/Cart/Invariant/Writes.antt =====
-- The writes of the cart service keep the carts in order.
use hop_and_barley_store.Prelude.{
  ℕ, ◌≤◌, ◌<◌, ◌≡◌, ◌≢◌, refl, sym, ◌∙◌, ◌⊎◌, ◌&&◌, true, List, [], ◌∷◌, ◌==◌, Option, some, none,
  arith, inl, inr, Bool-cases, Option-cases,
}
use hop_and_barley_store.Catalog.Amount.{is_valid_order_amount}
use hop_and_barley_store.Catalog.Product.{Product}
use hop_and_barley_store.Store.{Database, find_product}
use hop_and_barley_store.Store.Items.{
  CartItem, amount_of, count_items, create_item, update_item, upsert_item, delete_item,
  delete_cart_items,
}
use hop_and_barley_store.Store.Items.Laws.{
  IsKeyed, amount_of-create_item, amount_of-update_item, amount_of-delete_item,
  amount_of-delete_cart_items, count_items-create_item, count_items-update_item,
  count_items-delete_item-le, count_items-delete_cart_items, count_items-upsert_item,
  create_item-IsKeyed, update_item-IsKeyed, upsert_item-IsKeyed, delete_item-IsKeyed,
  delete_cart_items-IsKeyed,
}
use hop_and_barley_store.Cart.Service.{max_distinct_items}
use hop_and_barley_store.Cart.Account.{Amounts, map_get, upsert_all}
use hop_and_barley_store.Cart.Account.Amounts.{larger, amount_of-upsert_all}
use hop_and_barley_store.Cart.Account.Merge.{
  merged_of, after_merge, IsCanonical, map_get-merged_of, merged_of-HasKeys, after_merge-amount_of,
}
use hop_and_barley_store.Cart.Invariant.{CartsOk, IsOrderable}
use hop_and_barley_store.Cart.Invariant.Lookups.{count_items-le-length, all_valid-selected}

module _ (db : Database) (v : CartsOk db) (c : ℕ) (p : Product)
    (known : find_product p.id db.products ≡ some p) where
  pub create_item-CartsOk :
      (n : ℕ)
      → amount_of c p.id db.items ≡ none
      → count_items c db.items < max_distinct_items
      → is_valid_order_amount n p.rules ≡ true
      → CartsOk (record db { items = create_item c p.id n db.items })
  create_item-CartsOk n absent room valid = record {
    ids = v.ids;
    keyed = create_item-IsKeyed c p.id n db.items absent v.keyed;
    bounded = λ d. ground (arith, v.bounded d, count_items-create_item c p.id n d db.items);
    orderable = λ d q a e. elim (Bool-cases (c == d && p.id == q)) [
      | inl hit ↦ (
        p,
        ground (arith, known),
        ground (arith, amount_of-create_item c p.id n d q db.items absent),
      )
      | inr miss ↦
          v.orderable d q a (ground (arith, amount_of-create_item c p.id n d q db.items absent))
    ];
  }

  pub update_item-CartsOk :
      (n : ℕ)
      → amount_of c p.id db.items ≢ none
      → is_valid_order_amount n p.rules ≡ true
      → CartsOk (record db { items = update_item c p.id n db.items })
  update_item-CartsOk n present valid = record {
    ids = v.ids;
    keyed = update_item-IsKeyed c p.id n db.items v.keyed;
    bounded = λ d. ground (arith, v.bounded d, count_items-update_item c p.id n d db.items);
    orderable = λ d q a e. elim (Option-cases (amount_of c p.id db.items)) [
      | inl absent ↦ absurd (present absent)
      | inr (old, had) ↦ elim (Bool-cases (c == d && p.id == q)) [
        | inl hit ↦ (
          p,
          ground (arith, known),
          ground (arith, amount_of-update_item c p.id n d q db.items had),
        )
        | inr miss ↦
            v.orderable d q a (ground (arith, amount_of-update_item c p.id n d q db.items had))
      ]
    ];
  }

module _ (db : Database) (v : CartsOk db) (c : ℕ) where
  pub delete_item-CartsOk : (p : ℕ) → CartsOk (record db { items = delete_item c p db.items })
  delete_item-CartsOk p = record {
    ids = v.ids;
    keyed = delete_item-IsKeyed c p db.items v.keyed;
    bounded = λ d. omega (arith, v.bounded d, count_items-delete_item-le c p d db.items);
    orderable = λ d q a e.
        v.orderable d q a (ground (arith, amount_of-delete_item c p d q db.items v.keyed));
  }

  pub delete_cart_items-CartsOk : CartsOk (record db { items = delete_cart_items c db.items })
  delete_cart_items-CartsOk = record {
    ids = v.ids;
    keyed = delete_cart_items-IsKeyed c db.items v.keyed;
    bounded = λ d. ground (arith, v.bounded d, count_items-delete_cart_items c d db.items);
    orderable =
        λ d q a e. v.orderable d q a (ground (arith, amount_of-delete_cart_items c d q db.items));
  }

upsert_all-IsKeyed :
    (c : ℕ) (m : Amounts) (is : List CartItem) → IsKeyed is → IsKeyed (upsert_all c m is)
unfolding upsert_all
upsert_all-IsKeyed c [] is k = k
upsert_all-IsKeyed c ((p, n) ∷ m) is k =
    upsert_all-IsKeyed c m (upsert_item c p n is) (upsert_item-IsKeyed c p n is k)

count_items-upsert_all :
    (c d : ℕ) (m : Amounts) (is : List CartItem)
    → c ≢ d
    → count_items d (upsert_all c m is) ≡ count_items d is
unfolding upsert_all
count_items-upsert_all c d [] is ne = refl
count_items-upsert_all c d ((p, n) ∷ m) is ne =
    count_items-upsert_all c d m (upsert_item c p n is) ne ∙ count_items-upsert_item c p n d is ne

larger-cases :
    (x y : Option ℕ) {n : ℕ}
    → larger x y ≡ some n
    → ((a : ℕ) × (x ≡ some a)) ⊎ ((b : ℕ) × (y ≡ some b))
larger-cases none (some b) h = inr (b, refl)
larger-cases none none h = cc
larger-cases (some a) y h = inl (a, refl)

module _ (db : Database) (v : CartsOk db) (a g : ℕ)
    (canonical : IsCanonical (merged_of a g db) db) where
  merged-known : (q n : ℕ) → map_get q (merged_of a g db) ≡ some n → IsOrderable db.products q n
  merged-known q n e =
      let read = map_get-merged_of a g q db v.keyed in
      let known : (p : Product) × (find_product q db.products ≡ some p) =
        elim (larger-cases (amount_of a q db.items) (amount_of g q db.items) (sym read ∙ e)) [
          | inl (m, h) ↦ let (p, found, _) = v.orderable a q m h in (p, found)
          | inr (m, h) ↦ let (p, found, _) = v.orderable g q m h in (p, found)
        ] in
      (
        known.0,
        known.1,
        all_valid-selected (merged_of a g db) q n db.products canonical.valid known.1 e,
      )

  upserted_bound : count_items a (upsert_all a (merged_of a g db) db.items) ≤ max_distinct_items
  upserted_bound =
      let bound =
        count_items-le-length a (merged_of a g db) (upsert_all a (merged_of a g db) db.items)
          (upsert_all-IsKeyed a (merged_of a g db) db.items v.keyed)
          (λ q e. ground (
            arith,
            map_get-merged_of a g q db v.keyed,
            amount_of-upsert_all a a q (merged_of a g db) db.items (merged_of-HasKeys a g db),
          )) in
      omega (arith, bound, canonical.few)

  pub after_merge-CartsOk : CartsOk (after_merge a g db)
  after_merge-CartsOk = record {
    ids = v.ids;
    keyed =
        delete_cart_items-IsKeyed g (upsert_all a (merged_of a g db) db.items)
          (upsert_all-IsKeyed a (merged_of a g db) db.items v.keyed);
    bounded = λ d. elim (Bool-cases (a == d)) [
      | inl same ↦ ground (
        arith,
        upserted_bound,
        count_items-delete_cart_items g d (upsert_all a (merged_of a g db) db.items),
      )
      | inr other ↦ ground (
        arith,
        v.bounded d,
        count_items-delete_cart_items g d (upsert_all a (merged_of a g db) db.items),
        count_items-upsert_all a d (merged_of a g db) db.items,
      )
    ];
    orderable = λ d q n e. elim (Bool-cases (g == d)) [
      | inl gone ↦ absurd (ground (arith, after_merge-amount_of a g d q db v.keyed))
      | inr stays ↦ elim (Bool-cases (a == d)) [
        | inl own ↦ merged-known q n (
            ground
              (arith, after_merge-amount_of a g d q db v.keyed, map_get-merged_of a g q db v.keyed))
        | inr other ↦ v.orderable d q n (ground (arith, after_merge-amount_of a g d q db v.keyed))
      ]
    ];
  }
