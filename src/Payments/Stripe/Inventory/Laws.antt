-- ===== src/Payments/Stripe/Inventory/Laws.antt =====
-- What the items of an attempt take from the stock, and what they give back.
use hop_and_barley_store.Prelude.{
  ℕ, ◌+◌, ◌≡◌, ◌∙◌, refl, true, List, [], ◌∷◌, ◌==◌, some, arith, inl, inr, if◌then◌else◌,
  Option-cases, is_some, &&-eq_true,
}
use hop_and_barley_store.Catalog.Product.{Product}
use hop_and_barley_store.Orders.Allocation.{decrement_stock}
use hop_and_barley_store.Orders.Allocation.Laws.{stock_of, decrement_stock-stock_of}
use hop_and_barley_store.Orders.Service.Lines.{ordered}
use hop_and_barley_store.Store.{OrderItem, find_product}
use hop_and_barley_store.Payments.Stripe.Inventory.{
  all_products_known, take_items, increment_stock, give_back,
}

pub take_items-stock_of :
    (q : ℕ) (items : List OrderItem) (ps : List Product) {rest : List Product}
    → take_items items ps ≡ some rest
    → stock_of q ps ≡ stock_of q rest + ordered q items
unfolding take_items
take_items-stock_of q [] ps h = ground arith
take_items-stock_of q (i ∷ is) ps {rest} h =
    elim (Option-cases (decrement_stock i.product_id i.amount ps)) [
      | inl e ↦ absurd (ground (arith, e))
      | inr (ts, e) ↦ ground (
        arith,
        e,
        decrement_stock-stock_of i.product_id i.amount q ps e,
        take_items-stock_of q is ts {rest = rest},
      )
    ]

increment_stock-stock_of :
    (i n q : ℕ) (ps : List Product)
    → is_some (find_product i ps) ≡ true
    → stock_of q (increment_stock i n ps) ≡ stock_of q ps + (if i == q then n else 0)
unfolding increment_stock stock_of find_product
increment_stock-stock_of i n q [] h = absurd (ground arith)
increment_stock-stock_of i n q (p ∷ ps) h = ground (arith, increment_stock-stock_of i n q ps)

find_product-increment_stock :
    (i n j : ℕ) (ps : List Product)
    → is_some (find_product j (increment_stock i n ps)) ≡ is_some (find_product j ps)
unfolding increment_stock find_product
find_product-increment_stock i n j [] = refl
find_product-increment_stock i n j (p ∷ ps) = ground (arith, find_product-increment_stock i n j ps)

known-increment_stock :
    (i n : ℕ) (items : List OrderItem) (ps : List Product)
    → all_products_known items (increment_stock i n ps) ≡ all_products_known items ps
unfolding all_products_known
known-increment_stock i n [] ps = refl
known-increment_stock i n (x ∷ items) ps =
    rw (find_product-increment_stock i n x.product_id ps, known-increment_stock i n items ps)

pub give_back-stock_of :
    (q : ℕ) (items : List OrderItem) (ps : List Product)
    → all_products_known items ps ≡ true
    → stock_of q (give_back items ps) ≡ stock_of q ps + ordered q items
unfolding give_back all_products_known
give_back-stock_of q [] ps h = omega arith
give_back-stock_of q (x ∷ items) ps h =
    let (there, known) = &&-eq_true {b = all_products_known items ps} h in
    let rest : all_products_known items (increment_stock x.product_id x.amount ps) ≡ true =
      known-increment_stock x.product_id x.amount items ps ∙ known in
    let first = increment_stock-stock_of x.product_id x.amount q ps there in
    let later = give_back-stock_of q items (increment_stock x.product_id x.amount ps) rest in
    omega (arith, first, later)
