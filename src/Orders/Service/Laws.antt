-- ===== src/Orders/Service/Laws.antt =====
-- What a call that placed an order promises to a client.
use hop_and_barley_store.Prelude.{
  ℕ, ◌+◌, ◌≡◌, refl, ap, ◌∙◌, false, List, [], ◌∷◌, ◌++◌, map, ◌==◌, Option, none, some, arith, leb,
  ◌≤◌, inl, inr, if◌then◌else◌, Option-cases, subst,
}
use text.Mathlib.TextPositions.{eq_refl}
use hop_and_barley_store.Catalog.Amount.{max_money_minor}
use hop_and_barley_store.Catalog.Product.{Product}
use hop_and_barley_store.Checkout.Pricing.Laws.{IsPriceOf, pricing-IsPriceOf}
use hop_and_barley_store.Store.{Database, Cart, Order, find_cart, set_cart, find_cart_order}
use hop_and_barley_store.Store.Items.{amount_of}
use hop_and_barley_store.Store.Items.Laws.{IsKeyed, amount_of-delete_cart_items}
use hop_and_barley_store.Store.Transaction.{ok, err, idempotency_conflict}
use hop_and_barley_store.Cart.Service.{lines_of}
use hop_and_barley_store.Cart.Service.Laws.{amount_in}
use hop_and_barley_store.Orders.Checkout.{Checkout, OrderContext, Runtime}
use hop_and_barley_store.Orders.Allocation.{PricedLine, sum_lines, allocation_outcomes}
use hop_and_barley_store.Orders.Allocation.Laws.{
  stock_of, without_stock, allocate-stock_of, allocate-without_stock,
}
use hop_and_barley_store.Orders.Service.{
  find_idempotent_order, create_stored, replay_or, same_outcome, price_order, new_order,
  order_lines, order_item,
}
use hop_and_barley_store.Orders.Service.Placed.{IsPlacedFrom, create_stored-inv}
use hop_and_barley_store.Orders.Service.Lines.{
  ordered, wanted, totals, ArePriced, ordered-map, taken-price_lines, price_lines-ArePriced,
  totals-sum_lines, wanted-sort, wanted-lines_of,
}

price_order-IsPriceOf :
    (ls : List PricedLine) {p : _}
    → price_order ls ≡ some p
    → IsPriceOf (totals (map order_item ls)) false p
unfolding price_order
price_order-IsPriceOf ls {p} h = elim (Option-cases (sum_lines 0 ls)) [
  | inl e ↦ ground (arith, e)
  | inr (sum, e) ↦
      subst (λ n. IsPriceOf n false p) (omega (arith, totals-sum_lines 0 ls e))
        (pricing-IsPriceOf sum false (ground (arith, e)))
]

find_idempotent_order-append :
    (context : OrderContext) (os : List Order) (o : Order)
    → o.user_id ≡ some context.user_id
    → o.idempotency_key ≡ context.idempotency_key
    → find_idempotent_order context os ≡ none
    → find_idempotent_order context (os ++ o ∷ []) ≡ some o
unfolding find_idempotent_order
find_idempotent_order-append context [] o u k h =
    ground (arith, u, k, eq_refl context.idempotency_key)
find_idempotent_order-append context (p ∷ ps) o u k h =
    ground (arith, find_idempotent_order-append context ps o u k)

find_cart-set_cart :
    (i : ℕ) (n : Cart) (cs : List Cart) {c : Cart}
    → n.id ≡ i
    → find_cart i cs ≡ some c
    → find_cart i (set_cart n cs) ≡ some n
unfolding find_cart set_cart
find_cart-set_cart i n [] e h = ground arith
find_cart-set_cart i n (d ∷ cs) {c} e h = ground (arith, find_cart-set_cart i n cs {c = c})

find_cart-id : (i : ℕ) (cs : List Cart) {c : Cart} → find_cart i cs ≡ some c → c.id ≡ i
unfolding find_cart
find_cart-id i [] h = ground arith
find_cart-id i (d ∷ cs) {c = c} h = ground (arith, find_cart-id i cs {c = c})

-- What the steps of `IsPlacedFrom` say of the order's items and of the products.
module _ {js : Runtime} {context : OrderContext} {checkout : Checkout}
    {request_hash now order_id : ℕ} {cart : Cart} {lines : List (Product × ℕ)} {db : Database}
    {o : Order} {db' : Database}
    (d : IsPlacedFrom js context checkout request_hash now order_id cart lines db o db') where
  items-eq : o.items ≡ map order_item d.priced
  unfolding new_order
  items-eq = ap (λ x. x.items) d.order

  products-eq : db'.products ≡ d.products
  products-eq = ap (λ x. x.products) d.tables

  placed-stock_of : (q : ℕ) → stock_of q db.products ≡ stock_of q db'.products + ordered q o.items
  placed-stock_of q =
      rw (items-eq, products-eq, ordered-map q d.priced)
        (allocate-stock_of now (allocation_outcomes js lines checkout now) q d.priced db.products
          d.allocated)

  placed-without_stock : without_stock db'.products ≡ without_stock db.products
  placed-without_stock = rw (products-eq) (
      allocate-without_stock now (allocation_outcomes js lines checkout now) d.priced db.products
        d.allocated)

  placed-IsPriceOf : IsPriceOf (totals o.items) false d.pricing × ArePriced o.items
  placed-IsPriceOf =
      rw (items-eq) (price_order-IsPriceOf d.priced d.price, price_lines-ArePriced lines d.prices)

  placed-ordered : (q : ℕ) → ordered q o.items ≡ wanted q lines
  placed-ordered q = rw (items-eq, ordered-map q d.priced) (taken-price_lines q lines d.prices)

module _ (js : Runtime) (context : OrderContext) (checkout : Checkout) (request_hash : ℕ)
    (requested_now : Option ℕ) (clock order_id : ℕ) (db : Database)
    (unseen : find_idempotent_order context db.orders ≡ none)
    (unordered : find_cart_order context.cart_id db.orders ≡ none) where
  -- An order that was placed, and not replayed, has taken from the stock of each product just what
  -- the order holds of it, and has changed nothing else of the products.
  pub create_stored-stock_of :
      {o : Order} {db' : Database}
      → create_stored js context checkout request_hash requested_now clock order_id db ≡ ok (o, db')
      → ((q : ℕ) → stock_of q db.products ≡ stock_of q db'.products + ordered q o.items)
        × (without_stock db'.products ≡ without_stock db.products)
  create_stored-stock_of h =
      let (cart, done) =
        create_stored-inv js context checkout request_hash requested_now clock order_id db unseen
          unordered h in
      (placed-stock_of done.placed, placed-without_stock done.placed)

  -- The items of an order that was placed, and not replayed, are the lines of the cart, if no two
  -- lines of the table are of one cart and one product.
  pub create_stored-ordered :
      IsKeyed db.items
      → {o : Order} {db' : Database}
      → create_stored js context checkout request_hash requested_now clock order_id db ≡ ok (o, db')
      → (q : ℕ) → ordered q o.items ≡ amount_in db context.cart_id q
  unfolding order_lines
  create_stored-ordered k h q =
      let (cart, done) =
        create_stored-inv js context checkout request_hash requested_now clock order_id db unseen
          unordered h in
      placed-ordered done.placed q
      ∙ wanted-sort (λ l r. leb l.0.id r.0.id) q (lines_of context.cart_id db.products db.items)
      ∙ wanted-lines_of context.cart_id q db.products db.items k done.known

  -- An order that was placed, and not replayed, has items each with the total that its own price,
  -- basis and amount give; its subtotal is the sum of these totals; it has no discount, and the
  -- total is the subtotal and 5 euros for the shipping, within the money bound.
  pub create_stored-totals :
      {o : Order} {db' : Database}
      → create_stored js context checkout request_hash requested_now clock order_id db ≡ ok (o, db')
      → ArePriced o.items
        × (o.item_subtotal_minor ≡ totals o.items)
        × (o.discount_minor ≡ 0)
        × (o.total_minor ≡ totals o.items + 500)
        × (o.total_minor ≤ max_money_minor)
  unfolding new_order
  create_stored-totals {o} h =
      let (cart, done) =
        create_stored-inv js context checkout request_hash requested_now clock order_id db unseen
          unordered h in
      let (price, each) = placed-IsPriceOf done.placed in
      let e = done.placed.order in
      let items = price.items in
      let shipping = price.shipping in
      let sum = price.sum in
      let bound = price.total_bound in
      let free = price.undiscounted refl in
      let a : o.item_subtotal_minor ≡ totals o.items = ap (λ x. x.item_subtotal_minor) e ∙ items in
      let b : o.discount_minor ≡ 0 = ap (λ x. x.discount_minor) e ∙ free in
      let c : o.total_minor ≡ done.placed.pricing.total_minor = ap (λ x. x.total_minor) e in
      (each, a, b, omega arith, omega arith)

  -- After an order was placed, and not replayed, its cart stands with no user and no lines; the lines
  -- of the other carts and the users are as they were, and the order is the only new one.
  pub create_stored_detaches :
      {o : Order} {db' : Database}
      → create_stored js context checkout request_hash requested_now clock order_id db ≡ ok (o, db')
      → (cart : Cart) × (find_cart context.cart_id db.carts ≡ some cart)
        × (find_cart context.cart_id db'.carts ≡ some (record cart { user_id = none }))
        × ((d q : ℕ)
            → amount_of d q db'.items
              ≡ (if context.cart_id == d then none else amount_of d q db.items))
        × (db'.orders ≡ db.orders ++ o ∷ [])
        × (db'.users ≡ db.users)
  create_stored_detaches {o} {db'} h =
      let (cart, done) =
        create_stored-inv js context checkout request_hash requested_now clock order_id db unseen
          unordered h in
      let e = done.placed.tables in
      let same = find_cart-id context.cart_id db.carts done.found in
      (
        cart,
        done.found,
        ap (λ x. find_cart context.cart_id x.carts) e
            ∙ find_cart-set_cart context.cart_id (record cart { user_id = none }) db.carts same
                done.found,
        λ d q.
            ap (λ x. amount_of d q x.items) e
            ∙ amount_of-delete_cart_items context.cart_id d q db.items,
        ap (λ x. x.orders) e,
        ap (λ x. x.users) e,
      )

  -- An order that was placed, and not replayed, is what a repeated call returns, at any time and
  -- with nothing changed, if it is of the same digest; with another digest it is refused.
  pub create_stored_replays :
      {o : Order} {db' : Database}
      → create_stored js context checkout request_hash requested_now clock order_id db ≡ ok (o, db')
      → (again : Checkout) (hash : ℕ) (time : Option ℕ) (later fresh_id : ℕ)
      → create_stored js context again hash time later fresh_id db'
        ≡ (if request_hash == hash then ok (o, db') else err idempotency_conflict)
  unfolding create_stored same_outcome replay_or new_order
  create_stored_replays {o} {db'} h again hash time later fresh_id =
      let (cart, done) =
        create_stored-inv js context checkout request_hash requested_now clock order_id db unseen
          unordered h in
      let e = done.placed.order in
      let u : o.user_id ≡ some context.user_id = ap (λ x. x.user_id) e in
      let k : o.idempotency_key ≡ context.idempotency_key = ap (λ x. x.idempotency_key) e in
      let r : o.request_hash ≡ request_hash = ap (λ x. x.request_hash) e in
      let orders : db'.orders ≡ db.orders ++ o ∷ [] = ap (λ x. x.orders) done.placed.tables in
      let seen : find_idempotent_order context db'.orders ≡ some o =
        ap (find_idempotent_order context) orders
        ∙ find_idempotent_order-append context db.orders o u k unseen in
      ground (arith, seen, r)
