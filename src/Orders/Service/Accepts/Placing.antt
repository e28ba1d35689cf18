-- ===== src/Orders/Service/Accepts/Placing.antt =====
-- An order is placed when every line of the cart can be bought and the request is of these lines.
use hop_and_barley_store.Prelude.{
  ℕ, ◌+◌, ◌≤◌, ◌≡◌, true, false, ◌&&◌, leb, List, [], ◌∷◌, map, Option, none, some, arith, inl, inr,
  Option-cases, All,
}
use hop_and_barley_store.Catalog.Amount.{or_else, max_money_minor, add_money_minor}
use hop_and_barley_store.Checkout.Pricing.{CheckoutPricing}
use hop_and_barley_store.Checkout.Pricing.Laws.{pricing_fails_iff}
use hop_and_barley_store.Cart.Read.{all_available}
use hop_and_barley_store.Cart.Service.{is_active, lines_of}
use hop_and_barley_store.Store.{
  Database, User, Cart, Order, find_user, find_cart, find_cart_order, is_null,
}
use hop_and_barley_store.Store.Items.{items_of}
use hop_and_barley_store.Store.Items.Laws.{IsKeyed}
use hop_and_barley_store.Store.Transaction.{ok, Result-cases}
use hop_and_barley_store.Orders.Checkout.{Checkout, OrderContext, Runtime}
use hop_and_barley_store.Orders.Allocation.{PricedLine, price_lines, sum_lines, allocation_outcomes}
use hop_and_barley_store.Orders.Service.{
  find_idempotent_order, replay_or, lock_active_user, lock_cart, may_use, is_empty, all_known,
  order_lines, price_order, take_stock, commit_order, place_lines, place_order, place_in_cart,
  create_stored, order_item,
}
use hop_and_barley_store.Orders.Service.Lines.{totals}
use hop_and_barley_store.Orders.Service.Accepts.Lines.{outcomes-AreBuyable, price_lines_succeeds}
use hop_and_barley_store.Orders.Service.Accepts.Stock.{
  All-sort, sort-AreDistinct, lines_of-IsListed, lines_of-AreDistinct, IsListed, AreDistinct,
  allocate_succeeds, listed-AreInStock,
}

sum_lines_succeeds :
    (subtotal : ℕ) (ls : List PricedLine)
    → subtotal + totals (map order_item ls) ≤ max_money_minor
    → sum_lines subtotal ls ≡ some (subtotal + totals (map order_item ls))
unfolding sum_lines order_item add_money_minor
sum_lines_succeeds subtotal [] h = ground arith
sum_lines_succeeds subtotal (l ∷ ls) h =
    ground (arith, sum_lines_succeeds (subtotal + l.line_total_minor) ls)

price_order_succeeds :
    (ls : List PricedLine)
    → totals (map order_item ls) + 500 ≤ max_money_minor
    → (pricing : CheckoutPricing) × (price_order ls ≡ some pricing)
unfolding price_order
price_order_succeeds ls h = elim (Option-cases (price_order ls)) [
  | inr (pricing, e) ↦ (pricing, e)
  | inl e ↦ absurd (
      ground (
        arith,
        e,
        sum_lines_succeeds 0 ls (omega arith),
        pricing_fails_iff (totals (map order_item ls)) false,
      ))
]

-- The user may place an order of the cart at `now`: the user is active, the cart is free and not
-- expired or the user's own, every line can be bought and the request is of just these lines, and
-- the sum to pay is within the money bound.
pub record CanPlace (js : Runtime) (context : OrderContext) (checkout : Checkout) (now : ℕ)
    (db : Database) : Type 0 where
  pub user : User
  pub user_found : find_user context.user_id db.users ≡ some user
  pub user_active : is_active user.status ≡ true
  pub cart : Cart
  pub cart_found : find_cart context.cart_id db.carts ≡ some cart
  pub usable : may_use context.user_id cart.user_id ≡ true
  pub alive : (is_null cart.user_id && leb cart.expires_at now) ≡ false
  pub not_empty : is_empty (items_of context.cart_id db.items) ≡ false
  pub known : all_known db.products (items_of context.cart_id db.items) ≡ true
  pub buyable :
      all_available (allocation_outcomes js (order_lines context.cart_id db) checkout now) ≡ true
  pub affordable :
      (priced : List PricedLine)
      → price_lines (order_lines context.cart_id db) ≡ some priced
      → totals (map order_item priced) + 500 ≤ max_money_minor

order_lines-AreDistinct :
    (c : ℕ) (db : Database) → IsKeyed db.items → AreDistinct (order_lines c db)
unfolding order_lines
order_lines-AreDistinct c db k =
    sort-AreDistinct (λ l r. leb l.0.id r.0.id) (lines_of c db.products db.items)
      (lines_of-AreDistinct c db.products db.items k)

order_lines-IsListed : (c : ℕ) (db : Database) → All (IsListed db.products) (order_lines c db)
unfolding order_lines
order_lines-IsListed c db =
    All-sort (IsListed db.products) (λ l r. leb l.0.id r.0.id) (lines_of c db.products db.items)
      (lines_of-IsListed c db.products db.items)

module _ (js : Runtime) (context : OrderContext) (checkout : Checkout)
    (request_hash now order_id : ℕ) (db : Database) (keyed : IsKeyed db.items)
    (can : CanPlace js context checkout now db) where
  place_lines_succeeds :
      (o : Order) × (db' : Database) × (place_lines js context checkout request_hash now order_id
          can.cart
          (order_lines context.cart_id db)
          db
        ≡ ok (o, db'))
  unfolding place_lines take_stock commit_order
  place_lines_succeeds =
      let lines = order_lines context.cart_id db in
      let outcomes = allocation_outcomes js lines checkout now in
      let buyable = outcomes-AreBuyable js lines checkout now can.buyable in
      let (priced, prices) = price_lines_succeeds now lines buyable in
      let (pricing, price) = price_order_succeeds priced (can.affordable priced prices) in
      let (products, allocated) =
        allocate_succeeds now outcomes lines priced db.products prices
          (order_lines-AreDistinct context.cart_id db keyed)
          (listed-AreInStock now db.products lines (order_lines-IsListed context.cart_id db)
            buyable) in
      elim (Result-cases
        (place_lines js context checkout request_hash now order_id can.cart lines db)) [
          | inl (o, db', e) ↦ (o, db', e)
          | inr (x, e) ↦ absurd (ground (arith, e, can.buyable, prices, price, allocated))
        ]

  place_order_succeeds :
      (o : Order) × (db' : Database) × (place_order js context checkout request_hash now order_id
          can.cart db
        ≡ ok (o, db'))
  unfolding place_order
  place_order_succeeds =
      let (o, db', placed) = place_lines_succeeds in
      (o, db', ground (arith, can.alive, can.not_empty, can.known, placed))

-- A first call of a user who may place an order of the cart places one, if no two lines of the table
-- are of one cart and one product.
pub create_stored_succeeds :
    (js : Runtime) (context : OrderContext) (checkout : Checkout) (request_hash : ℕ)
    (requested_now : Option ℕ) (clock order_id : ℕ) (db : Database)
    → find_idempotent_order context db.orders ≡ none
    → find_cart_order context.cart_id db.orders ≡ none
    → IsKeyed db.items
    → CanPlace js context checkout (or_else requested_now clock) db
    → (o : Order) × (db' : Database) × (create_stored js context checkout request_hash requested_now
          clock order_id db
        ≡ ok (o, db'))
unfolding create_stored place_in_cart lock_active_user lock_cart replay_or
create_stored_succeeds js context checkout request_hash requested_now clock order_id db unseen
      unordered keyed can =
    let (o, db', placed) =
      place_order_succeeds js context checkout request_hash (or_else requested_now clock) order_id
        db keyed can in
    (
      o,
      db',
      ground (
        arith, unseen, unordered, can.user_found, can.user_active, can.cart_found, can.usable,
        placed,
      ),
    )
