-- ===== src/Orders/Service/Placed.antt =====
-- What a call that placed an order has done, step by step.
use hop_and_barley_store.Prelude.{
  ℕ, ◌≡◌, true, false, List, [], ◌∷◌, ◌++◌, Option, none, some, arith, inl, inr, Option-cases, leb,
  ◌&&◌,
}
use hop_and_barley_store.Catalog.Amount.{or_else}
use hop_and_barley_store.Catalog.Product.{Product}
use hop_and_barley_store.Checkout.Pricing.{CheckoutPricing}
use hop_and_barley_store.Cart.Read.{all_available}
use hop_and_barley_store.Store.{
  Database, Cart, Order, set_cart, find_cart, find_cart_order, is_null,
}
use hop_and_barley_store.Store.Items.{items_of, delete_cart_items}
use hop_and_barley_store.Store.Transaction.{ok, Result-cases}
use hop_and_barley_store.Orders.Checkout.{Checkout, OrderContext, Runtime}
use hop_and_barley_store.Orders.Allocation.{PricedLine, allocation_outcomes, price_lines, allocate}
use hop_and_barley_store.Orders.Service.{
  find_idempotent_order, lock_active_user, lock_cart, may_use, is_empty, all_known, replay_or,
  place_order, place_in_cart, create_stored, new_order, price_order, take_stock, commit_order,
  place_lines, order_lines,
}

module _ (js : Runtime) (context : OrderContext) (checkout : Checkout)
    (request_hash now order_id : ℕ) where
  -- The order `o` was placed from `lines` and took the tables from `db` to `db'`.
  pub record IsPlacedFrom (cart : Cart) (lines : List (Product × ℕ)) (db : Database) (o : Order)
      (db' : Database) : Type 0 where
    pub priced : List PricedLine
    pub pricing : CheckoutPricing
    pub products : List Product
    pub outcomes : all_available (allocation_outcomes js lines checkout now) ≡ true
    pub prices : price_lines lines ≡ some priced
    pub price : price_order priced ≡ some pricing
    pub allocated :
        allocate now (allocation_outcomes js lines checkout now) priced db.products
        ≡ ok (tt, products)
    pub order : o ≡ new_order context checkout request_hash now order_id pricing priced
    pub tables : db' ≡ record db {
      carts = set_cart (record cart { user_id = none }) db.carts;
      items = delete_cart_items context.cart_id db.items;
      products = products;
      orders = db.orders ++ o ∷ [];
    }

  pub place_lines-inv :
      (cart : Cart) (lines : List (Product × ℕ)) (db : Database) {o : Order} {db' : Database}
      → place_lines js context checkout request_hash now order_id cart lines db ≡ ok (o, db')
      → IsPlacedFrom cart lines db o db'
  unfolding place_lines take_stock commit_order new_order
  place_lines-inv cart lines db {o} {db'} h = elim (Option-cases (price_lines lines)) [
    | inl e ↦ ground (arith, e)
    | inr (priced, prices) ↦ elim (Option-cases (price_order priced)) [
      | inl e ↦ ground (arith, e)
      | inr (pricing, price) ↦
          elim (Result-cases
            (allocate now (allocation_outcomes js lines checkout now) priced db.products)) [
              | inr (x, e) ↦ ground (arith, e)
              | inl (_, products, allocated) ↦ record {
                priced = priced;
                pricing = pricing;
                products = products;
                outcomes = ground arith;
                prices = prices;
                price = price;
                allocated = allocated;
                order = ground arith;
                tables = ground arith;
              }
            ]
    ]
  ]

  -- With no order to replay, a successful call has placed one from the lines of the cart, which is
  -- free or the user's own, and not expired if it is free.
  pub record IsPlacedIn (cart : Cart) (db : Database) (o : Order) (db' : Database) : Type 0 where
    pub found : find_cart context.cart_id db.carts ≡ some cart
    pub usable : may_use context.user_id cart.user_id ≡ true
    pub alive : (is_null cart.user_id && leb cart.expires_at now) ≡ false
    pub not_empty : is_empty (items_of context.cart_id db.items) ≡ false
    pub known : all_known db.products (items_of context.cart_id db.items) ≡ true
    pub placed : IsPlacedFrom cart (order_lines context.cart_id db) db o db'

  place_order-inv :
      (cart : Cart) (db : Database) {o : Order} {db' : Database}
      → find_cart context.cart_id db.carts ≡ some cart
      → may_use context.user_id cart.user_id ≡ true
      → place_order js context checkout request_hash now order_id cart db ≡ ok (o, db')
      → IsPlacedIn cart db o db'
  unfolding place_order
  place_order-inv cart db {o} {db'} found usable h = record {
    found = found;
    usable = usable;
    alive = ground arith;
    not_empty = ground arith;
    known = ground arith;
    placed = place_lines-inv cart (order_lines context.cart_id db) db (ground arith);
  }

pub lock_active_user-same :
    (user_id : ℕ) (db : Database) {u : Unit {0}} {db' : Database}
    → lock_active_user user_id db ≡ ok (u, db')
    → db' ≡ db
unfolding lock_active_user
lock_active_user-same user_id db h = ground arith

module _ (js : Runtime) (context : OrderContext) (checkout : Checkout) (request_hash : ℕ)
    (requested_now : Option ℕ) (clock order_id : ℕ) (db : Database) where
  place_in_cart-inv :
      {o : Order} {db' : Database}
      → find_cart_order context.cart_id db.orders ≡ none
      → place_in_cart js context checkout request_hash requested_now clock order_id db ≡ ok (o, db')
      → (cart : Cart) × IsPlacedIn js context checkout request_hash
          (or_else requested_now clock)
          order_id
          cart
          db
          o
          db'
  unfolding place_in_cart lock_cart replay_or
  place_in_cart-inv {o} {db'} unordered h =
      elim (Option-cases (find_cart context.cart_id db.carts)) [
        | inl e ↦ absurd (ground (arith, e))
        | inr (cart, e) ↦ (
          cart,
          place_order-inv js context checkout request_hash (or_else requested_now clock) order_id
              cart db e (ground (arith, e)) (ground (arith, e)),
        )
      ]

  pub create_stored-inv :
      {o : Order} {db' : Database}
      → find_idempotent_order context db.orders ≡ none
      → find_cart_order context.cart_id db.orders ≡ none
      → create_stored js context checkout request_hash requested_now clock order_id db ≡ ok (o, db')
      → (cart : Cart) × IsPlacedIn js context checkout request_hash
          (or_else requested_now clock)
          order_id
          cart
          db
          o
          db'
  unfolding create_stored replay_or
  create_stored-inv {o} {db'} unseen unordered h =
      elim (Result-cases (lock_active_user context.user_id db)) [
        | inr (x, e) ↦ absurd (ground (arith, e))
        | inl (u, db1, e) ↦
            place_in_cart-inv unordered
              (ground (arith, e, lock_active_user-same context.user_id db e))
      ]
