-- ===== src/Tests/Ordering.antt =====
-- An order placed from Ann's cart, and the changes of its status.
use hop_and_barley_store.Prelude.{
  ℕ, map, ◌+◌, ◌≤◌, ◌≡◌, refl, true, false, ◌==◌, if◌then◌else◌, Option, none, some, ◌∷◌, [], ◌++◌,
  ◌↔◌, ◌⊎◌, inl, inr, List, length, arith, String,
}
use hop_and_barley_store.Catalog.Amount.{max_money_minor}
use hop_and_barley_store.Store.{
  Database, Cart as CartRow, Order, find_cart, find_cart_order, delivered, placed, shipped,
  cancelled,
}
use hop_and_barley_store.Store.Items.{amount_of}
use hop_and_barley_store.Store.Items.Laws.{IsKeyed}
use hop_and_barley_store.Store.Transaction.{ok, err, idempotency_conflict}
use hop_and_barley_store.Cart.Service.Laws.{amount_in}
use hop_and_barley_store.Orders.Checkout.{
  Checkout, OrderContext, Runtime, cash_on_delivery, canonical_checkout, fingerprint,
}
use hop_and_barley_store.Orders.Allocation.{PricedLine, price_lines}
use hop_and_barley_store.Orders.Allocation.Laws.{stock_of, without_stock}
use hop_and_barley_store.Orders.Service.{
  order_lines, order_item, find_idempotent_order, create_stored, create, OrderDto, new_order, eur,
  due,
}
use hop_and_barley_store.Orders.Service.Lines.{ordered, totals, ArePriced}
use hop_and_barley_store.Orders.Service.Laws.{
  create_stored-stock_of, create_stored-ordered, create_stored-totals, create_stored_detaches,
  create_stored_replays,
}
use hop_and_barley_store.Orders.Service.Accepts.Placing.{CanPlace, create_stored_succeeds}
use hop_and_barley_store.Orders.Service.Replay.{create_again}
use hop_and_barley_store.Tests.{ann, shop, tea, hops, guest_cart, ann_cart, line}
use hop_and_barley_store.Prelude
use hop_and_barley_store.Catalog
use hop_and_barley_store.Checkout
use hop_and_barley_store.Cart
use hop_and_barley_store.Store
use hop_and_barley_store.Orders

runs : Unit {0}
unfolding Orders.Service.create Orders.Service.create_stored Orders.Service.place_in_cart
    Orders.Service.place_order Orders.Service.place_lines Orders.Service.commit_order
    Orders.Service.take_stock Orders.Service.price_order Orders.Service.new_order
    Orders.Service.order_item Orders.Service.order_lines Orders.Service.all_known
    Orders.Service.lock_cart Orders.Service.lock_active_user Orders.Service.replay_or
    Orders.Service.find_idempotent_order Orders.Service.to_order_dto
    Orders.Service.require_order_currency Orders.Checkout.canonical_checkout
    Orders.Checkout.fingerprint Orders.Allocation.requested_by_slug Orders.Allocation.request_count
    Orders.Allocation.in_cart Orders.Allocation.line_outcome Orders.Allocation.unknown_outcomes
    Orders.Allocation.allocation_outcomes Orders.Allocation.price_lines Orders.Allocation.sum_lines
    Orders.Allocation.decrement_stock Orders.Allocation.allocate Prelude.Sort.sort
    Prelude.Sort.sort_insert Cart.Service.lines_of Cart.Readiness.checkout_line_outcome
    Cart.Readiness.is_sold Cart.Read.all_available Catalog.Amount.is_public_product_eligible
    Catalog.Amount.is_valid_order_amount Catalog.Amount.calculate_line_total_minor
    Catalog.Amount.add_money_minor Checkout.Pricing.calculate_checkout_pricing
    Checkout.Pricing.discount_of Store.find_user Store.find_cart Store.find_product
    Store.find_cart_order Store.set_cart Store.Items.items_of Store.Items.delete_cart_items
    Store.Items.amount_of
runs = tt

-- A runtime that finds nothing to trim.
abbrev js : Runtime
js = record { trim = λ s. s; locale_le = λ l r. true; sha256 = λ f. f.cart_id }

abbrev context : OrderContext
context = record { cart_id = 2; idempotency_key = "key"; user_id = 7 }

abbrev checkout : Checkout
checkout = record {
  city = "Bonn";
  full_name = "Ann";
  items =
      record { product_slug = "hops"; amount = 300_000 }
      ∷ record { product_slug = "tea"; amount = 2 }
      ∷ [];
  payment_method = cash_on_delivery;
  phone_number = "1";
  shipping_address = "Street 1";
}

abbrev tea_line : PricedLine
tea_line = record { product = tea; amount = 2; line_total_minor = 500 }

abbrev hops_line : PricedLine
hops_line = record { product = hops; amount = 300_000; line_total_minor = 390 }

-- 5.00 euros of tea, 3.90 of hops and 5.00 of shipping.
abbrev order : Order
order =
    new_order context checkout 2 50 40
      (record {
        discount_basis_points = 0;
        discount_minor = 0;
        discount_policy_version = "no-discount-v1";
        item_subtotal_minor = 890;
        shipping_minor = 500;
        total_minor = 1_390;
      })
      (tea_line ∷ hops_line ∷ [])

abbrev ordered_shop : Database
ordered_shop = record shop {
  carts = guest_cart ∷ record ann_cart { user_id = none } ∷ [];
  items = line 1 1 4 ∷ [];
  products = record tea { stock_amount = 8 } ∷ record hops { stock_amount = 600_000 } ∷ [];
  orders = order ∷ [];
}

placed_run : create_stored js context checkout 2 none 50 40 shop ≡ ok (order, ordered_shop)
unfolding runs
placed_run = refl

unseen : find_idempotent_order context shop.orders ≡ none
unfolding runs
unseen = refl

unordered : find_cart_order 2 shop.orders ≡ none
unfolding runs
unordered = refl

shop-IsKeyed : IsKeyed shop.items
unfolding runs
shop-IsKeyed = (refl, (refl, (refl, tt)))

create_stored-stock_of_example :
    ((q : ℕ) → stock_of q shop.products ≡ stock_of q ordered_shop.products + ordered q order.items)
    × (without_stock ordered_shop.products ≡ without_stock shop.products)
create_stored-stock_of_example =
    create_stored-stock_of js context checkout 2 none 50 40 shop unseen unordered placed_run

create_stored-ordered_example : ordered 2 order.items ≡ amount_in shop 2 2
create_stored-ordered_example =
    create_stored-ordered js context checkout 2 none 50 40 shop unseen unordered shop-IsKeyed
      placed_run 2

create_stored-totals_example :
    ArePriced order.items
    × (order.item_subtotal_minor ≡ totals order.items)
    × (order.discount_minor ≡ 0)
    × (order.total_minor ≡ totals order.items + 500)
    × (order.total_minor ≤ max_money_minor)
create_stored-totals_example =
    create_stored-totals js context checkout 2 none 50 40 shop unseen unordered placed_run

create_stored_detaches_example :
    (cart : CartRow) × (find_cart 2 shop.carts ≡ some cart)
    × (find_cart 2 ordered_shop.carts ≡ some (record cart { user_id = none }))
    × ((d q : ℕ)
        → amount_of d q ordered_shop.items ≡ (if 2 == d then none else amount_of d q shop.items))
    × (ordered_shop.orders ≡ shop.orders ++ order ∷ [])
    × (ordered_shop.users ≡ shop.users)
create_stored_detaches_example =
    create_stored_detaches js context checkout 2 none 50 40 shop unseen unordered placed_run

-- The same key with the digest 3 of another request.
create_stored_replays_example :
    create_stored js context checkout 3 none 60 41 ordered_shop
    ≡ (if 2 == 3 then ok (order, ordered_shop) else err idempotency_conflict)
create_stored_replays_example =
    create_stored_replays js context checkout 2 none 50 40 shop unseen unordered placed_run checkout
      3 none 60 41

abbrev dto : OrderDto
dto = record { order = order; currency = eur; payment_state = due }

created_run : create js context checkout none 50 40 shop ≡ ok (dto, ordered_shop)
unfolding runs
created_run = refl

create_again_example :
    create js context checkout (some 70) 60 41 ordered_shop ≡ ok (dto, ordered_shop)
create_again_example = create_again js context checkout none (some 70) 50 60 40 41 shop created_run

lines_priced : price_lines (order_lines 2 shop) ≡ some (tea_line ∷ hops_line ∷ [])
unfolding runs
lines_priced = refl

total_of_lines : totals (map order_item (tea_line ∷ hops_line ∷ [])) ≡ 890
unfolding runs
total_of_lines = refl

affordable :
    (priced : List PricedLine)
    → price_lines (order_lines 2 shop) ≡ some priced
    → totals (map order_item priced) + 500 ≤ max_money_minor
affordable priced h = ground (arith, h, lines_priced, total_of_lines)

ann-CanPlace : CanPlace js context checkout 50 shop
unfolding runs
ann-CanPlace = record {
  user = ann;
  user_found = refl;
  user_active = refl;
  cart = ann_cart;
  cart_found = refl;
  usable = refl;
  alive = refl;
  not_empty = refl;
  known = refl;
  buyable = refl;
  affordable = affordable;
}

create_stored_succeeds_example :
    (o : Order) × (db' : Database) × (create_stored js context checkout 2 none 50 40 shop
      ≡ ok (o, db'))
create_stored_succeeds_example =
    create_stored_succeeds js context checkout 2 none 50 40 shop unseen unordered shop-IsKeyed
      ann-CanPlace
