-- ===== src/Tests.antt =====
-- A small shop on which the tests below run the model.
mod Prices
mod Carts
mod Ordering
mod Access
mod Retrying
mod Paying
use hop_and_barley_store.Prelude.{ℕ, true, List, [], ◌∷◌, none, some}
use hop_and_barley_store.Catalog.Amount.{packaged, weight}
use hop_and_barley_store.Catalog.Product.{Product, each, milligram}
use hop_and_barley_store.Store.{
  Database, User, active, Cart as CartRow, Order, cancelled, stripe_debit_card, withdrawn,
  no_discount,
}
use hop_and_barley_store.Store.Items.{CartItem}

abbrev pub tea : Product
tea = record {
  id = 1;
  slug = "tea";
  currency = "EUR";
  price_minor = 250;
  price_basis_amount = 1;
  stock_amount = 10;
  rules = record {
    maximum_order_amount = none;
    minimum_order_amount = 1;
    order_step_amount = 1;
    sale_kind = packaged;
  };
  eligibility = record { active_from = none; active_until = none; is_active = true };
  details = record {
    amount_unit = each;
    image_path = "/tea.webp";
    kit_yield_volume_ml = none;
    name = "Tea";
    package_net_weight_mg = some 50_000;
    price_qualifier = "per pack";
  };
}

abbrev pub hops : Product
hops = record tea {
  id = 2;
  slug = "hops";
  price_minor = 1_299;
  price_basis_amount = 1_000_000;
  stock_amount = 900_000;
  rules = record {
    maximum_order_amount = none;
    minimum_order_amount = 100_000;
    order_step_amount = 100_000;
    sale_kind = weight;
  };
}

abbrev pub ann : User
ann = record { id = 7; status = active }

-- A guest's cart, which expires at 1_000.
abbrev pub guest_cart : CartRow
guest_cart = record { id = 1; token_digest = 11; user_id = none; expires_at = 1_000 }

abbrev pub ann_cart : CartRow
ann_cart = record { id = 2; token_digest = 22; user_id = some 7; expires_at = 2_000 }

abbrev pub line : ℕ → ℕ → ℕ → CartItem
line cart_id product_id amount = record {
  cart_id = cart_id;
  product_id = product_id;
  amount = amount;
}

abbrev pub shop : Database
shop = record {
  users = ann ∷ [];
  carts = guest_cart ∷ ann_cart ∷ [];
  items = line 1 1 4 ∷ line 2 2 300_000 ∷ line 2 1 2 ∷ [];
  products = tea ∷ hops ∷ [];
  orders = [];
}

-- An order of the guest's cart that was cancelled.
abbrev pub cancelled_order : Order
cancelled_order = record {
  id = 31;
  user_id = none;
  cart_id = 1;
  payment_attempt_id = none;
  idempotency_key = "old";
  request_hash = 5;
  status = cancelled;
  payment_method = stripe_debit_card;
  payment_state = withdrawn;
  provider_payment_reference = none;
  currency = "EUR";
  item_subtotal_minor = 1_000;
  discount_kind = no_discount;
  discount_basis_points = 0;
  discount_minor = 0;
  discount_policy_version = "no-discount-v1";
  shipping_minor = 500;
  total_minor = 1_500;
  shipping = record {
    city = "Bonn";
    full_name = "Ann";
    phone_number = "1";
    shipping_address = "Street 1";
  };
  placed_at = 1;
  paid_at = none;
  items = [];
}
