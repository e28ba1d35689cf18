-- ===== src/Cart/Invariant.antt =====
-- What holds of the carts in every history of calls of the cart service.
pub mod Lookups
pub mod Writes
pub mod Preserved
use hop_and_barley_store.Prelude.{ℕ, ◌≤◌, ◌≡◌, true, List, [], ◌∷◌, some, none}
use hop_and_barley_store.Catalog.Amount.{is_valid_order_amount}
use hop_and_barley_store.Catalog.Product.{Product}
use hop_and_barley_store.Store.{Database, find_product}
use hop_and_barley_store.Store.Items.{amount_of, count_items}
use hop_and_barley_store.Store.Items.Laws.{IsKeyed}
use hop_and_barley_store.Cart.Service.{max_distinct_items}

-- The primary key of "Product".
abbrev pub HasIds : List Product → Type 0
HasIds [] = Unit {0}
HasIds (p ∷ ps) = (find_product p.id ps ≡ none) × HasIds ps

-- The product exists and may be ordered in the amount.
abbrev pub IsOrderable : List Product → ℕ → ℕ → Type 0
IsOrderable products product_id amount =
    (p : Product) × (find_product product_id products ≡ some p)
    × (is_valid_order_amount amount p.rules ≡ true)

-- No cart has two lines of one product or more than 50 lines, and every line is of a product that
-- exists and in an amount that may be ordered.
pub record CartsOk (db : Database) : Type 0 where
  pub ids : HasIds db.products
  pub keyed : IsKeyed db.items
  pub bounded : (c : ℕ) → count_items c db.items ≤ max_distinct_items
  pub orderable : (c p a : ℕ) → amount_of c p db.items ≡ some a → IsOrderable db.products p a
