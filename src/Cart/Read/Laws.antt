-- ===== src/Cart/Read/Laws.antt =====
-- When a cart is reported ready for checkout.
use hop_and_barley_store.Prelude.{
  ℕ, ◌≡◌, ◌≢◌, ◌↔◌, refl, true, List, [], ◌∷◌, map, some, arith, All,
}
use hop_and_barley_store.Catalog.Product.{Product}
use hop_and_barley_store.Cart.Readiness.{Outcome, available, checkout_line_outcome}
use hop_and_barley_store.Cart.Readiness.Laws.{IsBuyable, available-IsBuyable, IsBuyable-available}
use hop_and_barley_store.Store.{Database}
use hop_and_barley_store.Store.Transaction.{ok}
use hop_and_barley_store.Cart.Service.{ActiveCartAccess, cart_of, load_cart}
use hop_and_barley_store.Cart.Read.{
  CheckoutReadiness, ready, readiness_line, all_available, status_of, checkout_readiness,
  is_available,
}

is_available_iff : (o : Outcome) → (is_available o ≡ true) ↔ (o ≡ available)
is_available_iff o = ground arith

all_available_iff :
    (now : ℕ) (lines : List (Product × ℕ))
    → (all_available (map (readiness_line now) lines) ≡ true)
      ↔ All (λ l. IsBuyable l.0 l.1 now) lines
unfolding all_available readiness_line
all_available_iff now [] = (λ e. tt, λ t. refl)
all_available_iff now ((p, n) ∷ lines) =
    let (to, from) = all_available_iff now lines in
    let (seen, shown) = is_available_iff (checkout_line_outcome (some p) n now) in
    (
      λ e. (available-IsBuyable p n now (seen (ground arith)), to (ground arith)),
      λ (b, bs). ground (arith, shown (IsBuyable-available p n now b), from bs),
    )

status_of_iff :
    (now : ℕ) (lines : List (Product × ℕ))
    → (status_of (map (readiness_line now) lines) ≡ ready)
      ↔ ((lines ≢ []) × All (λ l. IsBuyable l.0 l.1 now) lines)
unfolding status_of
status_of_iff now [] = (λ e. cc, λ (ne, _). absurd (ne refl))
status_of_iff now (l ∷ lines) =
    let (to, from) = all_available_iff now (l ∷ lines) in
    (λ e. (λ n. cc, to (ground arith)), λ (_, b). ground (arith, from b))

-- A readiness check that answers says `ready` exactly when the cart has a line and every line can
-- be bought at that moment: on sale in euros, an amount that may be ordered, a price, and stock.
pub ready_iff :
    (access : ActiveCartAccess) (now : ℕ) (db : Database) {r : CheckoutReadiness}
    → checkout_readiness access now db ≡ ok r
    → (r.status ≡ ready) ↔ (
        (load_cart (cart_of access) db ≢ [])
        × All (λ l. IsBuyable l.0 l.1 now) (load_cart (cart_of access) db))
unfolding checkout_readiness
ready_iff access now db {r} h =
    let shown : r.status ≡ status_of (map (readiness_line now) (load_cart (cart_of access) db)) =
      ground arith in
    rw shown (status_of_iff now (load_cart (cart_of access) db))
