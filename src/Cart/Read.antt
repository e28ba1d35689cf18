-- ===== src/Cart/Read.antt =====
-- The operations of apps/api/src/cart/cart.service.ts that only read: `getCart` and
-- `checkoutReadiness`.
pub mod Laws
use hop_and_barley_store.Prelude.{
  ℕ, Bool, true, false, ◌&&◌, ◌||◌, List, [], ◌∷◌, map, ltb, Option, none, some, if◌then◌else◌,
}
use hop_and_barley_store.Catalog.Product.{Product}
use hop_and_barley_store.Cart.Readiness.{
  Outcome, available, CheckoutReadinessLine, checkout_line_outcome,
}
use hop_and_barley_store.Cart.Dto.{CartDto, to_cart_dto}
use hop_and_barley_store.Store.{Database, Cart, find_cart}
use hop_and_barley_store.Store.Transaction.{Result, ok, err, unauthorized}
use hop_and_barley_store.Cart.Service.{ActiveCartAccess, cart_of, is_account, load_cart}

-- `findFirst({ where: { id, expiresAt: { gt: now } } })`, without the date for an account.
unfoldable pub is_readable : ActiveCartAccess → ℕ → Option Cart → Bool
is_readable access now none = false
is_readable access now (some cart) = is_account access || ltb now cart.expires_at

unfoldable pub get_cart : ActiveCartAccess → ℕ → Database → Result CartDto
get_cart access now db =
    if is_readable access now (find_cart (cart_of access) db.carts)
    then ok (to_cart_dto (load_cart (cart_of access) db) now)
    else err unauthorized

pub data ReadinessStatus : Type 0 where
  ready empty unavailable : ReadinessStatus

pub record CheckoutReadiness : Type 0 where
  pub checked_at : ℕ
  pub lines : List CheckoutReadinessLine
  pub status : ReadinessStatus

unfoldable pub readiness_line : ℕ → Product × ℕ → CheckoutReadinessLine
readiness_line now (product, amount) = record {
  outcome = checkout_line_outcome (some product) amount now;
  product_slug = product.slug;
  requested_amount = amount;
}

abbrev pub is_available : Outcome → Bool
is_available available = true
is_available _ = false

unfoldable pub all_available : List CheckoutReadinessLine → Bool
all_available [] = true
all_available (line ∷ lines) = is_available line.outcome && all_available lines

unfoldable pub status_of : List CheckoutReadinessLine → ReadinessStatus
status_of [] = empty
status_of (line ∷ lines) = if all_available (line ∷ lines) then ready else unavailable

unfoldable pub checkout_readiness : ActiveCartAccess → ℕ → Database → Result CheckoutReadiness
checkout_readiness access now db =
    let lines = map (readiness_line now) (load_cart (cart_of access) db) in
    if is_readable access now (find_cart (cart_of access) db.carts)
    then ok (record { checked_at = now; lines = lines; status = status_of lines })
    else err unauthorized
