-- ===== src/Store.antt =====
-- The tables of apps/api/prisma/schema.prisma that the cart and the orders read and write, and a
-- transaction over them. A table is the list of its rows, the oldest first, which is the order
-- `createdAt`, `id` in which the code reads cart items; the columns `createdAt` and `updatedAt`,
-- which it never reads, are left out. An id is a UUID, a number; a digest is a number.
pub mod Items
pub mod Transaction
pub mod Thrown
pub mod Retry
use hop_and_barley_store.Prelude.{
  ℕ, Bool, true, false, ◌||◌, List, [], ◌∷◌, ◌==◌, Option, none, some, String, if◌then◌else◌,
}
use text.Mathlib.Text.{◌==◌ as str_eq}
use hop_and_barley_store.Catalog.Product.{Product, AmountUnit}
use hop_and_barley_store.Catalog.Amount.{SaleKind}
use Items.{CartItem}

pub data UserStatus : Type 0 where
  active disabled : UserStatus

pub record User : Type 0 where
  pub id : ℕ
  pub status : UserStatus

pub record Cart : Type 0 where
  pub id : ℕ
  pub token_digest : ℕ
  pub user_id : Option ℕ
  pub expires_at : ℕ

pub data OrderStatus : Type 0 where
  placed paid shipped delivered cancelled : OrderStatus

pub data PaymentMethod : Type 0 where
  stripe_debit_card cash_on_delivery : PaymentMethod

pub data PaymentState : Type 0 where
  pending settled due_on_delivery failed withdrawn : PaymentState

pub data DiscountKind : Type 0 where
  no_discount first_purchase : DiscountKind

pub record OrderItem : Type 0 where
  pub amount : ℕ
  pub amount_unit : AmountUnit
  pub line_total_minor : ℕ
  pub price_basis_amount : ℕ
  pub price_minor : ℕ
  pub price_qualifier : String
  pub product_id : ℕ
  pub product_name : String
  pub product_slug : String
  pub sale_kind : SaleKind

pub record Shipping : Type 0 where
  pub city : String
  pub full_name : String
  pub phone_number : String
  pub shipping_address : String

pub record Order : Type 0 where
  pub id : ℕ
  pub user_id : Option ℕ
  pub cart_id : ℕ
  pub payment_attempt_id : Option ℕ
  pub idempotency_key : String
  pub request_hash : ℕ
  pub status : OrderStatus
  pub payment_method : PaymentMethod
  pub payment_state : PaymentState
  pub provider_payment_reference : Option String
  pub currency : String
  pub item_subtotal_minor : ℕ
  pub discount_kind : DiscountKind
  pub discount_basis_points : ℕ
  pub discount_minor : ℕ
  pub discount_policy_version : String
  pub shipping_minor : ℕ
  pub total_minor : ℕ
  pub shipping : Shipping
  pub placed_at : ℕ
  pub paid_at : Option ℕ
  pub items : List OrderItem

pub record Database : Type 0 where
  pub users : List User
  pub carts : List Cart
  pub items : List CartItem
  pub products : List Product
  pub orders : List Order

unfoldable pub find_user : ℕ → List User → Option User
find_user user_id [] = none
find_user user_id (u ∷ us) = if u.id == user_id then some u else find_user user_id us

unfoldable pub find_cart : ℕ → List Cart → Option Cart
find_cart cart_id [] = none
find_cart cart_id (c ∷ cs) = if c.id == cart_id then some c else find_cart cart_id cs

abbrev pub owned_by : ℕ → Option ℕ → Bool
owned_by user_id none = false
owned_by user_id (some owner) = owner == user_id

abbrev pub is_null : Option ℕ → Bool
is_null none = true
is_null (some n) = false

unfoldable pub find_user_cart : ℕ → List Cart → Option Cart
find_user_cart user_id [] = none
find_user_cart user_id (c ∷ cs) =
    if owned_by user_id c.user_id then some c else find_user_cart user_id cs

-- `findFirst({ where: { tokenDigest, userId: null } })`.
unfoldable pub find_guest_cart : ℕ → List Cart → Option Cart
find_guest_cart digest [] = none
find_guest_cart digest (c ∷ cs) =
    let rest = find_guest_cart digest cs in
    if c.token_digest == digest then if is_null c.user_id then some c else rest else rest

unfoldable pub set_cart : Cart → List Cart → List Cart
set_cart new [] = []
set_cart new (c ∷ cs) = if c.id == new.id then new ∷ cs else c ∷ set_cart new cs

unfoldable pub delete_cart : ℕ → List Cart → List Cart
delete_cart cart_id [] = []
delete_cart cart_id (c ∷ cs) = if c.id == cart_id then cs else c ∷ delete_cart cart_id cs

unfoldable pub find_product : ℕ → List Product → Option Product
find_product product_id [] = none
find_product product_id (p ∷ ps) = if p.id == product_id then some p else find_product product_id ps

unfoldable pub find_slug : String → List Product → Option Product
find_slug slug [] = none
find_slug slug (p ∷ ps) = if str_eq p.slug slug then some p else find_slug slug ps

-- `EXISTS (SELECT 1 FROM "Order" placed WHERE placed."cartId" = cart."id")`.
unfoldable pub has_order : ℕ → List Order → Bool
has_order cart_id [] = false
has_order cart_id (o ∷ os) = o.cart_id == cart_id || has_order cart_id os

abbrev pub is_cancelled : OrderStatus → Bool
is_cancelled cancelled = true
is_cancelled _ = false

-- `findFirst({ where: { cartId, status: { not: 'CANCELLED' } } })`.
unfoldable pub find_cart_order : ℕ → List Order → Option Order
find_cart_order cart_id [] = none
find_cart_order cart_id (o ∷ os) =
    let rest = find_cart_order cart_id os in
    if o.cart_id == cart_id then if is_cancelled o.status then rest else some o else rest
