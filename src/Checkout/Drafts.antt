-- ===== src/Checkout/Drafts.antt =====
-- The table "CheckoutDraft" of apps/api/prisma/schema.prisma, and
-- apps/api/src/checkout/checkout-capability-token.ts. The column `status` has one value and is left
-- out. The digest of a capability is a parameter.
use text.Mathlib.Text.{◌==◌ as str_eq}
use hop_and_barley_store.Prelude.{
  ℕ, Bool, false, not, ◌&&◌, List, [], ◌∷◌, ◌==◌, Option, none, some, String, ltb, if◌then◌else◌,
}
use hop_and_barley_store.Store.{PaymentMethod}

pub record Contact : Type 0 where
  pub email : String
  pub full_name : String
  pub phone_number : String
  pub country_code : String
  pub city : String
  pub street : String
  pub postal_code : Option String
  pub administrative_area : Option String
  pub house_number : Option String
  pub apartment_unit : Option String
  pub floor : Option String
  pub additional_info : Option String

pub record CheckoutDraft : Type 0 where
  pub id : ℕ
  pub cart_id : ℕ
  pub user_id : Option ℕ
  pub guest_capability_digest : Option ℕ
  pub guest_capability_expires_at : Option ℕ
  pub payment_method : PaymentMethod
  pub contact : Contact
  pub version : ℕ

unfoldable pub find_draft : ℕ → List CheckoutDraft → Option CheckoutDraft
find_draft draft_id [] = none
find_draft draft_id (d ∷ ds) = if d.id == draft_id then some d else find_draft draft_id ds

-- `findUnique({ where: { cartId } })`.
unfoldable pub find_cart_draft : ℕ → List CheckoutDraft → Option CheckoutDraft
find_cart_draft cart_id [] = none
find_cart_draft cart_id (d ∷ ds) =
    if d.cart_id == cart_id then some d else find_cart_draft cart_id ds

-- The empty string is as good as no token.
unfoldable pub verify_checkout_capability :
    (String → ℕ) → Option String → Option ℕ → Option ℕ → ℕ → Bool
verify_checkout_capability hash (some raw_token) (some stored) (some expires_at) requested_now =
    not (str_eq raw_token "") && ltb requested_now expires_at && hash raw_token == stored
verify_checkout_capability hash _ _ _ requested_now = false
