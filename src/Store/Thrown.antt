-- ===== src/Store/Thrown.antt =====
-- What a transaction of the database may throw, and the errors that are worth another attempt:
-- `isRetryableSerialization` of apps/api/src/cart/cart-transaction.ts and of
-- apps/api/src/orders/order-transaction.ts, which are the same, and `isP2034` of
-- apps/api/src/auth/session/session.service.ts.
use hop_and_barley_store.Prelude.{
  Bool, false, ◌&&◌, ◌||◌, Option, none, some, String, if◌then◌else◌,
}
use text.Mathlib.Text.{◌==◌ as str_eq}

-- A JavaScript value as the tests see it: null, a text, an object with what `in` finds in it, and
-- the rest (numbers, functions, undefined …).
mutual
  pub data Value : Type 0 where
    null other : Value
    string : String → Value
    object : Fields → Value

  pub data Fields : Type 0 where
    no_fields : Fields
    field : String → Value → Fields → Fields

abbrev pub get_field : String → Fields → Option Value
get_field name no_fields = none
get_field name (field n v rest) = if str_eq n name then some v else get_field name rest

-- `v !== null && typeof v === 'object' && name in v`, and then `v[name]`.
abbrev pub property : String → Value → Option Value
property name (object fields) = get_field name fields
property name _ = none

abbrev pub is_text : String → Option Value → Bool
is_text s (some (string t)) = str_eq t s
is_text s _ = false

-- The property of the property, if there is one.
abbrev pub then_property : String → Option Value → Option Value
then_property name none = none
then_property name (some v) = property name v

unfoldable pub is_p2034 : Value → Bool
is_p2034 error = is_text "P2034" (property "code" error)

unfoldable pub is_retryable_serialization : Value → Bool
is_retryable_serialization error =
    let code = property "code" error in
    let driver_error = then_property "driverAdapterError" (property "meta" error) in
    let original_code = then_property "originalCode" (then_property "cause" driver_error) in
    is_text "P2034" code
    || ((is_text "P2010" code || is_text "P2039" code)
        && (is_text "40001" original_code || is_text "40P01" original_code))
