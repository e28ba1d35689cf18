-- ===== src/Cart/Calls.antt =====
-- A history of calls of the cart service, each at its time. A call that throws leaves the tables as
-- they were, since its transaction is rolled back.
use hop_and_barley_store.Prelude.{ℕ, Bool, Option, String}
use hop_and_barley_store.Store.{Database}
use hop_and_barley_store.Store.Transaction.{Result, ok, err}
use hop_and_barley_store.Cart.Service.{ActiveCartAccess, add, update, remove, clear}
use hop_and_barley_store.Cart.Account.{
  Fresh, create_account_cart, create_and_add, merge_guest_into_account,
}

pub data Call : Type 0 where
  adds updates : ActiveCartAccess → String → ℕ → Call
  removes : ActiveCartAccess → String → Call
  clears : ActiveCartAccess → Call
  creates_and_adds : String → ℕ → Fresh → Call
  creates_account_cart : ℕ → String → Fresh → Call
  merges : (ℕ → Bool) → ℕ → Option String → Fresh → Call

abbrev pub after : {A : Type 0} → Database → Result (A × Database) → Database
after db (ok (a, db')) = db'
after db (err e) = db

module _ (hash_cart_token : String → ℕ) where
  unfoldable pub step : Database → ℕ × Call → Database
  step db (now, adds access slug n) = after db (add access slug n now db)
  step db (now, updates access slug n) = after db (update access slug n now db)
  step db (now, removes access slug) = after db (remove access slug now db)
  step db (now, clears access) = after db (clear access now db)
  step db (now, creates_and_adds slug n fresh) =
      after db (create_and_add hash_cart_token slug n now fresh db)
  step db (now, creates_account_cart user_id token fresh) =
      after db (create_account_cart hash_cart_token user_id token now fresh db)
  step db (now, merges has_attempts user_id token fresh) =
      after db (merge_guest_into_account hash_cart_token has_attempts user_id token now fresh db)
