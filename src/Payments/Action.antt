-- ===== src/Payments/Action.antt =====
-- The steps from which the transactions of the payments are built.
use hop_and_barley_store.Prelude.{Bool, true, false, Option, none, some}
use hop_and_barley_store.Store.Transaction.{HttpError, ok, err}
use hop_and_barley_store.Payments.{PaymentDatabase, T}

infixl 5 ◌>>=◌ ◌>>◌
unfoldable pub ◌>>=◌ : {A B : Type 0} → T A → (A → T B) → T B
◌>>=◌ m f db = elim (m db) [ ok (a, db') ↦ f a db' | err e ↦ err e ]

unfoldable pub ◌>>◌ : {B : Type 0} → T (Unit {0}) → T B → T B
◌>>◌ m k db = elim (m db) [ ok (a, db') ↦ k db' | err e ↦ err e ]

unfoldable pub pure : {A : Type 0} → A → T A
pure a db = ok (a, db)

unfoldable pub throw : {A : Type 0} → HttpError → T A
throw e db = err e

unfoldable pub reads : {A : Type 0} → (PaymentDatabase → A) → T A
reads f db = ok (f db, db)

unfoldable pub modify : (PaymentDatabase → PaymentDatabase) → T (Unit {0})
modify f db = ok (tt, f db)

unfoldable pub require : Bool → HttpError → T (Unit {0})
require true e db = ok (tt, db)
require false e db = err e

unfoldable pub branch : {A : Type 0} → Bool → T A → T A → T A
branch true x y = x
branch false x y = y

abbrev from_option : {A : Type 0} → Option A → HttpError → T A
from_option none e db = err e
from_option (some a) e db = ok (a, db)

-- A row that has to be there.
unfoldable pub lookup : {A : Type 0} → (PaymentDatabase → Option A) → HttpError → T A
lookup o e db = from_option (o db) e db
