-- ===== src/Store/Retry.antt =====
-- The loop that runs a transaction again when the database could not order it among the others:
-- `runCartSerializable` of apps/api/src/cart/cart-transaction.ts, `runOrderSerializable` of
-- apps/api/src/orders/order-transaction.ts and `serializable` of
-- apps/api/src/auth/session/session.service.ts. The world, one attempt in it (`attempt_in`, the
-- host's `$transaction`) and the random delay (`jitter`, `Math.floor(random() * (ceiling + 1))` at
-- an attempt) are parameters. The result has the delays that were slept, in order.
pub mod Laws
use hop_and_barley_store.Prelude.{
  ℕ, zero, suc, ◌-◌, ◌*◌, ◌^◌, min, Bool, true, false, not, ◌||◌, List, [], ◌∷◌, ◌==◌,
  if◌then◌else◌, String,
}
use hop_and_barley_store.Store.Thrown.{
  Value, object, is_p2034, is_retryable_serialization, no_fields,
}

abbrev pub max_attempts : ℕ
max_attempts = 8

abbrev pub base_delay_ms : ℕ
base_delay_ms = 5

abbrev pub max_delay_ms : ℕ
max_delay_ms = 100

pub data Outcome (A : Type 0) : Type 0 where
  returned : A → Outcome A
  thrown : Value → Outcome A

unfoldable pub ceiling : ℕ → ℕ
ceiling attempt = min max_delay_ms (base_delay_ms * 2 ^ (attempt - 1))

module _ {A W : Type 0} (is_retryable : Value → Bool) (jitter : ℕ → ℕ → ℕ)
    (attempt_in : W → Outcome A × W) where
  -- `left` attempts are left, of which the first is number `attempt`. With none left the code
  -- throws `new Error('Unreachable …')`.
  unfoldable pub run_serializable : ℕ → ℕ → W → Outcome A × W × List ℕ
  run_serializable zero attempt w = (thrown (object no_fields), w, [])
  run_serializable (suc left) attempt w =
      let (outcome, w') = attempt_in w in
      elim outcome [
        | returned a ↦ (returned a, w', [])
        | thrown error ↦
            let (settled, last, slept) = run_serializable left (suc attempt) w' in
            if not (is_retryable error) || attempt == max_attempts
            then (thrown error, w', [])
            else (settled, last, jitter attempt (ceiling attempt) ∷ slept)
      ]

module _ {A W : Type 0} (jitter : ℕ → ℕ → ℕ) (attempt_in : W → Outcome A × W) where
  unfoldable pub run_cart_serializable : W → Outcome A × W × List ℕ
  run_cart_serializable =
      run_serializable is_retryable_serialization jitter attempt_in max_attempts 1

  unfoldable pub run_order_serializable : W → Outcome A × W × List ℕ
  run_order_serializable =
      run_serializable is_retryable_serialization jitter attempt_in max_attempts 1

  unfoldable pub serializable : W → Outcome A × W × List ℕ
  serializable = run_serializable is_p2034 jitter attempt_in max_attempts 1
