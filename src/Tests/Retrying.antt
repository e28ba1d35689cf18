-- ===== src/Tests/Retrying.antt =====
-- A transaction that the database refuses twice.
use hop_and_barley_store.Prelude.{ℕ, suc, if◌then◌else◌, ltb, arith}
use hop_and_barley_store.Store.Thrown.{
  Value, object, field, no_fields, string, is_p2034, is_retryable_serialization,
}
use hop_and_barley_store.Store.Retry.{
  Outcome, returned, thrown, run_cart_serializable, run_order_serializable, serializable,
}
use hop_and_barley_store.Store.Retry.Laws.{IsBoundedRun, serializable-IsBoundedRun}

abbrev conflict : Value
conflict = object (field "code" (string "P2034") no_fields)

-- The world counts the attempts.
abbrev attempt_in : ℕ → Outcome ℕ × ℕ
attempt_in n = (if ltb n 2 then thrown conflict else returned n, suc n)

abbrev jitter : ℕ → ℕ → ℕ
jitter attempt ceiling = ceiling

serializable-IsBoundedRun_example :
    IsBoundedRun is_retryable_serialization attempt_in 0 (run_cart_serializable jitter attempt_in 0)
    × IsBoundedRun is_retryable_serialization attempt_in 0
        (run_order_serializable jitter attempt_in 0)
    × IsBoundedRun is_p2034 attempt_in 0 (serializable jitter attempt_in 0)
serializable-IsBoundedRun_example =
    serializable-IsBoundedRun attempt_in jitter (λ n c. omega arith) 0
