-- ===== src/Orders/Service/Replay.antt =====
-- What a repeated call of `OrdersService.create` does.
use hop_and_barley_store.Prelude.{ℕ, ◌≡◌, ◌∙◌, Option, some, arith, inl, inr, Option-cases, ==_refl}
use hop_and_barley_store.Store.{Database, Order, find_cart, find_cart_order}
use hop_and_barley_store.Store.Transaction.{ok, Result-cases}
use hop_and_barley_store.Orders.Checkout.{
  Checkout, OrderContext, Runtime, canonical_checkout, fingerprint,
}
use hop_and_barley_store.Orders.Service.{
  find_idempotent_order, lock_active_user, lock_cart, create_stored, place_in_cart, replay_or,
  same_outcome, create, OrderDto, to_order_dto,
}
use hop_and_barley_store.Orders.Service.Placed.{lock_active_user-same}
use hop_and_barley_store.Orders.Service.Laws.{create_stored_replays}

module _ (js : Runtime) (context : OrderContext) (request_hash : ℕ) (db : Database) where
  -- Without a second order of the cart, only the time can tell the two calls apart.
  ordered_cart_replays :
      (checkout again : Checkout) (t t' : Option ℕ) (c c' i i' : ℕ) {o : Order} {db' : Database}
      {p : Order}
      → find_cart_order context.cart_id db.orders ≡ some p
      → place_in_cart js context checkout request_hash t c i db ≡ ok (o, db')
      → (db' ≡ db) × (place_in_cart js context again request_hash t' c' i' db ≡ ok (o, db'))
  unfolding place_in_cart lock_cart replay_or same_outcome
  ordered_cart_replays checkout again t t' c c' i i' {o} {db'} {p} found h =
      elim (Option-cases (find_cart context.cart_id db.carts)) [
        | inl e ↦ absurd (ground (arith, e))
        | inr (cart, e) ↦ (ground (arith, e), ground (arith, e))
      ]

  pub create_stored_again :
      (checkout again : Checkout) (t t' : Option ℕ) (c c' i i' : ℕ) {o : Order} {db' : Database}
      → create_stored js context checkout request_hash t c i db ≡ ok (o, db')
      → create_stored js context again request_hash t' c' i' db' ≡ ok (o, db')
  unfolding create_stored replay_or same_outcome
  create_stored_again checkout again t t' c c' i i' {o} {db'} h =
      elim (Option-cases (find_idempotent_order context db.orders)) [
        | inr (p, e) ↦ ground (arith, e)
        | inl unseen ↦ elim (Option-cases (find_cart_order context.cart_id db.orders)) [
          | inl unordered ↦
              create_stored_replays js context checkout request_hash t c i db unseen unordered h
                again request_hash t' c' i'
              ∙ ground (arith, ==_refl request_hash)
          | inr (p, found) ↦ elim (Result-cases (lock_active_user context.user_id db)) [
            | inr (x, e) ↦ absurd (ground (arith, e))
            | inl (u, db1, e) ↦
                let same = lock_active_user-same context.user_id db e in
                let inner : place_in_cart js context checkout request_hash t c i db ≡ ok (o, db') =
                  ground (arith, e, same, unseen) in
                let (still, run) = ordered_cart_replays checkout again t t' c c' i i' found inner in
                ground (arith, e, same, unseen, still, run)
          ]
        ]
      ]

module _ (js : Runtime) (context : OrderContext) (supplied : Checkout) (t t' : Option ℕ)
    (c c' i i' : ℕ) (db : Database) where
  -- A request that succeeded may be sent again, at any time: the answer is the same and nothing
  -- changes any more.
  pub create_again :
      {dto : OrderDto} {db' : Database}
      → create js context supplied t c i db ≡ ok (dto, db')
      → create js context supplied t' c' i' db' ≡ ok (dto, db')
  unfolding create to_order_dto
  create_again {dto} {db'} h =
      elim (Result-cases (
        create_stored js context (canonical_checkout js supplied)
          (fingerprint js context (canonical_checkout js supplied)) t c i db)) [
            | inr (x, e) ↦ absurd (ground (arith, e))
            | inl (o, db1, e) ↦
                let again =
                  create_stored_again js context
                    (fingerprint js context (canonical_checkout js supplied)) db
                    (canonical_checkout js supplied) (canonical_checkout js supplied) t t' c c' i i'
                    e in
                ground (arith, e, again)
          ]
