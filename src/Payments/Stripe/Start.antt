-- ===== src/Payments/Stripe/Start.antt =====
-- `startCheckout`, `currentStatus`, `reconcile` and `reconcileOutstanding` of
-- apps/api/src/payments/stripe-payment.service.ts, and `findAccessibleAttempt`.
pub mod Redirects
use hop_and_barley_store.Prelude.{
  ℕ, Bool, true, false, not, ◌&&◌, ◌||◌, List, [], ◌∷◌, ◌==◌, leb, Option, none, some, String,
  is_some, if◌then◌else◌, length, take,
}
use hop_and_barley_store.Cart.Service.{ActiveCartAccess, guest, account}
use hop_and_barley_store.Checkout.Drafts.{find_cart_draft, verify_checkout_capability}
use hop_and_barley_store.Store.{owned_by}
use hop_and_barley_store.Store.Transaction.{
  provider_unavailable, attempt_conflict, payments_disabled, unauthorized, not_found,
}
use hop_and_barley_store.Payments.{T}
use hop_and_barley_store.Payments.Action.{◌>>=◌, ◌>>◌, require, lookup}
use hop_and_barley_store.Payments.Attempts.{
  PaymentAttempt, reconciliation_required, is_unsettled, is_pending,
}
use hop_and_barley_store.Payments.Allocations.{Allocation, find_allocation, is_settled}
use hop_and_barley_store.Payments.Prepare.{
  Principal, AttemptRequest, PreparePaymentAttempt, prepare,
}
use hop_and_barley_store.Payments.Service.{mark_pending, mark_provider_session_created}
use hop_and_barley_store.Payments.Stripe.{
  Runtime, CreatedStripeCheckout, PaymentStatus, to_status, owner_reference,
  session_matches_attempt, session_payload_matches_attempt,
}
use hop_and_barley_store.Payments.Stripe.Calls.{
  Gateway, StripeCheckoutSnapshot, Call, ◌then_call◌, return, fail, commit, catch, catch_error,
  thrown_again, answer, choose, load_attempt, mark, reconcile_attempt,
}

pub record StartCheckoutInput : Type 0 where
  pub cart : ActiveCartAccess
  pub checkout_draft_id : ℕ
  pub idempotency_key : String
  pub raw_guest_capability : Option String

pub record StripeCheckoutSession : Type 0 where
  pub attempt_id : ℕ
  pub checkout_url : String
  pub expires_at : ℕ

unfoldable pub prepare_input : StartCheckoutInput → PreparePaymentAttempt
prepare_input input = elim (input.cart) [
  | account cart_id raw_token user_id ↦ record {
    cart_id = cart_id;
    checkout_draft_id = input.checkout_draft_id;
    raw_guest_capability = input.raw_guest_capability;
    idempotency_key = input.idempotency_key;
    principal = Principal.account user_id;
  }
  | guest cart_id expires_at raw_token ↦ record {
    cart_id = cart_id;
    checkout_draft_id = input.checkout_draft_id;
    raw_guest_capability = input.raw_guest_capability;
    idempotency_key = input.idempotency_key;
    principal = Principal.guest;
  }
]

unfoldable pub last_of_user : ℕ → List PaymentAttempt → Option PaymentAttempt
last_of_user user_id [] = none
last_of_user user_id (a ∷ rest) = elim (last_of_user user_id rest) [
  | some later ↦ some later
  | none ↦ if owned_by user_id a.snapshot.user_id then some a else none
]

unfoldable pub last_of_draft : ℕ → List PaymentAttempt → Option PaymentAttempt
last_of_draft draft_id [] = none
last_of_draft draft_id (a ∷ rest) = elim (last_of_draft draft_id rest) [
  | some later ↦ some later
  | none ↦ if a.snapshot.checkout_draft_id == draft_id then some a else none
]

-- The attempts that `reconcileOutstanding` looks for.
unfoldable pub is_outstanding : List Allocation → ℕ → PaymentAttempt → Bool
is_outstanding allocations now a = elim (a.status) [
  | reconciliation_required ↦ true
  | _ ↦
      (is_pending a.status
        && is_some a.provider_session_id
        && elim (a.provider_session_expires_at) [ none ↦ false | some t ↦ leb t now ])
      || elim (find_allocation a.snapshot.id allocations) [
        | none ↦ false
        | some x ↦ not (is_settled x.status)
      ]
]

unfoldable pub outstanding : List Allocation → ℕ → List PaymentAttempt → List ℕ
outstanding allocations now [] = []
outstanding allocations now (a ∷ rest) =
    let others = outstanding allocations now rest in
    if is_outstanding allocations now a then a.snapshot.id ∷ others else others

module _ (js : Runtime) where
  -- The capability of a guest opens the draft of the cart; an account has its latest attempt.
  unfoldable pub find_accessible_attempt : ActiveCartAccess → Option String → ℕ → T PaymentAttempt
  find_accessible_attempt (account cart_id raw_token user_id) raw_capability now =
      lookup (λ db. last_of_user user_id db.attempts) not_found
  find_accessible_attempt (guest cart_id expires_at raw_token) raw_capability now = do
    draft ← lookup (λ db. find_cart_draft cart_id db.drafts) unauthorized
    require
        (not (is_some draft.user_id)
          && verify_checkout_capability js.hash_capability raw_capability
              draft.guest_capability_digest draft.guest_capability_expires_at now)
        unauthorized
    lookup (λ db. last_of_draft draft.id db.attempts) not_found

  unfoldable pub current_status : ActiveCartAccess → Option String → ℕ → Call PaymentStatus
  current_status cart raw_capability now =
      commit (find_accessible_attempt cart raw_capability now) then_call λ attempt.
      return (to_status attempt)

module _ (js : Runtime) (stripe : Gateway) (order_id now : ℕ) where
  unfoldable pub reconcile : ActiveCartAccess → Option String → Call PaymentStatus
  reconcile cart raw_capability =
      commit (find_accessible_attempt js cart raw_capability now) then_call λ attempt.
      reconcile_attempt js stripe order_id now attempt.snapshot.id

  -- The attempts in turn; one that fails is marked, and the next is tried.
  unfoldable pub reconcile_all : List ℕ → Call (Unit {0})
  reconcile_all [] = return tt
  reconcile_all (attempt_id ∷ rest) =
      catch (reconcile_attempt js stripe order_id now attempt_id then_call λ status. return tt)
        (mark js stripe order_id now attempt_id)
      then_call λ _. reconcile_all rest

  -- `orderBy: updatedAt` is the order of the parameter `by_update`.
  unfoldable pub reconcile_outstanding : (List ℕ → List ℕ) → ℕ → Call (Unit {0})
  reconcile_outstanding by_update limit db =
      reconcile_all (take limit (by_update (outstanding db.allocations now db.attempts))) db

module _ (js : Runtime) (stripe : Gateway) (hash_request : AttemptRequest → ℕ)
    (attempt_id order_id now : ℕ) where
  unfoldable pub checkout_snapshot : PaymentAttempt → StripeCheckoutSnapshot
  checkout_snapshot a = record {
    currency = a.snapshot.currency;
    discount_minor = a.snapshot.pricing.discount_minor;
    email = a.snapshot.contact.email;
    id = a.snapshot.id;
    item_count = length a.snapshot.items;
    item_subtotal_minor = a.snapshot.pricing.item_subtotal_minor;
    owner_reference = owner_reference js a;
    shipping_minor = a.snapshot.pricing.shipping_minor;
    total_minor = a.snapshot.pricing.total_minor;
  }

  -- `markProviderSessionCreated`, and `markPending` when the session has a payment intent; the
  -- attempt is loaded again then, or `always`.
  unfoldable pub record_session :
      Bool → PaymentAttempt → CreatedStripeCheckout → Call (CreatedStripeCheckout × PaymentAttempt)
  record_session always attempt session =
      let id = attempt.snapshot.id in
      commit (mark_provider_session_created js.trim id session.session_id session.expires_at now)
      then_call λ _. elim (session.payment_intent_id) [
        | none ↦
            choose always (load_attempt id then_call λ loaded. return (session, loaded))
              (return (session, attempt))
        | some reference ↦ commit (mark_pending js.trim id reference now) then_call λ _.
            load_attempt id then_call λ loaded. return (session, loaded)
      ]

  unfoldable pub open_session : PaymentAttempt → Call (CreatedStripeCheckout × PaymentAttempt)
  open_session attempt = elim (attempt.provider_session_id) [
    | some session_id ↦ answer (stripe.retrieve_checkout_session session_id) then_call λ session.
        choose (session_matches_attempt js session attempt now false)
          (record_session false attempt session) (fail attempt_conflict)
    | none ↦
        answer
          (stripe.create_checkout_session (checkout_snapshot attempt) attempt.snapshot.quoted_at)
        then_call λ session.
            choose (session_payload_matches_attempt js session attempt now false)
              (record_session true attempt session) (fail attempt_conflict)
  ]

  unfoldable pub redirect : CreatedStripeCheckout × PaymentAttempt → Call StripeCheckoutSession
  redirect (session, attempt) =
      choose (session_matches_attempt js session attempt now false)
        (elim (session.checkout_url) [
          | none ↦ fail provider_unavailable
          | some url ↦ return (record {
            attempt_id = attempt.snapshot.id;
            checkout_url = url;
            expires_at = session.expires_at;
          })
        ])
        (fail attempt_conflict)

  unfoldable pub start_checkout : StartCheckoutInput → Call StripeCheckoutSession
  start_checkout input =
      choose stripe.enabled
        (commit (prepare hash_request js.hash_capability (prepare_input input) now attempt_id)
          then_call λ prepared. load_attempt prepared.snapshot.id then_call λ attempt.
              choose (is_unsettled attempt.status)
                (catch_error (open_session attempt) (λ error.
                    mark js stripe order_id now attempt.snapshot.id then_call λ _.
                    fail (thrown_again error))
                  then_call redirect)
                (fail attempt_conflict))
        (fail payments_disabled)
