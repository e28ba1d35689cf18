-- ===== src/Tests/Paying.antt =====
-- Payments of ann's cart.
use hop_and_barley_store.Prelude.{
  ℕ, ◌≡◌, refl, Bool, true, false, List, [], ◌∷◌, ◌++◌, ◌==◌, Option, none, some, String, ◌⊎◌, ◌↔◌,
  ◌≤◌, arith,
}
use hop_and_barley_store.Tests.{shop}
use hop_and_barley_store.Checkout.Drafts.{Contact, CheckoutDraft}
use hop_and_barley_store.Checkout.Pricing.{CheckoutPricing}
use hop_and_barley_store.Catalog.Product.{each}
use hop_and_barley_store.Catalog.Amount.{packaged}
use hop_and_barley_store.Store.{
  Database, OrderItem, Order, PaymentMethod, PaymentState, OrderStatus, no_discount,
}
use hop_and_barley_store.Store.Transaction.{ok, err, payment_refused}
use hop_and_barley_store.Payments.{PaymentDatabase, T, StripeWebhookReceipt}
use hop_and_barley_store.Payments.Attempts.{PaymentAttempt, PaymentAttemptStatus, pending}
use hop_and_barley_store.Payments.Stripe.{
  Runtime, PaymentIntent, Metadata, requires_capture, manual, CreatedStripeCheckout, opened,
  is_intent_succeeded, is_canceled,
}
use hop_and_barley_store.Payments.Stripe.Inventory.{ActionKind, capture}
use hop_and_barley_store.Payments.Stripe.Webhook.{Event, payment_intent, process_webhook_event}
use hop_and_barley_store.Payments.Stripe.Webhook.Replay.{event_again}
use hop_and_barley_store.Payments.History.{
  Reaches, start, step, receives, history_keeps_attempts, history_one_discount,
}
use hop_and_barley_store.Payments.Service.{mark_payment_attempt_succeeded}
use hop_and_barley_store.Payments.Service.Evolution.{AllEvolve}
use hop_and_barley_store.Payments.Prepare.{PreparePaymentAttempt, account, prepare}
use hop_and_barley_store.Payments.Prepare.Claimed.{AtMostOne}
use hop_and_barley_store.Payments.Prepare.Quoted.{IsNew, prepare_quotes}
use hop_and_barley_store.Payments.Attempts.{find_attempt_of_key}
use hop_and_barley_store.Payments.Matching.{same_payment_line_snapshots}
use hop_and_barley_store.Payments.Stripe.Calls.{
  Gateway, StripeCheckoutSnapshot, apply_provider_action,
}
use hop_and_barley_store.Payments.Stripe.Start.{
  StartCheckoutInput, StripeCheckoutSession, start_checkout,
}
use hop_and_barley_store.Payments.Stripe.Start.Redirects.{IsRedirect, start_checkout_redirects}
use hop_and_barley_store.Payments.Stripe.Calls.Unconfirmed.{SameShop, unconfirmed_keeps_shop}
use hop_and_barley_store.Cart.Service.{ActiveCartAccess}
use hop_and_barley_store.Payments.Stripe.Outcomes.Finalized.{Succeeds, success_is_paid_for}
use hop_and_barley_store.Prelude
use hop_and_barley_store.Catalog
use hop_and_barley_store.Checkout
use hop_and_barley_store.Cart
use hop_and_barley_store.Store
use hop_and_barley_store.Orders
use hop_and_barley_store.Payments

runs : Unit {0}
unfolding Payments.Action.◌>>=◌ Payments.Action.◌>>◌ Payments.Action.pure Payments.Action.throw
    Payments.Action.reads Payments.Action.modify Payments.Action.require Payments.Action.branch
    Payments.Action.lookup Payments.Attempts.find_attempt Payments.Attempts.update_attempt
    Payments.Attempts.find_attempt_of_key Payments.Claims.find_held_claim
    Payments.Claims.Held.held_claims Payments.Claims.update_claimed
    Payments.Allocations.find_allocation Payments.Allocations.update_allocation
    Payments.Service.write_attempt Payments.Service.lock_attempt Payments.Service.find_order
    Payments.Service.lock_user Payments.Service.mark_payment_attempt_succeeded
    Payments.Matching.successful_order_matches_attempt Payments.Matching.same_payment_line_snapshots
    Payments.Matching.same_item Payments.Stripe.owner_reference
    Payments.Stripe.intent_matches_attempt Payments.Stripe.require_payment_intent_matches_attempt
    Payments.Stripe.attempt_of_metadata Payments.Stripe.shipping_address Payments.Stripe.join_parts
    Payments.Stripe.Inventory.cart_of_attempt Payments.Stripe.Inventory.all_products_known
    Payments.Stripe.Inventory.lock_products Payments.Stripe.Inventory.all_items_available
    Payments.Stripe.Inventory.take_items Payments.Stripe.Inventory.take_stock
    Payments.Stripe.Inventory.order_of_attempt Payments.Stripe.Inventory.create_order
    Payments.Stripe.Inventory.create_allocation Payments.Stripe.Inventory.allocate_new
    Payments.Stripe.Inventory.allocate_inventory Payments.Stripe.Outcomes.lock_and_load_attempt
    Payments.Stripe.Outcomes.lock_and_attach_payment_reference
    Payments.Stripe.Outcomes.apply_capturable Payments.Stripe.Outcomes.apply_payment_intent_event
    Payments.Stripe.Webhook.find_receipt Payments.Stripe.Webhook.provider_event_object_id
    Payments.Stripe.Webhook.apply_object Payments.Stripe.Webhook.receipt_of
    Payments.Stripe.Webhook.process_first Payments.Stripe.Webhook.replay_or
    Payments.Stripe.Webhook.process_webhook_event Payments.Prepare.lock_active_user
    Payments.Prepare.owns Payments.Prepare.same_attempt Payments.Prepare.paid_order
    Payments.Prepare.can_claim_first_purchase_discount Payments.Prepare.apply_discount_for
    Payments.Prepare.quote_lines Payments.Prepare.request_hash_of Payments.Prepare.open_draft
    Payments.Prepare.new_attempt Payments.Prepare.quote_attempt Payments.Prepare.prepare
    Checkout.Drafts.find_draft Checkout.Drafts.verify_checkout_capability
    Orders.Allocation.decrement_stock Orders.Service.order_lines Orders.Service.order_item
    Orders.Service.all_known Prelude.Sort.sort Prelude.Sort.sort_insert Cart.Service.lines_of
    Cart.Readiness.checkout_line_outcome Cart.Readiness.is_sold
    Catalog.Amount.is_public_product_eligible Catalog.Amount.is_valid_order_amount
    Catalog.Amount.calculate_line_total_minor Catalog.Amount.add_money_minor
    Checkout.Pricing.calculate_checkout_pricing Checkout.Pricing.discount_of Store.find_user
    Store.find_cart Store.find_product Store.Items.items_of Payments.Stripe.Calls.◌then_call◌
    Payments.Stripe.Calls.return Payments.Stripe.Calls.fail Payments.Stripe.Calls.commit
    Payments.Stripe.Calls.catch_error Payments.Stripe.Calls.answer
    Payments.Stripe.Calls.load_attempt Payments.Stripe.Start.start_checkout
    Payments.Stripe.Start.open_session Payments.Stripe.Start.record_session
    Payments.Stripe.Start.redirect Payments.Stripe.Start.prepare_input
    Payments.Stripe.Start.checkout_snapshot Payments.Stripe.session_matches_attempt
    Payments.Stripe.session_payload_matches_attempt Payments.Service.update_unsettled
    Payments.Service.mark_provider_session_created
runs = tt

abbrev js : Runtime
js = record {
  trim = λ t. t;
  to_lower_case = λ t. "eur";
  slice_500 = λ t. t;
  id_text = λ n. "id";
  uuid_of = λ t. some 31;
  hash_capability = λ t. 5;
}

abbrev contact : Contact
contact = record {
  email = "ann@example.com";
  full_name = "Ann";
  phone_number = "1";
  country_code = "DE";
  city = "Bonn";
  street = "Street";
  postal_code = some "53111";
  administrative_area = none;
  house_number = some "1";
  apartment_unit = none;
  floor = none;
  additional_info = none;
}

abbrev draft : CheckoutDraft
draft = record {
  id = 21;
  cart_id = 2;
  user_id = some 7;
  guest_capability_digest = none;
  guest_capability_expires_at = none;
  payment_method = PaymentMethod.stripe_debit_card;
  contact = contact;
  version = 1;
}

abbrev two_teas : OrderItem
two_teas = record {
  amount = 2;
  amount_unit = each;
  line_total_minor = 500;
  price_basis_amount = 1;
  price_minor = 250;
  price_qualifier = "per pack";
  product_id = 1;
  product_name = "Tea";
  product_slug = "tea";
  sale_kind = packaged;
}

abbrev pricing : CheckoutPricing
pricing = record {
  discount_basis_points = 0;
  discount_minor = 0;
  discount_policy_version = "no-discount-v1";
  item_subtotal_minor = 500;
  shipping_minor = 500;
  total_minor = 1_000;
}

abbrev attempt : PaymentAttempt
attempt = record {
  snapshot = record {
    id = 31;
    checkout_draft_id = 21;
    checkout_draft_version = 1;
    user_id = some 7;
    idempotency_key = "key";
    request_hash = 99;
    currency = "EUR";
    discount_kind = no_discount;
    pricing = pricing;
    quoted_at = 100;
    contact = contact;
    items = two_teas ∷ [];
  };
  snapshot_sealed_at = some 100;
  status = pending;
  provider_payment_reference = none;
  provider_session_id = some "cs_1";
  provider_session_expires_at = some 900;
  pending_at = some 100;
  reconciliation_required_at = none;
  succeeded_at = none;
  definitively_failed_at = none;
  cancelled_at = none;
}

abbrev paying : PaymentDatabase
paying = record {
  store = shop;
  drafts = draft ∷ [];
  attempts = attempt ∷ [];
  claims = [];
  allocations = [];
  receipts = [];
}

abbrev intent : PaymentIntent
intent = record {
  id = "pi_1";
  livemode = false;
  metadata = record {
    payment_attempt_id = some "id";
    environment = some "sandbox";
    owner_reference = some "user:id";
  };
  currency = "eur";
  amount = 1_000;
  amount_capturable = 1_000;
  amount_received = 0;
  capture_method = manual;
  status = requires_capture;
}

abbrev event : Event
event = record {
  id = "evt_1";
  event_type = "payment_intent.amount_capturable_updated";
  livemode = false;
  created = 1;
  object = payment_intent intent;
}

-- The tables after a transaction.
abbrev after : {A : Type 0} → T A → PaymentDatabase → PaymentDatabase
after m db = elim (m db) [ ok (a, s) ↦ s | err e ↦ db ]

abbrev authorized : PaymentDatabase
authorized = after (process_webhook_event js 41 event 77 500) paying

accepted : process_webhook_event js 41 event 77 500 paying ≡ ok (some (31, capture), authorized)
unfolding runs
accepted = refl

event_again_example :
    (process_webhook_event js 41 event 77 600 authorized ≡ ok (none, authorized))
    × ((77 == 78) ≡ false
        → process_webhook_event js 41 event 78 600 authorized ≡ err payment_refused)
event_again_example = event_again js 41 event 77 500 600 78 paying accepted

history : Reaches paying authorized
history = step paying authorized start (receives js 41 event 77 500 (some (31, capture)) accepted)

history_keeps_attempts_example : AllEvolve paying.attempts authorized.attempts
history_keeps_attempts_example = history_keeps_attempts paying authorized history

no_claims : AtMostOne []
unfolding runs
no_claims u = omega arith

history_one_discount_example : AtMostOne authorized.claims
history_one_discount_example = history_one_discount paying authorized history no_claims

abbrev gateway : Gateway
gateway = record {
  enabled = true;
  construct_event = λ body signature. some event;
  create_checkout_session = λ snapshot at. none;
  retrieve_checkout_session = λ id. none;
  retrieve_payment_intent = λ id. none;
  cancel_payment_intent = λ id. none;
  capture_payment_intent = λ id. none;
}

abbrev request : StartCheckoutInput
request = record {
  cart = ActiveCartAccess.account 2 "token" 7;
  checkout_draft_id = 21;
  idempotency_key = "another";
  raw_guest_capability = none;
}

-- A session of Stripe for what an attempt asks.
abbrev session_for : StripeCheckoutSnapshot → CreatedStripeCheckout
session_for snapshot = record {
  amount_total = snapshot.total_minor;
  attempt_id = some (js.id_text snapshot.id);
  checkout_url = some "https://checkout.stripe.com/c/pay/cs_1";
  currency = js.to_lower_case snapshot.currency;
  expires_at = 900;
  payment_intent_id = none;
  payment_status = "unpaid";
  owner_reference = some snapshot.owner_reference;
  session_id = "cs_1";
  session_status = opened;
}

abbrev selling : Gateway
selling = record gateway { create_checkout_session = λ snapshot at. some (session_for snapshot) }

abbrev page : StripeCheckoutSession
page = record {
  attempt_id = 32;
  checkout_url = "https://checkout.stripe.com/c/pay/cs_1";
  expires_at = 900;
}

sent : (start_checkout js selling (λ r. 99) 32 41 500 request paying).0 ≡ ok page
unfolding runs
sent = refl

start_checkout_redirects_example :
    IsRedirect js selling
      (λ r. 99)
      32
      41
      500
      request
      paying
      (start_checkout js selling (λ r. 99) 32 41 500 request paying).1
      page
start_checkout_redirects_example =
    start_checkout_redirects js selling (λ r. 99) 32 41 500 request paying page sent

-- Stripe answers a cancellation with the intent as it is, and no capture.
abbrev stubborn : Gateway
stubborn = record gateway { cancel_payment_intent = λ id. some intent }

none_captured :
    (reference : String) (i : PaymentIntent)
    → stubborn.capture_payment_intent reference ≡ some i
    → is_intent_succeeded i.status ≡ false
none_captured reference i h = absurd (ground arith)

none_cancelled :
    (reference : String) (i : PaymentIntent)
    → stubborn.cancel_payment_intent reference ≡ some i
    → is_canceled i.status ≡ false
none_cancelled reference i h = ground arith

unconfirmed_keeps_shop_example :
    SameShop authorized
      (apply_provider_action js stubborn 41 500 (some (31, ActionKind.cancel)) authorized).1
unconfirmed_keeps_shop_example =
    unconfirmed_keeps_shop js stubborn 41 500 none_captured none_cancelled
      (some (31, ActionKind.cancel)) authorized

abbrev input : PreparePaymentAttempt
input = record {
  cart_id = 2;
  checkout_draft_id = 21;
  raw_guest_capability = none;
  idempotency_key = "another";
  principal = account 7;
}

abbrev quoted : PaymentAttempt
quoted = elim (prepare (λ r. 99) (λ t. 5) input 500 32 paying) [ ok (a, s) ↦ a | err e ↦ attempt ]

abbrev quoted_tables : PaymentDatabase
quoted_tables = after (prepare (λ r. 99) (λ t. 5) input 500 32) paying

prepared_run : prepare (λ r. 99) (λ t. 5) input 500 32 paying ≡ ok (quoted, quoted_tables)
unfolding runs
prepared_run = refl

prepare_quotes_example :
    ((find_attempt_of_key 21 "another" paying.attempts ≡ some quoted) × (quoted_tables ≡ paying))
    ⊎ ((find_attempt_of_key 21 "another" paying.attempts ≡ none)
        × IsNew input 32 paying quoted_tables quoted)
prepare_quotes_example = prepare_quotes (λ r. 99) (λ t. 5) input 500 32 paying prepared_run

-- The order of the attempt when its payment has been captured.
abbrev paid_order : Order
paid_order = record {
  id = 41;
  user_id = some 7;
  cart_id = 2;
  payment_attempt_id = some 31;
  idempotency_key = "stripe-id";
  request_hash = 99;
  status = OrderStatus.paid;
  payment_method = PaymentMethod.stripe_debit_card;
  payment_state = PaymentState.settled;
  provider_payment_reference = some "pi_1";
  currency = "EUR";
  item_subtotal_minor = 500;
  discount_kind = no_discount;
  discount_basis_points = 0;
  discount_minor = 0;
  discount_policy_version = "no-discount-v1";
  shipping_minor = 500;
  total_minor = 1_000;
  shipping = record {
    city = "Bonn";
    full_name = "Ann";
    phone_number = "1";
    shipping_address = "Street, 1, 53111, Bonn, DE";
  };
  placed_at = 500;
  paid_at = some 600;
  items = two_teas ∷ [];
}

abbrev captured : PaymentDatabase
captured = record paying {
  store = record shop { orders = paid_order ∷ [] };
  attempts = record attempt { provider_payment_reference = some "pi_1" } ∷ [];
}

succeeded_run :
    mark_payment_attempt_succeeded 31 41 600 captured
    ≡ ok (tt, after (mark_payment_attempt_succeeded 31 41 600) captured)
unfolding runs
succeeded_run = refl

success_is_paid_for_example :
    Succeeds captured 31 41 (after (mark_payment_attempt_succeeded 31 41 600) captured)
success_is_paid_for_example = success_is_paid_for captured 31 41 600 succeeded_run
