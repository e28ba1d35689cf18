-- ===== src/Payments.antt =====
-- The payments of apps/api/src/payments: the tables that they read and write, the shop's own tables
-- among them, and the operating parts of JavaScript and of the database that the services call.
pub mod Claims
pub mod Allocations
pub mod Attempts
pub mod Action
pub mod Matching
pub mod Stripe
pub mod Prepare
pub mod Ledger
pub mod History
pub mod Yields
pub mod Service
use hop_and_barley_store.Prelude.{ℕ, Bool, true, false, List, [], ◌∷◌, Option, none, some, String}
use hop_and_barley_store.Store.{Database}
use hop_and_barley_store.Store.Transaction.{Transaction}
use hop_and_barley_store.Checkout.Drafts.{CheckoutDraft}
use Claims.{Claim}
use Allocations.{Allocation}
use Attempts.{PaymentAttempt}

pub data WebhookDisposition : Type 0 where
  processed ignored : WebhookDisposition

pub record StripeWebhookReceipt : Type 0 where
  pub provider_event_id : String
  pub payment_attempt_id : Option ℕ
  pub provider_object_id : String
  pub event_type : String
  pub livemode : Bool
  pub payload_hash : ℕ
  pub provider_created_at : ℕ
  pub disposition : WebhookDisposition
  pub received_at : ℕ
  pub processed_at : ℕ

pub record PaymentDatabase : Type 0 where
  pub store : Database
  pub drafts : List CheckoutDraft
  pub attempts : List PaymentAttempt
  pub claims : List Claim
  pub allocations : List Allocation
  pub receipts : List StripeWebhookReceipt

abbrev pub T : Type 0 → Type 0
T A = Transaction PaymentDatabase A
