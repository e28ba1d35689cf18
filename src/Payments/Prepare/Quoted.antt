-- ===== src/Payments/Prepare/Quoted.antt =====
-- What a prepared payment attempt asks for, and where it is stored.
use hop_and_barley_store.Prelude.{
  ℕ, ◌+◌, ◌≡◌, refl, sym, ap, subst, ◌++◌, subst₂, ◌⊎◌, inl, inr, Bool, true, false, List, [], ◌∷◌,
  map, Option, none, some, String, arith, if◌then◌else◌,
}
use hop_and_barley_store.Catalog.Amount.{add_money_minor}
use hop_and_barley_store.Catalog.Product.{Product}
use hop_and_barley_store.Checkout.Drafts.{CheckoutDraft, find_draft}
use hop_and_barley_store.Checkout.Pricing.{CheckoutPricing, calculate_checkout_pricing}
use hop_and_barley_store.Checkout.Pricing.Laws.{IsPriceOf, pricing-IsPriceOf}
use hop_and_barley_store.Orders.Allocation.{PricedLine}
use hop_and_barley_store.Orders.Service.{order_item, order_lines}
use hop_and_barley_store.Orders.Service.Lines.{totals, ArePriced}
use hop_and_barley_store.Store.{OrderItem, no_discount, first_purchase}
use hop_and_barley_store.Store.Transaction.{ok}
use hop_and_barley_store.Payments.{PaymentDatabase}
use hop_and_barley_store.Payments.Attempts.{PaymentAttempt, prepared, find_attempt_of_key}
use hop_and_barley_store.Payments.Matching.{is_first_purchase}
use hop_and_barley_store.Payments.Yields.{
  Yields, by_pure, by_reads, by_modify, by_require, by_lookup, by_bind, by_then, by_call,
}
use hop_and_barley_store.Payments.Prepare.{
  PreparePaymentAttempt, AttemptRequest, user_of, same_attempt, quote_lines, new_attempt,
  quote_attempt, replay_or, prepare,
}
use hop_and_barley_store.Payments.Prepare.Claimed.{open_draft-Yields, apply_discount_for-Yields}

-- A product and its amount, of an item and of a line of the cart.
abbrev pub bought : OrderItem → ℕ × ℕ
bought i = (i.product_id, i.amount)

abbrev pub wanted : Product × ℕ → ℕ × ℕ
wanted (p, n) = (p.id, n)

pub record IsQuote (a : PaymentAttempt) : Type 0 where
  pub status : a.status ≡ prepared
  pub priced : ArePriced a.snapshot.items
  pub price :
      IsPriceOf
        (totals a.snapshot.items)
        (is_first_purchase a.snapshot.discount_kind)
        a.snapshot.pricing

-- The attempt that a request has added to the tables: under its own id, for its draft, key and owner,
-- with the lines of its cart.
pub record IsNew (input : PreparePaymentAttempt) (attempt_id : ℕ) (db db' : PaymentDatabase)
    (a : PaymentAttempt) : Type 0 where
  pub stored : db'.attempts ≡ db.attempts ++ a ∷ []
  pub shop : db'.store ≡ db.store
  pub drafts : db'.drafts ≡ db.drafts
  pub allocations : db'.allocations ≡ db.allocations
  pub id : a.snapshot.id ≡ attempt_id
  pub of_draft : a.snapshot.checkout_draft_id ≡ input.checkout_draft_id
  pub of_key : a.snapshot.idempotency_key ≡ input.idempotency_key
  pub of_user : a.snapshot.user_id ≡ user_of input.principal
  pub lines : map bought a.snapshot.items ≡ map wanted (order_lines input.cart_id db.store)
  pub quote : IsQuote a

abbrev AddsUp : List (Product × ℕ) → ℕ → List PricedLine × ℕ → Type 0
AddsUp cart_lines subtotal (lines, sum) =
    ArePriced (map order_item lines)
    × (sum ≡ subtotal + totals (map order_item lines))
    × (map bought (map order_item lines) ≡ map wanted cart_lines)

add_money-eq : (a b : ℕ) {c : ℕ} → add_money_minor a b ≡ some c → c ≡ a + b
unfolding add_money_minor
add_money-eq a b h = ground arith

quote_lines-AddsUp :
    (now : ℕ) (lines : List (Product × ℕ)) (subtotal : ℕ) (db : PaymentDatabase)
    {Q : List PricedLine × ℕ → PaymentDatabase → Type 0}
    → ((q : List PricedLine × ℕ) → AddsUp lines subtotal q → Q q db)
    → Yields (quote_lines now lines subtotal) db Q
unfolding quote_lines order_item
quote_lines-AddsUp now [] subtotal db k = by_pure _ (k ([], subtotal) (tt, omega arith, refl))
quote_lines-AddsUp now ((p, n) ∷ lines) subtotal db k = by_then (
    by_require _ _ λ sold. by_bind (
      by_lookup _ _ λ total priced. by_bind (
        by_lookup _ _ λ sum added. by_bind (
          quote_lines-AddsUp now lines sum db λ (rest, all) (are, sums, same). by_pure _ (
            k (record { product = p; amount = n; line_total_minor = total } ∷ rest, all)
              (
                (priced, are),
                omega (arith, sums, add_money-eq subtotal total added),
                ap (λ z. (p.id, n) ∷ z) same,
              ))))))

discounted : (b : Bool) → is_first_purchase (if b then first_purchase else no_discount) ≡ b
discounted true = refl
discounted false = refl

price_of :
    (lines : List PricedLine) (subtotal : ℕ) (b : Bool) (pricing : CheckoutPricing)
    → subtotal ≡ 0 + totals (map order_item lines)
    → calculate_checkout_pricing subtotal b ≡ some pricing
    → IsPriceOf
        (totals (map order_item lines))
        (is_first_purchase (if b then first_purchase else no_discount))
        pricing
price_of lines subtotal b pricing sums priced =
    let s : subtotal ≡ totals (map order_item lines) = omega (arith, sums) in
    subst₂ (λ n d. IsPriceOf n d pricing) s (sym (discounted b))
      (pricing-IsPriceOf subtotal b priced)

find_draft-id :
    (i : ℕ) (rows : List CheckoutDraft) (d : CheckoutDraft) → find_draft i rows ≡ some d → d.id ≡ i
unfolding find_draft
find_draft-id i [] d h = absurd (ground arith)
find_draft-id i (x ∷ rows) d h = ground (arith, find_draft-id i rows d)

module _ (hash_request : AttemptRequest → ℕ) (hash_capability : String → ℕ)
    (input : PreparePaymentAttempt) (now attempt_id : ℕ) where
  quote_attempt-IsNew :
      (draft : CheckoutDraft) (db : PaymentDatabase)
      → draft.id ≡ input.checkout_draft_id
      → draft.cart_id ≡ input.cart_id
      → Yields
          (quote_attempt hash_request hash_capability input now attempt_id draft)
          db
          λ a s. IsNew input attempt_id db s a
  unfolding quote_attempt new_attempt
  quote_attempt-IsNew draft db of_draft of_cart = by_bind (
      by_reads _ (
        by_then (
          by_require _ _ λ filled. by_bind (
            by_reads _ (
              by_then (
                by_require _ _ λ known. by_bind (
                  by_reads _ (
                    by_bind (
                      quote_lines-AddsUp now _ 0 db λ (lines, subtotal) (are, sums, same). by_bind (
                        apply_discount_for-Yields input.principal db λ b granted. by_bind (
                          by_lookup _ _ λ pricing priced. by_then (
                            by_modify _ (
                              by_then (
                                by_modify _ (
                                  by_then (
                                    by_require _ _ λ consistent. by_pure _ (record {
                                      stored = refl;
                                      shop = refl;
                                      drafts = refl;
                                      allocations = refl;
                                      id = refl;
                                      of_draft = of_draft;
                                      of_key = refl;
                                      of_user = refl;
                                      lines =
                                          subst
                                            (λ c.
                                              map bought (map order_item lines)
                                              ≡ map wanted (order_lines c db.store))
                                            of_cart same;
                                      quote = record {
                                        status = refl;
                                        priced = are;
                                        price = price_of lines subtotal b pricing sums priced;
                                      };
                                    })))))))))))))))))

  replay_or-IsNew :
      (o : Option PaymentAttempt) (draft : CheckoutDraft) (db : PaymentDatabase) (hash : ℕ)
      → draft.id ≡ input.checkout_draft_id
      → draft.cart_id ≡ input.cart_id
      → Yields
          (replay_or hash_request hash_capability input now attempt_id o hash
            (quote_attempt hash_request hash_capability input now attempt_id draft))
          db
          λ a s. ((o ≡ some a) × (s ≡ db)) ⊎ ((o ≡ none) × IsNew input attempt_id db s a)
  unfolding same_attempt
  replay_or-IsNew none draft db hash of_draft of_cart =
      by_call (quote_attempt-IsNew draft db of_draft of_cart) λ a s new. inr (refl, new)
  replay_or-IsNew (some a) draft db hash of_draft of_cart =
      by_then
        (by_require _ _ λ sealed. by_then (by_require _ _ λ same. by_pure _ (inl (refl, refl))))

  -- What a request leaves: the attempt that was stored for its draft under its key, or a new one.
  abbrev pub IsPrepared : PaymentDatabase → PaymentAttempt → PaymentDatabase → Type 0
  IsPrepared db a db' =
      let before = find_attempt_of_key input.checkout_draft_id input.idempotency_key db.attempts in
      ((before ≡ some a) × (db' ≡ db)) ⊎ ((before ≡ none) × IsNew input attempt_id db db' a)

  prepare-IsPrepared :
      (db : PaymentDatabase)
      → Yields (prepare hash_request hash_capability input now attempt_id) db (IsPrepared db)
  unfolding prepare
  prepare-IsPrepared db = by_bind (
      open_draft-Yields hash_request hash_capability input now attempt_id db λ draft found of_cart.
        by_bind (
          by_reads _ (
            let own : draft.id ≡ input.checkout_draft_id = find_draft-id _ db.drafts draft found in
            by_call (replay_or-IsNew _ draft db _ own (ground arith)) λ a s outcome.
              subst
                (λ d.
                  ((find_attempt_of_key d input.idempotency_key db.attempts ≡ some a) × (s ≡ db))
                  ⊎ ((find_attempt_of_key d input.idempotency_key db.attempts ≡ none)
                      × IsNew input attempt_id db s a))
                own outcome)))

  -- A payment that is prepared is the one that its draft has under the key of the request, and then
  -- no table changes. Or the draft has none under this key, and the payment is a new one: it is added
  -- to the attempts, under its own id and for the draft, the key and the user of the request; its
  -- items are the lines of the draft's cart; each of them costs its amount at its price, their totals
  -- make up the subtotal, and what is to pay is the subtotal, less 6 % where the discount on the first
  -- purchase is granted, and 5 euros of shipping, within the money bound. Carts, products, orders,
  -- users, drafts and allocations stay.
  pub prepare_quotes :
      (db : PaymentDatabase) {a : PaymentAttempt} {db' : PaymentDatabase}
      → prepare hash_request hash_capability input now attempt_id db ≡ ok (a, db')
      → IsPrepared db a db'
  prepare_quotes db {a} {db'} h = (prepare-IsPrepared db).holds a db' h
