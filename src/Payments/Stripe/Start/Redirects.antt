-- ===== src/Payments/Stripe/Start/Redirects.antt =====
-- What stands behind a page of Stripe to which a client is sent.
use text.Mathlib.TextEquality.{eq_iff}
use hop_and_barley_store.Prelude.{
  ℕ, ◌<◌, ◌≡◌, refl, sym, ap, subst, ◌∙◌, ◌⊎◌, inl, inr, Bool, true, false, some, String, arith,
}
use hop_and_barley_store.Store.Transaction.{ok}
use hop_and_barley_store.Payments.{PaymentDatabase, T}
use hop_and_barley_store.Payments.Attempts.{PaymentAttempt, find_attempt, is_unsettled}
use hop_and_barley_store.Payments.Matching.Laws.{same_text-eq}
use hop_and_barley_store.Payments.Prepare.{AttemptRequest, prepare}
use hop_and_barley_store.Payments.Ledger.{find_attempt-id}
use hop_and_barley_store.Payments.Yields.{Yields, by_lookup}
use hop_and_barley_store.Payments.Stripe.{
  Runtime, CreatedStripeCheckout, owner_reference, session_matches_attempt,
  session_payload_matches_attempt,
}
use hop_and_barley_store.Payments.Stripe.Calls.{Gateway, ◌then_call◌, return, load_attempt}
use hop_and_barley_store.Payments.Stripe.Calls.Answers.{
  Answers, on_return, on_fail, on_answer, on_choose, on_commit, on_then, on_catch, on_option,
  on_call,
}
use hop_and_barley_store.Payments.Stripe.Start.{
  StartCheckoutInput, StripeCheckoutSession, prepare_input, checkout_snapshot, record_session,
  open_session, redirect, start_checkout,
}

-- A transaction of which only the result is used, or only its run.
by_any :
    {A : Type 0} {db : PaymentDatabase} {Q : A → PaymentDatabase → Type 0} (m : T A)
    → ((a : A) (s : PaymentDatabase) → Q a s)
    → Yields m db Q
by_any m k = record { holds = λ a s h. k a s }

by_run :
    {A : Type 0} {db : PaymentDatabase} {Q : A → PaymentDatabase → Type 0} (m : T A)
    → ((a : A) (s : PaymentDatabase) → m db ≡ ok (a, s) → Q a s)
    → Yields m db Q
by_run m k = record { holds = k }

-- A session of Stripe asks for what a payment attempt is to pay, and has not expired.
pub record AsksFor (js : Runtime) (now : ℕ) (session : CreatedStripeCheckout) (a : PaymentAttempt)
    : Type 0 where
  pub named : session.attempt_id ≡ some (js.id_text a.snapshot.id)
  pub owned : session.owner_reference ≡ some (owner_reference js a)
  pub currency : session.currency ≡ js.to_lower_case a.snapshot.currency
  pub total : session.amount_total ≡ a.snapshot.pricing.total_minor
  pub going_on : now < session.expires_at

module _ (js : Runtime) (now : ℕ) (session : CreatedStripeCheckout) (a : PaymentAttempt) where
  payload-AsksFor :
      session_payload_matches_attempt js session a now false ≡ true → AsksFor js now session a
  unfolding session_payload_matches_attempt
  payload-AsksFor h = record {
    named = same_text-eq session.attempt_id _ (ground arith);
    owned = same_text-eq session.owner_reference _ (ground arith);
    currency = (eq_iff _ _).0 (ground arith);
    total = ground arith;
    going_on = ground arith;
  }

  matching-payload :
      session_matches_attempt js session a now false ≡ true
      → session_payload_matches_attempt js session a now false ≡ true
  unfolding session_matches_attempt
  matching-payload h = ground arith

  matching-recorded :
      session_matches_attempt js session a now false ≡ true
      → a.provider_session_id ≡ some session.session_id
  unfolding session_matches_attempt
  matching-recorded h = same_text-eq a.provider_session_id _ (ground arith)

module _ (js : Runtime) (stripe : Gateway) (hash_request : AttemptRequest → ℕ)
    (attempt_id order_id now : ℕ) where
  -- Stripe holds the session of the attempt, or has made one for what the attempt asks.
  abbrev pub Answered : PaymentAttempt → CreatedStripeCheckout → Type 0
  Answered a session =
      ((id : String) × (a.provider_session_id ≡ some id)
        × (stripe.retrieve_checkout_session id ≡ some session))
      ⊎ (stripe.create_checkout_session
            (checkout_snapshot js stripe hash_request attempt_id order_id now a)
            a.snapshot.quoted_at
          ≡ some session)

  -- A redirect of `input`, which leaves the tables `db'`.
  pub record IsRedirect (input : StartCheckoutInput) (db db' : PaymentDatabase)
      (s : StripeCheckoutSession) : Type 0 where
    pub enabled : stripe.enabled ≡ true
    pub prepared : PaymentAttempt
    pub tables : PaymentDatabase
    pub run :
        prepare hash_request js.hash_capability (prepare_input input) now attempt_id db
        ≡ ok (prepared, tables)
    pub attempt : PaymentAttempt
    pub loaded : find_attempt prepared.snapshot.id tables.attempts ≡ some attempt
    pub unsettled : is_unsettled attempt.status ≡ true
    pub session : CreatedStripeCheckout
    pub answered : Answered attempt session
    pub asks : AsksFor js now session attempt
    pub last : PaymentAttempt
    pub current : (find_attempt attempt.snapshot.id db'.attempts ≡ some last) ⊎ (last ≡ attempt)
    pub recorded : last.provider_session_id ≡ some session.session_id
    pub of_attempt : s.attempt_id ≡ attempt.snapshot.id
    pub url : session.checkout_url ≡ some s.checkout_url
    pub expires_at : s.expires_at ≡ session.expires_at

  -- The attempt with which a session is recorded.
  abbrev Current :
      PaymentAttempt
      → CreatedStripeCheckout
      → CreatedStripeCheckout × PaymentAttempt
      → PaymentDatabase
      → Type 0
  Current a session (opened, last) db' =
      (opened ≡ session) × ((find_attempt a.snapshot.id db'.attempts ≡ some last) ⊎ (last ≡ a))

  loads :
      (db : PaymentDatabase) (a : PaymentAttempt) (session : CreatedStripeCheckout)
      → Answers
          (load_attempt a.snapshot.id then_call λ loaded. return (session, loaded))
          db
          (Current a session)
  unfolding load_attempt
  loads db a session = on_then (on_commit (by_lookup _ _ λ b found. on_return _ (refl, inl found)))

  record_session-Current :
      (always : Bool) (a : PaymentAttempt) (session : CreatedStripeCheckout) (db : PaymentDatabase)
      → Answers
          (record_session js stripe hash_request attempt_id order_id now always a session)
          db
          (Current a session)
  unfolding record_session
  record_session-Current always a session db = on_then (
      on_commit (
        by_any _ λ u s.
          on_option session.payment_intent_id
            (λ bare.
              on_choose always (λ again. loads s a session) λ kept. on_return _ (refl, inr refl))
            λ reference given. on_then (on_commit (by_any _ λ v t. loads t a session))))

  abbrev Opened : PaymentAttempt → CreatedStripeCheckout × PaymentAttempt → PaymentDatabase → Type 0
  Opened a (session, last) db' =
      Answered a session
      × AsksFor js now session a
      × ((find_attempt a.snapshot.id db'.attempts ≡ some last) ⊎ (last ≡ a))

  recorded-Opened :
      (always : Bool) (a : PaymentAttempt) (session : CreatedStripeCheckout) (db : PaymentDatabase)
      → Answered a session
      → AsksFor js now session a
      → Answers
          (record_session js stripe hash_request attempt_id order_id now always a session)
          db
          (Opened a)
  recorded-Opened always a session db answered asks =
      on_call (record_session-Current always a session db) λ (opened, last) t (same, current). (
        subst (Answered a) (sym same) answered,
        subst (λ x. AsksFor js now x a) (sym same) asks,
        current,
      )

  open_session-Opened :
      (a : PaymentAttempt) (db : PaymentDatabase)
      → Answers (open_session js stripe hash_request attempt_id order_id now a) db (Opened a)
  unfolding open_session
  open_session-Opened a db =
      on_option a.provider_session_id
        (λ none_yet. on_then (
          on_answer _ λ session made.
            on_choose _
              (λ ok.
                recorded-Opened true a session db (inr made) (payload-AsksFor js now session a ok))
              λ bad. on_fail _))
        λ id held. on_then (
          on_answer _ λ session told.
            on_choose _
              (λ ok.
                recorded-Opened false a session db (inl (id, held, told))
                  (payload-AsksFor js now session a (matching-payload js now session a ok)))
              λ bad. on_fail _)

  -- What `redirect` answers with.
  abbrev Leads : CreatedStripeCheckout × PaymentAttempt → StripeCheckoutSession → Type 0
  Leads (session, last) s =
      (last.provider_session_id ≡ some session.session_id)
      × (s.attempt_id ≡ last.snapshot.id)
      × (session.checkout_url ≡ some s.checkout_url)
      × (s.expires_at ≡ session.expires_at)

  redirect-Leads :
      (opened : CreatedStripeCheckout × PaymentAttempt) (db : PaymentDatabase)
      → Answers
          (redirect js stripe hash_request attempt_id order_id now opened)
          db
          λ s t. (t ≡ db) × Leads opened s
  unfolding redirect
  redirect-Leads (session, last) db =
      on_choose _
        (λ ok.
          on_option session.checkout_url (λ lost. on_fail _)
            λ url there.
              on_return _ (refl, (matching-recorded js now session last ok, refl, there, refl)))
        λ bad. on_fail _

  same_attempt_id :
      (a last : PaymentAttempt) (db : PaymentDatabase)
      → (find_attempt a.snapshot.id db.attempts ≡ some last) ⊎ (last ≡ a)
      → last.snapshot.id ≡ a.snapshot.id
  same_attempt_id a last db (inl found) = sym (find_attempt-id a.snapshot.id db.attempts last found)
  same_attempt_id a last db (inr same) = ap (λ x. x.snapshot.id) same

  start_checkout-IsRedirect :
      (input : StartCheckoutInput) (db : PaymentDatabase)
      → Answers
          (start_checkout js stripe hash_request attempt_id order_id now input)
          db
          λ s db'. IsRedirect input db db' s
  unfolding start_checkout load_attempt
  start_checkout-IsRedirect input db =
      on_choose _
        (λ enabled. on_then (
          on_commit (
            by_run _ λ p tables run. on_then (
              on_commit (
                by_lookup _ _ λ a loaded.
                  on_choose _
                    (λ unsettled. on_then (
                      on_catch
                        (on_call (open_session-Opened a tables)
                          λ (session, last) t (answered, asks, current).
                            on_call (redirect-Leads (session, last) t)
                              λ s u (same, (recorded, of_id, url, expires)). record {
                                enabled = enabled;
                                prepared = p;
                                tables = tables;
                                run = run;
                                attempt = a;
                                loaded = loaded;
                                unsettled = unsettled;
                                session = session;
                                answered = answered;
                                asks = asks;
                                last = last;
                                current =
                                    subst
                                      (λ d.
                                        (find_attempt a.snapshot.id d.attempts ≡ some last)
                                        ⊎ (last ≡ a))
                                      (sym same) current;
                                recorded = recorded;
                                of_attempt = of_id ∙ same_attempt_id a last t current;
                                url = url;
                                expires_at = expires;
                              })
                        λ e s. on_then (on_commit (by_any _ λ u t. on_fail _))))
                    λ settled. on_fail _)))))
        λ disabled. on_fail _

  -- A client is sent to a page of Stripe only when payments are enabled and `prepare` has answered an
  -- attempt, under whose id an unsettled one is stored: Stripe has answered with a session, the one
  -- that this attempt has or one made for what it asks, the session names the attempt and its owner,
  -- asks for its total in its currency and has not expired, and it is recorded as the session of the
  -- attempt, in the tables that the call leaves or already in those it found. The page is that of the
  -- session.
  pub start_checkout_redirects :
      (input : StartCheckoutInput) (db : PaymentDatabase) (s : StripeCheckoutSession)
      → (start_checkout js stripe hash_request attempt_id order_id now input db).0 ≡ ok s
      → IsRedirect input db
          (start_checkout js stripe hash_request attempt_id order_id now input db).1
          s
  start_checkout_redirects input db s = (start_checkout-IsRedirect input db).holds s
