-- ===== src/Lib.antt =====
-- Hop and Barley: a shop for brewing goods. This library models the part of the API (apps/api/src)
-- that keeps carts, prices them, places orders, takes payments and guards access, and proves what it
-- promises.
--
-- The parts and the files that model them:
--   Catalog.Amount: apps/api/src/catalog/product-amount.ts and product-public-eligibility.ts, the
--     amounts that may be ordered, the line totals, and the time in which a product is on sale.
--   Catalog.Product, Store, Store.Items: the tables of apps/api/prisma/schema.prisma that the
--     services read and write, each the list of its rows in the order of their creation.
--   Store.Transaction: what a service does in one transaction, a function of the tables that throws
--     or returns; a throw leaves the tables as they were.
--   Store.Thrown, Store.Retry: apps/api/src/cart/cart-transaction.ts, orders/order-transaction.ts and
--     `serializable` of auth/session/session.service.ts, the loops that run a transaction again.
--   Checkout.Pricing: apps/api/src/checkout/checkout-pricing.ts. Checkout.Drafts: the table of the
--     checkout drafts and apps/api/src/checkout/checkout-capability-token.ts.
--   Cart.Readiness: apps/api/src/cart/checkout-readiness.ts, the outcome of a line.
--   Cart.Dto, Cart.Service, Cart.Read, Cart.Account: apps/api/src/cart/cart.service.ts, in this order
--     what a client is shown, the operations on a cart, the reads, and the operations that find, make
--     and merge carts. Cart.Calls is a history of calls, and Cart.Invariant what holds in all of them.
--   Orders.Checkout, Orders.Allocation, Orders.Service: apps/api/src/orders/orders.service.ts, the
--     request, the allocation of stock, and `create`. Orders.Status: orders/order-status.ts.
--   Payments, with Attempts, Claims and Allocations: the tables of the payments. A transaction over
--     them has the type T; Payments.Action has the steps from which it is built, and Payments.Yields
--     a rule for each of them, by which the proofs follow the code.
--   Payments.Prepare, Service, Matching: apps/api/src/payments/payment-attempt.service.ts, the
--     preparation of an attempt, its changes of status, and the comparison of its order with it.
--   Payments.Stripe and its children: apps/api/src/payments/stripe-payment.service.ts. Inventory
--     takes stock and gives it back, Outcomes is what a payment intent brings about, Webhook the
--     events, Calls and Start the calls that send requests to Stripe between their transactions.
--   Payments.Ledger: what is free and what is committed of each product. Payments.History: any
--     sequence of committed transactions of the payments.
--   Auth.RateLimiter, Auth.Password, Auth.Session: apps/api/src/auth/login-rate-limiter.ts,
--     registration-rate-limiter.ts, password/password-hash-executor.ts and session/session.service.ts.
--   Tests runs the model on a small shop.
-- The services share the tables: the cart service refuses a cart from which an order was placed, the
-- orders service takes the lines from the cart and leaves it without an owner, a payment attempt
-- keeps the price and the lines of a draft's cart, from which the webhook places the order, and all
-- take amounts, prices and outcomes from the modules above.
--
-- Numbers are natural: amounts, prices and times of the tables and of validated requests are integers
-- that are not negative, and the tests of the source for other values are left out. A test of a time
-- against `now - x` is written with `x` on the other side. Ids and digests are numbers. The retry
-- loops recurse on the eight attempts they have; nothing else needs a bound.
--
-- A transaction of the payments is the function that the source hands to `runCartSerializable`. Locks
-- only order the transactions: a lock is modelled by what it throws when it finds no row. A call that
-- runs several transactions (Payments.Stripe.Calls) keeps what they have committed also when it
-- throws. The items of an attempt stand in the order of their product ids. The unique indexes of the
-- payment tables are not modelled.
--
-- Parameters stand for what the source calls and does not define: the digest of a token or a request,
-- the form of a session token and of a UUID, `trim`, `toLowerCase`, `slice`, `localeCompare`, SHA-256,
-- the text of an id, the clock, random tokens and ids, the host of a transaction, the random delay,
-- and the requests to Stripe (payments/stripe-gateway.service.ts), which answer anything or throw. The
-- cart service does not read the payments' tables: of which carts the draft has a payment attempt,
-- so that the database refuses to delete the cart, is an argument of the merge.
-- What other requests do between two steps of one call outside a transaction is an arbitrary function
-- of the tables in the cart and session services; the calls of Payments.Stripe are sequences of their
-- own transactions.
--
-- Not modelled: the service that saves checkout drafts and quotes them, the library of Stripe and the
-- requests to it, the guards and controllers, login and registration, catalog queries, and the web
-- client.
pub mod Prelude
pub mod Catalog
pub mod Checkout
pub mod Store
pub mod Cart
pub mod Orders
pub mod Payments
pub mod Auth
mod Tests
