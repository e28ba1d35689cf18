-- ===== src/Cart.antt =====
-- apps/api/src/cart: the shopping cart.
pub mod Readiness
pub mod Dto
pub mod Read
pub mod Service
pub mod Account
pub mod Calls
pub mod Invariant
