-- ===== src/Checkout.antt =====
-- apps/api/src/checkout: the price of a checkout.
pub mod Drafts
pub mod Pricing
