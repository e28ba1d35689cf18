-- ===== src/Orders.antt =====
-- apps/api/src/orders: placing an order, and the life of its status.
pub mod Checkout
pub mod Allocation
pub mod Service
pub mod Status
