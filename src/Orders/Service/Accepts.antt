-- ===== src/Orders/Service/Accepts.antt =====
-- When `OrdersService.create` places an order.
pub mod Lines
pub mod Stock
pub mod Placing
