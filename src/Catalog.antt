-- ===== src/Catalog.antt =====
-- apps/api/src/catalog: the rules on amounts and prices, and the product row.
pub mod Amount
pub mod Product
