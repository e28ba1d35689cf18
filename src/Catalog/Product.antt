-- ===== src/Catalog/Product.antt =====
-- The columns of the table "Product" (apps/api/prisma/schema.prisma) that the cart and the orders
-- select, grouped as the types `ProductAmountRules` and `PublicProductEligibility` group them;
-- `ProductDetails` holds those that are only shown. An id is a UUID, a number of 128 bits.
use hop_and_barley_store.Prelude.{ℕ, Option, String}
use hop_and_barley_store.Catalog.Amount.{ProductAmountRules, PublicProductEligibility}

pub data AmountUnit : Type 0 where
  milligram each : AmountUnit

pub record ProductDetails : Type 0 where
  pub amount_unit : AmountUnit
  pub image_path : String
  pub kit_yield_volume_ml : Option ℕ
  pub name : String
  pub package_net_weight_mg : Option ℕ
  pub price_qualifier : String

pub record Product : Type 0 where
  pub id : ℕ
  pub slug : String
  pub currency : String
  pub price_minor : ℕ
  pub price_basis_amount : ℕ
  pub stock_amount : ℕ
  pub rules : ProductAmountRules
  pub eligibility : PublicProductEligibility
  pub details : ProductDetails
