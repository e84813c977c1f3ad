-- ===== src/Ports.antt =====
-- internal/ports/services.go: what the gateway, the services and the adapters between them exchange.
use seckill.Prelude.{ℕ, ℤ, String}
use seckill.Stores.Database.{Status}

pub record PlaceOrderRequest : Type 0 where
  pub request_id : String
  pub product_id : ℤ
  pub user_id : ℤ
  pub quantity : ℤ

pub record Order : Type 0 where
  pub id : ℤ
  pub product_id : ℤ
  pub user_id : ℤ
  pub request_id : String
  pub quantity : ℤ
  pub status : Status
  pub created_at : ℕ

pub record Product : Type 0 where
  pub id : ℤ
  pub name : String
  pub stock : ℤ

pub record AcceptedOrder : Type 0 where
  pub request_id : String
  pub status : ℤ
  pub accepted : ℕ
