-- ===== src/Stores/Database.antt =====
-- The two tables of migrations/*.sql as an interface: a row of `products` is read and written by its
-- id, and the rows of `orders` are a list.
use seckill.Prelude.{ℕ, ◌≡◌, ◌≢◌, Option, some, List, String, ℤ}

pub data Status : Type 0 where
  created paid closed : Status

pub record Product : Type 0 where
  pub name : String
  pub stock : ℤ
  pub version : ℕ

pub record Order : Type 0 where
  pub id : ℤ
  pub product_id : ℤ
  pub user_id : ℤ
  pub request_id : String
  pub quantity : ℤ
  pub status : Status
  pub created_at : ℕ

pub record Database : Type 1 where
  pub Db : Type 0
  pub product : Db → ℤ → Option Product
  pub put_product : Db → ℤ → Product → Db
  pub orders : Db → List Order
  pub put_orders : Db → List Order → Db
  pub product-put_self : (d : Db) (i : ℤ) (p : Product) → product (put_product d i p) i ≡ some p
  pub product-put_ne :
      (d : Db) (j i : ℤ) (p : Product) → j ≢ i → product (put_product d i p) j ≡ product d j
  pub product-put_orders :
      (d : Db) (os : List Order) (i : ℤ) → product (put_orders d os) i ≡ product d i
  pub orders-put_orders : (d : Db) (os : List Order) → orders (put_orders d os) ≡ os
  pub orders-put_product : (d : Db) (i : ℤ) (p : Product) → orders (put_product d i p) ≡ orders d
