-- ===== src/Scenarios/Memory.antt =====
-- Keys and tables held in memory: what the interfaces of Stores ask for can be had.
use seckill.Stores.Database.{Database, Product, Order}
use seckill.Stores.Keyspace.{Keyspace}
use seckill.Order.Statements.{PlaceOrderRequest, Env}
use seckill.Stores.Call.{answered}
use seckill.Errors.{ok}
use seckill.Deduct.Stock.{StockKey, whole}
use seckill.Prelude.{
  String, ℤ, Option, pos, ℕ_discrete, ◌≡◌, ◌≢◌, some, none, List, refl, [], string_dec,
}

pub StockKey-discrete : Discrete StockKey
StockKey-discrete = hlevel ℕ_discrete

pub ℤ-discrete : Discrete ℤ
ℤ-discrete = hlevel ℕ_discrete

abbrev pub chosen : {A V : Type 0} → Dec A → V → V → V
chosen (yes e) a b = a
chosen (no ne) a b = b

pub chosen_yes : {A W : Type 0} (d : Dec A) (a b : W) → A → chosen d a b ≡ a
chosen_yes (yes e) a b x = refl
chosen_yes (no ne) a b x = absurd (ne x)

pub chosen_no : {A W : Type 0} (d : Dec A) (a b : W) → ¬ A → chosen d a b ≡ b
chosen_no (yes e) a b x = absurd (x e)
chosen_no (no ne) a b x = refl

module _ {K V : Type 0} (dec : Discrete K) where
  abbrev pub set_key : (K → Option V) → K → Option V → K → Option V
  set_key f k v j = chosen (dec j k) v (f j)

  pub set_key_self : (f : K → Option V) (k : K) (v : Option V) → set_key f k v k ≡ v
  set_key_self f k v = chosen_yes (dec k k) v (f k) refl

  pub set_key_ne : (f : K → Option V) (j k : K) (v : Option V) → j ≢ k → set_key f k v j ≡ f j
  set_key_ne f j k v apart = chosen_no (dec j k) v (f j) apart

  abbrev pub memory : Keyspace K V
  memory = record {
    State = K → Option V;
    get = λ s k. s k;
    put = λ s k v. set_key s k (some v);
    del = λ s k. set_key s k none;
    get-put_self = λ s k v. set_key_self s k (some v);
    get-put_ne = λ s j k v ne. set_key_ne s j k (some v) ne;
    get-del_self = λ s k. set_key_self s k none;
    get-del_ne = λ s j k ne. set_key_ne s j k none ne;
  }

abbrev pub stocks : Keyspace StockKey ℤ
stocks = memory StockKey-discrete

abbrev pub by_request : (V : Type 0) → Keyspace String V
by_request V = memory string_dec

-- The two tables.
pub record Tables : Type 0 where
  pub products : ℤ → Option Product
  pub rows : List Order

abbrev pub tables : Database
tables = record {
  Db = Tables;
  product = λ d i. d.products i;
  put_product = λ d i p. record d { products = set_key ℤ-discrete d.products i (some p) };
  orders = λ d. d.rows;
  put_orders = λ d os. record d { rows = os };
  product-put_self = λ d i p. set_key_self ℤ-discrete d.products i (some p);
  product-put_ne = λ d j i p ne. set_key_ne ℤ-discrete d.products j i (some p) ne;
  product-put_orders = λ d os i. refl;
  orders-put_orders = λ d os. refl;
  orders-put_product = λ d i p. refl;
}

abbrev pub phone : Product
phone = record { name = "phone"; stock = pos 10; version = 0 }

-- One product with ten pieces, and nothing sold.
abbrev pub ten : Tables
ten = tables.put_product (record { products = λ i. none; rows = [] }) (pos 1) phone

pub ten-phone : tables.product ten (pos 1) ≡ some phone
ten-phone = tables.product-put_self (record { products = λ i. none; rows = [] }) (pos 1) phone

-- A request, a call on which nothing fails, and five pieces in Redis.
abbrev pub buy_two : PlaceOrderRequest
buy_two = record { request_id = "r1"; product_id = pos 1; user_id = pos 7; quantity = pos 2 }

abbrev pub calm : Env
calm = record { down = λ x. none; commit = answered; next = ok (pos 5); now = 3 }

abbrev pub empty : stocks.State
empty = λ k. none

abbrev pub five : stocks.State
five = stocks.put empty (whole (pos 1)) (pos 5)
