-- ===== src/Deduct/PreDeduct.antt =====
-- internal/deduct/prededuct.go: `PlaceOrderWithPreDeduct`, which takes the stock in Redis, writes the
-- tables, and gives the stock back if that fails.
pub mod Identity
use seckill.Prelude.{Option, none, some, ℤ}
use seckill.Errors.{Error, Result, ok, err, ◌>>=◌, ◌>>◌, check}
use seckill.Stores.Call.{Fate}
use seckill.Stores.Keyspace.{Keyspace}
use seckill.Stores.Database.{Order, Database}
use seckill.Order.Statements.{
  PlaceOrderRequest, Env, at_update, validate_request, take_stock, transact, insert_order_tx,
}
use seckill.Deduct.Stock.{StockKey, whole, pre_deduct, rollback_pre_deduct}

module _ (D : Database) where
  -- the statements of the transaction: the UPDATE, which tests nothing, and the INSERT
  unfoldable pub sell_body : Env → PlaceOrderRequest → D.Db → Result (Order × D.Db)
  unfolding take_stock insert_order_tx
  sell_body env req d = do
    check (env.down at_update)
    insert_order_tx D env req (take_stock D d req.product_id req.quantity)

  unfoldable pub sell : Env → PlaceOrderRequest → D.Db → D.Db × Result Order
  unfolding transact sell_body
  sell env req d = transact D env (sell_body env req) d

module _ (R : Keyspace StockKey ℤ) (D : Database) where
  -- what the call leaves: the stock in Redis, the tables, and the result
  pub record After : Type 0 where
    pub redis : R.State
    pub db : D.Db
    pub result : Result Order

  -- an error of the transaction is answered by giving the stock back at a key
  unfoldable pub compensate :
      Fate → StockKey → PlaceOrderRequest → R.State → D.Db × Result Order → After
  unfolding rollback_pre_deduct
  compensate undo k req s (d, ok o) = record { redis = s; db = d; result = ok o }
  compensate undo k req s (d, err e) = record {
    redis = (rollback_pre_deduct R undo k req.quantity s).0;
    db = d;
    result = err e;
  }

  after_deduct : Env → Fate → PlaceOrderRequest → D.Db → R.State × Result ℤ → After
  unfolding compensate sell
  after_deduct env undo req d (s, err e) = record { redis = s; db = d; result = err e }
  after_deduct env undo req d (s, ok left) =
      compensate undo (whole req.product_id) req s (sell D env req d)

  after_valid : Env → Fate → Fate → PlaceOrderRequest → R.State → D.Db → Result (Unit {0}) → After
  unfolding after_deduct pre_deduct
  after_valid env take undo req s d (err e) = record { redis = s; db = d; result = err e }
  after_valid env take undo req s d (ok _) =
      after_deduct env undo req d (pre_deduct R take (whole req.product_id) req.quantity s)

  -- `PlaceOrderWithPreDeduct`; `take` and `undo` are the fates of the two calls to Redis
  unfoldable pub place_order_with_pre_deduct :
      Env → Fate → Fate → PlaceOrderRequest → R.State → D.Db → After
  unfolding after_valid validate_request
  place_order_with_pre_deduct env take undo req s d =
      after_valid env take undo req s d (validate_request req)
