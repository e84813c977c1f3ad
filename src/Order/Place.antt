-- ===== src/Order/Place.antt =====
-- internal/order/order.go: `PlaceOrderTx`. The first read of the transaction is of its snapshot, which
-- other transactions may have left behind; the locking read and the writes are of the tables as
-- they are, and nobody else writes the row until the commit.
pub mod Outcome
pub mod Safety
use seckill.Prelude.{Option, none, some, ltb_ℤ, ℤ, pos}
use seckill.Errors.{
  Error, Result, ok, err, ◌>>=◌, ◌>>◌, check, raise_if, sentinel, order_insufficient_stock, no_rows,
}
use seckill.Stores.Call.{Fate, answered, not_made, answer_lost}
use seckill.Stores.Database.{Order, Database}
use seckill.Order.Statements.{
  PlaceOrderRequest, Env, at_begin, at_find, at_select, at_update, at_insert, at_reread, find_order,
  validate_request, new_order, select_product, take_stock, insert_order,
}

-- How the statements end: the order is there already, or it was inserted, or another transaction
-- inserted it first.
pub data Ending (Db : Type 0) : Type 0 where
  replayed : Order → Ending Db
  placed : Order → Db → Ending Db
  raced : Ending Db

module _ (D : Database) where
  -- the INSERT, by its outcome, and the UPDATE after it
  inserted : Env → PlaceOrderRequest → Order → Option D.Db → Result (Ending D.Db)
  unfolding take_stock
  inserted env req o none = ok raced
  inserted env req o (some d) =
      check (env.down at_update) >> ok (placed o (take_stock D d req.product_id req.quantity))

  -- from the locking read on
  locked : Env → PlaceOrderRequest → D.Db → Result (Ending D.Db)
  unfolding select_product insert_order new_order inserted
  locked env req d = do
    check (env.down at_select)
    p ← select_product D d req.product_id
    raise_if (ltb_ℤ p.stock req.quantity) order_insufficient_stock
    id ← env.next
    check (env.down at_insert)
    inserted env req (new_order id req) (insert_order D d (new_order id req) env.now)

  -- the first read, by what it finds
  found : Env → PlaceOrderRequest → D.Db → Option Order → Result (Ending D.Db)
  unfolding locked
  found env req d (some o) = ok (replayed o)
  found env req d none = locked env req d

  body : Env → D.Db → PlaceOrderRequest → D.Db → Result (Ending D.Db)
  unfolding found find_order
  body env snapshot req d =
      check (env.down at_find) >> found env req d (find_order (D.orders snapshot) req.request_id)

  -- the query by the pool, outside the transaction
  reread : Env → PlaceOrderRequest → D.Db → Result Order
  unfolding find_order
  reread env req d = do
    check (env.down at_reread)
    elim (find_order (D.orders d) req.request_id) [ none ↦ err (sentinel no_rows) | some o ↦ ok o ]

  commits : Fate → Order → D.Db → D.Db → D.Db × Result Order
  commits answered o d d' = (d', ok o)
  commits (not_made e) o d d' = (d, err e)
  commits (answer_lost e) o d d' = (d', err e)

  ends : Env → PlaceOrderRequest → D.Db → Result (Ending D.Db) → D.Db × Result Order
  unfolding reread commits
  ends env req d (err e) = (d, err e)
  ends env req d (ok (replayed o)) = (d, ok o)
  ends env req d (ok raced) = (d, reread env req d)
  ends env req d (ok (placed o d')) = commits env.commit o d d'

  begun : Env → D.Db → PlaceOrderRequest → D.Db → Option Error → D.Db × Result Order
  unfolding ends body
  begun env snapshot req d (some e) = (d, err e)
  begun env snapshot req d none = ends env req d (body env snapshot req d)

  validated : Env → D.Db → PlaceOrderRequest → D.Db → Result (Unit {0}) → D.Db × Result Order
  unfolding begun
  validated env snapshot req d (err e) = (d, err e)
  validated env snapshot req d (ok _) = begun env snapshot req d (env.down at_begin)

  -- `PlaceOrderTx`: the tables after it, and what it returns
  unfoldable pub place_order_tx : Env → D.Db → PlaceOrderRequest → D.Db → D.Db × Result Order
  unfolding validated validate_request
  place_order_tx env snapshot req d = validated env snapshot req d (validate_request req)
