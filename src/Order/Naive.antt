-- ===== src/Order/Naive.antt =====
-- internal/order/naive.go: `PlaceOrderNaive`, whose statements other calls come between.
pub mod Race
use seckill.Prelude.{none, some, ltb_ℤ, ℤ}
use seckill.Errors.{Result, ok, err, ◌>>=◌, ◌>>◌, check, raise_if, order_insufficient_stock}
use seckill.Stores.Database.{Order, Database}
use seckill.Order.Statements.{
  PlaceOrderRequest, Env, at_select, at_update, at_insert, validate_request, new_order,
  select_product, take_stock, insert_order, duplicate_entry,
}

module _ (D : Database) where
  -- the read and the test
  unfoldable pub naive_check : Env → PlaceOrderRequest → D.Db → Result (Unit {0})
  unfolding select_product validate_request
  naive_check env req d = do
    validate_request req
    check (env.down at_select)
    p ← select_product D d req.product_id
    raise_if (ltb_ℤ p.stock req.quantity) order_insufficient_stock

  -- the two writes, each committed by itself; `id` is the clock in nanoseconds
  unfoldable pub naive_write : Env → ℤ → PlaceOrderRequest → D.Db → D.Db × Result Order
  unfolding take_stock insert_order new_order
  naive_write env id req d = elim (env.down at_update) [
    | some e ↦ (d, err e)
    | none ↦
        let d' = take_stock D d req.product_id req.quantity in
        elim (env.down at_insert) [
          | some e ↦ (d', err e)
          | none ↦ elim (insert_order D d' (new_order id req) env.now) [
            | none ↦ (d', err duplicate_entry)
            | some d'' ↦ (d'', ok (new_order id req))
          ]
        ]
  ]

  -- `PlaceOrderNaive`, the writes made at a later state of the tables than the read
  unfoldable pub place_order_naive : Env → ℤ → PlaceOrderRequest → D.Db → D.Db → D.Db × Result Order
  unfolding naive_check naive_write
  place_order_naive env id req read d = elim (naive_check env req read) [
    | err e ↦ (d, err e)
    | ok _ ↦ naive_write env id req d
  ]
