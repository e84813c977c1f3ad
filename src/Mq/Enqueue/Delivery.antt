-- ===== src/Mq/Enqueue/Delivery.antt =====
-- internal/mq/p1_async.go: what a message carries, and what is left when its production fails.
use seckill.Stores.Call.{answered}
use seckill.Errors.{Error, err}
use seckill.Order.Statements.{PlaceOrderRequest}
use seckill.Mq.Enqueue.{enqueue_order, Queue, order_created}
use seckill.Prelude.{ℤ, ℕ, ◌≡◌, some, ◌≤ℤ◌, pos, ◌∷◌, ◌-ℤ◌, int_laws, ◌+ℤ◌, arith}
use seckill.Deduct.Stock.{StockKey, whole}
use seckill.Stores.Keyspace.{Keyspace, number_at}
use seckill.Stores.Call.{answer_lost}

module _ (R : Keyspace StockKey ℤ) where
  -- `EnqueueOrder` of a quantity that Redis covers, whose message reaches the broker while the answer
  -- is lost: the caller sees the error, the broker holds the message, and the stock is given back as if there were no message.
  pub lost_ack_gives_back :
      (req : PlaceOrderRequest) (at : ℕ) (q : Queue R) (stock : ℤ) (e : Error)
      → R.get q.redis (whole req.product_id) ≡ some stock
      → req.quantity ≤ℤ stock
      → pos 1 ≤ℤ req.quantity
      → let (q', r) = enqueue_order R answered (answer_lost e) answered req at q in
        (r ≡ err e)
        × (q'.messages ≡ order_created req at ∷ q.messages)
        × (number_at R q'.redis (whole req.product_id) ≡ stock)
  unfolding enqueue_order
  lost_ack_gives_back req at q stock e there enough positive =
      let left : pos 0 ≤ℤ (stock -ℤ req.quantity) = omega int_laws in
      let first = R.get-put_self q.redis (whole req.product_id) (stock -ℤ req.quantity) in
      let t = R.put q.redis (whole req.product_id) (stock -ℤ req.quantity) in
      let second =
        R.get-put_self t (whole req.product_id) (stock -ℤ req.quantity +ℤ req.quantity) in
      let back : stock -ℤ req.quantity +ℤ req.quantity ≡ stock = omega int_laws in ground arith
