-- ===== src/Mq/Enqueue.antt =====
-- internal/mq/p1_async.go: `EnqueueOrder`, which takes the stock in Redis and produces a message.
pub mod Delivery
use seckill.Errors.{Result, err, ok}
use seckill.Stores.Database.{Database, Order}
use seckill.Stores.Call.{Fate, not_made, answer_lost, answered}
use seckill.Order.Place.{place_order_tx}
use seckill.Deduct.Stock.{StockKey, rollback_pre_deduct, pre_deduct, whole}
use seckill.Stores.Keyspace.{Keyspace}
use seckill.Order.Statements.{PlaceOrderRequest, Env}
use seckill.Prelude.{String, ℤ, ℕ, List, ◌∷◌}

-- `OrderCreated`
pub record OrderCreated : Type 0 where
  pub request_id : String
  pub product_id : ℤ
  pub user_id : ℤ
  pub quantity : ℤ
  pub accepted_at : ℕ

-- the message of a request
unfoldable pub order_created : PlaceOrderRequest → ℕ → OrderCreated
order_created req at = record {
  request_id = req.request_id;
  product_id = req.product_id;
  user_id = req.user_id;
  quantity = req.quantity;
  accepted_at = at;
}

-- `RequestFromRecord`, of a message that decodes
unfoldable pub request_from_record : OrderCreated → PlaceOrderRequest
request_from_record m = record {
  request_id = m.request_id;
  product_id = m.product_id;
  user_id = m.user_id;
  quantity = m.quantity;
}

module _ (R : Keyspace StockKey ℤ) where
  -- The messages that the broker holds are a list; `published` is the fate of `ProduceSync`.
  pub record Queue : Type 0 where
    pub redis : R.State
    pub messages : List OrderCreated

  publish :
      Fate
      → Fate
      → PlaceOrderRequest
      → ℕ
      → List OrderCreated
      → R.State × Result ℤ
      → Queue × Result (Unit {0})
  unfolding order_created rollback_pre_deduct
  publish published undo req at q (s, err e) = (record { redis = s; messages = q }, err e)
  publish answered undo req at q (s, ok left) =
      (record { redis = s; messages = order_created req at ∷ q }, ok tt)
  publish (not_made e) undo req at q (s, ok left) =
      let (t, _) = rollback_pre_deduct R undo (whole req.product_id) req.quantity s in
      (record { redis = t; messages = q }, err e)
  publish (answer_lost e) undo req at q (s, ok left) =
      let (t, _) = rollback_pre_deduct R undo (whole req.product_id) req.quantity s in
      (record { redis = t; messages = order_created req at ∷ q }, err e)

  -- `EnqueueOrder`
  unfoldable pub enqueue_order :
      Fate → Fate → Fate → PlaceOrderRequest → ℕ → Queue → Queue × Result (Unit {0})
  unfolding publish pre_deduct
  enqueue_order take published undo req at q =
      publish published undo req at q.messages
        (pre_deduct R take (whole req.product_id) req.quantity q.redis)

-- `PlaceRecord`, of a message that decodes
unfoldable pub place_record :
    (D : Database) → Env → D.Db → OrderCreated → D.Db → D.Db × Result Order
unfolding place_order_tx request_from_record
place_record D env snapshot m d = place_order_tx D env snapshot (request_from_record m) d
