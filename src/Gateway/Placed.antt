-- ===== src/Gateway/Placed.antt =====
-- cmd/api/main.go's POST /orders: internal/gateway/http.go over internal/adapter/inprocess over
-- internal/order.
use seckill.Stores.Call.{answer_lost}
use seckill.Order.Place.Outcome.{place_order_tx-Outcome, Outcome, Sale}
use seckill.Prelude.{◌≡◌, ◌≢◌, arith, some, ◌⊎◌, refl}
use seckill.Order.Place.{place_order_tx}
use seckill.Adapter.Inprocess.{to_order_request, to_port_order}
use seckill.Gateway.{place_order_answer, respond, order_json}
use seckill.Errors.{Result, ok, Error, err}
use seckill.Order.Statements.{Env, find_order}
use seckill.Stores.Database.{Database}
use seckill.Stores.Database.{Order}
use seckill.Ports
use seckill.Gateway
use seckill.Adapter.Inprocess

module _ (D : Database) (env : Env) (snapshot : D.Db) where
  -- the injected function of `main`
  unfoldable pub order_port : Ports.PlaceOrderRequest → D.Db → D.Db × Result Ports.Order
  unfolding Inprocess.place_order place_order_tx to_order_request
  order_port req d =
      let (d', r) = place_order_tx D env snapshot (to_order_request req) d in
      (d', Inprocess.place_order r)

  -- POST /orders, behind the gate
  unfoldable pub post_orders : Result Ports.PlaceOrderRequest → D.Db → D.Db × Gateway.Response
  unfolding Gateway.place_order order_port
  post_orders body d = Gateway.place_order order_port body d

  -- The answer 200 comes with an order that this call sold, or that is there already; any other
  -- answer comes with nothing changed, or with a sale whose commit was not heard of.
  pub data Answers (req : Ports.PlaceOrderRequest) (d d' : D.Db) (a : Gateway.Response)
      : Type 0 where
    sells_it :
        (o : Order)
        → a ≡ respond 200 (order_json (to_port_order o))
        → Sale D env (to_order_request req) d d' o
        → Answers req d d' a
    has_it :
        (o : Order)
        → a ≡ respond 200 (order_json (to_port_order o))
        → d' ≡ d
        → (find_order (D.orders snapshot) req.request_id ≡ some o)
          ⊎ (find_order (D.orders d) req.request_id ≡ some o)
        → Answers req d d' a
    refuses_it : a.status ≢ 200 → d' ≡ d → Answers req d d' a
    unsure :
        (o : Order) (e : Error)
        → a.status ≢ 200
        → env.commit ≡ answer_lost e
        → Sale D env (to_order_request req) d d' o
        → Answers req d d' a

  answer-err : (e : Error) → (place_order_answer (Inprocess.place_order (err e))).status ≢ 200
  unfolding place_order_answer Inprocess.place_order
  answer-err e = ground arith

  answer-ok :
      (o : Order)
      → place_order_answer (Inprocess.place_order (ok o))
        ≡ respond 200 (order_json (to_port_order o))
  unfolding place_order_answer Inprocess.place_order
  answer-ok o = refl

  Outcome-Answers :
      (req : Ports.PlaceOrderRequest) (d d' : D.Db) (r : Result Order)
      → Outcome D env (to_order_request req) snapshot d d' r
      → Answers req d d' (place_order_answer (Inprocess.place_order r))
  unfolding to_order_request
  Outcome-Answers req d d' r (Outcome.fails e failed same) =
      rw failed (refuses_it (answer-err e) same)
  Outcome-Answers req d d' r (Outcome.replays o got same there) =
      rw got (has_it o (answer-ok o) same there)
  Outcome-Answers req d d' r (Outcome.sells o got sale) = rw got (sells_it o (answer-ok o) sale)
  Outcome-Answers req d d' r (Outcome.sells_unseen o e failed lost sale) =
      rw failed (unsure o e (answer-err e) lost sale)

  -- POST /orders with a body that binds, however old the snapshot and whatever fails: an answer 200
  -- carries an order that the call sold or that is in the tables already; any other answer means that
  -- nothing changed, or that the answer to the commit was lost.
  pub post_orders-Answers :
      (req : Ports.PlaceOrderRequest) (d : D.Db)
      → let (d', a) = post_orders (ok req) d in Answers req d d' a
  unfolding post_orders
  post_orders-Answers req d =
      Outcome-Answers req d _ _ (place_order_tx-Outcome D env (to_order_request req) snapshot d)
