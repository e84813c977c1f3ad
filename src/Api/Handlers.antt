-- ===== src/Api/Handlers.antt =====
-- cmd/api/main.go: the handlers of /debug that write.
use seckill.Ports
use text.Mathlib.Text.{◌==◌ as str_eq}
use seckill.Prelude.{String, Option, none, some, if◌then◌else◌, ℕ, ◌||◌}
use seckill.Errors.{
  Error, Result, ok, err, is, order_insufficient_stock, cas_retries_exhausted, lock_not_acquired,
  simulated_crash,
}
use seckill.Stores.Database.{Order}
use seckill.Order.Statements.{PlaceOrderRequest}
use seckill.Gateway.{quantity_or_one, request_id_or}

-- `approach` of POST /debug/orders/:approach
pub data Approach : Type 0 where
  pessimistic cas conditional lock lua bucket : Approach

unfoldable approach_of : String → Option Approach
approach_of a =
    if str_eq a "pessimistic"
    then some pessimistic
    else (if str_eq a "cas"
        then some cas
        else (if str_eq a "conditional"
            then some conditional
            else (if str_eq a "lock"
                then some lock
                else (if str_eq a "lua"
                    then some lua
                    else (if str_eq a "bucket" then some bucket else none)))))

-- The answers of these handlers: an order; a request id with `accepted`, or with `crashed`.
pub data Answer : Type 0 where
  order_answer : Order → Answer
  accepted_answer crashed_answer : String → Answer
  error_answer : Error → Answer
  unknown_approach : String → Answer

-- the status and the answer of POST /debug/orders/:approach, by the result of the approach
unfoldable debug_order_answer : Result Order → ℕ × Answer
debug_order_answer (ok o) = (200, order_answer o)
debug_order_answer (err e) =
    if is e order_insufficient_stock
    then (409, error_answer e)
    else (if is e cas_retries_exhausted || is e lock_not_acquired
        then (409, error_answer e)
        else (500, error_answer e))

-- the end of POST /debug/orders/async-ledger, by the error of `EnqueueWithLedger`
unfoldable pub ledger_answer : String → Option Error → ℕ × Answer
ledger_answer request_id none = (202, accepted_answer request_id)
ledger_answer request_id (some e) =
    if is e simulated_crash
    then (500, crashed_answer request_id)
    else (if is e order_insufficient_stock then (409, error_answer e) else (500, error_answer e))

-- the request of a body, once it has an id
unfoldable pub order_request : Ports.PlaceOrderRequest → String → PlaceOrderRequest
unfolding quantity_or_one
order_request body request_id = record {
  request_id = request_id;
  product_id = body.product_id;
  user_id = body.user_id;
  quantity = quantity_or_one body.quantity;
}

module _ {S : Type 0} where
  ran : S × Result Order → S × (ℕ × Answer)
  unfolding debug_order_answer
  ran (s, r) = (s, debug_order_answer r)

  approached :
      (Approach → PlaceOrderRequest → S → S × Result Order)
      → String
      → PlaceOrderRequest
      → Option Approach
      → S
      → S × (ℕ × Answer)
  unfolding ran
  approached run name req none s = (s, (400, unknown_approach name))
  approached run name req (some a) s = ran (run a req s)

  debug_named :
      (Approach → PlaceOrderRequest → S → S × Result Order)
      → String
      → Ports.PlaceOrderRequest
      → Result String
      → S
      → S × (ℕ × Answer)
  unfolding approached order_request approach_of
  debug_named run name body (err e) s = (s, (500, error_answer e))
  debug_named run name body (ok request_id) s =
      approached run name (order_request body request_id) (approach_of name) s

  -- POST /debug/orders/:approach, with the functions that its `switch` calls; `next` is what `NextID`
  -- returns, as a string
  unfoldable debug_orders :
      (Approach → PlaceOrderRequest → S → S × Result Order)
      → String
      → Result String
      → Result Ports.PlaceOrderRequest
      → S
      → S × (ℕ × Answer)
  unfolding debug_named request_id_or
  debug_orders run name next (err e) s = (s, (400, error_answer e))
  debug_orders run name next (ok body) s =
      debug_named run name body (request_id_or next body.request_id) s
