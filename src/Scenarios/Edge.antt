-- ===== src/Scenarios/Edge.antt =====
-- The theorems on the gateway, the wire, the consumer and the gate at concrete inputs.
use seckill.Overload.Admission.{new_admission}
use seckill.Overload.TokenBucket.{new_token_bucket}
use seckill.Api.Gate.{Doors, overload_gate, slot, Door, overload_gate-Door}
use seckill.Api.Consumer.{processed, Turn, consume_batch, consume_batch_skips}
use seckill.Gateway.Placed.{post_orders, Answers, post_orders-Answers}
use seckill.Gateway.Same.{place_order_async_same}
use seckill.Adapter.Rpc.Hops.{FromContext, rpc_errors_survive}
use seckill.Ports
use seckill.Adapter.Code
use seckill.Errors.{
  Error, Result, is, canceled, deadline_exceeded, sentinel, driver, ok, err,
  port_insufficient_stock, port_reservation_not_found, port_reservation_conflict,
  port_invalid_quantity,
}
use seckill.Prelude.{
  ℕ, if◌then◌else◌, none, some, pos, suc, false, arith, refl, ◌≡◌, ◌∷◌, [], ◌++◌, int_laws, ◌+◌,
}
use seckill.Gateway
use seckill.Gateway.{Response, respond, bad_id}
use seckill.Scenarios.Memory.{calm, tables, ten}
use seckill.Stores.Call.{answered}
use seckill.Adapter.Rpc.{
  delivered, rpc_place_order_async, place_error, place_status, inventory_rpc_error, reserve_status,
  restore_status,
}

-- `status.FromContextError`, as its documentation has it
abbrev from_context : Error → ℕ
from_context e =
    if is e deadline_exceeded
    then Code.deadline
    else (if is e canceled then Code.canceled else Code.unknown)

from_context-FromContext : FromContext from_context
from_context-FromContext e = ground arith

rpc_errors_survive_example :
    let e = sentinel port_insufficient_stock in
    let placed = place_error (place_status from_context e) in
    let reserved = inventory_rpc_error (reserve_status from_context e) in
    let restored = inventory_rpc_error (restore_status from_context e) in
    (is placed port_insufficient_stock ≡ is e port_insufficient_stock)
    × (is reserved port_insufficient_stock ≡ is e port_insufficient_stock)
    × (is restored port_reservation_not_found ≡ is e port_reservation_not_found)
    × (is reserved port_reservation_conflict ≡ false)
    × (is reserved port_invalid_quantity ≡ false)
    × (is restored port_insufficient_stock ≡ false)
rpc_errors_survive_example =
    rpc_errors_survive from_context from_context-FromContext (sentinel port_insufficient_stock)

-- a service that counts its calls
abbrev counting : Ports.PlaceOrderRequest → ℕ → ℕ × Result Ports.AcceptedOrder
counting req n = (suc n, ok record { request_id = req.request_id; status = pos 202; accepted = n })

abbrev body : Ports.PlaceOrderRequest
body = record { request_id = "r1"; product_id = pos 1; user_id = pos 7; quantity = pos 2 }

place_order_async_same_example :
    let (t, a) = Gateway.place_order_async counting (ok "n") (ok body) 3 in
    let (u, b) =
      Gateway.place_order_async
        (rpc_place_order_async from_context delivered counting)
        (ok "n")
        (ok body)
        3 in
    (u ≡ t) × (b.status ≡ a.status)
place_order_async_same_example =
    place_order_async_same from_context from_context-FromContext counting (ok "n") (ok body) 3
      (λ req s e h. cc) (omega int_laws)

post_orders-Answers_example :
    let (d', a) = post_orders tables calm ten (ok body) ten in Answers tables calm ten body ten d' a
post_orders-Answers_example = post_orders-Answers tables calm ten body ten

abbrev lost : Turn ℕ
lost = record {
  tries = λ n. record { answer = err (driver 1); cancelled = none };
  produced = some (driver 2);
  committing = answered;
}

abbrev fine : Turn ℕ
fine = record {
  tries = λ n. record { answer = ok n; cancelled = none };
  produced = none;
  committing = answered;
}

consume_batch_skips_example : consume_batch 7 ((lost ∷ []) ++ fine ∷ []) 7 ≡ suc (7 + 1)
unfolding processed
consume_batch_skips_example = consume_batch_skips 7 (lost ∷ []) fine 7 refl tt

abbrev doors : Doors ℕ
doors = record { bucket = new_token_bucket 5 1 (pos 0); door = new_admission 2 50; state = 3 }

abbrev one_more : ℕ → ℕ × Response
one_more n = (suc n, respond 200 bad_id)

overload_gate-Door_example :
    let (d', g) = overload_gate one_more (pos 0) slot doors in Door one_more doors d' g
overload_gate-Door_example = overload_gate-Door one_more (pos 0) slot doors
