-- ===== src/Gateway.antt =====
-- internal/gateway: the handlers of HTTP over the ports. What gin makes of the request is their
-- argument: the body that it binds, or its error.
pub mod Same
pub mod Placed
use seckill.Overload.Payload.{write_path_failure, DegradedPayload}
use seckill.Errors.{
  Error, Result, ok, err, is, port_insufficient_stock, port_order_not_found,
  port_cached_product_miss, port_invalid_quantity, port_product_not_found,
}
use seckill.Prelude.{ℕ, String, ℤ, if◌then◌else◌, Option, eqb_ℤ, some, pos, none, ◌||◌}
use seckill.Ports
use text.Mathlib.Text.{◌==◌ as str_eq}

-- What is sent as JSON: `error` is the error whose text is sent.
pub data Json : Type 0 where
  error : Error → Json
  payload : DegradedPayload → Json
  order_json : Ports.Order → Json
  product_json : Ports.Product → Json
  bad_id : Json
  pending accepted_json : String → Json

pub record Response : Type 0 where
  pub status : ℕ
  pub body : Json

abbrev pub respond : ℕ → Json → Response
respond c j = record { status = c; body = j }

-- the answers of http.go's `PlaceOrder`, by the result of the port
unfoldable pub place_order_answer : Result Ports.Order → Response
place_order_answer (ok o) = respond 200 (order_json o)
place_order_answer (err e) =
    if is e port_insufficient_stock
    then respond 409 (error e)
    else (if is e port_invalid_quantity || is e port_product_not_found
        then respond 400 (error e)
        else respond 500 (error e))

unfoldable pub get_order_answer : String → Result Ports.Order → Response
get_order_answer request_id (ok o) = respond 200 (order_json o)
get_order_answer request_id (err e) =
    if is e port_order_not_found then respond 202 (pending request_id) else respond 500 (error e)

unfoldable pub get_product_answer : Result Ports.Product → Response
get_product_answer (ok p) = respond 200 (product_json p)
get_product_answer (err e) =
    if is e port_cached_product_miss then respond 404 (error e) else respond 500 (error e)

-- the answers of async_http.go's `PlaceOrder`
unfoldable pub accepted_answer : Result Ports.AcceptedOrder → Response
unfolding write_path_failure
accepted_answer (ok a) = respond 202 (accepted_json a.request_id)
accepted_answer (err e) =
    if is e port_insufficient_stock
    then respond 409 (error e)
    else (let (code, p) = write_path_failure e in respond code (payload p))

-- the defaults of async_http.go's `PlaceOrder`: an id for a request that has none
unfoldable pub request_id_or : Result String → String → Result String
request_id_or next request_id = if str_eq request_id "" then next else ok request_id

-- one piece, if the quantity is missing or 0
unfoldable pub quantity_or_one : ℤ → ℤ
quantity_or_one q = if eqb_ℤ q (pos 0) then pos 1 else q

module _ {S : Type 0} where
  -- `HTTP.PlaceOrder` over an `OrderService`
  unfoldable pub place_order :
      (Ports.PlaceOrderRequest → S → S × Result Ports.Order)
      → Result Ports.PlaceOrderRequest
      → S
      → S × Response
  unfolding place_order_answer
  place_order place (err e) s = (s, respond 400 (error e))
  place_order place (ok req) s = let (t, r) = place req s in (t, place_order_answer r)

  -- `HTTP.GetOrderByRequestID`
  unfoldable pub get_order_by_request_id :
      (String → S → S × Result Ports.Order) → String → S → S × Response
  unfolding get_order_answer
  get_order_by_request_id find request_id s =
      let (t, r) = find request_id s in (t, get_order_answer request_id r)

  -- `HTTP.GetProduct`; `id` is what `strconv.ParseInt` makes of the parameter
  unfoldable pub get_product : (ℤ → S → S × Result Ports.Product) → Option ℤ → S → S × Response
  unfolding get_product_answer
  get_product get none s = (s, respond 400 bad_id)
  get_product get (some id) s = let (t, r) = get id s in (t, get_product_answer r)

  -- the rest of async_http.go's `PlaceOrder`, once the request has an id
  unfoldable pub named :
      (Ports.PlaceOrderRequest → S → S × Result Ports.AcceptedOrder)
      → Ports.PlaceOrderRequest
      → Result String
      → S
      → S × Response
  unfolding accepted_answer quantity_or_one
  named place body (err e) s = (s, respond 500 (error e))
  named place body (ok request_id) s =
      let (t, r) =
        place (record body { request_id = request_id; quantity = quantity_or_one body.quantity })
          s in
      (t, accepted_answer r)

  -- `AsyncHTTP.PlaceOrder` over an `AsyncOrderService`; `next` is what `nextRequestID` returns
  unfoldable pub place_order_async :
      (Ports.PlaceOrderRequest → S → S × Result Ports.AcceptedOrder)
      → Result String
      → Result Ports.PlaceOrderRequest
      → S
      → S × Response
  unfolding named request_id_or
  place_order_async place next (err e) s = (s, respond 400 (error e))
  place_order_async place next (ok body) s = named place body (request_id_or next body.request_id) s
