-- ===== src/Gateway/Same.antt =====
-- internal/gateway/async_http.go over internal/adapter: the client of the gateway cannot tell whether
-- the order service is in the process or behind gRPC.
use seckill.Overload.Payload.{write_path_failure}
use seckill.Adapter.Rpc.{
  place_error, place_status, proto_request, receive, serve, accepted_proto, rpc_place_order_async,
  delivered, rpc, serve_place_order_async,
}
use seckill.Adapter.Int32.{FitsInt32, to_int32-id}
use seckill.Gateway.{accepted_answer, quantity_or_one, place_order_async, named, request_id_or}
use seckill.Adapter.Rpc.Hops.{FromContext}
use seckill.Prelude.{ℕ, ◌≡◌, false, arith, ap, ℤ, String, refl}
use seckill.Errors.{Error, Result, ok, err, is, rate_limited}
use seckill.Ports

proto_request-id :
    (req : Ports.PlaceOrderRequest) → FitsInt32 req.quantity → proto_request req ≡ req
unfolding proto_request
proto_request-id req h = ap (λ q. record req { quantity = q }) (to_int32-id req.quantity h)

quantity_or_one-FitsInt32 : (q : ℤ) → FitsInt32 q → FitsInt32 (quantity_or_one q)
unfolding quantity_or_one
quantity_or_one-FitsInt32 q h = ground arith

module _ (from_context : Error → ℕ) (documented : FromContext from_context) {S : Type 0}
    (place : Ports.PlaceOrderRequest → S → S × Result Ports.AcceptedOrder) where
  -- The service itself does not report the limit on the rate, which the gateway tests before.
  abbrev pub Unlimited : Type 0
  Unlimited =
      (req : Ports.PlaceOrderRequest) (s : S) (e : Error)
      → (place req s).1 ≡ err e
      → is e rate_limited ≡ false

  abbrev pub FitsBody : Result Ports.PlaceOrderRequest → Type 0
  FitsBody (ok body) = FitsInt32 body.quantity
  FitsBody (err e) = Unit {0}

  over_rpc :
      (e : Error)
      → is e rate_limited ≡ false
      → (accepted_answer (err (place_error (place_status from_context e)))).status
        ≡ (accepted_answer (err e)).status
  unfolding accepted_answer place_error place_status write_path_failure
  over_rpc e u = let h = documented e in ground arith

  same_answer :
      (r : Result Ports.AcceptedOrder)
      → ((e : Error) → r ≡ err e → is e rate_limited ≡ false)
      → (accepted_answer (
          receive place_error (λ a. a) (serve (place_status from_context) accepted_proto r))).status
        ≡ (accepted_answer r).status
  unfolding receive serve accepted_answer accepted_proto
  same_answer (ok a) u = refl
  same_answer (err e) u = over_rpc e (u e refl)

  rpc_place_order_async_lem :
      (req : Ports.PlaceOrderRequest) (s : S)
      → FitsInt32 req.quantity
      → let (t, r) = place req s in
        rpc_place_order_async from_context delivered place req s
        ≡ (t, receive place_error (λ a. a) (serve (place_status from_context) accepted_proto r))
  unfolding rpc_place_order_async rpc serve_place_order_async
  rpc_place_order_async_lem req s h = rw (proto_request-id req h) refl

  named_same :
      (body : Ports.PlaceOrderRequest) (request_id : Result String) (s : S)
      → Unlimited
      → FitsInt32 body.quantity
      → let (t, a) = named place body request_id s in
        let (u, b) = named (rpc_place_order_async from_context delivered place) body request_id s in
        (u ≡ t) × (b.status ≡ a.status)
  unfolding named
  named_same body (err e) s unlimited h = (refl, refl)
  named_same body (ok request_id) s unlimited h =
      let req : Ports.PlaceOrderRequest = record body {
        request_id = request_id;
        quantity = quantity_or_one body.quantity;
      } in
      let crossed = rpc_place_order_async_lem req s (quantity_or_one-FitsInt32 body.quantity h) in
      rw crossed (refl, same_answer (place req s).1 (unlimited req s))

  -- The state and the status of the answer are the same over gRPC, for every body, if the RPC is
  -- delivered, the quantity fits into 32 bits, and the service itself does not report the rate limit.
  pub place_order_async_same :
      (next : Result String) (body : Result Ports.PlaceOrderRequest) (s : S)
      → Unlimited
      → FitsBody body
      → let (t, a) = place_order_async place next body s in
        let (u, b) =
          place_order_async (rpc_place_order_async from_context delivered place) next body s in
        (u ≡ t) × (b.status ≡ a.status)
  unfolding place_order_async
  place_order_async_same next (err e) s unlimited fits = (refl, refl)
  place_order_async_same next (ok body) s unlimited fits =
      named_same body (request_id_or next body.request_id) s unlimited fits
