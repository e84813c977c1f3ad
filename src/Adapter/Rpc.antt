-- ===== src/Adapter/Rpc.antt =====
-- internal/adapter/grpcserver/server.go and grpcclient/client.go: the services behind gRPC, whose
-- failures cross the wire as status codes.
pub mod Hops
use seckill.Inventory.Ledger.{Reservation, ReservationRequest}
use seckill.Adapter.Int32.{to_int32}
use seckill.Errors.{
  canceled, Error, driver, Result, is, err, port_insufficient_stock, port_reservation_not_found,
  port_cached_product_miss, sentinel, ok, port_invalid_quantity, port_reservation_conflict,
  deadline_exceeded,
}
use seckill.Prelude.{ℕ, Bool, if◌then◌else◌, ◌==◌, ◌||◌, ℤ}
use seckill.Ports
use seckill.Adapter.Code

-- What a handler answers: a message, or a status.
pub data Reply {ℓ} (A : Type ℓ) : Type ℓ where
  status : ℕ → Reply A
  replied : A → Reply A

-- A call: it reaches the handler and comes back; or the client's library makes up a status, and the
-- handler ran or did not.
pub data Hop : Type 0 where
  delivered : Hop
  unsent unanswered : ℕ → Hop

unfoldable pub rpc {ℓ} : {S A : Type ℓ} → Hop → (S → S × Reply A) → S → S × Reply A
rpc delivered f s = f s
rpc (unsent c) f s = (s, status c)
rpc (unanswered c) f s = ((f s).0, status c)

-- A status as an error of the client, which wraps none of the sentinels.
abbrev pub status_error : ℕ → Error
status_error c = driver c

is_context : Error → Bool
is_context e = is e canceled || is e deadline_exceeded

-- `status.FromContextError`
module _ (from_context : Error → ℕ) where
  -- the `switch` of the server's `PlaceOrderAsync`
  unfoldable pub place_status : Error → ℕ
  unfolding is_context
  place_status e =
      if is e port_insufficient_stock
      then Code.failed_precondition
      else (if is e port_invalid_quantity
          then Code.invalid_argument
          else (if is_context e then from_context e else Code.internal))

  -- that of `Reserve`
  unfoldable pub reserve_status : Error → ℕ
  unfolding is_context
  reserve_status e =
      if is e port_insufficient_stock
      then Code.failed_precondition
      else (if is_context e then from_context e else Code.internal)

  -- that of `Restore`
  unfoldable pub restore_status : Error → ℕ
  unfolding is_context
  restore_status e =
      if is e port_reservation_not_found
      then Code.not_found
      else (if is e port_reservation_conflict || is e port_invalid_quantity
          then Code.invalid_argument
          else (if is_context e then from_context e else Code.internal))

-- that of the server's `GetProduct`
unfoldable pub product_status : Error → ℕ
product_status e = if is e port_cached_product_miss then Code.not_found else Code.internal

-- a result as the reply of a handler
unfoldable pub serve {ℓ} : {A B : Type ℓ} → (Error → ℕ) → (A → B) → Result A → Reply B
serve code_of f (err e) = status (code_of e)
serve code_of f (ok a) = replied (f a)

-- the message of `GetProduct`
unfoldable pub product_proto : Ports.Product → Ports.Product
unfolding to_int32
product_proto p = record p { stock = to_int32 p.stock }

-- `InventoryServer.GetProduct` of an `InventoryService`
unfoldable pub serve_get_product :
    {S : Type 0} → (ℤ → S → S × Result Ports.Product) → ℤ → S → S × Reply Ports.Product
unfolding serve product_status product_proto
serve_get_product get i s = let (t, r) = get i s in (t, serve product_status product_proto r)

-- the `switch` of the client's `PlaceOrderAsync`
unfoldable pub place_error : ℕ → Error
place_error c =
    if c == Code.failed_precondition
    then sentinel port_insufficient_stock
    else (if c == Code.invalid_argument
        then sentinel port_invalid_quantity
        else (if c == Code.canceled
            then sentinel canceled
            else (if c == Code.deadline then sentinel deadline_exceeded else status_error c)))

-- `inventoryRPCError` of an error that is not nil
unfoldable pub inventory_rpc_error : ℕ → Error
inventory_rpc_error c =
    if c == Code.failed_precondition
    then sentinel port_insufficient_stock
    else (if c == Code.not_found
        then sentinel port_reservation_not_found
        else (if c == Code.invalid_argument
            then sentinel port_reservation_conflict
            else (if c == Code.canceled
                then sentinel canceled
                else (if c == Code.deadline then sentinel deadline_exceeded else status_error c))))

-- a reply as the result of a client
unfoldable pub receive {ℓ} : {A B : Type ℓ} → (ℕ → Error) → (A → B) → Reply A → Result B
receive error_of f (status c) = err (error_of c)
receive error_of f (replied a) = ok (f a)

-- `acceptedProto`, whose fields the client's `PlaceOrderAsync` reads back
unfoldable pub accepted_proto : Ports.AcceptedOrder → Ports.AcceptedOrder
unfolding to_int32
accepted_proto a = record a { status = to_int32 a.status }

-- the request as the client sends it
unfoldable pub proto_request : Ports.PlaceOrderRequest → Ports.PlaceOrderRequest
unfolding to_int32
proto_request req = record req { quantity = to_int32 req.quantity }

unfoldable pub proto_reservation : ReservationRequest → ReservationRequest
unfolding to_int32
proto_reservation req = record req { quantity = to_int32 req.quantity }

-- the message of the server's `Reserve`, whose fields the client's reads back
unfoldable pub reservation_proto : Reservation → Reservation
unfolding proto_reservation
reservation_proto r = record r { request = proto_reservation r.request }

module _ (from_context : Error → ℕ) {S : Type 0} where
  -- `OrderServer.PlaceOrderAsync` of an `AsyncOrderService`
  unfoldable pub serve_place_order_async :
      (Ports.PlaceOrderRequest → S → S × Result Ports.AcceptedOrder)
      → Ports.PlaceOrderRequest
      → S
      → S × Reply Ports.AcceptedOrder
  unfolding serve accepted_proto
  serve_place_order_async place req s =
      let (t, r) = place req s in (t, serve (place_status from_context) accepted_proto r)

  -- `OrderAdapter.PlaceOrderAsync` of the client, over the server's
  unfoldable pub rpc_place_order_async :
      Hop
      → (Ports.PlaceOrderRequest → S → S × Result Ports.AcceptedOrder)
      → Ports.PlaceOrderRequest
      → S
      → S × Result Ports.AcceptedOrder
  unfolding serve_place_order_async rpc receive proto_request
  rpc_place_order_async hop place req s =
      let (t, r) = rpc hop (serve_place_order_async place (proto_request req)) s in
      (t, receive place_error (λ a. a) r)

  -- `InventoryServer.Reserve` and the client's
  unfoldable pub rpc_reserve :
      Hop
      → (ReservationRequest → S → S × Result Reservation)
      → ReservationRequest
      → S
      → S × Result Reservation
  unfolding rpc serve receive proto_reservation reservation_proto
  rpc_reserve hop reserve req s =
      let (t, r) =
        rpc hop
          (λ s.
            let (t, r) = reserve (proto_reservation req) s in
            (t, serve (reserve_status from_context) reservation_proto r))
          s in
      (t, receive inventory_rpc_error (λ a. a) r)

  -- `InventoryServer.Restore` and the client's
  unfoldable pub rpc_restore :
      Hop
      → (ReservationRequest → S → S × Result (Unit {0}))
      → ReservationRequest
      → S
      → S × Result (Unit {0})
  unfolding rpc serve receive proto_reservation
  rpc_restore hop restore req s =
      let (t, r) =
        rpc hop
          (λ s.
            let (t, r) = restore (proto_reservation req) s in
            (t, serve (restore_status from_context) (λ u. u) r))
          s in
      (t, receive inventory_rpc_error (λ u. u) r)
