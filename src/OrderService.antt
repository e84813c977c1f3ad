-- ===== src/OrderService.antt =====
-- cmd/order-service/main.go: the pool that a version registers in, the faults that it injects, and the
-- service over the reservations and Kafka. The message carries the time at which it was accepted.
pub mod Placed
pub mod Faults
pub mod End
use seckill.Deduct.Stock.{StockKey}
use seckill.Stores.Keyspace.{Keyspace}
use seckill.Stores.Call.{call, Fate}
use seckill.Errors.{Error, Result, err, ok}
use seckill.Prelude.{
  String, ℕ, if◌then◌else◌, ℤ, Bool, List, Option, ◌∷◌, not, ◌||◌, ◌&&◌, ltb_ℤ, pos, some, none,
}
use seckill.Ports
use seckill.Adapter.Code
use seckill.Adapter.Rpc.{Reply, status}
use seckill.Inventory.Ledger.{Entry, ReservationRequest, State, Reservation, reserve}
use seckill.Inventory.AsyncOrder.{after_reserve, error_of}
use seckill.Mq.Enqueue.{OrderCreated}
use text.Mathlib.Text.{◌==◌ as str_eq}

-- `orderPool`: the name of the service, where it listens, and what it advertises
pub record OrderPool : Type 0 where
  pub service : String
  pub listen_addr : String
  pub advertise_addr : String

unfoldable pub order_pool : String → OrderPool
order_pool version =
    if str_eq version "v2"
    then record {
      service = "order-canary";
      listen_addr = ":9083";
      advertise_addr = "127.0.0.1:9083";
    }
    else record { service = "order"; listen_addr = ":9081"; advertise_addr = "127.0.0.1:9081" }

module _ {S A : Type 0} (from_context : Error → ℕ) where
  -- what follows the delay
  unfoldable pub after_delay : String → (S → S × Reply A) → S → S × Reply A
  after_delay mode handler s =
      if str_eq mode "error" then (s, status Code.unavailable) else handler s

  -- `v2FaultInterceptor`; `to_place` says whether the call is of PlaceOrderAsync, and `ended` is the
  -- error of the context if it ends before the timer
  unfoldable pub v2_fault_interceptor :
      String → String → ℤ → Bool → Option Error → (S → S × Reply A) → S → S × Reply A
  unfolding after_delay
  v2_fault_interceptor version mode delay to_place ended handler s =
      if not (str_eq version "v2") || not to_place
      then handler s
      else if str_eq mode "delay" && ltb_ℤ (pos 0) delay
      then (elim ended [
        | some e ↦ (s, status (from_context e))
        | none ↦ after_delay mode handler s
      ])
      else after_delay mode handler s

-- the message of the closure `produce`
unfoldable pub order_message : Ports.PlaceOrderRequest → ℕ → OrderCreated
order_message req at = record {
  request_id = req.request_id;
  product_id = req.product_id;
  user_id = req.user_id;
  quantity = req.quantity;
  accepted_at = at;
}

-- the closure `produce`, over the messages that the broker holds
unfoldable pub produce :
    Fate → Ports.PlaceOrderRequest → ℕ → List OrderCreated → List OrderCreated × Result (Unit {0})
unfolding order_message call
produce fate req at q = call fate (λ ms. (order_message req at ∷ ms, tt)) q

-- the reservation of `PlaceOrderAsync`
abbrev pub reservation_of : Ports.PlaceOrderRequest → ReservationRequest
reservation_of req = record {
  request_id = req.request_id;
  product_id = req.product_id;
  quantity = req.quantity;
}

module _ (R : Keyspace StockKey ℤ) (L : Keyspace String Entry) where
  -- The store of the reservations, and the messages.
  pub record World : Type 0 where
    pub store : State R L
    pub messages : List OrderCreated

  compensated :
      Ports.PlaceOrderRequest
      → ℕ
      → List OrderCreated
      → State R L × Result (Unit {0})
      → World × Result Ports.AcceptedOrder
  compensated req at q (s, err e) = (record { store = s; messages = q }, err e)
  compensated req at q (s, ok _) = (
    record { store = s; messages = q },
    ok (record { request_id = req.request_id; status = pos 202; accepted = at }),
  )

  reserved :
      Fate
      → Fate
      → Ports.PlaceOrderRequest
      → ℕ
      → List OrderCreated
      → State R L × Result Reservation
      → World × Result Ports.AcceptedOrder
  unfolding compensated after_reserve produce
  reserved published undo req at q (s, err e) = (record { store = s; messages = q }, err e)
  reserved published undo req at q (s, ok a) =
      let (ms, p) = produce published req at q in
      compensated req at ms (after_reserve R L (error_of p) undo (reservation_of req) (s, ok a))

  -- `PlaceOrderAsync` with that closure
  unfoldable pub place_and_produce :
      Fate → Fate → Fate → Ports.PlaceOrderRequest → ℕ → World → World × Result Ports.AcceptedOrder
  unfolding reserved reserve
  place_and_produce take published undo req at w =
      reserved published undo req at w.messages (reserve R L take (reservation_of req) w.store)
