-- ===== src/Scenarios/Commands.antt =====
-- The theorems on the consumer, the shutdown, the ledger's handler, the order service and the resolver
-- at concrete inputs.
use seckill.Errors.{ok, driver}
use seckill.Prelude.{
  none, ◌+◌, pos, if◌then◌else◌, String, ◌∷◌, [], ltb, ◌≡◌, length, arith, some, suc, false, ℤ, ◌⊎◌,
  ◌<◌,
}
use mathlib.Core.Path.{refl}
use seckill.Ports
use seckill.Reconcile.Ledger.{Entry as LedgerEntry, State as Books, World as Calls}
use seckill.Reconcile.Accepted.{Accepted, enqueue_with_ledger_accepts}
use seckill.Deduct.Stock.{whole}
use seckill.Api.Handlers.{ledger_answer}
use seckill.Mq.Retry.{RetryPolicy, placed}
use seckill.Order.Statements.{find_order, has_id, new_order}
use seckill.Order.Effect.{Places}
use seckill.Scenarios.Memory.{phone, ten-phone, empty}
use seckill.Gateway.{request_id_or}
use seckill.Api.Handlers.{order_request}
use seckill.Errors.{Result}
use seckill.Api.Consumer.{policy}
use seckill.Inventory.Ledger.{Entry}
use seckill.Stores.Call.{answered, answer_lost}
use seckill.Inventory.Safety.{accounted}
use seckill.Api.Stop.{Outside, graceful_shutdown}
use seckill.Api.Stop.Quiet.{reconnected, Quieted, graceful_shutdown-Quieted}
use seckill.Api.AsyncLedger.{async_ledger, async_ledger-202}
use seckill.Mq.Enqueue.{request_from_record, order_created}
use seckill.Mq.Redelivery.Exactly.{sold_exactly_once}
use seckill.Mq.Redelivery.{process_record, Delivery, redeliver, OnceSold, redeliver-OnceSold}
use seckill.OrderService.{World, place_and_produce, reservation_of}
use seckill.OrderService.Placed.{Produces, place_and_produce-Produces}
use seckill.Scenarios.Memory.{stocks, tables as db, by_request, ten, calm, buy_two, five}

-- One delivery whose commit is not heard of, and one more.
abbrev delivery : Delivery db
delivery = record {
  runs = λ n. record { env = calm; snapshot = ten; cancelled = none };
  produced = none;
}

redeliver-OnceSold_example :
    OnceSold db
      (request_from_record (order_created buy_two 4))
      ten
      (redeliver db policy (ok (order_created buy_two 4)) (delivery ∷ delivery ∷ []) ten)
redeliver-OnceSold_example =
    redeliver-OnceSold db policy (order_created buy_two 4) (delivery ∷ delivery ∷ []) ten

-- A request leaves after 60 milliseconds, and the consumer needs a second.
abbrev outside : Outside
outside = record {
  http = λ t. (t + 10000000, none);
  in_flight = λ t. if ltb t 60000000 then pos 1 else pos 0;
  exits = λ t. t + 1000000000;
  flush = λ t. (t + 5000000, none);
  closes = none ∷ none ∷ none ∷ none ∷ none ∷ [];
  closed = λ t. t + 1;
}

graceful_shutdown-Quieted_example :
    Quieted (0 + 15000000000) outside 0
    ⊎ ((length (graceful_shutdown 15000000000 0 outside).completed < 4)
        × (graceful_shutdown 15000000000 0 (reconnected outside (some (driver 1) ∷ []) (λ t. t))
            ≡ graceful_shutdown 15000000000 0 outside))
graceful_shutdown-Quieted_example =
    graceful_shutdown-Quieted 15000000000 0 outside (some (driver 1) ∷ []) (λ t. t)

abbrev asked : Ports.PlaceOrderRequest
asked = record { request_id = "r9"; product_id = pos 1; user_id = pos 7; quantity = pos 2 }

abbrev idle : World stocks (by_request Entry)
idle = record { store = record { stock = five; entries = λ r. none }; messages = [] }

place_and_produce-Produces_example :
    let (v, r) =
      place_and_produce stocks
        (by_request Entry)
        answered
        (answer_lost (driver 3))
        answered
        asked
        8
        idle in
    Produces stocks (by_request Entry) answered (answer_lost (driver 3)) answered asked 8 idle v r
    × (accounted stocks (by_request Entry) (reservation_of asked) v.store
        ≡ accounted stocks (by_request Entry) (reservation_of asked) idle.store)
place_and_produce-Produces_example =
    place_and_produce-Produces stocks (by_request Entry) answered (answer_lost (driver 3)) answered
      asked 8 idle

abbrev calls : Calls stocks (by_request LedgerEntry)
calls = record {
  deducting = answered;
  recording = answered;
  produced = none;
  rolling_back = answered;
  settling = answered;
}

abbrev new_books : Books stocks (by_request LedgerEntry)
new_books = record { stock = five; entries = λ r. none }

five-there : stocks.get five (whole (pos 1)) ≡ some (pos 5)
five-there = stocks.get-put_self empty (whole (pos 1)) (pos 5)

accepts_asked :
    (async_ledger stocks
      (by_request LedgerEntry)
      calls
      (ok asked)
      (ok "n1")
      (pos 20)
      none
      new_books).2.0
    ≡ 202
unfolding async_ledger ledger_answer order_request
accepts_asked =
    let fine =
      enqueue_with_ledger_accepts stocks (by_request LedgerEntry) calls (order_request asked "r9")
        (pos 20) new_books refl refl refl five-there (omega arith) in
    rw fine refl

async_ledger-202_example :
    (body : Ports.PlaceOrderRequest) × (request_id : String) × (◌≡◌
      {A = Result Ports.PlaceOrderRequest}
      (ok asked)
      (ok body))
    × (request_id_or (ok "n1") body.request_id ≡ ok request_id)
    × Accepted stocks
        (by_request LedgerEntry)
        calls
        (order_request body request_id)
        new_books
        (async_ledger stocks
          (by_request LedgerEntry)
          calls
          (ok asked)
          (ok "n1")
          (pos 20)
          none
          new_books).0
async_ledger-202_example =
    async_ledger-202 stocks (by_request LedgerEntry) calls (ok asked) (ok "n1") (pos 20) none
      new_books accepts_asked

sold_exactly_once_example :
    let req = request_from_record (order_created buy_two 4) in
    let retries : RetryPolicy = record { max_attempts = pos (suc 2); base_backoff = 100 } in
    let (d', p) = process_record db delivery (ok (order_created buy_two 4)) ten retries in
    (p
      ≡ placed
          (new_order (pos 5) req)
          (record { attempts = 1; backoffs = []; dead_lettered = false }))
    × ((id : ℤ) × Places db req ten d' id 3)
    × (redeliver db retries (ok (order_created buy_two 4)) (delivery ∷ []) d' ≡ d')
unfolding find_order has_id request_from_record order_created
sold_exactly_once_example =
    sold_exactly_once db delivery (order_created buy_two 4) ten
      (record {
        up = λ x. refl;
        committed = refl;
        id = pos 5;
        next = refl;
        row = phone;
        at_row = ten-phone;
        positive = omega arith;
        covered = omega arith;
        unseen = refl;
        unplaced = refl;
        fresh_id = refl;
      })
      2 100 (delivery ∷ [])
