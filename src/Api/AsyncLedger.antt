-- ===== src/Api/AsyncLedger.antt =====
-- cmd/api/main.go: POST /debug/orders/async-ledger, from the body to the answer.
use seckill.Errors.{Result, Error, err, ok, is, simulated_crash, order_insufficient_stock}
use seckill.Prelude.{ℤ, String, Option, ℕ, ◌≡◌, none, some, arith, refl, ◌≢◌, Bool-cases, inl, inr}
use seckill.Deduct.Stock.{StockKey}
use seckill.Stores.Keyspace.{Keyspace}
use seckill.Ports
use seckill.Gateway.{request_id_or}
use seckill.Api.Handlers.{Answer, error_answer, ledger_answer, order_request}
use seckill.Reconcile.Ledger.{Entry, State, World, enqueue_with_ledger}
use seckill.Reconcile.Accepted.{Accepted, enqueue_with_ledger-Accepted}

-- an error is never shown as 202
ledger_answer-ne : (request_id : String) (e : Error) → (ledger_answer request_id (some e)).0 ≢ 202
unfolding ledger_answer
ledger_answer-ne request_id e h = elim (Bool-cases (is e simulated_crash)) [
  | inl a ↦ absurd (omega (arith, rw (a, ledger_answer) at h))
  | inr b ↦ elim (Bool-cases (is e order_insufficient_stock)) [
    | inl a ↦ absurd (omega (arith, rw (b, a, ledger_answer) at h))
    | inr c ↦ absurd (omega (arith, rw (b, c, ledger_answer) at h))
  ]
]

module _ (R : Keyspace StockKey ℤ) (L : Keyspace String Entry) where
  -- The ledger and the stock, the crash switch, and the answer.
  abbrev pub Served : Type 0
  Served = State R L × Option ℤ × (ℕ × Answer)

  answered_with : String → State R L × Option ℤ × Option Error → Served
  unfolding ledger_answer
  answered_with request_id (s, crash, e) = (s, crash, ledger_answer request_id e)

  enqueued : World R L → Ports.PlaceOrderRequest → ℤ → Option ℤ → Result String → State R L → Served
  unfolding answered_with enqueue_with_ledger order_request
  enqueued w body now crash (err e) s = (s, crash, (500, error_answer e))
  enqueued w body now crash (ok request_id) s =
      answered_with request_id
        (enqueue_with_ledger R L w (order_request body request_id) now crash s)

  -- the handler, with the binding of its body, the clock, the switch, and what `NextID` returns as a
  -- string
  unfoldable pub async_ledger :
      World R L → Result Ports.PlaceOrderRequest → Result String → ℤ → Option ℤ → State R L → Served
  unfolding enqueued request_id_or
  async_ledger w (err e) next now crash s = (s, crash, (400, error_answer e))
  async_ledger w (ok body) next now crash s =
      enqueued w body now crash (request_id_or next body.request_id) s

  answered_with-202 :
      (request_id : String) (r : State R L × Option ℤ × Option Error)
      → (answered_with request_id r).2.0 ≡ 202
      → r.2 ≡ none
  unfolding answered_with ledger_answer
  answered_with-202 request_id (s, crash, none) h = refl
  answered_with-202 request_id (s, crash, some e) h = absurd (ledger_answer-ne request_id e h)

  enqueued-202 :
      (w : World R L) (body : Ports.PlaceOrderRequest) (now : ℤ) (crash : Option ℤ)
      (rid : Result String) (s : State R L)
      → (enqueued w body now crash rid s).2.0 ≡ 202
      → (request_id : String) × (rid ≡ ok request_id)
        × Accepted R L w (order_request body request_id) s (enqueued w body now crash rid s).0
  unfolding enqueued answered_with
  enqueued-202 w body now crash (err e) s h = absurd (omega arith)
  enqueued-202 w body now crash (ok request_id) s h =
      let r = enqueue_with_ledger R L w (order_request body request_id) now crash s in
      let fine = answered_with-202 request_id r h in
      (
        request_id,
        refl,
        enqueue_with_ledger-Accepted R L w (order_request body request_id) now crash s fine,
      )

  -- POST /debug/orders/async-ledger answers 202 only to a request, with the id and the quantity that it
  -- was given or the defaults, whose message is produced, whose quantity is taken from a stock that
  -- covers it, and which has an entry in the ledger.
  pub async_ledger-202 :
      (w : World R L) (bound : Result Ports.PlaceOrderRequest) (next : Result String) (now : ℤ)
      (crash : Option ℤ) (s : State R L)
      → (async_ledger w bound next now crash s).2.0 ≡ 202
      → (body : Ports.PlaceOrderRequest) × (request_id : String) × (bound ≡ ok body)
        × (request_id_or next body.request_id ≡ ok request_id)
        × Accepted R L w (order_request body request_id) s (async_ledger w bound next now crash s).0
  unfolding async_ledger
  async_ledger-202 w (err e) next now crash s h = absurd (omega arith)
  async_ledger-202 w (ok body) next now crash s h =
      let (request_id, named, accepted) =
        enqueued-202 w body now crash (request_id_or next body.request_id) s h in
      (body, request_id, refl, named, accepted)
