-- ===== src/Inventory/AsyncOrder.antt =====
-- internal/asyncorder/service.go: `PlaceOrderAsync`, which reserves, produces a message, and restores
-- the reservation if the message is not accepted.
pub mod Balance
use seckill.Stores.Call.{Fate}
use seckill.Inventory.Ledger.{Entry, restore, reserve, ReservationRequest, State, Reservation}
use seckill.Deduct.Stock.{StockKey}
use seckill.Prelude.{Option, some, ℤ, none, String}
use seckill.Stores.Keyspace.{Keyspace}
use seckill.Errors.{Result, Error, ok, join, err}

-- The error of a result, if it is one.
abbrev pub error_of {ℓ} : {A : Type ℓ} → Result A → Option Error
error_of (ok a) = none
error_of (err e) = some e

-- `errors.Join(e, r)`, which leaves out what is nil
abbrev joined : Error → Option Error → Error
joined e none = e
joined e (some f) = join e f

module _ (R : Keyspace StockKey ℤ) (L : Keyspace String Entry) where
  unfoldable pub after_reserve :
      Option Error
      → Fate
      → ReservationRequest
      → State R L × Result Reservation
      → State R L × Result (Unit {0})
  unfolding restore
  after_reserve produced undo req (s, err e) = (s, err e)
  after_reserve produced undo req (s, ok a) = elim produced [
    | none ↦ (s, ok tt)
    | some e ↦ let (t, r) = restore R L undo req s in (t, err (joined e (error_of r)))
  ]

  -- `PlaceOrderAsync`; `produced` is the error that the producer reports, if there is one
  unfoldable pub place_order_async :
      Fate → Option Error → Fate → ReservationRequest → State R L → State R L × Result (Unit {0})
  unfolding reserve after_reserve
  place_order_async take produced undo req s =
      after_reserve produced undo req (reserve R L take req s)
