-- ===== src/Inventory/AsyncOrder/Balance.antt =====
-- internal/asyncorder/service.go: the stock and the reservation over one call.
use seckill.Inventory.Safety.{accounted, reserve-accounted, restore-accounted}
use seckill.Errors.{Error, Result, err, ok}
use seckill.Stores.Call.{Fate}
use seckill.Inventory.AsyncOrder.{after_reserve, place_order_async}
use seckill.Inventory.Ledger.{Entry, ReservationRequest, State, Reservation}
use seckill.Prelude.{ℤ, String, Option, ◌≡◌, ◌∙◌, some, refl, none}
use seckill.Deduct.Stock.{StockKey}
use seckill.Stores.Keyspace.{Keyspace}

module _ (R : Keyspace StockKey ℤ) (L : Keyspace String Entry) where
  pub after_reserve-accounted :
      (produced : Option Error) (undo : Fate) (req : ReservationRequest) (s : State R L)
      (r : Result Reservation)
      → accounted R L req (after_reserve R L produced undo req (s, r)).0 ≡ accounted R L req s
  unfolding after_reserve
  after_reserve-accounted produced undo req s (err e) = refl
  after_reserve-accounted none undo req s (ok a) = refl
  after_reserve-accounted (some e) undo req s (ok a) = restore-accounted R L undo req s

  -- `PlaceOrderAsync`, whichever calls fail or lose their answers: what is left of the product and what
  -- the request holds add up to the same, so that a failure of the producer loses no stock and the
  -- compensation gives back no more than was taken.
  pub place_order_async-accounted :
      (take : Fate) (produced : Option Error) (undo : Fate) (req : ReservationRequest)
      (s : State R L)
      → accounted R L req (place_order_async R L take produced undo req s).0 ≡ accounted R L req s
  unfolding place_order_async
  place_order_async-accounted take produced undo req s =
      after_reserve-accounted produced undo req _ _ ∙ reserve-accounted R L take req s
