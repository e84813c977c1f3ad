-- ===== src/Inventory/Ledger.antt =====
-- internal/inventory/reservation.go: the two scripts, and the service around them.
use seckill.Stores.Call.{call, Fate}
use seckill.Errors.{
  Result, err, ◌>>=◌, sentinel, port_insufficient_stock, port_reservation_not_found,
  port_invalid_quantity, port_reservation_conflict, ok, driver,
}
use seckill.Deduct.Stock.{StockKey, whole}
use seckill.Stores.Keyspace.{Keyspace, decr_by, incr_by, number_at}
use seckill.Prelude.{
  String, ℤ, Bool, not, eqb_ℤ, if◌then◌else◌, ◌||◌, negsuc, leb_ℤ, pos, suc, false, true, zero,
  none, some, ltb_ℤ, Option,
}
use text.Mathlib.Text.{◌==◌ as str_eq}

pub data ReservationState : Type 0 where
  reserved restored : ReservationState

-- The hash seckill:reservation:<request id>.
pub record Entry : Type 0 where
  pub state : ReservationState
  pub product : ℤ
  pub quantity : ℤ

-- `ports.ReservationRequest`
pub record ReservationRequest : Type 0 where
  pub request_id : String
  pub product_id : ℤ
  pub quantity : ℤ

-- `ports.Reservation`
pub record Reservation : Type 0 where
  pub request : ReservationRequest
  pub remaining : ℤ
  pub already_reserved : Bool

-- whether an entry is of another product or quantity
unfoldable pub differs : Entry → ReservationRequest → Bool
differs e req = not (eqb_ℤ e.product req.product_id) || not (eqb_ℤ e.quantity req.quantity)

-- the test that opens `Reserve`
unfoldable pub malformed : ReservationRequest → Bool
malformed req =
    str_eq req.request_id "" || leb_ℤ req.product_id (pos 0) || leb_ℤ req.quantity (pos 0)

module _ (R : Keyspace StockKey ℤ) (L : Keyspace String Entry) where
  -- the keys of the stock and those of the reservations
  pub record State : Type 0 where
    pub stock : R.State
    pub entries : L.State

  -- the end of `reserveScript`: the stock is tested and taken, and the entry is written
  unfoldable pub reserve_stock : ReservationRequest → State → State × (ℤ × ℤ)
  unfolding decr_by
  reserve_stock req s = elim (R.get s.stock (whole req.product_id)) [
    | none ↦ (s, (negsuc 0, pos 0))
    | some stock ↦
        if ltb_ℤ stock req.quantity
        then (s, (negsuc 0, stock))
        else let (t, left) = decr_by R s.stock (whole req.product_id) req.quantity in
          let entry : Entry = record {
            state = reserved;
            product = req.product_id;
            quantity = req.quantity;
          } in
          (record { stock = t; entries = L.put s.entries req.request_id entry }, (pos 0, left))
  ]

  -- `reserveScript` when there is an entry
  unfoldable pub reserve_entry : ReservationRequest → State → Entry → State × (ℤ × ℤ)
  unfolding differs reserve_stock
  reserve_entry req s e = if differs e req then (s, (negsuc 1, pos 0)) else elim e.state [
    | reserved ↦ (s, (pos 1, number_at R s.stock (whole req.product_id)))
    | restored ↦ reserve_stock req s
  ]

  unfoldable pub reserve_found : ReservationRequest → State → Option Entry → State × (ℤ × ℤ)
  unfolding reserve_entry reserve_stock
  reserve_found req s none = reserve_stock req s
  reserve_found req s (some e) = reserve_entry req s e

  unfoldable pub reserve_script : ReservationRequest → State → State × (ℤ × ℤ)
  unfolding reserve_found
  reserve_script req s = reserve_found req s (L.get s.entries req.request_id)

  -- `restoreScript` when there is an entry
  unfoldable pub restore_entry : ReservationRequest → State → Entry → State × ℤ
  unfolding differs incr_by
  restore_entry req s e = if differs e req then (s, negsuc 1) else elim e.state [
    | restored ↦ (s, pos 0)
    | reserved ↦ (
      record {
        stock = (incr_by R s.stock (whole req.product_id) req.quantity).0;
        entries = L.put s.entries req.request_id (record e { state = restored });
      },
      pos 1,
    )
  ]

  unfoldable pub restore_found : ReservationRequest → State → Option Entry → State × ℤ
  unfolding restore_entry
  restore_found req s none = (s, negsuc 0)
  restore_found req s (some e) = restore_entry req s e

  unfoldable pub restore_script : ReservationRequest → State → State × ℤ
  unfolding restore_found
  restore_script req s = restore_found req s (L.get s.entries req.request_id)

  -- the codes as answers; no other code is an answer of the script
  unfoldable pub read_reserve : ReservationRequest → ℤ × ℤ → Result Reservation
  read_reserve req (negsuc zero, n) = err (sentinel port_insufficient_stock)
  read_reserve req (negsuc (suc zero), n) = err (sentinel port_reservation_conflict)
  read_reserve req (pos zero, n) =
      ok record { request = req; remaining = n; already_reserved = false }
  read_reserve req (pos (suc zero), n) =
      ok record { request = req; remaining = n; already_reserved = true }
  read_reserve req (c, n) = err (driver 0)

  unfoldable pub read_restore : ℤ → Result (Unit {0})
  read_restore (negsuc zero) = err (sentinel port_reservation_not_found)
  read_restore (negsuc (suc zero)) = err (sentinel port_reservation_conflict)
  read_restore (pos zero) = ok tt
  read_restore (pos (suc zero)) = ok tt
  read_restore c = err (driver 0)

  -- `Service.Reserve`
  unfoldable pub reserve : Fate → ReservationRequest → State → State × Result Reservation
  unfolding malformed call reserve_script read_reserve
  reserve fate req s =
      if malformed req
      then (s, err (sentinel port_invalid_quantity))
      else let (t, r) = call fate (reserve_script req) s in (t, r >>= read_reserve req)

  -- `Service.Restore`
  unfoldable pub restore : Fate → ReservationRequest → State → State × Result (Unit {0})
  unfolding call restore_script read_restore
  restore fate req s = let (t, r) = call fate (restore_script req) s in (t, r >>= read_restore)
