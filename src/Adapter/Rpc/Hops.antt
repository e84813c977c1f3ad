-- ===== src/Adapter/Rpc/Hops.antt =====
-- internal/adapter/grpcserver/server.go and grpcclient/client.go: what is left of an error, and of a
-- result, on the other side of the wire.
use seckill.Adapter.Rpc.{
  place_error, inventory_rpc_error, place_status, reserve_status, restore_status,
}
use seckill.Prelude.{ℕ, ◌≡◌, ◌⊎◌, arith, false}
use seckill.Errors.{
  Error, is, port_insufficient_stock, port_reservation_not_found, port_reservation_conflict,
  port_invalid_quantity,
}
use seckill.Adapter.Code

-- What `status.FromContextError` documents: the code of an error of the context, and else Unknown.
abbrev pub FromContext : (Error → ℕ) → Type 0
FromContext from_context =
    (e : Error)
    → (from_context e ≡ Code.deadline)
      ⊎ (from_context e ≡ Code.canceled)
      ⊎ (from_context e ≡ Code.unknown)

module _ (from_context : Error → ℕ) (documented : FromContext from_context) where
  place_insufficient :
      (e : Error)
      → is (place_error (place_status from_context e)) port_insufficient_stock
        ≡ is e port_insufficient_stock
  unfolding place_error place_status
  place_insufficient e = let h = documented e in ground arith

  reserve_insufficient :
      (e : Error)
      → let f = inventory_rpc_error (reserve_status from_context e) in
        (is f port_insufficient_stock ≡ is e port_insufficient_stock)
        × (is f port_reservation_conflict ≡ false)
        × (is f port_invalid_quantity ≡ false)
  unfolding inventory_rpc_error reserve_status
  reserve_insufficient e = let h = documented e in ground arith

  restore_not_found :
      (e : Error)
      → let f = inventory_rpc_error (restore_status from_context e) in
        (is f port_reservation_not_found ≡ is e port_reservation_not_found)
        × (is f port_insufficient_stock ≡ false)
        × (is f port_invalid_quantity ≡ false)
  unfolding inventory_rpc_error restore_status
  restore_not_found e = let h = documented e in ground arith

  -- Stock that does not suffice is told apart from every other failure on the other side of an order
  -- or a reservation, and a reservation that is not there on the other side of a restoration; a
  -- reservation that conflicts with an earlier one, or is malformed, is not recognised after
  -- `Reserve`.
  pub rpc_errors_survive :
      (e : Error)
      → let placed = place_error (place_status from_context e) in
        let reserved = inventory_rpc_error (reserve_status from_context e) in
        let restored = inventory_rpc_error (restore_status from_context e) in
        (is placed port_insufficient_stock ≡ is e port_insufficient_stock)
        × (is reserved port_insufficient_stock ≡ is e port_insufficient_stock)
        × (is restored port_reservation_not_found ≡ is e port_reservation_not_found)
        × (is reserved port_reservation_conflict ≡ false)
        × (is reserved port_invalid_quantity ≡ false)
        × (is restored port_insufficient_stock ≡ false)
  rpc_errors_survive e =
      let reserve = reserve_insufficient e in
      let restore = restore_not_found e in
      (place_insufficient e, reserve.0, restore.0, reserve.1, reserve.2, restore.1)
