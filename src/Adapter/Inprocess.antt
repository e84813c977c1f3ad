-- ===== src/Adapter/Inprocess.antt =====
-- internal/adapter/inprocess/adapter.go, and `GetProduct` of internal/inventory/reservation.go: results
-- and errors of the packages under internal/ as those of internal/ports. The injected function's own
-- result is the argument.
use seckill.Prelude.{ℤ, if◌then◌else◌, String}
use seckill.Errors.{
  Error, Result, err, is, ok, order_insufficient_stock, no_rows, cache_product_not_found, sentinel,
  port_insufficient_stock, port_order_not_found, port_cached_product_miss, order_product_not_found,
  port_product_not_found, order_invalid_quantity, port_invalid_quantity,
}
use seckill.Stores.Database.{Order}
use seckill.Ports
use seckill.Order.Statements.{PlaceOrderRequest}

-- the request that `PlaceOrder` passes to the injected function
unfoldable pub to_order_request : Ports.PlaceOrderRequest → PlaceOrderRequest
to_order_request req = record {
  request_id = req.request_id;
  product_id = req.product_id;
  user_id = req.user_id;
  quantity = req.quantity;
}

unfoldable pub to_port_order : Order → Ports.Order
to_port_order o = record {
  id = o.id;
  product_id = o.product_id;
  user_id = o.user_id;
  request_id = o.request_id;
  quantity = o.quantity;
  status = o.status;
  created_at = o.created_at;
}

-- the `switch` of `PlaceOrder`
unfoldable pub place_order_error : Error → Error
place_order_error e =
    if is e order_insufficient_stock
    then sentinel port_insufficient_stock
    else (if is e order_product_not_found
        then sentinel port_product_not_found
        else (if is e order_invalid_quantity then sentinel port_invalid_quantity else e))

-- `OrderAdapter.PlaceOrder`
unfoldable pub place_order : Result Order → Result Ports.Order
unfolding to_port_order place_order_error
place_order (err e) = err (place_order_error e)
place_order (ok o) = ok (to_port_order o)

-- `OrderAdapter.GetOrderByRequestID`
unfoldable pub get_order_by_request_id : Result Order → Result Ports.Order
unfolding to_port_order
get_order_by_request_id (err e) = err (if is e no_rows then sentinel port_order_not_found else e)
get_order_by_request_id (ok o) = ok (to_port_order o)

-- `InventoryAdapter.GetProduct`, and `Service.GetProduct` of internal/inventory
unfoldable pub get_port_product : ℤ → Result (String × ℤ) → Result Ports.Product
get_port_product i (err e) =
    err (if is e cache_product_not_found then sentinel port_cached_product_miss else e)
get_port_product i (ok (name, stock)) = ok record { id = i; name = name; stock = stock }
