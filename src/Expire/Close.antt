-- ===== src/Expire/Close.antt =====
-- internal/expire/p2_close.go: an order that is not paid is closed, and its stock is given back.
pub mod Once
pub mod Attempts
use seckill.Deduct.Stock.{StockKey, rollback_pre_deduct, whole}
use seckill.Stores.Call.{call, Fate}
use seckill.Errors.{Error, Result, err, ok, sentinel, check, no_rows, ◌>>◌, ◌>>=◌}
use seckill.Stores.Keyspace.{Keyspace}
use seckill.Prelude.{
  List, ℤ, Option, Bool, ℕ, true, none, ◌∷◌, some, false, if◌then◌else◌, eqb_ℤ, ◌==◌, [],
}
use seckill.Stores.Database.{created, paid, closed, Status, Database, Order}

abbrev pub same_status : Status → Status → Bool
same_status created created = true
same_status paid paid = true
same_status closed closed = true
same_status s t = false

-- SELECT … FROM orders WHERE id = ?; the id is the primary key
unfoldable pub find_by_id : List Order → ℤ → Option Order
find_by_id [] i = none
find_by_id (o ∷ os) i = if eqb_ℤ o.id i then some o else find_by_id os i

-- UPDATE orders SET status = ? WHERE id = ? AND status = ?, with the number of rows changed
unfoldable pub set_status : Status → ℤ → Status → List Order → List Order × ℕ
set_status to i from [] = ([], 0)
set_status to i from (o ∷ os) =
    let (rest, n) = set_status to i from os in
    if eqb_ℤ o.id i
    then (if same_status o.status from then (record o { status = to } ∷ os, 1) else (o ∷ os, 0))
    else (o ∷ rest, n)

-- `CloseResult`
pub record CloseResult : Type 0 where
  pub order_id : ℤ
  pub product_id : ℤ
  pub quantity : ℤ
  pub rows_affected : ℕ

-- What a call of `CloseCreatedOrder` meets: errors of the SELECT and of `RowsAffected`, and the fate of
-- the UPDATE.
pub record Meets : Type 0 where
  pub selecting : Option Error
  pub updating : Fate
  pub counting : Option Error

module _ (D : Database) where
  -- the UPDATE, over the tables
  unfoldable pub close_row : ℤ → D.Db → D.Db × ℕ
  unfolding set_status
  close_row i d = let (os, n) = set_status closed i created (D.orders d) in (D.put_orders d os, n)

  close_answer : Meets → ℤ → Order → D.Db × Result ℕ → D.Db × Result CloseResult
  close_answer m i o (d, err e) = (d, err e)
  close_answer m i o (d, ok n) = (
    d,
    check m.counting
        >> ok record {
          order_id = i;
          product_id = o.product_id;
          quantity = o.quantity;
          rows_affected = n;
        },
  )

  close_found : Meets → ℤ → D.Db → Option Order → D.Db × Result CloseResult
  unfolding close_answer close_row call
  close_found m i d none = (d, err (sentinel no_rows))
  close_found m i d (some o) = close_answer m i o (call m.updating (close_row i) d)

  -- `CloseCreatedOrder`; the SELECT is of the tables as they were then, the UPDATE of those that it
  -- meets
  unfoldable pub close_created_order : Meets → D.Db → ℤ → D.Db → D.Db × Result CloseResult
  unfolding close_found find_by_id
  close_created_order m seen i d = elim m.selecting [
    | some e ↦ (d, err e)
    | none ↦ close_found m i d (find_by_id (D.orders seen) i)
  ]

module _ (R : Keyspace StockKey ℤ) where
  -- `RestoreClosedStock`
  unfoldable pub restore_closed_stock : Fate → CloseResult → R.State → R.State × Result (Unit {0})
  unfolding rollback_pre_deduct
  restore_closed_stock fate c s =
      if c.rows_affected == 1
      then (let (t, r) = rollback_pre_deduct R fate (whole c.product_id) c.quantity s in
          (t, r >>= λ _. ok tt))
      else (s, ok tt)
