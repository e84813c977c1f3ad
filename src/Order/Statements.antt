-- ===== src/Order/Statements.antt =====
-- The SQL statements that the packages share, over the tables, and a transaction around them.
use text.Mathlib.Text.{◌==◌ as str_eq}
use seckill.Prelude.{
  ℕ, Bool, ◌||◌, Option, none, some, List, [], ◌∷◌, String, ℤ, pos, ◌+ℤ◌, ◌-ℤ◌, leb_ℤ, eqb_ℤ,
  if◌then◌else◌,
}
use seckill.Errors.{
  Error, Result, ok, err, ◌>>=◌, ◌>>◌, check, raise_if, sentinel, driver, order_product_not_found,
  order_invalid_quantity,
}
use seckill.Stores.Call.{Fate, answered, not_made, answer_lost}
use seckill.Stores.Database.{created, Product, Order, Database}

-- internal/order/model.go
pub record PlaceOrderRequest : Type 0 where
  pub request_id : String
  pub product_id : ℤ
  pub user_id : ℤ
  pub quantity : ℤ

-- The places where the driver may report an error, and what else a call meets: the outcome of the
-- commit, the result of `NextID`, and the time of the database.
pub data Point : Type 0 where
  at_begin at_find at_select at_update at_insert at_reread : Point

pub record Env : Type 0 where
  pub down : Point → Option Error
  pub commit : Fate
  pub next : Result ℤ
  pub now : ℕ

-- SELECT … FROM orders WHERE request_id = ?; request ids are compared as they stand, where the tables'
-- collation takes those that differ only in case or accents for the same
unfoldable pub find_order : List Order → String → Option Order
find_order [] r = none
find_order (o ∷ os) r = if str_eq o.request_id r then some o else find_order os r

-- whether the primary key is taken
unfoldable pub has_id : List Order → ℤ → Bool
has_id [] i = Bool.false
has_id (o ∷ os) i = eqb_ℤ o.id i || has_id os i

-- SELECT COALESCE(SUM(quantity), 0) FROM orders WHERE product_id = ?
unfoldable pub sold : List Order → ℤ → ℤ
unfolding ◌+ℤ◌
sold [] i = pos 0
sold (o ∷ os) i = if eqb_ℤ o.product_id i then o.quantity +ℤ sold os i else sold os i

-- The order that the packages build from a request and an id; its time is Go's zero time.
unfoldable pub new_order : ℤ → PlaceOrderRequest → Order
new_order id req = record {
  id = id;
  product_id = req.product_id;
  user_id = req.user_id;
  request_id = req.request_id;
  quantity = req.quantity;
  status = created;
  created_at = 0;
}

unfoldable pub validate_request : PlaceOrderRequest → Result (Unit {0})
validate_request req = raise_if (leb_ℤ req.quantity (pos 0)) order_invalid_quantity

-- the error 1062 of MySQL
abbrev pub duplicate_entry : Error
duplicate_entry = driver 1062

module _ (D : Database) where
  -- SELECT stock, version FROM products WHERE id = ?
  unfoldable pub select_product : D.Db → ℤ → Result Product
  select_product d i = elim (D.product d i) [
    | none ↦ err (sentinel order_product_not_found)
    | some p ↦ ok p
  ]

  -- UPDATE products SET stock = stock - ? WHERE id = ?
  unfoldable pub take_stock : D.Db → ℤ → ℤ → D.Db
  unfolding ◌-ℤ◌
  take_stock d i q = elim (D.product d i) [
    | none ↦ d
    | some p ↦ D.put_product d i (record p { stock = p.stock -ℤ q })
  ]

  -- INSERT INTO orders …; `none` if the id or the request id is there already
  unfoldable pub insert_order : D.Db → Order → ℕ → Option D.Db
  unfolding find_order has_id
  insert_order d o now = elim (find_order (D.orders d) o.request_id) [
    | none ↦
        if has_id (D.orders d) o.id
        then none
        else some (D.put_orders d (record o { created_at = now } ∷ D.orders d))
    | some _ ↦ none
  ]

  -- BEGIN, the statements, and COMMIT; an error before the commit rolls back.
  unfoldable pub commit_as : {A : Type 0} → Fate → D.Db → Result (A × D.Db) → D.Db × Result A
  commit_as fate d (err e) = (d, err e)
  commit_as answered d (ok (a, d')) = (d', ok a)
  commit_as (not_made e) d (ok (a, d')) = (d, err e)
  commit_as (answer_lost e) d (ok (a, d')) = (d', err e)

  unfoldable pub transact : {A : Type 0} → Env → (D.Db → Result (A × D.Db)) → D.Db → D.Db × Result A
  unfolding commit_as
  transact env body d = elim (env.down at_begin) [
    | some e ↦ (d, err e)
    | none ↦ commit_as env.commit d (body d)
  ]

  unfoldable pub insert_answer : Order → Option D.Db → Result (Order × D.Db)
  insert_answer o none = err duplicate_entry
  insert_answer o (some d) = ok (o, d)

  -- internal/deduct's `insertOrderTx`
  unfoldable pub insert_order_tx : Env → PlaceOrderRequest → D.Db → Result (Order × D.Db)
  unfolding insert_order new_order insert_answer
  insert_order_tx env req d = do
    id ← env.next
    check (env.down at_insert)
    insert_answer (new_order id req) (insert_order d (new_order id req) env.now)
