-- ===== src/Deduct/Optimistic.antt =====
-- internal/deduct/optimistic.go: an UPDATE that tests the version that was read, retried a bounded
-- number of times, and an UPDATE that tests the stock.
pub mod Cas
pub mod CasLoop
pub mod Conditional
use seckill.Prelude.{
  ℕ, zero, suc, ◌+◌, ◌-◌, ◌==◌, Option, none, some, ℤ, pos, ◌-ℤ◌, ltb_ℤ, leb_ℤ, if◌then◌else◌,
}
use seckill.Errors.{
  Error, Result, ok, err, ◌>>=◌, ◌>>◌, check, raise_if, sentinel, order_insufficient_stock,
  cas_retries_exhausted,
}
use seckill.Stores.Database.{Product, Order, Database}
use seckill.Order.Statements.{
  PlaceOrderRequest, Env, at_select, at_update, validate_request, select_product, transact,
  insert_order_tx, commit_as, at_begin,
}

abbrev pub max_cas_retries : ℕ
max_cas_retries = 10

-- What a transaction of one attempt gives: the UPDATE met another version, or the order.
pub data Turn : Type 0 where
  conflict : Turn
  done : Order → Turn

module _ (D : Database) where
  -- UPDATE products SET stock = stock - ?, version = version + 1 WHERE id = ? AND version = ?;
  -- `none` if no row is affected
  unfoldable pub update_at_version : D.Db → ℤ → ℤ → ℕ → Option D.Db
  unfolding ◌-ℤ◌
  update_at_version d i q v = elim (D.product d i) [
    | none ↦ none
    | some p ↦
        if p.version == v
        then some (D.put_product d i (record p { stock = p.stock -ℤ q; version = p.version + 1 }))
        else none
  ]

  cas_write : Env → PlaceOrderRequest → D.Db → Option D.Db → Result (Turn × D.Db)
  unfolding insert_order_tx
  cas_write env req d none = ok (conflict, d)
  cas_write env req d (some d') = do (o, d'') ← insert_order_tx D env req d'; ok (done o, d'')

  -- The statements of one attempt. The read is of the snapshot of the transaction; the UPDATE is of
  -- the row as it is.
  cas_body : Env → D.Db → PlaceOrderRequest → D.Db → Result (Turn × D.Db)
  unfolding select_product update_at_version cas_write
  cas_body env snapshot req d = do
    check (env.down at_select)
    p ← select_product D snapshot req.product_id
    raise_if (ltb_ℤ p.stock req.quantity) order_insufficient_stock
    check (env.down at_update)
    cas_write env req d (update_at_version d req.product_id req.quantity p.version)

  cas_ends : Env → D.Db → Result (Turn × D.Db) → D.Db × Result Turn
  unfolding commit_as
  cas_ends env d (err e) = (d, err e)
  cas_ends env d (ok (conflict, d')) = (d, ok conflict)
  cas_ends env d (ok (done o, d')) = commit_as D env.commit d (ok (done o, d'))

  -- one round of the loop: a conflict rolls back and means the next round
  unfoldable pub cas_attempt : Env → D.Db → PlaceOrderRequest → D.Db → D.Db × Result Turn
  unfolding cas_body cas_ends
  cas_attempt env snapshot req d = elim (env.down at_begin) [
    | some e ↦ (d, err e)
    | none ↦ cas_ends env d (cas_body env snapshot req d)
  ]

  -- What the attempt with a given number meets.
  pub record Attempt : Type 0 where
    pub env : Env
    pub snapshot : D.Db
    pub db : D.Db

  -- The tables after the last attempt made, the result, and the number of attempts.
  pub record CasAfter : Type 0 where
    pub db : D.Db
    pub result : Result Order
    pub attempts : ℕ

  cas_round : ℕ → (D.Db → CasAfter) → D.Db × Result Turn → CasAfter
  cas_round n next (d, err e) = record { db = d; result = err e; attempts = n }
  cas_round n next (d, ok (done o)) = record { db = d; result = ok o; attempts = n }
  cas_round n next (d, ok conflict) = next d

  -- The loop, `left` rounds before its bound: each round finds the world that `world` gives it.
  unfoldable pub cas_loop : ℕ → (ℕ → Attempt) → PlaceOrderRequest → D.Db → CasAfter
  unfolding cas_attempt cas_round
  cas_loop zero world req d = record {
    db = d;
    result = err (sentinel cas_retries_exhausted);
    attempts = max_cas_retries;
  }
  cas_loop (suc left) world req d =
      let a = world (max_cas_retries - left) in
      cas_round (max_cas_retries - left) (cas_loop left world req)
        (cas_attempt a.env a.snapshot req a.db)

  cas_valid : (ℕ → Attempt) → PlaceOrderRequest → D.Db → Result (Unit {0}) → CasAfter
  unfolding cas_loop
  cas_valid world req d (err e) = record { db = d; result = err e; attempts = 0 }
  cas_valid world req d (ok _) = cas_loop max_cas_retries world req d

  -- `PlaceOrderByVersionCAS`
  unfoldable pub place_order_by_version_cas : (ℕ → Attempt) → PlaceOrderRequest → D.Db → CasAfter
  unfolding cas_valid validate_request
  place_order_by_version_cas world req d = cas_valid world req d (validate_request req)

  -- UPDATE products SET stock = stock - ? WHERE id = ? AND stock >= ?
  unfoldable pub update_if_enough : D.Db → ℤ → ℤ → Option D.Db
  unfolding ◌-ℤ◌
  update_if_enough d i q = elim (D.product d i) [
    | none ↦ none
    | some p ↦
        if leb_ℤ q p.stock
        then some (D.put_product d i (record p { stock = p.stock -ℤ q }))
        else none
  ]

  conditional_write : Env → PlaceOrderRequest → Option D.Db → Result (Order × D.Db)
  unfolding insert_order_tx
  conditional_write env req none = err (sentinel order_insufficient_stock)
  conditional_write env req (some d) = insert_order_tx D env req d

  unfoldable pub conditional_body : Env → PlaceOrderRequest → D.Db → Result (Order × D.Db)
  unfolding update_if_enough conditional_write
  conditional_body env req d = do
    check (env.down at_update)
    conditional_write env req (update_if_enough d req.product_id req.quantity)

  -- `PlaceOrderByConditionalUpdate`
  unfoldable pub place_order_by_conditional_update :
      Env → PlaceOrderRequest → D.Db → D.Db × Result Order
  unfolding validate_request transact conditional_body
  place_order_by_conditional_update env req d = elim (validate_request req) [
    | err e ↦ (d, err e)
    | ok _ ↦ transact D env (conditional_body env req) d
  ]
