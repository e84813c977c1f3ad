-- ===== src/Deduct/Lock/Sells.antt =====
-- internal/deduct/lock.go: what `PlaceOrderWithLock` comes to while the lock does its work, which is
-- that the row is still the one that the transaction read.
use seckill.Deduct.Optimistic.Conditional.{Conditional}
use seckill.Order.Transact.{
  insert_order_tx-ok, Transacts, aborts, commits, transact-Transacts, commits_unseen,
}
use seckill.Order.Place.Outcome.{Sale}
use seckill.Deduct.Lock.{Lease, locked_body, in_section, place_order_with_lock, Section}
use seckill.Stores.Keyspace.{Keyspace}
use seckill.Errors.{
  check, raise_if, ok, >>=-eq-ok, raise_if-ok, order_insufficient_stock, Result, err,
}
use seckill.Stores.Database.{Database, Order, Product}
use seckill.Order.Statements.{
  PlaceOrderRequest, Env, take_stock, at_select, at_update, select_product, validate_request,
}
use seckill.Order.Effect.{
  update_insert-Places, select_product-ok, covered_of_test, positive_of_valid,
}
use seckill.Prelude.{ℤ, ◌≡◌, some, pos, ◌≤ℤ◌, ◌-ℤ◌, ltb_ℤ, refl, ◌∙◌, sym, String}

module _ (K : Keyspace ℤ Lease) (D : Database) (env : Env) (req : PlaceOrderRequest)
    (snapshot d : D.Db)
    (current : D.product snapshot req.product_id ≡ D.product d req.product_id) where
  take_stock-some :
      {p : Product}
      → D.product d req.product_id ≡ some p
      → take_stock D d req.product_id req.quantity
        ≡ D.put_product d req.product_id (record p { stock = p.stock -ℤ req.quantity })
  unfolding take_stock
  take_stock-some h = rw (h, take_stock) refl

  locked_body-Sale :
      {o : Order} {d' : D.Db}
      → pos 1 ≤ℤ req.quantity
      → locked_body K D env snapshot req d ≡ ok (o, d')
      → Sale D env req d d' o
  unfolding locked_body
  locked_body-Sale positive h =
      let (u, up, h1) = >>=-eq-ok (check (env.down at_select)) _ h in
      let (p, was, h2) = >>=-eq-ok (select_product D snapshot req.product_id) _ h1 in
      let (v, enough, h3) =
        >>=-eq-ok (raise_if (ltb_ℤ p.stock req.quantity) order_insufficient_stock) _ h2 in
      let (w, up', h4) = >>=-eq-ok (check (env.down at_update)) _ h3 in
      let there = sym current ∙ select_product-ok D snapshot req.product_id was in
      let (id, same, inserted) = insert_order_tx-ok D env req _ h4 in
      record {
        id = id;
        order = same;
        effect =
            update_insert-Places D d req id env.now there
              (record p { stock = p.stock -ℤ req.quantity }) refl
              (rw (sym (take_stock-some there)) inserted);
        covered = rw there (covered_of_test p.stock req.quantity (raise_if-ok _ _ enough));
        positive = positive;
      }

  Transacts-Conditional :
      (d' : D.Db) (r : Result Order)
      → pos 1 ≤ℤ req.quantity
      → Transacts D env (locked_body K D env snapshot req) d d' r
      → Conditional D env req d d' r
  Transacts-Conditional d' r positive (aborts e f s) = Conditional.fails e f s
  Transacts-Conditional d' r positive (commits o b f) =
      Conditional.sells o f (locked_body-Sale positive b)
  Transacts-Conditional d' r positive (commits_unseen o e b f l) =
      Conditional.sells_unseen o e f (locked_body-Sale positive b)

  in_section-Conditional :
      (w : Section K D) (a : K.State × Result String)
      → pos 1 ≤ℤ req.quantity
      → let (s', d', r) = in_section K D w env snapshot req d a in Conditional D env req d d' r
  unfolding in_section
  in_section-Conditional w (s, err e) positive = Conditional.fails e refl refl
  in_section-Conditional w (s, ok token) positive =
      Transacts-Conditional _ _ positive
        (transact-Transacts D env (locked_body K D env snapshot req) d)

  -- `PlaceOrderWithLock`, whatever becomes of the lock, if the row of the product is still the one that
  -- its transaction reads: it fails and changes nothing, or sells a positive quantity that the row covers;
  -- the answer of the commit may be lost.
  pub place_order_with_lock-Conditional :
      (w : Section K D) (s : K.State)
      → let (s', d', r) = place_order_with_lock K D w env snapshot req s d in
        Conditional D env req d d' r
  unfolding place_order_with_lock
  place_order_with_lock-Conditional w s = valid (validate_request req) refl
    where
      valid :
          (v : Result (Unit {0}))
          → validate_request req ≡ v
          → let (s', d', r) = place_order_with_lock K D w env snapshot req s d in
            Conditional D env req d d' r
      valid (err e) h = rw (h, place_order_with_lock) (Conditional.fails e refl refl)
      valid (ok u) h =
          rw (h, place_order_with_lock) (in_section-Conditional w _ (positive_of_valid req h))
