-- ===== src/Deduct/Lock/Expired.antt =====
-- internal/deduct/lock.go: two calls of `PlaceOrderWithLock` whose transactions overlap, since the lock of
-- the first runs out while it is inside.
use seckill.Errors.{ok}
use seckill.Stores.Call.{answered}
use seckill.Stores.Database.{Database, Product}
use seckill.Prelude.{
  ℤ, String, ◌-ℤ◌, ◌≡◌, none, some, pos, ◌∷◌, false, ◌≤ℤ◌, arith, ◌+◌, ◌≤◌, ◌<ℤ◌, ◌+ℤ◌, subst, ap,
  int_laws, ◌∙◌, sym,
}
use seckill.Stores.Keyspace.{Keyspace}
use mathlib.Core.Path.{refl}
use seckill.Deduct.Lock.{
  expiry, Lease, Section, acquire, place_order_with_lock, locked_body, live, Order,
}
use seckill.Deduct.Lock.Exclusion.{acquire_free, expired, lasts_after}
use seckill.Order.Statements.{
  Env, Point, PlaceOrderRequest, transact, find_order, has_id, new_order, at_begin, at_select,
  at_update, at_insert,
}
use seckill.Order.Effect.{stored, stock_at, take_stock-some, valid_quantity, stock_of}

module _ (K : Keyspace ℤ Lease) (D : Database) where
  -- A call that nothing fails for: its id, and a quantity that the row it reads covers.
  pub record Smooth (env : Env) (req : PlaceOrderRequest) (seen : Product) (id : ℤ) : Type 0 where
    pub up : (x : Point) → env.down x ≡ none
    pub committed : env.commit ≡ answered
    pub next : env.next ≡ ok id
    pub positive : pos 1 ≤ℤ req.quantity
    pub covered : req.quantity ≤ℤ seen.stock

  -- the tables with the order, and its quantity off a row
  sold_from : Env → PlaceOrderRequest → ℤ → Product → D.Db → D.Db
  sold_from env req id p d =
      D.put_orders (D.put_product d req.product_id (record p { stock = p.stock -ℤ req.quantity }))
        (stored id env.now req ∷ D.orders d)

  transact_sells :
      (env : Env) (req : PlaceOrderRequest) (snapshot d : D.Db) (seen p : Product) (id : ℤ)
      → Smooth env req seen id
      → D.product snapshot req.product_id ≡ some seen
      → D.product d req.product_id ≡ some p
      → find_order (D.orders d) req.request_id ≡ none
      → has_id (D.orders d) id ≡ false
      → transact D env (locked_body K D env snapshot req) d
        ≡ (sold_from env req id p d, ok (new_order id req))
  unfolding transact locked_body sold_from
  transact_sells env req snapshot d seen p id c seen_at at_i fresh fresh_id =
      let row = record p { stock = p.stock -ℤ req.quantity } in
      let kept = D.orders-put_product d req.product_id row in
      let took = take_stock-some D d req.product_id req.quantity at_i in
      ground (
        arith,
        kept,
        took,
        c.up at_begin,
        c.up at_select,
        c.up at_update,
        c.up at_insert,
        c.committed,
        c.next,
        c.covered,
      )

  placed_under :
      (w : Section K D) (env : Env) (req : PlaceOrderRequest) (snapshot d e : D.Db) (s t : K.State)
      (token : String) (o : Order)
      → pos 1 ≤ℤ req.quantity
      → acquire K w.acquiring w.token req.product_id w.options.ttl w.start s ≡ (t, ok token)
      → transact D env (locked_body K D env snapshot req) d ≡ (e, ok o)
      → let (_, d', r) = place_order_with_lock K D w env snapshot req s d in (d' ≡ e) × (r ≡ ok o)
  unfolding place_order_with_lock
  placed_under w env req snapshot d e s t token o positive got done =
      rw (place_order_with_lock, valid_quantity req positive, got, done) (refl, refl)

  module _ (a b : Section K D) (env env' : Env) (req req' : PlaceOrderRequest) (s : K.State)
      (d : D.Db) (p : Product) (id id' : ℤ) (mine theirs : String)
      (same : req'.product_id ≡ req.product_id) (acquiring : a.acquiring ≡ answered)
      (acquiring' : b.acquiring ≡ answered) (token : a.token ≡ ok mine)
      (token' : b.token ≡ ok theirs) (free : live a.start (K.get s req.product_id) ≡ none)
      (runs : 1 ≤ a.options.ttl) (late : a.start + a.options.ttl ≤ b.start)
      (row : D.product d req.product_id ≡ some p) (first : Smooth env req p id)
      (second : Smooth env' req' p id') (fresh : find_order (D.orders d) req.request_id ≡ none)
      (fresh_id : has_id (D.orders d) id ≡ false)
      (fresh' : find_order (stored id env.now req ∷ D.orders d) req'.request_id ≡ none)
      (fresh_id' : has_id (stored id env.now req ∷ D.orders d) id' ≡ false) where
    -- the keys while the first call is inside, and the tables after it
    held : K.State
    held = K.put s req.product_id (record { token = mine; expires = expiry a.start a.options.ttl })

    between : D.Db
    between = sold_from env req id p d

    less : Product
    less = record p { stock = p.stock -ℤ req.quantity }

    first_gets :
        acquire K a.acquiring a.token req.product_id a.options.ttl a.start s ≡ (held, ok mine)
    unfolding held
    first_gets =
        simp (acquiring, token) (acquire_free K req.product_id mine a.options.ttl a.start s free)

    first_places :
        let (_, d', r) = place_order_with_lock K D a env d req s d in
        (d' ≡ between) × (r ≡ ok (new_order id req))
    unfolding between
    first_places =
        placed_under a env req d d between s held mine (new_order id req) first.positive first_gets
          (transact_sells env req d d p p id first row row fresh fresh_id)

    second_gets :
        (t : K.State) × (acquire K b.acquiring b.token req'.product_id b.options.ttl b.start held
          ≡ (t, ok theirs))
    unfolding held
    second_gets =
        let lease : Lease = record { token = mine; expires = expiry a.start a.options.ttl } in
        let gone =
          expired K req.product_id lease s b.start
            (lasts_after a.start a.options.ttl b.start runs late) in
        (
          K.put held req'.product_id
              (record { token = theirs; expires = expiry b.start b.options.ttl }),
          simp (acquiring', token')
              (acquire_free K req'.product_id theirs b.options.ttl b.start held
                (subst (λ i. live b.start (K.get held i) ≡ none) (sym same) gone)),
        )

    between_row : D.product between req'.product_id ≡ some less
    unfolding between sold_from less
    between_row =
        D.product-put_orders (D.put_product d req.product_id less) _ req'.product_id
        ∙ ap (D.product (D.put_product d req.product_id less)) same
        ∙ D.product-put_self d req.product_id less

    between_orders : D.orders between ≡ stored id env.now req ∷ D.orders d
    unfolding between sold_from less
    between_orders = D.orders-put_orders (D.put_product d req.product_id less) _

    after : D.Db
    after = sold_from env' req' id' less between

    second_places :
        let (_, d', r) = place_order_with_lock K D b env' d req' held between in
        (d' ≡ after) × (r ≡ ok (new_order id' req'))
    unfolding after
    second_places =
        placed_under b env' req' d between after held second_gets.0 theirs (new_order id' req')
          second.positive second_gets.1
          (transact_sells env' req' d between p less id' second (ap (D.product d) same ∙ row)
            between_row (rw between_orders fresh') (rw between_orders fresh_id'))

    after_stock : stock_at D after req.product_id ≡ p.stock -ℤ req.quantity -ℤ req'.quantity
    unfolding after sold_from less
    after_stock = ap stock_of (
        D.product-put_orders (D.put_product between req'.product_id _) _ req.product_id
        ∙ ap (D.product (D.put_product between req'.product_id _)) (sym same)
        ∙ D.product-put_self between req'.product_id _)

    -- A lock with a time to live that nothing has renewed runs out before its holder is done: another call acquires it, and if
    -- both have read a row that covers each of them before either commits, both are accepted, and the
    -- stock of the product ends below zero where it does not cover both.
    pub expired_lock_oversells :
        p.stock <ℤ (req.quantity +ℤ req'.quantity)
        → let s' = (acquire K a.acquiring a.token req.product_id a.options.ttl a.start s).0 in
          let (_, d1, r) = place_order_with_lock K D a env d req s d in
          let (_, d2, r') = place_order_with_lock K D b env' d req' s' d1 in
          (r ≡ ok (new_order id req))
          × (r' ≡ ok (new_order id' req'))
          × (stock_at D d2 req.product_id <ℤ pos 0)
    expired_lock_oversells short =
        rw (first_gets, first_places.0)
          (first_places.1, second_places.1, rw (second_places.0, after_stock) (omega int_laws))
