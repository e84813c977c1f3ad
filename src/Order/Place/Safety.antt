-- ===== src/Order/Place/Safety.antt =====
-- internal/order/order.go: `PlaceOrderTx` neither oversells nor loses stock, and is idempotent.
use seckill.Stores.Call.{answered}
use seckill.Prelude.{
  ◌≡◌, refl, ℤ, pos, ◌≤ℤ◌, ◌+ℤ◌, int_laws, some, inl, none, inr, ◌⊎◌, arith, false,
}
use seckill.Errors.{Result, ok}
use seckill.Stores.Database.{Order, Database, Product}
use seckill.Order.Statements.{
  PlaceOrderRequest, Env, find_order, sold, new_order, Point, has_id, at_update, at_select, at_find,
  at_begin, at_insert,
}
use seckill.Order.Effect.{Places-conserves, Places-Unique, stock_at, Unique, Places-stock}
use seckill.Order.Place.{place_order_tx}
use seckill.Order.Place.Outcome.{
  Sale, Outcome, fails, replays, sells, sells_unseen, place_order_tx-Outcome,
}

module _ (D : Database) (env : Env) (req : PlaceOrderRequest) (snapshot d : D.Db) where
  -- What is the same before and after: stock and sales together, for every product; and what stays
  -- true: no stock is negative, no request id occurs twice.
  pub record Keeps (d' : D.Db) : Type 0 where
    pub conserves :
        (i : ℤ) → stock_at D d' i +ℤ sold (D.orders d') i ≡ stock_at D d i +ℤ sold (D.orders d) i
    pub nonneg : ((i : ℤ) → pos 0 ≤ℤ stock_at D d i) → (i : ℤ) → pos 0 ≤ℤ stock_at D d' i
    pub unique : Unique (D.orders d) → Unique (D.orders d')

  same-Keeps : {d' : D.Db} → d' ≡ d → Keeps d'
  same-Keeps e = rw e (record { conserves = λ i. refl; nonneg = λ h. h; unique = λ u. u })

  Sale-nonneg :
      {d' : D.Db} {o : Order} (s : Sale D env req d d' o)
      → ((i : ℤ) → pos 0 ≤ℤ stock_at D d i)
      → (i : ℤ) → pos 0 ≤ℤ stock_at D d' i
  Sale-nonneg s h i = elim (Places-stock D s.effect i) [
    | inl (at_i, less) ↦ rw less (rw at_i (omega (int_laws, s.covered)))
    | inr same ↦ rw same (h i)
  ]

  Sale-Keeps : {d' : D.Db} {o : Order} → Sale D env req d d' o → Keeps d'
  Sale-Keeps s = record {
    conserves = Places-conserves D s.effect;
    nonneg = Sale-nonneg s;
    unique = Places-Unique D s.effect;
  }

  Outcome-Keeps : {d' : D.Db} {r : Result Order} → Outcome D env req snapshot d d' r → Keeps d'
  Outcome-Keeps (fails e _ same) = same-Keeps same
  Outcome-Keeps (replays o _ same _) = same-Keeps same
  Outcome-Keeps (sells o _ s) = Sale-Keeps s
  Outcome-Keeps (sells_unseen o e _ _ s) = Sale-Keeps s

  -- However old the snapshot and whatever fails on the way: stock and sales add up as before, no
  -- stock that was not negative becomes so, and request ids stay unique.
  pub place_order_tx-Keeps : Keeps (place_order_tx D env snapshot req d).0
  place_order_tx-Keeps = Outcome-Keeps (place_order_tx-Outcome D env req snapshot d)

  -- The request id is in the table already.
  Outcome-replay :
      {d' : D.Db} {r : Result Order} {o : Order}
      → find_order (D.orders d) req.request_id ≡ some o
      → (find_order (D.orders snapshot) req.request_id ≡ none)
        ⊎ (find_order (D.orders snapshot) req.request_id ≡ some o)
      → Outcome D env req snapshot d d' r
      → (d' ≡ d) × ((o' : Order) → r ≡ ok o' → o' ≡ o)
  Outcome-replay there seen (fails e failed same) = (same, λ o' h. cc)
  Outcome-replay there seen (replays o' returned same (inl old)) = (same, λ o'' h. ground arith)
  Outcome-replay there seen (replays o' returned same (inr now)) = (same, λ o'' h. ground arith)
  Outcome-replay there seen (sells o _ s) = cc (s.effect.fresh)
  Outcome-replay there seen (sells_unseen o e _ _ s) = cc (s.effect.fresh)

  -- A request id that is in the table is never written again, whether or not the snapshot shows it:
  -- nothing changes, and what is returned, if anything, is the order that is there.
  pub place_order_tx_replay :
      {o : Order}
      → find_order (D.orders d) req.request_id ≡ some o
      → (find_order (D.orders snapshot) req.request_id ≡ none)
        ⊎ (find_order (D.orders snapshot) req.request_id ≡ some o)
      → let (d', r) = place_order_tx D env snapshot req d in
        (d' ≡ d) × ((o' : Order) → r ≡ ok o' → o' ≡ o)
  place_order_tx_replay there seen =
      Outcome-replay there seen (place_order_tx-Outcome D env req snapshot d)

  -- With nothing failing, a new request id and a new id, a positive quantity that the row of the
  -- product covers is sold, and the new order is returned.
  pub place_order_tx_sells :
      {p : Product} {id : ℤ}
      → ((x : Point) → env.down x ≡ none)
      → env.commit ≡ answered
      → env.next ≡ ok id
      → D.product d req.product_id ≡ some p
      → pos 1 ≤ℤ req.quantity
      → req.quantity ≤ℤ p.stock
      → find_order (D.orders snapshot) req.request_id ≡ none
      → find_order (D.orders d) req.request_id ≡ none
      → has_id (D.orders d) id ≡ false
      → (place_order_tx D env snapshot req d).1 ≡ ok (new_order id req)
  unfolding place_order_tx
  place_order_tx_sells up committed next row positive enough new_snapshot new_order_id fresh =
      ground (arith, up at_begin, up at_find, up at_select, up at_insert, up at_update)
