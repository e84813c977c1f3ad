-- ===== src/Deduct/Optimistic/Conditional.antt =====
-- internal/deduct/optimistic.go: `PlaceOrderByConditionalUpdate`, whose UPDATE tests the stock.
use seckill.Prelude.{
  ◌≡◌, refl, arith, Option, none, some, ℤ, pos, ◌-ℤ◌, ◌≤ℤ◌, Option-cases, inl, inr,
}
use seckill.Errors.{Error, Result, ok, err, >>=-eq-ok, check}
use seckill.Stores.Database.{Product, Order, Database}
use seckill.Order.Statements.{PlaceOrderRequest, Env, validate_request, at_update}
use seckill.Order.Place.Outcome.{Sale}
use seckill.Order.Effect.{update_insert-Places, positive_of_valid}
use seckill.Order.Transact.{
  Transacts, aborts, commits, commits_unseen, transact-Transacts, insert_order_tx-ok,
}
use seckill.Deduct.Optimistic.{
  update_if_enough, conditional_write, conditional_body, place_order_by_conditional_update,
}

module _ (D : Database) where
  -- What the call comes to: nothing, or a sale that the row covered when it was taken.
  pub data Conditional (env : Env) (req : PlaceOrderRequest) (d d' : D.Db) (r : Result Order)
      : Type 0 where
    fails : (e : Error) → r ≡ err e → d' ≡ d → Conditional env req d d' r
    sells : (o : Order) → r ≡ ok o → Sale D env req d d' o → Conditional env req d d' r
    sells_unseen :
        (o : Order) (e : Error) → r ≡ err e → Sale D env req d d' o → Conditional env req d d' r

  update_if_enough-some :
      (d : D.Db) (i q : ℤ) {d' : D.Db}
      → update_if_enough D d i q ≡ some d'
      → (p : Product) × (D.product d i ≡ some p)
        × (q ≤ℤ p.stock)
        × (D.put_product d i (record p { stock = p.stock -ℤ q }) ≡ d')
  unfolding update_if_enough
  update_if_enough-some d i q h = elim (Option-cases (D.product d i)) [
    | inl missing ↦ cc (missing_none d i q missing)
    | inr (p, there) ↦ (p, there, ground arith, ground arith)
  ]
    where
      missing_none : (d : D.Db) (i q : ℤ) → D.product d i ≡ none → update_if_enough D d i q ≡ none
      missing_none d i q e = rw (e, update_if_enough) refl

  module _ (env : Env) (req : PlaceOrderRequest) (d : D.Db) (positive : pos 1 ≤ℤ req.quantity) where
    write-Sale :
        (u : Option D.Db) {o : Order} {d' : D.Db}
        → update_if_enough D d req.product_id req.quantity ≡ u
        → conditional_write D env req u ≡ ok (o, d')
        → Sale D env req d d' o
    unfolding conditional_write
    write-Sale none e h = cc
    write-Sale (some d1) e h =
        let (p, there, enough, eq) = update_if_enough-some d req.product_id req.quantity e in
        let (id, same, inserted) = insert_order_tx-ok D env req d1 h in
        record {
          id = id;
          order = same;
          effect =
              update_insert-Places D d req id env.now there
                (record p { stock = p.stock -ℤ req.quantity }) refl (rw eq inserted);
          covered = rw there enough;
          positive = positive;
        }

    body-Sale :
        {o : Order} {d' : D.Db} → conditional_body D env req d ≡ ok (o, d') → Sale D env req d d' o
    unfolding conditional_body
    body-Sale h =
        let (u, up, h') = >>=-eq-ok (check (env.down at_update)) _ h in
        write-Sale (update_if_enough D d req.product_id req.quantity) refl h'

    Transacts-Conditional :
        (d' : D.Db) (r : Result Order)
        → Transacts D env (conditional_body D env req) d d' r
        → Conditional env req d d' r
    Transacts-Conditional d' r (aborts e f s) = fails e f s
    Transacts-Conditional d' r (commits o b f) = sells o f (body-Sale b)
    Transacts-Conditional d' r (commits_unseen o e b f l) = sells_unseen o e f (body-Sale b)

  -- One call of `PlaceOrderByConditionalUpdate` fails and changes nothing, or sells a positive quantity
  -- that the stock covers at that moment, with no retry; the answer of the commit may be lost.
  pub place_order_by_conditional_update-Conditional :
      (env : Env) (req : PlaceOrderRequest) (d : D.Db)
      → let (d', r) = place_order_by_conditional_update D env req d in Conditional env req d d' r
  unfolding place_order_by_conditional_update
  place_order_by_conditional_update-Conditional env req d = valid (validate_request req) refl
    where
      valid :
          (v : Result (Unit {0}))
          → validate_request req ≡ v
          → let (d', r) = place_order_by_conditional_update D env req d in
            Conditional env req d d' r
      valid (err e) h = rw (h, place_order_by_conditional_update) (fails e refl refl)
      valid (ok u) h =
          rw (h, place_order_by_conditional_update)
            (Transacts-Conditional env req d (positive_of_valid req h) _ _
              (transact-Transacts D env (conditional_body D env req) d))
