-- ===== src/Order/Place/Outcome.antt =====
-- internal/order/order.go: every way in which `PlaceOrderTx` ends.
use seckill.Prelude.{◌≡◌, ◌⊎◌, inl, inr, refl, arith, Option, none, some, ℤ, pos, ◌≤ℤ◌, ltb_ℤ}
use seckill.Errors.{
  Error, Result, ok, err, Returns, Returns-bind, raise_if-ok, check, raise_if,
  order_insufficient_stock,
}
use seckill.Stores.Call.{Fate, answered, not_made, answer_lost}
use seckill.Stores.Database.{Product, Order, Database}
use seckill.Order.Statements.{
  PlaceOrderRequest, Env, find_order, new_order, select_product, insert_order, validate_request,
  at_update, at_select, at_find, at_begin, at_insert,
}
use seckill.Order.Effect.{
  Places, insert_take-Places, stock_at, select_product-ok, positive_of_valid, covered_of_test,
}
use seckill.Order.Place.{
  Ending, replayed, placed, raced, inserted, found, begun, validated, locked, body, reread, commits,
  ends, place_order_tx,
}

module _ (D : Database) (env : Env) (req : PlaceOrderRequest) where
  -- An order of a positive quantity that the row of the product covers.
  pub record Sale (d d' : D.Db) (o : Order) : Type 0 where
    pub id : ℤ
    pub order : o ≡ new_order id req
    pub effect : Places D req d d' id env.now
    pub covered : req.quantity ≤ℤ stock_at D d req.product_id
    pub positive : pos 1 ≤ℤ req.quantity

  -- The call fails and nothing changes; or it returns the order that the snapshot or the tables
  -- already hold under its request id, and nothing changes; or it makes a sale and returns it, or
  -- makes it and fails because the answer to the commit is lost.
  pub data Outcome (snapshot d d' : D.Db) (r : Result Order) : Type 0 where
    fails : (e : Error) → r ≡ err e → d' ≡ d → Outcome snapshot d d' r
    replays :
        (o : Order)
        → r ≡ ok o
        → d' ≡ d
        → (find_order (D.orders snapshot) req.request_id ≡ some o)
          ⊎ (find_order (D.orders d) req.request_id ≡ some o)
        → Outcome snapshot d d' r
    sells : (o : Order) → r ≡ ok o → Sale d d' o → Outcome snapshot d d' r
    sells_unseen :
        (o : Order) (e : Error)
        → r ≡ err e
        → env.commit ≡ answer_lost e
        → Sale d d' o
        → Outcome snapshot d d' r

  module _ (snapshot d : D.Db) (positive : pos 1 ≤ℤ req.quantity) where
    abbrev Fits : Ending D.Db → Type 0
    Fits (replayed o) = find_order (D.orders snapshot) req.request_id ≡ some o
    Fits (placed o d') = Sale d d' o
    Fits raced = Unit {0}

    inserted-Fits :
        (id : ℤ) {p : Product} (o : Option D.Db)
        → D.product d req.product_id ≡ some p
        → req.quantity ≤ℤ p.stock
        → insert_order D d (new_order id req) env.now ≡ o
        → Returns Fits (inserted D env req (new_order id req) o)
    unfolding inserted
    inserted-Fits id none was h e = tt
    inserted-Fits id (some d') was h e = Returns-bind Fits (check (env.down at_update)) _ (λ _ _.
        record {
          id = id;
          order = refl;
          effect = insert_take-Places D d req id env.now was e;
          covered = rw was h;
          positive = positive;
        })

    locked-Fits : Returns Fits (locked D env req d)
    unfolding locked
    locked-Fits = Returns-bind Fits (check (env.down at_select)) _ λ _ _.
        Returns-bind Fits (select_product D d req.product_id) _ λ p was.
          Returns-bind Fits (raise_if (ltb_ℤ p.stock req.quantity) order_insufficient_stock) _
            λ _ enough. Returns-bind Fits env.next _ λ id _.
              Returns-bind Fits (check (env.down at_insert)) _ λ _ _.
                inserted-Fits id (insert_order D d (new_order id req) env.now)
                  (select_product-ok D d req.product_id was)
                  (covered_of_test p.stock req.quantity (raise_if-ok _ _ enough)) refl

    found-Fits :
        (o : Option Order)
        → find_order (D.orders snapshot) req.request_id ≡ o
        → Returns Fits (found D env req d o)
    unfolding found
    found-Fits none e = locked-Fits
    found-Fits (some o) e = e

    body-Fits : Returns Fits (body D env snapshot req d)
    unfolding body
    body-Fits = Returns-bind Fits (check (env.down at_find)) _ λ _ _. found-Fits _ refl

    reread-Outcome : (r : Result Order) → reread D env req d ≡ r → Outcome snapshot d d r
    unfolding reread
    reread-Outcome (ok o) e = replays o refl refl (inr (ground arith))
    reread-Outcome (err x) e = fails x refl refl

    commits-Outcome :
        (o : Order) (d' : D.Db) (f : Fate)
        → env.commit ≡ f
        → Sale d d' o
        → Outcome snapshot d (commits D f o d d').0 (commits D f o d d').1
    unfolding commits
    commits-Outcome o d' answered e s = sells o refl s
    commits-Outcome o d' (not_made x) e s = fails x refl refl
    commits-Outcome o d' (answer_lost x) e s = sells_unseen o x refl e s

    ends-Outcome :
        (r : Result (Ending D.Db))
        → Returns Fits r
        → Outcome snapshot d (ends D env req d r).0 (ends D env req d r).1
    unfolding ends
    ends-Outcome (err e) h = fails e refl refl
    ends-Outcome (ok (replayed o)) h = replays o refl refl (inl h)
    ends-Outcome (ok raced) h = reread-Outcome _ refl
    ends-Outcome (ok (placed o d')) h = commits-Outcome o d' env.commit refl h

    begun-Outcome :
        (b : Option Error)
        → Outcome snapshot d (begun D env snapshot req d b).0 (begun D env snapshot req d b).1
    unfolding begun
    begun-Outcome (some e) = fails e refl refl
    begun-Outcome none = ends-Outcome (body D env snapshot req d) body-Fits

  validated-Outcome :
      (snapshot d : D.Db) (v : Result (Unit {0}))
      → validate_request req ≡ v
      → let p = validated D env snapshot req d v in Outcome snapshot d p.0 p.1
  unfolding validated
  validated-Outcome snapshot d (err e) h = fails e refl refl
  validated-Outcome snapshot d (ok u) h =
      begun-Outcome snapshot d (positive_of_valid req h) (env.down at_begin)

  -- `PlaceOrderTx`, however old its snapshot and whatever fails, ends in one of these ways.
  pub place_order_tx-Outcome :
      (snapshot d : D.Db)
      → let p = place_order_tx D env snapshot req d in Outcome snapshot d p.0 p.1
  unfolding place_order_tx
  place_order_tx-Outcome snapshot d = validated-Outcome snapshot d (validate_request req) refl
