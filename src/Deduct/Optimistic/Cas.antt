-- ===== src/Deduct/Optimistic/Cas.antt =====
-- internal/deduct/optimistic.go: the attempts of `PlaceOrderByVersionCAS`.
use seckill.Prelude.{
  ℕ, ◌+◌, ◌≡◌, refl, arith, Option, none, some, ℤ, ◌-ℤ◌, ◌≤ℤ◌, Option-cases, inl, inr, ltb_ℤ, ap,
}
use seckill.Errors.{
  Error, Result, ok, err, Returns, Returns-bind, check, raise_if, raise_if-ok,
  order_insufficient_stock,
}
use seckill.Stores.Call.{Fate, answered, not_made, answer_lost}
use seckill.Stores.Database.{Product, Order, Database}
use seckill.Order.Statements.{
  PlaceOrderRequest, Env, new_order, insert_order_tx, select_product, at_select, commit_as,
  at_begin, at_update, take_stock,
}
use seckill.Order.Effect.{
  Places, update_insert-Places, select_product-ok, covered_of_test, stock_at, take_stock-some,
  stock_of,
}
use seckill.Order.Transact.{insert_order_tx-ok}
use seckill.Deduct.Optimistic.{
  Turn, conflict, done, update_at_version, cas_write, cas_body, cas_ends, cas_attempt,
}

module _ (D : Database) where
  -- A CAS that went through: the snapshot showed enough stock at the version that the row still has,
  -- and the order and the stock are written together.
  pub record CasSale (env : Env) (req : PlaceOrderRequest) (snapshot d d' : D.Db) (o : Order)
      : Type 0 where
    pub id : ℤ
    pub order : o ≡ new_order id req
    pub effect : Places D req d d' id env.now
    pub seen : Product
    pub read : D.product snapshot req.product_id ≡ some seen
    pub covered : req.quantity ≤ℤ seen.stock
    pub row : Product
    pub there : D.product d req.product_id ≡ some row
    pub same_version : row.version ≡ seen.version

  update_at_version-some :
      (d : D.Db) (i q : ℤ) (v : ℕ) {d' : D.Db}
      → update_at_version D d i q v ≡ some d'
      → (p : Product) × (D.product d i ≡ some p)
        × (p.version ≡ v)
        × (D.put_product d i (record p { stock = p.stock -ℤ q; version = p.version + 1 }) ≡ d')
  unfolding update_at_version
  update_at_version-some d i q v h = elim (Option-cases (D.product d i)) [
    | inl missing ↦ cc (missing_none d i q v missing)
    | inr (p, there) ↦ (p, there, ground arith, ground arith)
  ]
    where
      missing_none :
          (d : D.Db) (i q : ℤ) (v : ℕ) → D.product d i ≡ none → update_at_version D d i q v ≡ none
      missing_none d i q v e = rw (e, update_at_version) refl

  -- What a round comes to.
  pub data Round (env : Env) (req : PlaceOrderRequest) (snapshot d d' : D.Db) (r : Result Turn)
      : Type 0 where
    fails : (e : Error) → r ≡ err e → d' ≡ d → Round env req snapshot d d' r
    retries : r ≡ ok conflict → d' ≡ d → Round env req snapshot d d' r
    sells :
        (o : Order)
        → r ≡ ok (done o)
        → CasSale env req snapshot d d' o
        → Round env req snapshot d d' r
    sells_unseen :
        (o : Order) (e : Error)
        → r ≡ err e
        → env.commit ≡ answer_lost e
        → CasSale env req snapshot d d' o
        → Round env req snapshot d d' r

  module _ (env : Env) (snapshot : D.Db) (req : PlaceOrderRequest) (d : D.Db) where
    abbrev Wrote : Turn × D.Db → Type 0
    Wrote (conflict, d') = Unit {0}
    Wrote (done o, d') = CasSale env req snapshot d d' o

    cas_write-Wrote :
        (p : Product) (u : Option D.Db)
        → D.product snapshot req.product_id ≡ some p
        → req.quantity ≤ℤ p.stock
        → update_at_version D d req.product_id req.quantity p.version ≡ u
        → Returns Wrote (cas_write D env req d u)
    unfolding cas_write
    cas_write-Wrote p none was h e = tt
    cas_write-Wrote p (some d1) was h e =
        Returns-bind Wrote (insert_order_tx D env req d1) _ (λ (o, d'') went.
          let (row, there, version, eq) =
            update_at_version-some d req.product_id req.quantity p.version e in
          let (id, same, inserted) = insert_order_tx-ok D env req d1 went in
          record {
            id = id;
            order = same;
            effect =
                update_insert-Places D d req id env.now there
                  (record row { stock = row.stock -ℤ req.quantity; version = row.version + 1 }) refl
                  (rw eq inserted);
            seen = p;
            read = was;
            covered = h;
            row = row;
            there = there;
            same_version = version;
          })

    cas_body-Wrote : Returns Wrote (cas_body D env snapshot req d)
    unfolding cas_body
    cas_body-Wrote = Returns-bind Wrote (check (env.down at_select)) _ λ _ _.
        Returns-bind Wrote (select_product D snapshot req.product_id) _ λ p was.
          Returns-bind Wrote (raise_if (ltb_ℤ p.stock req.quantity) order_insufficient_stock) _
            λ _ enough. Returns-bind Wrote (check (env.down at_update)) _ λ _ _.
              cas_write-Wrote p (update_at_version D d req.product_id req.quantity p.version)
                (select_product-ok D snapshot req.product_id was)
                (covered_of_test p.stock req.quantity (raise_if-ok _ _ enough)) refl

    commit_as-Round :
        (f : Fate) (o : Order) (d' : D.Db)
        → env.commit ≡ f
        → CasSale env req snapshot d d' o
        → let (d'', r) = commit_as D f d (ok (done o, d')) in Round env req snapshot d d'' r
    unfolding commit_as
    commit_as-Round answered o d' e s = sells o refl s
    commit_as-Round (not_made x) o d' e s = fails x refl refl
    commit_as-Round (answer_lost x) o d' e s = sells_unseen o x refl e s

    cas_ends-Round :
        (b : Result (Turn × D.Db))
        → Returns Wrote b
        → let (d', r) = cas_ends D env d b in Round env req snapshot d d' r
    unfolding cas_ends
    cas_ends-Round (err e) w = fails e refl refl
    cas_ends-Round (ok (conflict, d')) w = retries refl refl
    cas_ends-Round (ok (done o, d')) w = commit_as-Round env.commit o d' refl w

    -- Every round fails or meets a conflict and changes nothing, or writes the order and the stock
    -- together, at the version that it read.
    pub cas_attempt-Round :
        let (d', r) = cas_attempt D env snapshot req d in Round env req snapshot d d' r
    unfolding cas_attempt
    cas_attempt-Round = elim (Option-cases (env.down at_begin)) [
      | inl fine ↦
          rw (fine, cas_attempt) (cas_ends-Round (cas_body D env snapshot req d) cas_body-Wrote)
      | inr (e, down) ↦ rw (down, cas_attempt) (fails e refl refl)
    ]

  -- The other ways of selling take stock and leave the version: a CAS that read its version before
  -- such a sale still goes through after it, and takes its quantity from what is left, be it enough
  -- or not.
  pub stale_version_passes :
      (d : D.Db) (i k q : ℤ) {p : Product}
      → D.product d i ≡ some p
      → (d' : D.Db) × (update_at_version D (take_stock D d i k) i q p.version ≡ some d')
        × (stock_at D d' i ≡ p.stock -ℤ k -ℤ q)
  unfolding update_at_version
  stale_version_passes d i k q {p} e =
      let p' : Product = record p { stock = p.stock -ℤ k } in
      let now : D.product (take_stock D d i k) i ≡ some p' =
        rw (take_stock-some D d i k e) (D.product-put_self d i p') in
      (
        D.put_product (take_stock D d i k) i
            (record p' { stock = p'.stock -ℤ q; version = p.version + 1 }),
        rw (now, update_at_version) (ground arith),
        ap stock_of (D.product-put_self _ i _),
      )
