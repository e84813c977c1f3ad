-- ===== src/Deduct/PreDeduct/Identity.antt =====
-- internal/deduct/prededuct.go: the stock in Redis and the orders in the tables stay in step.
use seckill.Deduct.Stock.Laws.{
  rollback_script_lem, PreDeducts, grants, pre_deduct-PreDeducts, declines, unsent, unanswered,
  answer-err, pre_deduct_script-Deducts,
}
use seckill.Deduct.Stock.{StockKey, rollback_pre_deduct, whole, pre_deduct}
use seckill.Stores.Keyspace.{Keyspace, number_at, number}
use seckill.Prelude.{
  ◌≡◌, refl, some, ℤ, ◌+ℤ◌, ◌∷◌, Option-cases, ℕ, inl, List, inr, eqb_ℤ_self, ◌∙◌, ap, int_laws,
  subst,
}
use seckill.Errors.{Error, Result, ok, err, >>=-eq-ok, check}
use seckill.Stores.Call.{Fate, answered, not_made, answer_lost}
use seckill.Stores.Database.{Order, Database}
use seckill.Order.Statements.{
  PlaceOrderRequest, Env, sold, new_order, take_stock, at_update, insert_order, validate_request,
}
use seckill.Order.Effect.{stored, insert_order-some}
use seckill.Order.Transact.{
  Transacts, aborts, commits, commits_unseen, transact-Transacts, insert_order_tx-ok,
}
use seckill.Deduct.PreDeduct.{
  sell_body, sell, compensate, after_deduct, After, after_valid, place_order_with_pre_deduct,
}

-- The answer of a call that was made reaches the caller.
abbrev pub IsSeen : Fate → Type 0
IsSeen answered = Unit {0}
IsSeen (not_made e) = Unit {0}
IsSeen (answer_lost e) = ⊥

module _ (D : Database) where
  -- The transaction puts one order into the table and returns it, or changes nothing and fails; or
  -- it does the first, and fails because the answer to the commit is lost.
  pub data Sells (env : Env) (req : PlaceOrderRequest) (d d' : D.Db) (r : Result Order)
      : Type 0 where
    fails : (e : Error) → r ≡ err e → d' ≡ d → Sells env req d d' r
    sells :
        (id : ℤ)
        → r ≡ ok (new_order id req)
        → D.orders d' ≡ stored id env.now req ∷ D.orders d
        → Sells env req d d' r
    sells_unseen :
        (id : ℤ) (e : Error)
        → r ≡ err e
        → env.commit ≡ answer_lost e
        → D.orders d' ≡ stored id env.now req ∷ D.orders d
        → Sells env req d d' r

  take_stock-orders : (d : D.Db) (i q : ℤ) → D.orders (take_stock D d i q) ≡ D.orders d
  unfolding take_stock
  take_stock-orders d i q = elim (Option-cases (D.product d i)) [
    | inl missing ↦ rw (missing, take_stock) refl
    | inr (p, there) ↦ rw (there, take_stock) (D.orders-put_product d i _)
  ]

  insert_order-orders :
      (d : D.Db) (req : PlaceOrderRequest) (id : ℤ) (now : ℕ) {d' : D.Db}
      → insert_order D d (new_order id req) now ≡ some d'
      → D.orders d' ≡ stored id now req ∷ D.orders d
  insert_order-orders d req id now h =
      let (fresh, fresh_id, eq) = insert_order-some D d req id now h in
      rw (← eq) (D.orders-put_orders d _)

  sell_body-ok :
      (env : Env) (req : PlaceOrderRequest) (d : D.Db) {o : Order} {d' : D.Db}
      → sell_body D env req d ≡ ok (o, d')
      → (id : ℤ) × (o ≡ new_order id req) × (D.orders d' ≡ stored id env.now req ∷ D.orders d)
  unfolding sell_body
  sell_body-ok env req d h =
      let (u, up, h') = >>=-eq-ok (check (env.down at_update)) _ h in
      let (id, same, inserted) = insert_order_tx-ok D env req _ h' in
      (
        id,
        same,
        insert_order-orders _ req id env.now inserted
            ∙ ap (λ l. stored id env.now req ∷ l) (take_stock-orders d req.product_id req.quantity),
      )

  Transacts-Sells :
      (env : Env) (req : PlaceOrderRequest) (d d' : D.Db) (r : Result Order)
      → Transacts D env (sell_body D env req) d d' r
      → Sells env req d d' r
  Transacts-Sells env req d d' r (aborts e f s) = fails e f s
  Transacts-Sells env req d d' r (commits o b f) =
      let (id, same, os) = sell_body-ok env req d b in sells id (rw (← same) f) os
  Transacts-Sells env req d d' r (commits_unseen o e b f l) =
      let (id, same, os) = sell_body-ok env req d b in sells_unseen id e f l os

  pub sell-Sells :
      (env : Env) (req : PlaceOrderRequest) (d : D.Db)
      → let (d', r) = sell D env req d in Sells env req d d' r
  unfolding sell
  sell-Sells env req d =
      Transacts-Sells env req d _ _ (transact-Transacts D env (sell_body D env req) d)

  -- One more order of the product adds its quantity to what is sold.
  pub sold-stored :
      (id : ℤ) (now : ℕ) (req : PlaceOrderRequest) (os : List Order)
      → sold (stored id now req ∷ os) req.product_id ≡ req.quantity +ℤ sold os req.product_id
  unfolding sold new_order
  sold-stored id now req os = rw (eqb_ℤ_self req.product_id)

module _ (R : Keyspace StockKey ℤ) (D : Database) where
  -- What is left at a key of Redis and what is sold of a product.
  abbrev pub total_at : StockKey → ℤ → R.State → D.Db → ℤ
  total_at k i s d = number_at R s k +ℤ sold (D.orders d) i

  rolled_back :
      (k : StockKey) (q : ℤ) (s : R.State)
      → number_at R (rollback_pre_deduct R answered k q s).0 k ≡ number_at R s k +ℤ q
  unfolding rollback_pre_deduct
  rolled_back k q s =
      let (value, there, others) = rollback_script_lem R k q s in ap number there ∙ value

  module _ (env : Env) (undo : Fate) (k : StockKey) (req : PlaceOrderRequest) (s : R.State)
      (d : D.Db) (undone : undo ≡ answered) (seen : IsSeen env.commit) where
    -- After the quantity was taken at a key, the order or the compensation accounts for it.
    pub compensate-total :
        (d' : D.Db) (r : Result Order)
        → Sells D env req d d' r
        → let a = compensate R D undo k req s (d', r) in
          total_at k req.product_id a.redis a.db ≡ total_at k req.product_id s d +ℤ req.quantity
    unfolding compensate
    compensate-total d' (ok o) (fails e f same) = cc
    compensate-total d' (ok o) (sells id f os) =
        rw (os, sold-stored D id env.now req (D.orders d)) (omega int_laws)
    compensate-total d' (ok o) (sells_unseen id e f l os) = cc
    compensate-total d' (err x) (fails e f same) =
        let back : number_at R (rollback_pre_deduct R undo k req.quantity s).0 k
            ≡ number_at R s k +ℤ req.quantity =
          rw undone (rolled_back k req.quantity s) in
        rw (same, back) (omega int_laws)
    compensate-total d' (err x) (sells id f os) = cc
    compensate-total d' (err x) (sells_unseen id e f l os) = absurd (subst IsSeen l seen)

  grants-total :
      (k : StockKey) (qty : ℤ) (s t : R.State) (left : ℤ)
      → PreDeducts R k qty s t (ok left)
      → number_at R t k +ℤ qty ≡ number_at R s k
  grants-total k qty s t left (grants l e c nn g eq o) =
      let now : number_at R t k ≡ l = ap number g in rw (now, eq) (omega int_laws)
  grants-total k qty s t left (declines e same) = cc
  grants-total k qty s t left (unsent x e same) = cc
  grants-total k qty s t left (unanswered x e d) = cc

  -- A call of `PreDeduct` that is answered, or not made, and that fails, changed nothing.
  refused_same :
      (take : Fate) (k : StockKey) (qty : ℤ) (s : R.State) (e : Error)
      → IsSeen take
      → (pre_deduct R take k qty s).1 ≡ err e
      → (pre_deduct R take k qty s).0 ≡ s
  unfolding pre_deduct
  refused_same answered k qty s e seen f =
      answer-err R k qty s _ _ e (pre_deduct_script-Deducts R k qty s) f
  refused_same (not_made x) k qty s e seen f = refl
  refused_same (answer_lost x) k qty s e seen f = absurd seen

  module _ (env : Env) (take undo : Fate) (req : PlaceOrderRequest) (s : R.State) (d : D.Db)
      (undone : undo ≡ answered) (taken : IsSeen take) (seen : IsSeen env.commit) where
    abbrev Balances : After R D → Type 0
    Balances a =
        total_at (whole req.product_id) req.product_id a.redis a.db
        ≡ total_at (whole req.product_id) req.product_id s d

    after_deduct-Balances :
        (t : R.State) (r : Result ℤ)
        → PreDeducts R (whole req.product_id) req.quantity s t r
        → ((e : Error) → r ≡ err e → t ≡ s)
        → Balances (after_deduct R D env undo req d (t, r))
    unfolding after_deduct
    after_deduct-Balances t (err e) p same = rw (same e refl) refl
    after_deduct-Balances t (ok left) p same =
        let (d', r) = sell D env req d in
        compensate-total env undo (whole req.product_id) req t d undone seen d' r
          (sell-Sells D env req d)
        ∙ rearrange (number_at R t (whole req.product_id)) (sold (D.orders d) req.product_id)
            req.quantity
        ∙ ap (λ n. n +ℤ sold (D.orders d) req.product_id)
            (grants-total (whole req.product_id) req.quantity s t left p)
      where
        rearrange : (a b c : ℤ) → a +ℤ b +ℤ c ≡ a +ℤ c +ℤ b
        rearrange a b c = omega int_laws

    after_valid-Balances :
        (v : Result (Unit {0})) → Balances (after_valid R D env take undo req s d v)
    unfolding after_valid
    after_valid-Balances (err e) = refl
    after_valid-Balances (ok u) =
        after_deduct-Balances _ _
          (pre_deduct-PreDeducts R take (whole req.product_id) req.quantity s)
          (λ e f. refused_same take (whole req.product_id) req.quantity s e taken f)

    -- `PlaceOrderWithPreDeduct`, if no answer is lost on the way and the compensation is made: what
    -- Redis has left and what the tables have sold add up to the same as before, on every path.
    pub place_order_with_pre_deduct-Balances :
        let a = place_order_with_pre_deduct R D env take undo req s d in
        total_at (whole req.product_id) req.product_id a.redis a.db
        ≡ total_at (whole req.product_id) req.product_id s d
    unfolding place_order_with_pre_deduct
    place_order_with_pre_deduct-Balances = after_valid-Balances (validate_request req)
