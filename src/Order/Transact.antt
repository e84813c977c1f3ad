-- ===== src/Order/Transact.antt =====
-- internal/order, internal/deduct, internal/bucket: how a transaction ends, and the INSERT that the
-- packages share.
use seckill.Prelude.{◌≡◌, refl, Option, none, some, ℤ, arith}
use seckill.Errors.{Error, Result, ok, err, >>=-eq-ok, check}
use seckill.Stores.Call.{Fate, answered, not_made, answer_lost}
use seckill.Stores.Database.{Order, Database}
use seckill.Order.Statements.{
  Env, PlaceOrderRequest, at_begin, transact, commit_as, insert_order_tx, insert_order, new_order,
  insert_answer, at_insert,
}

module _ (D : Database) where
  -- It fails and changes nothing; or its statements went through and are committed; or they are
  -- committed and the answer to the commit is lost.
  pub data Transacts {A : Type 0} (env : Env) (body : D.Db → Result (A × D.Db)) (d d' : D.Db)
      (r : Result A) : Type 0 where
    aborts : (e : Error) → r ≡ err e → d' ≡ d → Transacts env body d d' r
    commits : (a : A) → body d ≡ ok (a, d') → r ≡ ok a → Transacts env body d d' r
    commits_unseen :
        (a : A) (e : Error)
        → body d ≡ ok (a, d')
        → r ≡ err e
        → env.commit ≡ answer_lost e
        → Transacts env body d d' r

  module _ {A : Type 0} (env : Env) (body : D.Db → Result (A × D.Db)) (d : D.Db) where
    commit_as-Transacts :
        (f : Fate) (b : Result (A × D.Db))
        → env.commit ≡ f
        → body d ≡ b
        → let (d', r) = commit_as D f d b in Transacts env body d d' r
    unfolding commit_as
    commit_as-Transacts answered (err e) hf h = aborts e refl refl
    commit_as-Transacts (not_made x) (err e) hf h = aborts e refl refl
    commit_as-Transacts (answer_lost x) (err e) hf h = aborts e refl refl
    commit_as-Transacts answered (ok (a, d')) hf h = commits a h refl
    commit_as-Transacts (not_made e) (ok (a, d')) hf h = aborts e refl refl
    commit_as-Transacts (answer_lost e) (ok (a, d')) hf h = commits_unseen a e h refl hf

    transact_begun :
        (b : Option Error)
        → env.down at_begin ≡ b
        → let (d', r) = transact D env body d in Transacts env body d d' r
    unfolding transact
    transact_begun (some e) h = rw (h, transact) (aborts e refl refl)
    transact_begun none h = rw (h, transact) (commit_as-Transacts env.commit (body d) refl refl)

    -- Every transaction ends in one of these ways.
    pub transact-Transacts : let (d', r) = transact D env body d in Transacts env body d d' r
    transact-Transacts = transact_begun (env.down at_begin) refl

  insert_answer-ok :
      (o : Order) (a : Option D.Db) {o' : Order} {d' : D.Db}
      → insert_answer D o a ≡ ok (o', d')
      → (o' ≡ o) × (a ≡ some d')
  unfolding insert_answer
  insert_answer-ok o none h = cc
  insert_answer-ok o (some d) h = ground arith

  -- An INSERT that went through, with its id.
  pub insert_order_tx-ok :
      (env : Env) (req : PlaceOrderRequest) (d : D.Db) {o : Order} {d' : D.Db}
      → insert_order_tx D env req d ≡ ok (o, d')
      → (id : ℤ) × (o ≡ new_order id req) × (insert_order D d (new_order id req) env.now ≡ some d')
  unfolding insert_order_tx
  insert_order_tx-ok env req d h =
      let (id, next, h') = >>=-eq-ok env.next _ h in
      let (u, up, h'') = >>=-eq-ok (check (env.down at_insert)) _ h' in
      let (same, inserted) = insert_answer-ok (new_order id req) _ h'' in (id, same, inserted)
