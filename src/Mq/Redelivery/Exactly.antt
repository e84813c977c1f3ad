-- ===== src/Mq/Redelivery/Exactly.antt =====
-- internal/mq and internal/order: a message that meets no failure is placed exactly once.
use seckill.Mq.Poll.{place_decoded}
use seckill.Order.Effect.{Places}
use seckill.Order.Place.{place_order_tx}
use seckill.Stores.Call.{answered}
use seckill.Mq.Enqueue.{OrderCreated, request_from_record, place_record}
use seckill.Prelude.{ℕ, ◌≡◌, none, ℤ, inl, pos, inr, suc, some, ◌≤ℤ◌, false, [], List, Option, zero}
use seckill.Errors.{Result, ok, Error}
use seckill.Mq.Retry.{process_with_retry, placed, attempts_from, Try, RetryPolicy}
use seckill.Order.Statements.{Env, Point, find_order, has_id, new_order}
use seckill.Stores.Database.{Database, Product}
use mathlib.Core.Path.{refl}
use seckill.Order.Place.Outcome.{
  Outcome, fails, replays, sells, sells_unseen, place_order_tx-Outcome,
}
use seckill.Order.Place.Safety.{place_order_tx_sells}
use seckill.Mq.Redelivery.{
  Run, Delivery, process_record, redeliver, redeliver-OnceSold, Places-twice, attempt,
  after_attempts, attempts_made, PlaceOrderRequest, Order,
}

attempts_from_ok {ℓ} :
    {A : Type ℓ} (base : ℕ) (tries : ℕ → Try A) (produced : Option Error) (left n : ℕ)
    (waits : List ℕ) {a : A}
    → (tries n).answer ≡ ok a
    → attempts_from base tries produced left n waits
      ≡ placed a (record { attempts = n; backoffs = waits; dead_lettered = false })
unfolding attempts_from
attempts_from_ok base tries produced zero n waits h = rw h refl
attempts_from_ok base tries produced (suc left) n waits h = rw h refl

module _ (D : Database) where
  -- What no step of an attempt stands in the way of.
  pub record Clear (r : Run D) (req : PlaceOrderRequest) (d : D.Db) : Type 0 where
    pub up : (x : Point) → r.env.down x ≡ none
    pub committed : r.env.commit ≡ answered
    pub id : ℤ
    pub next : r.env.next ≡ ok id
    pub row : Product
    pub at_row : D.product d req.product_id ≡ some row
    pub positive : pos 1 ≤ℤ req.quantity
    pub covered : req.quantity ≤ℤ row.stock
    pub unseen : find_order (D.orders r.snapshot) req.request_id ≡ none
    pub unplaced : find_order (D.orders d) req.request_id ≡ none
    pub fresh_id : has_id (D.orders d) id ≡ false

  -- With a new request the outcome that returns an order is a sale.
  sold_of :
      (env : Env) (req : PlaceOrderRequest) (snapshot d : D.Db) {e : D.Db} {r : Result Order}
      {o : Order}
      → find_order (D.orders snapshot) req.request_id ≡ none
      → find_order (D.orders d) req.request_id ≡ none
      → r ≡ ok o
      → Outcome D env req snapshot d e r
      → (id : ℤ) × Places D req d e id env.now
  sold_of env req snapshot d unseen new h (fails x e _) = cc
  sold_of env req snapshot d unseen new h (replays o' e _ (inl old)) = cc
  sold_of env req snapshot d unseen new h (replays o' e _ (inr old)) = cc
  sold_of env req snapshot d unseen new h (sells o' e s) = (s.id, s.effect)
  sold_of env req snapshot d unseen new h (sells_unseen o' x e _ s) = cc

  module _ (v : Delivery D) (m : OrderCreated) (d : D.Db)
      (c : Clear (v.runs 1) (request_from_record m) d) where
    first_answer :
        (place_order_tx D (v.runs 1).env (v.runs 1).snapshot (request_from_record m) d).1
        ≡ ok (new_order c.id (request_from_record m))
    first_answer =
        place_order_tx_sells D (v.runs 1).env (request_from_record m) (v.runs 1).snapshot d c.up
          c.committed c.next c.at_row c.positive c.covered c.unseen c.unplaced c.fresh_id

    first_try : (attempt D v (ok m) d 1).answer ≡ ok (new_order c.id (request_from_record m))
    unfolding attempt place_decoded place_record after_attempts
    first_try = first_answer

    -- what the first attempt comes to
    first_attempt :
        (max base : ℕ)
        → process_record D v (ok m) d (record { max_attempts = pos (suc max); base_backoff = base })
          ≡ (
            (place_order_tx D (v.runs 1).env (v.runs 1).snapshot (request_from_record m) d).0,
            placed
                (new_order c.id (request_from_record m))
                (record { attempts = 1; backoffs = []; dead_lettered = false }),
          )
    unfolding process_record process_with_retry attempts_made after_attempts place_decoded
        place_record
    first_attempt max base =
        rw (attempts_from_ok base (attempt D v (ok m) d) v.produced max 1 [] first_try) refl

    first_sale :
        (id : ℤ) × Places D
          (request_from_record m)
          d
          (place_order_tx D (v.runs 1).env (v.runs 1).snapshot (request_from_record m) d).0
          id
          (v.runs 1).env.now
    first_sale =
        sold_of (v.runs 1).env (request_from_record m) (v.runs 1).snapshot d c.unseen c.unplaced
          first_answer
          (place_order_tx-Outcome D (v.runs 1).env (request_from_record m) (v.runs 1).snapshot d)

    kept :
        (max base : ℕ) (vs : List (Delivery D))
        → let policy : RetryPolicy = record { max_attempts = pos (suc max); base_backoff = base } in
          let d' =
            (place_order_tx D (v.runs 1).env (v.runs 1).snapshot (request_from_record m) d).0 in
          redeliver D policy (ok m) vs d' ≡ d'
    kept max base vs =
        elim (redeliver-OnceSold D (record { max_attempts = pos (suc max); base_backoff = base }) m
          vs _) [
            | inl same ↦ same
            | inr again ↦ absurd (Places-twice D (request_from_record m) first_sale.1 again.2)
          ]

    -- With nothing in the way of the first attempt, the order is placed by it and returned, with its
    -- quantity taken from the stock; and however often the message is delivered again, the tables stay
    -- as they are then.
    pub sold_exactly_once :
        (max base : ℕ) (vs : List (Delivery D))
        → let policy : RetryPolicy = record { max_attempts = pos (suc max); base_backoff = base } in
          let (d', p) = process_record D v (ok m) d policy in
          (p
            ≡ placed
                (new_order c.id (request_from_record m))
                (record { attempts = 1; backoffs = []; dead_lettered = false }))
          × ((id : ℤ) × Places D (request_from_record m) d d' id (v.runs 1).env.now)
          × (redeliver D policy (ok m) vs d' ≡ d')
    sold_exactly_once max base vs = rw (first_attempt max base) (refl, first_sale, kept max base vs)
