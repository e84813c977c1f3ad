-- ===== src/Mq/Redelivery.antt =====
-- internal/mq and internal/order: a message of an order that is delivered more than once, each time
-- with the retries of `ProcessWithRetry` around `PlaceRecord`.
pub mod Exactly
use seckill.Order.Effect.{Places, stored}
use seckill.Order.Statements.{Env, find_order, PlaceOrderRequest, new_order}
use seckill.Errors.{Result, Error, ok, err}
use seckill.Stores.Database.{Database, Order}
use seckill.Prelude.{
  ℕ, Option, suc, List, ◌-◌, ◌∷◌, ◌≡◌, inl, ℤ, zero, ◌⊎◌, inr, subst, [], some, none, ◌+◌, pos,
  arith, ap, ◌++◌, ◌*◌, ◌^◌,
}
use mathlib.Core.Path.{refl}
use text.Mathlib.TextEquality.{eq_iff}
use seckill.Mq.Enqueue.{OrderCreated, request_from_record}
use seckill.Mq.Poll.{place_decoded}
use seckill.Mq.Retry.{
  RetryPolicy, Processed, Try, process_with_retry, placed, dead, failed, panics, attempts_from,
  RetryResult, dead_letter,
}
use seckill.Order.Place.Outcome.{
  Outcome, fails, replays, sells, sells_unseen, place_order_tx-Outcome,
}

-- the attempts that a call of `ProcessWithRetry` has made
unfoldable pub attempts_made : {A : Type 0} → Processed A → ℕ
attempts_made (placed a r) = r.attempts
attempts_made (dead e r) = r.attempts
attempts_made (failed e r) = r.attempts
attempts_made panics = 0

find_stored :
    (i : ℤ) (n : ℕ) (req : PlaceOrderRequest) (os : List Order)
    → find_order (stored i n req ∷ os) req.request_id ≡ some (stored i n req)
unfolding find_order new_order
find_stored i n req os =
    let itself = (eq_iff req.request_id req.request_id).1 refl in rw itself refl

module _ (D : Database) where
  -- What an attempt meets.
  pub record Run : Type 0 where
    pub env : Env
    pub snapshot : D.Db
    pub cancelled : Option Error

  -- A delivery: its attempts, and the error of the dead-letter topic.
  pub record Delivery : Type 0 where
    pub runs : ℕ → Run
    pub produced : Option Error

  module _ (v : Delivery) (m : Result OrderCreated) (d : D.Db) where
    -- the tables after a number of attempts
    unfoldable pub after_attempts : ℕ → D.Db
    unfolding place_decoded
    after_attempts zero = d
    after_attempts (suc n) =
        (place_decoded D (v.runs (suc n)).env (v.runs (suc n)).snapshot m (after_attempts n)).0

    unfoldable pub attempt : ℕ → Try Order
    attempt n = record {
      answer = (place_decoded D (v.runs n).env (v.runs n).snapshot m (after_attempts (n - 1))).1;
      cancelled = (v.runs n).cancelled;
    }

    -- The call that the consumer makes for a record, and the tables after it.
    unfoldable pub process_record : RetryPolicy → D.Db × Processed Order
    process_record policy =
        let p = process_with_retry policy attempt v.produced in
        (after_attempts (attempts_made p), p)

  -- The record delivered again and again.
  unfoldable pub redeliver : RetryPolicy → Result OrderCreated → List Delivery → D.Db → D.Db
  redeliver policy m [] d = d
  redeliver policy m (v ∷ vs) d = redeliver policy m vs (process_record v m d policy).0

  -- The tables are as they were, or there is one order more, with its quantity taken from the stock.
  abbrev pub OnceSold : PlaceOrderRequest → D.Db → D.Db → Type 0
  OnceSold req d e = (e ≡ d) ⊎ ((id : ℤ) × (now : ℕ) × Places D req d e id now)

  Outcome-OnceSold :
      (env : Env) (req : PlaceOrderRequest) (snapshot d : D.Db) {e : D.Db} {r : Result Order}
      → Outcome D env req snapshot d e r
      → OnceSold req d e
  Outcome-OnceSold env req snapshot d (fails x _ same) = inl same
  Outcome-OnceSold env req snapshot d (replays o _ same _) = inl same
  Outcome-OnceSold env req snapshot d (sells o _ s) = inr (s.id, env.now, s.effect)
  Outcome-OnceSold env req snapshot d (sells_unseen o x _ _ s) = inr (s.id, env.now, s.effect)

  -- Once the order is there it is not placed again.
  pub Places-twice :
      (req : PlaceOrderRequest) {d e f : D.Db} {i j : ℤ} {n k : ℕ}
      → Places D req d e i n
      → Places D req e f j k
      → ⊥
  Places-twice req {d = d} {i = i} {n = n} p q =
      let there : find_order (stored i n req ∷ D.orders d) req.request_id ≡ none =
        rw (← p.appended) q.fresh in
      cc (there, find_stored i n req (D.orders d))

  OnceSold-trans :
      (req : PlaceOrderRequest) {d e f : D.Db}
      → OnceSold req d e
      → OnceSold req e f
      → OnceSold req d f
  OnceSold-trans req {f = f} (inl p) q = subst (λ s. OnceSold req s f) p q
  OnceSold-trans req (inr p) (inl q) = inr (p.0, p.1, rw q p.2)
  OnceSold-trans req (inr p) (inr q) = absurd (Places-twice req p.2 q.2)

  place_decoded-OnceSold :
      (env : Env) (snapshot : D.Db) (m : OrderCreated) (d : D.Db)
      → OnceSold (request_from_record m) d (place_decoded D env snapshot (ok m) d).0
  unfolding place_decoded
  place_decoded-OnceSold env snapshot m d =
      let req = request_from_record m in
      Outcome-OnceSold env req snapshot d (place_order_tx-Outcome D env req snapshot d)

  after_attempts-OnceSold :
      (v : Delivery) (m : OrderCreated) (d : D.Db) (n : ℕ)
      → OnceSold (request_from_record m) d (after_attempts v (ok m) d n)
  unfolding after_attempts
  after_attempts-OnceSold v m d zero = inl refl
  after_attempts-OnceSold v m d (suc n) =
      OnceSold-trans (request_from_record m) (after_attempts-OnceSold v m d n)
        (place_decoded-OnceSold (v.runs (suc n)).env (v.runs (suc n)).snapshot m _)

  -- However often a message is delivered and retried, whatever fails and whichever commits are not
  -- heard of: its order is placed at most once, with its quantity taken from the stock once.
  pub redeliver-OnceSold :
      (policy : RetryPolicy) (m : OrderCreated) (vs : List Delivery) (d : D.Db)
      → OnceSold (request_from_record m) d (redeliver policy (ok m) vs d)
  unfolding redeliver process_record
  redeliver-OnceSold policy m [] d = inl refl
  redeliver-OnceSold policy m (v ∷ vs) d =
      let made = attempts_made (process_with_retry policy (attempt v (ok m) d) v.produced) in
      OnceSold-trans (request_from_record m) (after_attempts-OnceSold v m d made)
        (redeliver-OnceSold policy m vs (after_attempts v (ok m) d made))

  undecoded_after : (v : Delivery) (x : Error) (d : D.Db) (n : ℕ) → after_attempts v (err x) d n ≡ d
  unfolding after_attempts place_decoded
  undecoded_after v x d zero = refl
  undecoded_after v x d (suc n) = undecoded_after v x d n

  undecoded_dead :
      (base : ℕ) (v : Delivery) (x : Error) (d : D.Db) (left n : ℕ) (waits : List ℕ)
      → ((i : ℕ) → (v.runs i).cancelled ≡ none)
      → v.produced ≡ none
      → (r : RetryResult) × (attempts_from base (attempt v (err x) d) v.produced left n waits
          ≡ dead x r)
        × (r.attempts ≡ left + n)
  unfolding attempts_from attempt place_decoded
  undecoded_dead base v x d zero n waits on taken =
      (_, ap (λ p. dead_letter p x n waits) taken, omega arith)
  undecoded_dead base v x d (suc left) n waits on taken =
      let next =
        undecoded_dead base v x d left (suc n) (waits ++ (base * 2 ^ (n - 1) ∷ [])) on taken in
      (next.0, rw (on n) next.1, omega (arith, next.2))

  -- A message that does not decode changes no table, and after the policy's attempts it is in the
  -- dead-letter topic with the error of the decoding, if no wait is cut short and the topic takes it.
  pub undecoded_dead_letters :
      (max base : ℕ) (v : Delivery) (x : Error) (d : D.Db)
      → ((i : ℕ) → (v.runs i).cancelled ≡ none)
      → v.produced ≡ none
      → (r : RetryResult) × (process_record v
            (err x)
            d
            (record { max_attempts = pos (suc max); base_backoff = base })
          ≡ (d, dead x r))
        × (r.attempts ≡ suc max)
  unfolding process_record process_with_retry attempts_made
  undecoded_dead_letters max base v x d on taken =
      let (r, e, made) = undecoded_dead base v x d max 1 [] on taken in
      (r, rw e (ap (λ t. (t, dead x r)) (undecoded_after v x d r.attempts)), omega (arith, made))
