-- ===== src/Deduct/Optimistic/CasLoop.antt =====
-- internal/deduct/optimistic.go: the bound of the loop, and what its success and its failure mean.
use seckill.Prelude.{ℕ, ◌≡◌}
use seckill.Errors.{Error, ok, err, sentinel, cas_retries_exhausted}
use seckill.Stores.Database.{Order, Database}
use seckill.Order.Statements.{PlaceOrderRequest}
use seckill.Deduct.Optimistic.{max_cas_retries, Attempt, CasAfter}
use seckill.Deduct.Optimistic.Cas.{CasSale}

module _ (D : Database) (world : ℕ → Attempt D) (req : PlaceOrderRequest) where
  -- The loop ends in the round that it names. A success is the sale of that round; a failure left
  -- the tables of that round, or its answer was lost, or no round was left.
  pub data LoopEnds (a : CasAfter D) : Type 0 where
    sold_in :
        (o : Order)
        → a.result ≡ ok o
        → CasSale D
            (world a.attempts).env
            req
            (world a.attempts).snapshot
            (world a.attempts).db
            a.db
            o
        → LoopEnds a
    failed_in : (e : Error) → a.result ≡ err e → a.db ≡ (world a.attempts).db → LoopEnds a
    unseen_in :
        (o : Order) (e : Error)
        → a.result ≡ err e
        → CasSale D
            (world a.attempts).env
            req
            (world a.attempts).snapshot
            (world a.attempts).db
            a.db
            o
        → LoopEnds a
    exhausted :
        a.result ≡ err (sentinel cas_retries_exhausted) → a.attempts ≡ max_cas_retries → LoopEnds a
