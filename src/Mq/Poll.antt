-- ===== src/Mq/Poll.antt =====
-- internal/mq/p1_async.go and model.go: what a poll of the Kafka client gives its caller, and a record
-- whose value may not decode.
use seckill.Order.Statements.{Env}
use seckill.Stores.Database.{Database, Order}
use seckill.Errors.{Result, Error, err, sentinel, ok, no_record}
use seckill.Prelude.{List, ◌≡◌, ◌∷◌, ◌++◌, [], sym, ap, ◌∙◌}
use mathlib.Core.List.{append-nil, append_assoc}
use seckill.Mq.Enqueue.{OrderCreated, place_record}

-- What `PollFetches` returns: the errors of its partitions, and its records in order.
pub record Fetches (A : Type 0) : Type 0 where
  pub errors : List Error
  pub records : List A

module _ {A : Type 0} where
  first_record : List A → Result A
  first_record [] = err (sentinel no_record)
  first_record (x ∷ xs) = ok x

  -- `PollOne`
  unfoldable pub poll_one : Fetches A → Result A
  unfolding first_record
  poll_one f = elim f.errors [ [] ↦ first_record f.records | e ∷ es ↦ err e ]

  -- the loop over the iterator of the records
  drained : List A → List A → List A
  drained [] out = out
  drained (x ∷ xs) out = drained xs (out ++ x ∷ [])

  -- `PollBatch`
  unfoldable pub poll_batch : Fetches A → Result (List A)
  unfolding drained
  poll_batch f = elim f.errors [ [] ↦ ok (drained f.records []) | e ∷ es ↦ err e ]

  drained-append : (xs out : List A) → drained xs out ≡ out ++ xs
  unfolding drained
  drained-append [] out = sym (append-nil out)
  drained-append (x ∷ xs) out = drained-append xs (out ++ x ∷ []) ∙ append_assoc out (x ∷ []) xs

  -- A batch is every record of the fetch, in order.
  pub poll_batch_all : (f : Fetches A) → f.errors ≡ [] → poll_batch f ≡ ok f.records
  unfolding poll_batch
  poll_batch_all f e = rw (poll_batch, e) (ap ok (drained-append f.records []))

module _ (D : Database) where
  -- `PlaceRecord`, by what `RequestFromRecord` makes of the value
  unfoldable pub place_decoded : Env → D.Db → Result OrderCreated → D.Db → D.Db × Result Order
  unfolding place_record
  place_decoded env snapshot (err e) d = (d, err e)
  place_decoded env snapshot (ok m) d = place_record D env snapshot m d
