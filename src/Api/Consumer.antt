-- ===== src/Api/Consumer.antt =====
-- cmd/api/main.go: the loop that takes orders from Kafka, one partition of it. Offsets are numbers;
-- the group's committed offset is that of the next record that a restart reads.
-- What a record meets: the attempts of its handler, the error of the dead-letter topic, and the fate
-- of its commit.
pub mod Loop
use seckill.Errors.{Error}
use seckill.Stores.Call.{call, Fate, answered, not_made, answer_lost}
use seckill.Mq.Retry.{RetryPolicy, process_with_retry, Processed, Try, placed, dead, failed, panics}
use seckill.Prelude.{
  ℕ, pos, suc, List, ◌≡◌, Option, ◌∷◌, ◌⊎◌, ◌≤◌, ◌++◌, inl, ◌+◌, [], length, refl, inr, arith, ◌∙◌,
}

pub record Turn (A : Type 0) : Type 0 where
  pub tries : ℕ → Try A
  pub produced : Option Error
  pub committing : Fate

abbrev pub policy : RetryPolicy
policy = record { max_attempts = pos 3; base_backoff = 100000000 }

-- `ProcessWithRetry` of the record
unfoldable pub processed : {A : Type 0} → Turn A → Processed A
unfolding process_with_retry
processed t = process_with_retry policy t.tries t.produced

-- `CommitProcessed` of the record at an offset
commit_processed : Fate → ℕ → ℕ → ℕ
unfolding call
commit_processed fate offset committed = (call fate (λ _. (suc offset, tt {0})) committed).0

-- what follows the processing; on an error the loop goes on with the next record
settle_record : {A : Type 0} → Fate → ℕ → Processed A → ℕ → ℕ
unfolding commit_processed
settle_record fate offset (placed a r) committed = commit_processed fate offset committed
settle_record fate offset (dead e r) committed = commit_processed fate offset committed
settle_record fate offset (failed e r) committed = committed
settle_record fate offset panics committed = committed

-- The records of a poll, from an offset on, and the committed offset after them.
unfoldable pub consume_batch : {A : Type 0} → ℕ → List (Turn A) → ℕ → ℕ
unfolding settle_record processed
consume_batch offset [] committed = committed
consume_batch offset (t ∷ ts) committed =
    consume_batch (suc offset) ts (settle_record t.committing offset (processed t) committed)

module _ {A : Type 0} where
  -- The record was placed or dead-lettered.
  abbrev pub IsHandled : Processed A → Type 0
  IsHandled (placed a r) = Unit {0}
  IsHandled (dead e r) = Unit {0}
  IsHandled (failed e r) = ⊥
  IsHandled panics = ⊥

  settle_record-cases :
      (fate : Fate) (offset : ℕ) (p : Processed A) (committed : ℕ)
      → (settle_record fate offset p committed ≡ suc offset)
        ⊎ (settle_record fate offset p committed ≡ committed)
  unfolding settle_record commit_processed
  settle_record-cases answered offset (placed a r) committed = inl refl
  settle_record-cases (not_made e) offset (placed a r) committed = inr refl
  settle_record-cases (answer_lost e) offset (placed a r) committed = inl refl
  settle_record-cases answered offset (dead x r) committed = inl refl
  settle_record-cases (not_made e) offset (dead x r) committed = inr refl
  settle_record-cases (answer_lost e) offset (dead x r) committed = inl refl
  settle_record-cases fate offset (failed e r) committed = inr refl
  settle_record-cases fate offset panics committed = inr refl

  -- A poll never moves the offset back, nor past its last record.
  pub consume_batch_bounds :
      (offset : ℕ) (ts : List (Turn A)) (committed : ℕ)
      → committed ≤ offset
      → (committed ≤ consume_batch offset ts committed)
        × (consume_batch offset ts committed ≤ offset + length ts)
  unfolding consume_batch
  consume_batch_bounds offset [] committed h = omega arith
  consume_batch_bounds offset (t ∷ ts) committed h =
      let first = settle_record-cases t.committing offset (processed t) committed in
      let next = settle_record t.committing offset (processed t) committed in
      let rest = consume_batch_bounds (suc offset) ts next (omega (arith, first)) in
      omega (arith, first, rest)

  settled_last :
      (offset : ℕ) (p : Processed A) (committed : ℕ)
      → IsHandled p
      → settle_record answered offset p committed ≡ suc offset
  unfolding settle_record commit_processed
  settled_last offset (placed a r) committed h = refl
  settled_last offset (dead e r) committed h = refl
  settled_last offset (failed e r) committed h = absurd h
  settled_last offset panics committed h = absurd h

  -- A record that is placed or dead-lettered and committed moves the offset past every record before
  -- it, also past those whose processing failed, which a restart does not read again.
  pub consume_batch_skips :
      (offset : ℕ) (ts : List (Turn A)) (t : Turn A) (committed : ℕ)
      → t.committing ≡ answered
      → IsHandled (processed t)
      → consume_batch offset (ts ++ t ∷ []) committed ≡ suc (offset + length ts)
  unfolding consume_batch
  consume_batch_skips offset [] t committed e h =
      let last = settled_last offset (processed t) committed h in rw e (omega (arith, last))
  consume_batch_skips offset (u ∷ ts) t committed e h =
      consume_batch_skips (suc offset) ts t _ e h ∙ omega arith
