-- ===== src/Api/Consumer/Loop.antt =====
-- cmd/api/main.go: the rounds of the consumer's goroutine, each a look at its context, a poll and the
-- records of the poll, of one partition.
use seckill.Stores.Call.{answered}
use seckill.Errors.{Error, Result, err, ok}
use seckill.Prelude.{
  ℕ, List, [], refl, Bool, Option, ◌∷◌, ◌≤◌, none, if◌then◌else◌, ◌≡◌, some, true, ◌+◌, length,
  Bool-cases, ◌⊎◌, inl, arith, inr, List-cases, suc, ap, ◌∙◌,
}
use seckill.Api.Consumer.{
  IsHandled, processed, consume_batch_skips, Turn, consume_batch, consume_batch_bounds,
}
use seckill.Mq.Poll.{Fetches, poll_batch, poll_batch_all}

-- What a round meets: whether its context is cancelled by then, and what the client fetches.
pub record Round (A : Type 0) : Type 0 where
  pub cancelled : Bool
  pub fetches : Fetches (Turn A)

-- Where the goroutine stands: the offset of the next fetch, and that of the group.
pub record Position : Type 0 where
  pub next : ℕ
  pub committed : ℕ

module _ {A : Type 0} where
  -- After a poll: every error is logged, or not, and the loop goes on. The client has handed out the
  -- records also where there is an error, and does not fetch them again.
  unfoldable pub after_poll : ℕ → Result (List (Turn A)) → Position → Position
  unfolding consume_batch
  after_poll fetched (err e) p = record { next = p.next + fetched; committed = p.committed }
  after_poll fetched (ok ts) p = record {
    next = p.next + fetched;
    committed = consume_batch p.next ts p.committed;
  }

  unfoldable pub after_round : Round A → Position → Position
  unfolding after_poll poll_batch
  after_round r p = after_poll (length r.fetches.records) (poll_batch r.fetches) p

  -- the goroutine; `none` if the rounds run out before its context is cancelled
  unfoldable pub consumer_loop : List (Round A) → Position → Option Position
  unfolding after_poll poll_batch
  consumer_loop [] p = none
  consumer_loop (r ∷ rs) p =
      let rest = consumer_loop rs (after_round r p) in if r.cancelled then some p else rest

  -- what the rounds before the cancellation fetch
  pub fetched_before : List (Round A) → ℕ
  fetched_before [] = 0
  fetched_before (r ∷ rs) =
      let rest = fetched_before rs in if r.cancelled then 0 else length r.fetches.records + rest

  poll_step :
      (f : Fetches (Turn A)) (p : Position)
      → p.committed ≤ p.next
      → let q = after_poll (length f.records) (poll_batch f) p in
        (q.next ≡ p.next + length f.records) × (p.committed ≤ q.committed) × (q.committed ≤ q.next)
  unfolding after_poll poll_batch
  poll_step f p behind = elim (List-cases f.errors) [
    | inl fine ↦
        let bounds = consume_batch_bounds p.next f.records p.committed behind in
        rw (poll_batch_all f fine) (refl, bounds.0, bounds.1)
    | inr (e, es, failed) ↦ rw (poll_batch, failed) (omega arith, omega arith, omega arith)
  ]

  abbrev AnyCancelled : List (Round A) → Type 0
  AnyCancelled [] = ⊥
  AnyCancelled (r ∷ rs) = (r.cancelled ≡ true) ⊎ AnyCancelled rs

  -- The goroutine ends at the first round whose context is cancelled; the group's offset has only gone
  -- forward, and not past the records that the rounds before it have fetched.
  pub consumer_loop-Ends :
      (rs : List (Round A)) (p : Position)
      → p.committed ≤ p.next
      → AnyCancelled rs
      → (q : Position) × (consumer_loop rs p ≡ some q)
        × (q.next ≡ p.next + fetched_before rs)
        × (p.committed ≤ q.committed)
        × (q.committed ≤ q.next)
  unfolding consumer_loop fetched_before after_round
  consumer_loop-Ends [] p behind stops = absurd stops
  consumer_loop-Ends (r ∷ rs) p behind stops = elim (Bool-cases r.cancelled) [
    | inl now ↦ (p, rw now refl, rw now (omega arith), omega arith, behind)
    | inr later ↦
        let (on, forward, within) = poll_step r.fetches p behind in
        let q = after_round r p in
        let (end, e, next, more, last) =
          consumer_loop-Ends rs q within (elim stops [ inl now ↦ cc (now, later) | inr s ↦ s ]) in
        (end, rw later e, rw later (omega (arith, on, next)), omega (arith, forward, more), last)
  ]

  round_failed :
      (r : Round A) (p : Position) {e : Error} {es : List Error}
      → r.fetches.errors ≡ e ∷ es
      → after_round r p
        ≡ record { next = p.next + length r.fetches.records; committed = p.committed }
  unfolding after_round after_poll poll_batch
  round_failed r p failed = rw (after_round, poll_batch, failed) refl

  round_fine :
      (r : Round A) (p : Position)
      → r.fetches.errors ≡ []
      → (after_round r p).committed ≡ consume_batch p.next r.fetches.records p.committed
  unfolding after_round after_poll
  round_fine r p fine =
      ap (λ b. (after_poll (length r.fetches.records) b p).committed)
        (poll_batch_all r.fetches fine)

  -- The records of a poll that reports an error are not processed, and a record after them that is handled
  -- and committed moves the group's offset past them.
  pub erroneous_poll_skips :
      (r r' : Round A) (t : Turn A) (e : Error) (es : List Error) (p : Position)
      → r.fetches.errors ≡ e ∷ es
      → r'.fetches.errors ≡ []
      → r'.fetches.records ≡ t ∷ []
      → t.committing ≡ answered
      → IsHandled (processed t)
      → (after_round r' (after_round r p)).committed ≡ suc (p.next + length r.fetches.records)
  erroneous_poll_skips r r' t e es p failed fine one committed handled =
      let q : Position = record {
        next = p.next + length r.fetches.records;
        committed = p.committed;
      } in
      ap (λ u. (after_round r' u).committed) (round_failed r p failed)
      ∙ round_fine r' q fine
      ∙ ap (λ ts. consume_batch q.next ts q.committed) one
      ∙ consume_batch_skips q.next [] t q.committed committed handled
      ∙ omega arith
