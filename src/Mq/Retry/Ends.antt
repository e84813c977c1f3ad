-- ===== src/Mq/Retry/Ends.antt =====
-- internal/mq/p3_retry.go: how a record is disposed of.
use seckill.Errors.{Error, err, ok, Result}
use seckill.Mq.Retry.{
  Try, Processed, RetryResult, placed, attempts_from, dead, failed, dead_letter, wait_for,
  process_with_retry, after_answer, RetryPolicy,
}
use seckill.Prelude.{
  ℕ, Option, ◌≤◌, List, ◌≡◌, ◌+◌, suc, false, dec_lt, arith, none, subst, true, some, ◌⊎◌, inl, inr,
  ◌++◌, pos, ◌*◌, refl, [], ◌^◌, ◌-◌, ◌∷◌, zero, ◌<◌,
}

module _ {ℓ} {A : Type ℓ} (tries : ℕ → Try A) (produced : Option Error) where
  -- The attempts from a number on have failed, up to and without another.
  abbrev pub FailedFrom : ℕ → ℕ → Type ℓ
  FailedFrom n end = (k : ℕ) → n ≤ k → k < end → (e : Error) × ((tries k).answer ≡ err e)

  pub data Disposed (n bound : ℕ) (p : Processed A) : Type ℓ where
    succeeds :
        (a : A) (r : RetryResult)
        → p ≡ placed a r
        → n ≤ r.attempts
        → r.attempts ≤ bound
        → (tries r.attempts).answer ≡ ok a
        → FailedFrom n r.attempts
        → r.dead_lettered ≡ false
        → Disposed n bound p
    exhausts :
        (e : Error) (r : RetryResult)
        → p ≡ dead e r
        → r.attempts ≡ bound
        → (tries bound).answer ≡ err e
        → FailedFrom n (suc bound)
        → produced ≡ none
        → r.dead_lettered ≡ true
        → Disposed n bound p
    gives_up :
        (e : Error) (r : RetryResult)
        → p ≡ failed e r
        → n ≤ r.attempts
        → r.attempts ≤ bound
        → FailedFrom n (suc r.attempts)
        → (produced ≡ some e) ⊎ ((tries r.attempts).cancelled ≡ some e)
        → r.dead_lettered ≡ false
        → Disposed n bound p

  from_here :
      (n : ℕ) (e : Error) (end : ℕ)
      → (tries n).answer ≡ err e
      → FailedFrom (suc n) end
      → FailedFrom n end
  from_here n e end h all k le ge = elim (dec_lt n k) [
    | yes lt ↦ all k lt ge
    | no nlt ↦
        let same : n ≡ k = omega arith in
        subst (λ k. (e : Error) × ((tries k).answer ≡ err e)) same (e, h)
  ]

  only_here : (n : ℕ) (e : Error) → (tries n).answer ≡ err e → FailedFrom n (suc n)
  only_here n e h = from_here n e (suc n) h (λ k le ge. absurd (omega arith))

  earlier :
      (n bound : ℕ) (p : Processed A) (e : Error)
      → (tries n).answer ≡ err e
      → Disposed (suc n) bound p
      → Disposed n bound p
  earlier n bound p e h (succeeds a r q f l t all d) =
      succeeds a r q (omega arith) l t (from_here n e r.attempts h all) d
  earlier n bound p e h (gives_up x r q f l all t d) =
      gives_up x r q (omega arith) l (from_here n e (suc r.attempts) h all) t d
  earlier n bound p e h (exhausts x r q l t all made d) =
      exhausts x r q l t (from_here n e (suc bound) h all) made d

  dead_letter-Disposed :
      (made : Option Error) (n : ℕ) (waits : List ℕ) (e : Error)
      → produced ≡ made
      → (tries n).answer ≡ err e
      → Disposed n n (dead_letter made e n waits)
  dead_letter-Disposed none n waits e m h = exhausts e _ refl refl h (only_here n e h) m refl
  dead_letter-Disposed (some x) n waits e m h =
      gives_up x _ refl (omega arith) (omega arith) (only_here n e h) (inl m) refl

  wait_for-Disposed :
      (c : Option Error) (n bound : ℕ) (waits : List ℕ) (rest : Processed A)
      → (tries n).cancelled ≡ c
      → n ≤ bound
      → FailedFrom n (suc n)
      → Disposed n bound rest
      → Disposed n bound (wait_for c n waits rest)
  wait_for-Disposed none n bound waits rest c h f d = d
  wait_for-Disposed (some x) n bound waits rest c h f d =
      gives_up x _ refl (omega arith) h f (inr c) refl

  after_answer-Disposed :
      (n bound : ℕ) (waits : List ℕ) (r : Result A) (next : Error → Processed A)
      → (tries n).answer ≡ r
      → n ≤ bound
      → ((e : Error) → (tries n).answer ≡ err e → Disposed n bound (next e))
      → Disposed n bound (after_answer n waits r next)
  after_answer-Disposed n bound waits (ok a) next h le f =
      succeeds a _ refl (omega arith) le h (λ k low high. absurd (omega arith)) refl
  after_answer-Disposed n bound waits (err e) next h le f = f e h

  attempts_from-Disposed :
      (base left n : ℕ) (waits : List ℕ)
      → Disposed n (n + left) (attempts_from base tries produced left n waits)
  unfolding attempts_from
  attempts_from-Disposed base zero n waits =
      let here : n ≡ n + 0 = omega arith in
      after_answer-Disposed n (n + 0) waits (tries n).answer _ refl (omega arith) (λ e h.
        subst (λ b. Disposed n b (dead_letter produced e n waits)) here
          (dead_letter-Disposed produced n waits e refl h))
  attempts_from-Disposed base (suc left) n waits =
      let next : suc n + left ≡ n + suc left = omega arith in
      let waits' = waits ++ (base * 2 ^ (n - 1) ∷ []) in
      let rest = attempts_from base tries produced left (suc n) waits' in
      after_answer-Disposed n (n + suc left) waits (tries n).answer _ refl (omega arith) (λ e h.
        wait_for-Disposed (tries n).cancelled n (n + suc left) waits' rest refl (omega arith)
          (only_here n e h)
          (earlier n (n + suc left) rest e h (
            subst (λ b. Disposed (suc n) b rest) next
              (attempts_from-Disposed base left (suc n) waits'))))

  -- `ProcessWithRetry` with a bound of at least one: the value of the first attempt that succeeds is
  -- returned, all the attempts before it having failed; or every attempt up to the bound failed and the
  -- record goes to the dead-letter topic with the last error; or, all attempts made having failed, the
  -- producer fails or the context ends and nothing is marked dead.
  pub process_with_retry-Disposed :
      (policy : RetryPolicy) (n : ℕ)
      → policy.max_attempts ≡ pos (suc n)
      → Disposed 1 (suc n) (process_with_retry policy tries produced)
  unfolding process_with_retry
  process_with_retry-Disposed policy n h =
      let same : 1 + n ≡ suc n = omega arith in
      rw (h, process_with_retry)
        (subst (λ b. Disposed 1 b (attempts_from policy.base_backoff tries produced n 1 [])) same
          (attempts_from-Disposed policy.base_backoff n 1 []))
