-- ===== src/Mq/Retry.antt =====
-- internal/mq/p3_retry.go: `ProcessWithRetry`, which retries a handler and then dead-letters the record.
pub mod Ends
use seckill.Errors.{Error, Result, ok, err}
use seckill.Prelude.{
  ℕ, ℤ, Option, List, pos, Bool, true, some, zero, false, suc, [], none, negsuc, ◌++◌, ◌*◌, ◌^◌,
  ◌-◌, ◌∷◌,
}

-- `RetryPolicy`
pub record RetryPolicy : Type 0 where
  pub max_attempts : ℤ
  pub base_backoff : ℕ

-- `RetryResult`
pub record RetryResult : Type 0 where
  pub attempts : ℕ
  pub backoffs : List ℕ
  pub dead_lettered : Bool

-- What the call ends in: the handler's value, or a dead letter, which carries the last error and the
-- number of attempts, or an error. With no attempt there is no last error, and its text is asked for.
pub data Processed {ℓ} (A : Type ℓ) : Type ℓ where
  placed : A → RetryResult → Processed A
  dead : Error → RetryResult → Processed A
  failed : Error → RetryResult → Processed A
  panics : Processed A

-- What the call meets at an attempt: the handler's answer, and whether the context ends in the wait.
pub record Try {ℓ} (A : Type ℓ) : Type ℓ where
  pub answer : Result A
  pub cancelled : Option Error

-- the message to the dead-letter topic; `produced` is the error of the producer
abbrev pub dead_letter {ℓ} : {A : Type ℓ} → Option Error → Error → ℕ → List ℕ → Processed A
dead_letter none last n waits =
    dead last record { attempts = n; backoffs = waits; dead_lettered = true }
dead_letter (some e) last n waits =
    failed e record { attempts = n; backoffs = waits; dead_lettered = false }

-- a wait, and what follows it
abbrev wait_for {ℓ} : {A : Type ℓ} → Option Error → ℕ → List ℕ → Processed A → Processed A
wait_for none n waits next = next
wait_for (some e) n waits next =
    failed e record { attempts = n; backoffs = waits; dead_lettered = false }

abbrev after_answer {ℓ} : {A : Type ℓ} → ℕ → List ℕ → Result A → (Error → Processed A) → Processed A
after_answer n waits (ok a) next =
    placed a record { attempts = n; backoffs = waits; dead_lettered = false }
after_answer n waits (err e) next = next e

module _ {ℓ} {A : Type ℓ} (base : ℕ) (tries : ℕ → Try A) (produced : Option Error) where
  -- the loop from attempt `n` on, `left` attempts after it
  unfoldable pub attempts_from : ℕ → ℕ → List ℕ → Processed A
  attempts_from zero n waits =
      after_answer n waits (tries n).answer (λ e. dead_letter produced e n waits)
  attempts_from (suc left) n waits =
      let waits' = waits ++ (base * 2 ^ (n - 1) ∷ []) in
      let rest = attempts_from left (suc n) waits' in
      after_answer n waits (tries n).answer (λ e. wait_for (tries n).cancelled n waits' rest)

-- `ProcessWithRetry`
unfoldable pub process_with_retry {ℓ} :
    {A : Type ℓ} → RetryPolicy → (ℕ → Try A) → Option Error → Processed A
unfolding attempts_from
process_with_retry policy tries produced = elim policy.max_attempts [
  | pos n ↦ elim n [
    | zero ↦ panics
    | suc left ↦ attempts_from policy.base_backoff tries produced left 1 []
  ]
  | negsuc n ↦ panics
]
