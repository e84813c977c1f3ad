-- ===== src/OrderService/End.antt =====
-- cmd/order-service/main.go and cmd/inventory-service/main.go: the end of the process, on a signal or
-- when serving ends.
use seckill.Stores.Call.{Fate, not_made, answer_lost, answered}
use seckill.Errors.{Error}
use seckill.Prelude.{
  ℕ, Option, Bool, if◌then◌else◌, leb, some, ◌≡◌, not, false, none, true, ◌≢◌, ◌≤◌, arith, refl,
}
use seckill.Discovery.{Registration, close_registration, revoked}

-- What the `select` waits for; `stopped` is whether the error is `ErrServerStopped`.
pub data Cause : Type 0 where
  signalled : Cause
  served : Error → Bool → Cause

-- What the process leaves: its registration, whether it shows itself as ready, how long the calls under
-- way were waited for, and the error that it exits with.
pub record End : Type 0 where
  pub registration : Option Registration
  pub ready : Bool
  pub waited : Option ℕ
  pub fatal : Option Error

-- 10 seconds in nanoseconds
abbrev pub patience : ℕ
patience = 10000000000

-- `GracefulStop`, with the timer that stops the server; `left` is how long the last call takes
unfoldable pub graceful_stop : ℕ → ℕ
graceful_stop left = if leb left patience then left else patience

-- the end of `main`; `health` is whether the process has a health server, which only the inventory
-- service has
unfoldable pub process_end : Bool → Option Error → Fate → ℕ → Registration → Cause → End
unfolding close_registration graceful_stop
process_end health late fate left r signalled = record {
  registration = (close_registration late fate (some r)).0;
  ready = not health;
  waited = some (graceful_stop left);
  fatal = none;
}
process_end health late fate left r (served e stopped) = record {
  registration = some r;
  ready = true;
  waited = none;
  fatal = if stopped then none else some e;
}

-- On a signal the lease is no longer kept alive, so that it runs out even where the revocation fails,
-- and the address is gone at once where the revocation is made; the calls under way get at most ten
-- seconds, and the process exits without an error.
pub process_end-Leaves :
    (health : Bool) (late : Option Error) (fate : Fate) (left : ℕ) (r : Registration)
    → let end = process_end health late fate left r signalled in
      (s : Registration) × (t : ℕ) × (end.registration ≡ some s)
      × (s.kept_alive ≡ false)
      × (late ≡ none → ((e : Error) → fate ≢ not_made e) → s.listed ≡ false)
      × (end.waited ≡ some t)
      × (t ≤ patience)
      × (end.fatal ≡ none)
unfolding process_end close_registration revoked graceful_stop
process_end-Leaves health (some e) fate left r =
    (_, _, refl, refl, (λ h made. cc), refl, ground arith, refl)
process_end-Leaves health none answered left r =
    (_, _, refl, refl, (λ h made. refl), refl, ground arith, refl)
process_end-Leaves health none (not_made e) left r =
    (_, _, refl, refl, (λ h made. absurd (made e refl)), refl, ground arith, refl)
process_end-Leaves health none (answer_lost e) left r =
    (_, _, refl, refl, (λ h made. refl), refl, ground arith, refl)
