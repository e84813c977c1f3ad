-- ===== src/Overload/Breaker.antt =====
-- internal/overload/p3_breaker.go: the three-state circuit breaker. `Do` holds the mutex before and
-- after the call that it guards, and other calls come between: it is two steps.
pub mod Transitions
pub mod Probes
pub mod Pile
use seckill.Prelude.{
  ℕ, suc, ◌+◌, Bool, true, false, ◌&&◌, ltb, leb, if◌then◌else◌, ℤ, pos, ◌+ℤ◌, ◌-ℤ◌, leb_ℤ, ltb_ℤ,
}

pub data BreakerState : Type 0 where
  closed open_state half_open : BreakerState

pub record BreakerPolicy : Type 0 where
  pub failure_threshold : ℕ
  pub open_for : ℤ
  pub half_open_probes : ℤ

pub record Breaker : Type 0 where
  pub state : BreakerState
  pub failures : ℕ
  pub opened_at : ℤ
  pub probes_in_flight : ℤ

-- `NewBreaker`: the zero values; the policy is passed to each step
unfoldable pub new_breaker : Breaker
new_breaker = record { state = closed; failures = 0; opened_at = pos 0; probes_in_flight = pos 0 }

abbrev is_open : BreakerState → Bool
is_open open_state = true
is_open _ = false

-- `checkTransitionLocked`
unfoldable pub check_transition : BreakerPolicy → ℤ → Breaker → Breaker
unfolding ◌-ℤ◌
check_transition p now b =
    if is_open b.state && leb_ℤ p.open_for (now -ℤ b.opened_at)
    then record b { state = half_open; probes_in_flight = pos 0 }
    else b

-- What the first part of `Do` decides: `ErrBreakerOpen`, or to make the call, as a probe or not.
pub data Admit : Type 0 where
  rejected calls probes : Admit

admit : BreakerPolicy → BreakerState → Breaker → Breaker × Admit
unfolding ◌+ℤ◌
admit p open_state b = (b, rejected)
admit p half_open b =
    if leb_ℤ p.half_open_probes b.probes_in_flight
    then (b, rejected)
    else (record b { probes_in_flight = b.probes_in_flight +ℤ pos 1 }, probes)
admit p closed b = (b, calls)

-- `Do`, up to the call of `fn`
unfoldable pub begin : BreakerPolicy → ℤ → Breaker → Breaker × Admit
unfolding admit check_transition
begin p now b = let c = check_transition p now b in admit p c.state c

-- `Do`, after `fn` returned: whether the call was a probe, and whether it succeeded
unfoldable pub finish : BreakerPolicy → ℤ → Bool → Bool → Breaker → Breaker
unfolding ◌-ℤ◌
finish p now true true b = record b {
  probes_in_flight = b.probes_in_flight -ℤ pos 1;
  state = closed;
  failures = 0;
}
finish p now true false b = record b {
  probes_in_flight = b.probes_in_flight -ℤ pos 1;
  state = open_state;
  opened_at = now;
}
finish p now false true b = record b { failures = 0 }
finish p now false false b =
    let failures = b.failures + 1 in
    if leb p.failure_threshold failures
    then record b { failures = failures; state = open_state; opened_at = now }
    else record b { failures = failures }

-- `State`
unfoldable pub observe : BreakerPolicy → ℤ → Breaker → Breaker × BreakerState
unfolding check_transition
observe p now b = let c = check_transition p now b in (c, c.state)
