-- ===== src/Overload/Breaker/Probes.antt =====
-- internal/overload/p3_breaker.go: calls of `Do` that overlap.
use seckill.Prelude.{ℕ, suc, ◌+◌, ◌<◌, ◌≡◌, Bool, true, false, ℤ, pos, ◌≤ℤ◌}
use seckill.Overload.Breaker.{
  closed, half_open, BreakerPolicy, Breaker, Admit, rejected, calls, probes, new_breaker, begin,
  finish, observe,
}

-- The breaker and the calls of `fn` that have not returned: ordinary ones and probes.
pub record System : Type 0 where
  pub breaker : Breaker
  pub ordinary : ℕ
  pub probing : ℕ

abbrev pub admitted : System → Breaker × Admit → System
admitted s (b, a) = elim a [
  | rejected ↦ record s { breaker = b }
  | calls ↦ record s { breaker = b; ordinary = s.ordinary + 1 }
  | probes ↦ record s { breaker = b; probing = s.probing + 1 }
]

-- At any moment a call begins, one that has begun returns, or somebody reads the state.
pub data Step (p : BreakerPolicy) (s : System) : System → Type 0 where
  begins : (now : ℤ) → Step p s (admitted s (begin p now s.breaker))
  returns :
      (now : ℤ) (success : Bool) {n : ℕ}
      → s.ordinary ≡ suc n
      → Step p s (record s { breaker = finish p now false success s.breaker; ordinary = n })
  probe_returns :
      (now : ℤ) (success : Bool) {n : ℕ}
      → s.probing ≡ suc n
      → Step p s (record s { breaker = finish p now true success s.breaker; probing = n })
  observes : (now : ℤ) → Step p s (record s { breaker = (observe p now s.breaker).0 })

pub data Reach (p : BreakerPolicy) : System → Type 0 where
  here : Reach p (record { breaker = new_breaker; ordinary = 0; probing = 0 })
  next : {s t : System} → Reach p s → Step p s t → Reach p t

-- A closed breaker is below the threshold; a half-open one has counted no more probes than the
-- policy allows.
pub record Inv (p : BreakerPolicy) (b : Breaker) : Type 0 where
  pub below : b.state ≡ closed → b.failures < p.failure_threshold
  pub counted : b.state ≡ half_open → pos 0 ≤ℤ b.probes_in_flight
  pub bounded : b.state ≡ half_open → b.probes_in_flight ≤ℤ p.half_open_probes
