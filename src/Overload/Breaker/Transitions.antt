-- ===== src/Overload/Breaker/Transitions.antt =====
-- internal/overload/p3_breaker.go: when the breaker opens, what it lets through, and how it closes,
-- in calls of `Do` that are made one after the other.
use seckill.Prelude.{
  suc, ◌+◌, ◌≤◌, ◌<◌, ◌≡◌, arith, true, false, List, [], ◌∷◌, length, ℤ, pos, ◌-ℤ◌, ◌≤ℤ◌, ◌<ℤ◌,
}
use seckill.Overload.Breaker.{
  closed, open_state, BreakerPolicy, Breaker, rejected, probes, begin, finish,
}

-- `fn` fails at each of the moments, in calls made one after the other.
pub fail_at : BreakerPolicy → List ℤ → Breaker → Breaker
fail_at p [] b = b
fail_at p (now ∷ later) b = fail_at p later (finish p now false false (begin p now b).0)

fail_once :
    (p : BreakerPolicy) (now : ℤ) (b : Breaker)
    → b.state ≡ closed
    → let c = finish p now false false (begin p now b).0 in
      (c.failures ≡ suc b.failures)
      × (suc b.failures < p.failure_threshold → c.state ≡ closed)
      × (p.failure_threshold ≤ suc b.failures → c.state ≡ open_state)
unfolding begin finish
fail_once p now b h = ground arith

-- A closed breaker stays closed under failures that do not reach the threshold.
pub stays_closed :
    (p : BreakerPolicy) (times : List ℤ) (b : Breaker)
    → b.state ≡ closed
    → b.failures + length times < p.failure_threshold
    → ((fail_at p times b).state ≡ closed)
      × ((fail_at p times b).failures ≡ b.failures + length times)
unfolding fail_at
stays_closed p [] b h lt = (h, omega arith)
stays_closed p (now ∷ later) b h lt =
    let (more, still, trips) = fail_once p now b h in
    let c = finish p now false false (begin p now b).0 in
    let (s, f) = stays_closed p later c (still (omega arith)) (omega arith) in (s, omega arith)

-- The failure that reaches the threshold opens it.
pub trips_at_threshold :
    (p : BreakerPolicy) (times : List ℤ) (now : ℤ) (b : Breaker)
    → b.state ≡ closed
    → suc (b.failures + length times) ≡ p.failure_threshold
    → let c = fail_at p times b in
      (c.state ≡ closed) × ((finish p now false false (begin p now c).0).state ≡ open_state)
trips_at_threshold p times now b h e =
    let (s, f) = stays_closed p times b h (omega arith) in
    (s, (fail_once p now (fail_at p times b) s).2 (omega arith))

-- While the cooling time lasts, an open breaker rejects every call and does not change.
pub open_rejects :
    (p : BreakerPolicy) (now : ℤ) (b : Breaker)
    → b.state ≡ open_state
    → (now -ℤ b.opened_at) <ℤ p.open_for
    → begin p now b ≡ (b, rejected)
unfolding begin
open_rejects p now b h lt = ground arith

-- After it, the call is let through as a probe; if the probe succeeds the breaker is closed with no
-- failure counted, and if it fails the breaker is open from then on.
pub probe_decides :
    (p : BreakerPolicy) (now after : ℤ) (b : Breaker)
    → b.state ≡ open_state
    → p.open_for ≤ℤ (now -ℤ b.opened_at)
    → pos 1 ≤ℤ p.half_open_probes
    → let (c, a) = begin p now b in
      (a ≡ probes)
      × ((finish p after true true c).state ≡ closed)
      × ((finish p after true true c).failures ≡ 0)
      × ((finish p after true false c).state ≡ open_state)
      × ((finish p after true false c).opened_at ≡ after)
unfolding begin finish
probe_decides p now after b h le some_probe = ground arith
