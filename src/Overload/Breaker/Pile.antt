-- ===== src/Overload/Breaker/Pile.antt =====
-- internal/overload/p3_breaker.go: calls that began before the breaker opened, and fail while it is
-- half-open.
use seckill.Prelude.{
  ℕ, ℤ, zero, suc, ◌-◌, ◌≤◌, ◌<◌, ◌≡◌, refl, arith, int_laws, false, pos, ◌+ℤ◌, ◌-ℤ◌, ◌≤ℤ◌,
}
use seckill.Overload.Breaker.{
  closed, open_state, half_open, BreakerPolicy, BreakerState, Breaker, calls, probes, new_breaker,
  begin, finish,
}
use seckill.Overload.Breaker.Probes.{System, Reach, here, next, admitted, begins, returns}

module _ (p : BreakerPolicy) where
  -- A state that calls can reach, by its breaker's state and the calls that have not returned.
  record Reached (state : BreakerState) (ordinary probing : ℕ) : Type 0 where
    pub system : System
    pub run : Reach p system
    pub in_state : system.breaker.state ≡ state
    pub calling : system.ordinary ≡ ordinary
    pub trying : system.probing ≡ probing

  closed_calls : (now : ℤ) (b : Breaker) → b.state ≡ closed → begin p now b ≡ (b, calls)
  unfolding begin
  closed_calls now b h = ground arith

  -- calls that a closed breaker lets through, none of which has returned
  under_way : (m : ℕ) → (r : Reached closed m 0) × (r.system.breaker.failures ≡ 0)
  unfolding new_breaker
  under_way zero = (
    record {
      system = record { breaker = new_breaker; ordinary = 0; probing = 0 };
      run = here;
      in_state = refl;
      calling = refl;
      trying = refl;
    },
    refl,
  )
  under_way (suc m) =
      let (r, none_yet) = under_way m in
      let s = r.system in
      let e = closed_calls (pos 0) s.breaker r.in_state in
      (
        record {
          system = admitted s (begin p (pos 0) s.breaker);
          run = next r.run (begins (pos 0));
          in_state = rw e r.in_state;
          calling = rw e (omega (arith, r.calling));
          trying = rw e r.trying;
        },
        rw e none_yet,
      )

  -- some of them have failed, fewer than the threshold
  some_failed :
      (f m : ℕ)
      → f < p.failure_threshold
      → (r : Reached closed m 0) × (r.system.breaker.failures ≡ f)
  unfolding finish
  some_failed zero m h = under_way m
  some_failed (suc f) m h =
      let (r, failed) = some_failed f (suc m) (omega arith) in
      let s = r.system in
      (
        record {
          system = record s { breaker = finish p (pos 0) false false s.breaker; ordinary = m };
          run = next r.run (returns (pos 0) false r.calling);
          in_state = ground (arith, failed, r.in_state);
          calling = refl;
          trying = r.trying;
        },
        ground (arith, failed),
      )

  -- the breaker is open, and has counted enough failures to open at the next one
  abbrev Opened : ℕ → ℕ → Type 0
  Opened m k = (r : Reached open_state m k) × (p.failure_threshold ≤ suc r.system.breaker.failures)

  first_opening : (m : ℕ) → 1 ≤ p.failure_threshold → Opened m 0
  unfolding finish
  first_opening m h =
      let (r, failed) = some_failed (p.failure_threshold - 1) (suc m) (omega arith) in
      let s = r.system in
      (
        record {
          system = record s { breaker = finish p (pos 0) false false s.breaker; ordinary = m };
          run = next r.run (returns (pos 0) false r.calling);
          in_state = ground (arith, failed);
          calling = refl;
          trying = r.trying;
        },
        ground (arith, failed),
      )

  -- after the cooling time the first call is a probe, whatever has not returned
  cooled : ℤ → ℤ
  cooled opened = opened +ℤ p.open_for

  cool : (a b : ℤ) → b ≤ℤ (a +ℤ b -ℤ a)
  cool a b = omega int_laws

  probe_begins :
      (b : Breaker)
      → pos 1 ≤ℤ p.half_open_probes
      → b.state ≡ open_state
      → begin p (cooled b.opened_at) b
        ≡ (record b { state = half_open; probes_in_flight = pos 0 +ℤ pos 1 }, probes)
  unfolding begin cooled
  probe_begins b h e = let late = cool b.opened_at p.open_for in ground (arith, late)

  admits_probe :
      (m k : ℕ)
      → pos 1 ≤ℤ p.half_open_probes
      → (o : Opened m k)
      → (r : Reached half_open m (suc k)) × (p.failure_threshold ≤ suc r.system.breaker.failures)
  admits_probe m k h (r, enough) =
      let s = r.system in
      let e = probe_begins s.breaker h r.in_state in
      (
        record {
          system = admitted s (begin p (cooled s.breaker.opened_at) s.breaker);
          run = next r.run (begins (cooled s.breaker.opened_at));
          in_state = rw e refl;
          calling = rw e r.calling;
          trying = rw e (omega (arith, r.trying));
        },
        rw e enough,
      )

  -- a call from before fails now, and opens the breaker again
  reopens :
      (m k : ℕ)
      → (r : Reached half_open (suc m) k) → p.failure_threshold ≤ suc r.system.breaker.failures
      → Opened m k
  unfolding finish
  reopens m k r enough =
      let s = r.system in
      let now = s.breaker.opened_at +ℤ p.open_for in
      (
        record {
          system = record s { breaker = finish p now false false s.breaker; ordinary = m };
          run = next r.run (returns now false r.calling);
          in_state = ground arith;
          calling = refl;
          trying = r.trying;
        },
        ground arith,
      )

  opens_again : (k m : ℕ) → 1 ≤ p.failure_threshold → pos 1 ≤ℤ p.half_open_probes → Opened m k
  opens_again zero m h l = first_opening m h
  opens_again (suc k) m h l =
      let (r, enough) = admits_probe (suc m) k l (opens_again k (suc m) h l) in
      reopens m (suc k) r enough

  -- For every number there are calls that lead from a new breaker to a half-open one with so many probes
  -- that have not returned, whatever the policy allows, if it allows one and its threshold is at least
  -- one: calls that began while the breaker was closed fail one by one while it is half-open and open it
  -- again, and with each cooling time the count of probes begins anew.
  pub probes_pile_up :
      (n : ℕ)
      → 1 ≤ p.failure_threshold
      → pos 1 ≤ℤ p.half_open_probes
      → (s : System) × Reach p s × (s.breaker.state ≡ half_open) × (s.probing ≡ suc n)
  probes_pile_up n h l =
      let (r, _) = admits_probe 0 n l (opens_again n 0 h l) in
      (r.system, r.run, r.in_state, r.trying)
