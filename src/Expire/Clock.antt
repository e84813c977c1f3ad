-- ===== src/Expire/Clock.antt =====
-- internal/expire/model.go, p3_latency.go: the clock of the tests, and the scanner that waits on a
-- clock. Times are in nanoseconds.
-- `FakeClock`: a waiter is its time; a wait that is given up stays, as its channel does.
use seckill.Errors.{Error, Result, ok, err}
use seckill.Prelude.{
  ℕ, Option, List, [], ◌++◌, ◌∷◌, ◌+◌, length, if◌then◌else◌, none, ◌<◌, ◌≤◌, ◌≡◌, ltb, some,
  Bool-cases, inl, ltb→lt, suc, arith, inr, refl,
}

pub record FakeClock : Type 0 where
  pub now : ℕ
  pub waiters : List ℕ

unfoldable new_fake_clock : ℕ → FakeClock
new_fake_clock start = record { now = start; waiters = [] }

-- `After`
unfoldable after : FakeClock → ℕ → FakeClock
after c d = record c { waiters = c.waiters ++ ((c.now + d) ∷ []) }

-- the loop of `Advance`: the waiters that stay, and those that are released
unfoldable release : ℕ → List ℕ → List ℕ × List ℕ
release now [] = ([], [])
release now (w ∷ ws) =
    let (remaining, released) = release now ws in
    if ltb now w then (w ∷ remaining, released) else (remaining, w ∷ released)

-- `Advance`, with the waiters that it releases
unfoldable advance : FakeClock → ℕ → FakeClock × List ℕ
unfolding release
advance c d =
    let (remaining, released) = release (c.now + d) c.waiters in
    (record { now = c.now + d; waiters = remaining }, released)

abbrev pending_waiters : FakeClock → ℕ
pending_waiters c = length c.waiters

-- What wakes the `select` of `RunScanner`: the clock, and then `scan` returns this; or the context.
-- With both ready either may.
pub data Wake : Type 0 where
  fires : Option Error → Wake
  done : Wake

-- `RunScanner` over what wakes it: the scans that it made, and what it returned, if it has.
unfoldable pub run_scanner : List Wake → ℕ × Option (Result (Unit {0}))
run_scanner [] = (0, none)
run_scanner (done ∷ wakes) = (0, some (ok tt))
run_scanner (fires (some e) ∷ wakes) = (1, some (err e))
run_scanner (fires none ∷ wakes) = let (n, r) = run_scanner wakes in (suc n, r)

AllAfter : ℕ → List ℕ → Type 0
AllAfter now [] = Unit {0}
AllAfter now (w ∷ ws) = (now < w) × AllAfter now ws

AllUpTo : ℕ → List ℕ → Type 0
AllUpTo now [] = Unit {0}
AllUpTo now (w ∷ ws) = (w ≤ now) × AllUpTo now ws

-- Every waiter stays or is released, by its time.
release_lem :
    (now : ℕ) (ws : List ℕ)
    → let (remaining, released) = release now ws in
      AllAfter now remaining
      × AllUpTo now released
      × (length remaining + length released ≡ length ws)
unfolding release AllAfter AllUpTo
release_lem now [] = (tt, tt, refl)
release_lem now (w ∷ ws) =
    let (a, b, n) = release_lem now ws in
    elim (Bool-cases (ltb now w)) [
      | inl later ↦ rw later ((ltb→lt now w later, a), b, omega (arith, n))
      | inr due ↦ rw due (a, (ground arith, b), omega (arith, n))
    ]
