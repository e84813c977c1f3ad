-- ===== src/Api/Stop.antt =====
-- cmd/api/main.go: the five steps of the shutdown, under one deadline. What the steps call outside of
-- the repository is given as functions of the moment of the call. Where the end of a wait and the
-- deadline fall on one moment the `select` may take either: here the pause gives way to the deadline,
-- and the deadline to the end of the consumer's loop.
pub mod Quiet
use seckill.Errors.{Error, join, sentinel, deadline_exceeded}
use seckill.Prelude.{
  ℕ, List, Option, ◌∷◌, leb, suc, ◌+◌, ℤ, none, some, if◌then◌else◌, [], eqb_ℤ, pos, ltb, zero,
}
use seckill.Overload.Shutdown.{ShutdownStep, ShutdownReport, shutdown}

-- `http` is the server's `Shutdown` and `flush` the producer's `Flush`: when they return, and with
-- what. `in_flight` is `Stats().InFlight` of the door, `exits` the moment at which the consumer's loop
-- is over when its context is cancelled at a moment. `closes` are the answers of the connections in
-- the order of their closing, and `closed` the moment at which the last one returns.
pub record Outside : Type 0 where
  pub http : ℕ → ℕ × Option Error
  pub in_flight : ℕ → ℤ
  pub exits : ℕ → ℕ
  pub flush : ℕ → ℕ × Option Error
  pub closes : List (Option Error)
  pub closed : ℕ → ℕ

-- 50 milliseconds in nanoseconds
abbrev pub pause : ℕ
pause = 50000000

-- errors.Join of the errors that are there
unfoldable pub join_all : List (Option Error) → Option Error
join_all [] = none
join_all (none ∷ es) = join_all es
join_all (some e ∷ es) = elim (join_all es) [ none ↦ some e | some f ↦ some (join e f) ]

module _ (deadline : ℕ) (w : Outside) where
  -- drain-inflight: a look at the door, then a pause or the end of the context, whichever is first
  unfoldable pub drain : ℕ → ℕ → ℕ × Option Error
  drain zero now = (now, some (sentinel deadline_exceeded))
  drain (suc fuel) now =
      let rest = drain fuel (now + pause) in
      if eqb_ℤ (w.in_flight now) (pos 0)
      then (now, none)
      else (if ltb (now + pause) deadline
          then rest
          else (deadline, some (sentinel deadline_exceeded)))

  -- stop-consumer
  unfoldable pub stop_consumer : ℕ → ℕ × Option Error
  stop_consumer now =
      if leb (w.exits now) deadline
      then (w.exits now, none)
      else (deadline, some (sentinel deadline_exceeded))

  -- close-deps
  unfoldable pub close_deps : ℕ → ℕ × Option Error
  unfolding join_all
  close_deps now = (w.closed now, join_all w.closes)

  unfoldable pub api_steps : List ShutdownStep
  api_steps =
      record { name = "stop-http"; fn = w.http }
      ∷ record { name = "drain-inflight"; fn = λ now. drain (suc deadline) now }
      ∷ record { name = "stop-consumer"; fn = stop_consumer }
      ∷ record { name = "flush-producer"; fn = w.flush }
      ∷ record { name = "close-deps"; fn = close_deps }
      ∷ []

-- the end of `main`, from the signal on
unfoldable pub graceful_shutdown : ℕ → ℕ → Outside → ShutdownReport
unfolding api_steps
graceful_shutdown timeout start w =
    shutdown (λ now. leb (start + timeout) now) start (api_steps (start + timeout) w)
