-- ===== src/Expire/Stop.antt =====
-- internal/expire/model.go: `ScannerShutdownStep`, the scanner as a step of the shutdown.
use seckill.Errors.{Error, sentinel, deadline_exceeded}
use seckill.Prelude.{
  ℕ, String, Option, if◌then◌else◌, ◌≡◌, List, leb, none, ◌≤◌, some, Bool-cases, length, inl, ◌∷◌,
  tests, inr,
}
use seckill.Overload.Shutdown.{ShutdownStep, shutdown}
use seckill.Overload.Shutdown.Order.{shutdown-Ran}

-- `ends` is when the scanner returns if it is cancelled at a moment, and its error; the context of the
-- shutdown ends at the deadline.
unfoldable pub scanner_shutdown_step : ℕ → String → (ℕ → ℕ × Option Error) → ShutdownStep
scanner_shutdown_step deadline name ends = record {
  name = name;
  fn = λ now.
      if leb (ends now).0 deadline then ends now else (deadline, some (sentinel deadline_exceeded));
}

scanner_waits :
    (deadline : ℕ) (name : String) (ends : ℕ → ℕ × Option Error) (now : ℕ)
    → ((scanner_shutdown_step deadline name ends).fn now).1 ≡ none
    → ((ends now).0 ≤ deadline) × ((ends now).1 ≡ none)
unfolding scanner_shutdown_step
scanner_waits deadline name ends now h = elim (Bool-cases (leb (ends now).0 deadline)) [
  | inl in_time ↦ (omega (tests, in_time), rw in_time at h)
  | inr late ↦ (let h' = rw late at h in cc)
]

-- A shutdown that starts with the scanner's step completes it only if the scanner has returned without
-- an error by the deadline.
pub scanner_stopped :
    (deadline start : ℕ) (name : String) (ends : ℕ → ℕ × Option Error) (rest : List ShutdownStep)
    → 1
      ≤ length
          (shutdown
            (λ now. leb deadline now)
            start
            (scanner_shutdown_step deadline name ends ∷ rest)).completed
    → ((ends start).0 ≤ deadline) × ((ends start).1 ≡ none)
scanner_stopped deadline start name ends rest h =
    let ran =
      shutdown-Ran (λ now. leb deadline now) 1 start
        (scanner_shutdown_step deadline name ends ∷ rest) h in
    scanner_waits deadline name ends start ran.1
