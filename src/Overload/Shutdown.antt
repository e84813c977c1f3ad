-- ===== src/Overload/Shutdown.antt =====
-- internal/overload/p4_shutdown.go: steps in order under one deadline. A step is a function of the
-- moment at which it starts; the context is a test of the moment.
pub mod Order
use seckill.Prelude.{ℕ, ◌-◌, Bool, true, false, Option, none, some, List, [], ◌∷◌, ◌++◌, String}
use seckill.Errors.{Error, sentinel, shutdown_timeout}

-- `fn now` is the moment at which the step returns, and its error
pub record ShutdownStep : Type 0 where
  pub name : String
  pub fn : ℕ → ℕ × Option Error

-- `failed` is `none` where the source has the empty string
pub record ShutdownReport : Type 0 where
  pub completed : List String
  pub failed : Option String
  pub error : Option Error
  pub elapsed : ℕ

stop : ShutdownReport → String → Error → ℕ → ShutdownReport
stop r name e elapsed = record r { failed = some name; error = some e; elapsed = elapsed }

-- The loop, from a moment on and with the report so far.
unfoldable pub run_steps : (ℕ → Bool) → ℕ → ℕ → ShutdownReport → List ShutdownStep → ShutdownReport
unfolding stop
run_steps done start now r [] = record r { elapsed = now - start }
run_steps done start now r (s ∷ rest) = elim (done now) [
  | true ↦ stop r s.name (sentinel shutdown_timeout) (now - start)
  | false ↦
      let (after, e) = s.fn now in
      elim e [
        | some e ↦ stop r s.name e (after - start)
        | none ↦
            run_steps done start after (record r { completed = r.completed ++ s.name ∷ [] }) rest
      ]
]

unfoldable pub shutdown : (ℕ → Bool) → ℕ → List ShutdownStep → ShutdownReport
unfolding run_steps
shutdown done start steps =
    run_steps done start start (record { completed = []; failed = none; error = none; elapsed = 0 })
      steps
