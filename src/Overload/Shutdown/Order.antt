-- ===== src/Overload/Shutdown/Order.antt =====
-- internal/overload/p4_shutdown.go: the report names a prefix of the steps and the one that stopped
-- it.
use mathlib.Core.List.{append_assoc}
use seckill.Prelude.{
  sym, ◌∙◌, ℕ, ◌≡◌, ◌⊎◌, inl, inr, refl, Bool, Bool-cases, Option-cases, none, some, List, [], ◌∷◌,
  ◌++◌, map, String, subst, length, ◌<◌, false, arith, suc, ◌+◌, ◌≤◌, length-append, zero, ap,
}
use seckill.Errors.{Error, sentinel, shutdown_timeout}
use seckill.Overload.Shutdown.{ShutdownStep, ShutdownReport, run_steps, shutdown, stop}

abbrev pub names : List ShutdownStep → List String
names = map (λ s. s.name)

-- The steps that are named as completed are a prefix of those given, in their order. What is left is
-- empty and there is no error, or the first of what is left is named as failed, with an error.
pub record Stops (all : List String) (r : ShutdownReport) : Type 0 where
  pub left : List String
  pub in_order : r.completed ++ left ≡ all
  pub outcome :
      ((left ≡ []) × (r.failed ≡ none) × (r.error ≡ none))
      ⊎ ((name : String) × (later : List String) × (e : Error) × (left ≡ name ∷ later)
          × (r.failed ≡ some name)
          × (r.error ≡ some e))

abbrev pub completes : ShutdownReport → ShutdownStep → ShutdownReport
completes r s = record r { completed = r.completed ++ s.name ∷ [] }

run_steps-Stops :
    (done : ℕ → Bool) (start now : ℕ) (r : ShutdownReport) (steps : List ShutdownStep)
    → r.failed ≡ none
    → r.error ≡ none
    → Stops (r.completed ++ names steps) (run_steps done start now r steps)
unfolding run_steps
run_steps-Stops done start now r [] f e = record {
  left = [];
  in_order = refl;
  outcome = inl (refl, f, e);
}
run_steps-Stops done start now r (s ∷ rest) f e = elim (Bool-cases (done now)) [
  | inl late ↦
      rw (late, run_steps)
        (record {
          left = names (s ∷ rest);
          in_order = refl;
          outcome = inr (s.name, names rest, sentinel shutdown_timeout, refl, refl, refl);
        })
  | inr in_time ↦ elim (Option-cases (s.fn now).1) [
    | inl fine ↦
        rw (in_time, fine, run_steps)
          (subst (λ all. Stops all (run_steps done start (s.fn now).0 (completes r s) rest))
            (append_assoc r.completed (s.name ∷ []) (names rest))
            (run_steps-Stops done start (s.fn now).0 (completes r s) rest f e))
    | inr (x, failing) ↦
        rw (in_time, failing, run_steps)
          (record {
            left = names (s ∷ rest);
            in_order = refl;
            outcome = inr (s.name, names rest, x, refl, refl, refl);
          })
  ]
]

-- Where more steps are completed in the end, the next one ran in time and did not fail.
pub run_steps_passes :
    (done : ℕ → Bool) (start now : ℕ) (r : ShutdownReport) (s : ShutdownStep)
    (rest : List ShutdownStep)
    → length r.completed < length (run_steps done start now r (s ∷ rest)).completed
    → (done now ≡ false)
      × ((s.fn now).1 ≡ none)
      × (run_steps done start now r (s ∷ rest)
          ≡ run_steps done start (s.fn now).0 (completes r s) rest)
unfolding run_steps stop
run_steps_passes done start now r s rest more = elim (Bool-cases (done now)) [
  | inl late ↦ absurd (ground (arith, late))
  | inr in_time ↦ elim (Option-cases (s.fn now).1) [
    | inl fine ↦ (in_time, fine, rw (run_steps, in_time, fine) refl)
    | inr (x, failing) ↦ absurd (ground (arith, in_time, failing))
  ]
]

run_steps_longer :
    (done : ℕ → Bool) (start now : ℕ) (r : ShutdownReport) (steps : List ShutdownStep)
    → length r.completed ≤ length (run_steps done start now r steps).completed
unfolding run_steps stop
run_steps_longer done start now r [] = omega arith
run_steps_longer done start now r (s ∷ rest) = elim (Bool-cases (done now)) [
  | inl late ↦ rw (late, run_steps) (omega arith)
  | inr in_time ↦ elim (Option-cases (s.fn now).1) [
    | inr (x, failing) ↦ rw (in_time, failing, run_steps) (omega arith)
    | inl fine ↦
        let rest_longer = run_steps_longer done start (s.fn now).0 (completes r s) rest in
        let longer = length-append r.completed (s.name ∷ []) in
        rw (in_time, fine, run_steps) (omega (arith, rest_longer, longer))
  ]
]

-- The first `k` steps ran in turn from a moment on, each in time and without an error.
abbrev pub Ran : (ℕ → Bool) → ℕ → ℕ → List ShutdownStep → Type 0
Ran done zero now steps = Unit {0}
Ran done (suc k) now [] = ⊥
Ran done (suc k) now (s ∷ rest) =
    (done now ≡ false) × ((s.fn now).1 ≡ none) × Ran done k (s.fn now).0 rest

run_steps-Ran :
    (done : ℕ → Bool) (start k now : ℕ) (r : ShutdownReport) (steps : List ShutdownStep)
    → length r.completed + k ≤ length (run_steps done start now r steps).completed
    → Ran done k now steps
run_steps-Ran done start zero now r steps h = tt
run_steps-Ran done start (suc k) now r [] h = absurd (unfold run_steps in omega arith)
run_steps-Ran done start (suc k) now r (s ∷ rest) h =
    let (in_time, fine, next) = run_steps_passes done start now r s rest (omega arith) in
    let longer = length-append r.completed (s.name ∷ []) in
    let shown = ap (λ (t : ShutdownReport). length t.completed) next in
    (
      in_time,
      fine,
      run_steps-Ran done start k (s.fn now).0 (completes r s) rest
          (omega (arith, longer, shown, h)),
    )

-- The report counts steps that ran.
pub shutdown-Ran :
    (done : ℕ → Bool) (k start : ℕ) (steps : List ShutdownStep)
    → k ≤ length (shutdown done start steps).completed
    → Ran done k start steps
unfolding shutdown
shutdown-Ran done k start steps h =
    run_steps-Ran done start k start
      (record { completed = []; failed = none; error = none; elapsed = 0 }) steps (omega (arith, h))

-- Where a step before them does not complete, the steps after it make no difference.
run_steps-append :
    (done : ℕ → Bool) (start now : ℕ) (r : ShutdownReport) (first xs ys : List ShutdownStep)
    → length (run_steps done start now r (first ++ xs)).completed
      < length r.completed + length first
    → run_steps done start now r (first ++ xs) ≡ run_steps done start now r (first ++ ys)
unfolding run_steps
run_steps-append done start now r [] xs ys h =
    absurd (omega (arith, h, run_steps_longer done start now r xs))
run_steps-append done start now r (s ∷ rest) xs ys h = elim (Bool-cases (done now)) [
  | inl late ↦ rw (late, run_steps) refl
  | inr in_time ↦ elim (Option-cases (s.fn now).1) [
    | inr (x, failing) ↦ rw (in_time, failing, run_steps) refl
    | inl fine ↦
        let step : (zs : List ShutdownStep)
            → run_steps done start now r (s ∷ rest ++ zs)
              ≡ run_steps done start (s.fn now).0 (completes r s) (rest ++ zs) =
          λ zs. rw (in_time, fine, run_steps) refl in
        let longer = length-append r.completed (s.name ∷ []) in
        let shown = ap (λ (t : ShutdownReport). length t.completed) (step xs) in
        step xs
        ∙ run_steps-append done start (s.fn now).0 (completes r s) rest xs ys
            (omega (arith, longer, shown, h))
        ∙ sym (step ys)
  ]
]

pub shutdown-append :
    (done : ℕ → Bool) (start : ℕ) (first xs ys : List ShutdownStep)
    → length (shutdown done start (first ++ xs)).completed < length first
    → shutdown done start (first ++ xs) ≡ shutdown done start (first ++ ys)
unfolding shutdown
shutdown-append done start first xs ys h =
    run_steps-append done start start
      (record { completed = []; failed = none; error = none; elapsed = 0 }) first xs ys
      (omega (arith, h))

-- `Shutdown` runs the steps in the order given, and stops at the first that fails or that the
-- deadline forbids.
pub shutdown-Stops :
    (done : ℕ → Bool) (start : ℕ) (steps : List ShutdownStep)
    → Stops (names steps) (shutdown done start steps)
unfolding shutdown
shutdown-Stops done start steps =
    run_steps-Stops done start start
      (record { completed = []; failed = none; error = none; elapsed = 0 }) steps refl refl
