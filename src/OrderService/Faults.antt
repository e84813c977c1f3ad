-- ===== src/OrderService/Faults.antt =====
-- cmd/order-service/main.go: which calls the injected faults reach.
use seckill.Prelude.{
  ℕ, String, Bool, ℤ, Option, ◌≡◌, true, some, Bool-cases, inl, inr, ◌&&◌, none, ltb_ℤ, false, pos,
  subst,
}
use seckill.Errors.{Error}
use mathlib.Core.Path.{refl}
use text.Mathlib.Text.{◌==◌ as str_eq}
use text.Mathlib.TextEquality.{eq_iff}
use seckill.Adapter.Code
use seckill.Adapter.Rpc.{Reply, status}
use seckill.OrderService.{v2_fault_interceptor, after_delay}

and_first : (a b : Bool) → (a && b) ≡ true → a ≡ true
and_first true b h = refl
and_first false b h = h

module _ {S A : Type 0} (from_context : Error → ℕ) where
  -- What the interceptor makes of a call: it is what the handler makes of it; or the version is v2 and
  -- the call places an order, the handler does not run, and the status is that of a context that ended
  -- during a delay of mode delay, or Unavailable in mode error.
  pub data Faults (version mode : String) (to_place : Bool) (ended : Option Error)
      (handler : S → S × Reply A) (s : S) (r : S × Reply A) : Type 0 where
    passes : r ≡ handler s → Faults version mode to_place ended handler s r
    cut_short :
        (e : Error)
        → version ≡ "v2"
        → to_place ≡ true
        → mode ≡ "delay"
        → ended ≡ some e
        → r ≡ (s, status (from_context e))
        → Faults version mode to_place ended handler s r
    injected :
        version ≡ "v2"
        → to_place ≡ true
        → mode ≡ "error"
        → r ≡ (s, status Code.unavailable)
        → Faults version mode to_place ended handler s r

  module _ (version mode : String) (delay : ℤ) (to_place : Bool) (ended : Option Error)
      (handler : S → S × Reply A) (s : S) where
    delayed :
        version ≡ "v2"
        → to_place ≡ true
        → Faults version mode to_place ended handler s (after_delay from_context mode handler s)
    unfolding after_delay
    delayed v p = elim (Bool-cases (str_eq mode "error")) [
      | inl e ↦ rw (after_delay, e) (injected v p ((eq_iff mode "error").0 e) refl)
      | inr n ↦ rw (after_delay, n) (passes refl)
    ]

    waiting : Option Error → S × Reply A
    waiting (some e) = (s, status (from_context e))
    waiting none = after_delay from_context mode handler s

    waited :
        version ≡ "v2"
        → to_place ≡ true
        → mode ≡ "delay"
        → (o : Option Error) → ended ≡ o
        → Faults version mode to_place ended handler s (waiting o)
    unfolding waiting
    waited v p m none h = delayed v p
    waited v p m (some e) h = cut_short e v p m h refl

    -- The interceptor changes only what a v2 process makes of a call that places an order; where it
    -- answers itself, the handler does not run.
    pub v2_fault_interceptor-Faults :
        Faults version mode to_place ended handler s
          (v2_fault_interceptor from_context version mode delay to_place ended handler s)
    unfolding v2_fault_interceptor waiting
    v2_fault_interceptor-Faults = elim (Bool-cases (str_eq version "v2")) [
      | inr other ↦ rw (v2_fault_interceptor, other) (passes refl)
      | inl v2 ↦ elim (Bool-cases to_place) [
        | inr other ↦ rw (v2_fault_interceptor, v2, other) (passes refl)
        | inl place ↦
            let v = (eq_iff version "v2").0 v2 in
            elim (Bool-cases (str_eq mode "delay" && ltb_ℤ (pos 0) delay)) [
              | inr off ↦
                  let e : after_delay from_context mode handler s
                      ≡ v2_fault_interceptor from_context version mode delay to_place ended handler
                          s =
                    rw (v2_fault_interceptor, v2, place, off) refl in
                  subst (Faults version mode to_place ended handler s) e (delayed v place)
              | inl on ↦
                  let e : waiting ended
                      ≡ v2_fault_interceptor from_context version mode delay to_place ended handler
                          s =
                    rw (v2_fault_interceptor, v2, place, on) refl in
                  subst (Faults version mode to_place ended handler s) e
                    (waited v place ((eq_iff mode "delay").0 (and_first _ _ on)) ended refl)
            ]
      ]
    ]
