-- ===== src/Api/Stop/Quiet.antt =====
-- cmd/api/main.go: what holds when the connections are closed, and that the wait for the requests
-- inside ends.
use seckill.Overload.Shutdown.Order.{shutdown-Ran, shutdown-append}
use seckill.Errors.{Error, sentinel, deadline_exceeded, Sentinel, is, join}
use seckill.Overload.Shutdown.{ShutdownStep, shutdown}
use seckill.Prelude.{
  ◌++◌, dec_lt, ◌∷◌, [], ℕ, Option, ◌<◌, ◌+◌, ◌≤◌, arith, ◌≡◌, suc, none, Bool-cases, pos, eqb_ℤ,
  ◌⊎◌, inl, some, eqb_ℤ-eq, inr, ltb, tests, zero, refl, leb, length, false, ap, sym, ◌∙◌, List,
  IsIn, true, Option-cases,
}
use seckill.Api.Stop.{
  Outside, drain, pause, stop_consumer, graceful_shutdown, api_steps, join_all, close_deps,
}

module _ (deadline : ℕ) (w : Outside) where
  -- What the wait for the requests inside ends in: a look at an empty door before the deadline, or the
  -- deadline.
  pub record Drained (now : ℕ) (r : ℕ × Option Error) : Type 0 where
    pub later : now ≤ r.0
    pub in_time : r.0 ≤ deadline
    pub outcome :
        ((r.1 ≡ none) × (w.in_flight r.0 ≡ pos 0))
        ⊎ ((r.1 ≡ some (sentinel deadline_exceeded)) × (r.0 ≡ deadline))

  -- The rounds of the model are enough.
  drain-Drained :
      (fuel now : ℕ)
      → now < deadline
      → deadline < fuel + now
      → Drained now (drain deadline w fuel now)
  unfolding drain
  drain-Drained zero now early enough = absurd (omega arith)
  drain-Drained (suc fuel) now early enough = elim (Bool-cases (eqb_ℤ (w.in_flight now) (pos 0))) [
    | inl empty ↦
        rw (drain, empty)
          (record {
            later = omega arith;
            in_time = omega arith;
            outcome = inl (refl, eqb_ℤ-eq (w.in_flight now) (pos 0) empty);
          })
    | inr busy ↦ elim (Bool-cases (ltb (now + pause) deadline)) [
      | inl again ↦
          let r = drain-Drained fuel (now + pause) (omega tests) (omega arith) in
          rw (drain, busy, again)
            (record { later = omega (arith, r.later); in_time = r.in_time; outcome = r.outcome })
      | inr over ↦
          rw (drain, busy, over)
            (record { later = omega arith; in_time = omega arith; outcome = inr (refl, refl) })
    ]
  ]

  -- What the steps before the closing leave: no request inside after the server has stopped, the
  -- consumer's loop over and the producer flushed, in this order.
  pub record Quieted (start : ℕ) : Type 0 where
    pub served : (w.http start).1 ≡ none
    pub looked : ℕ
    pub after_http : (w.http start).0 ≤ looked
    pub nobody : w.in_flight looked ≡ pos 0
    pub consumed : w.exits looked ≤ deadline
    pub flushed : (w.flush (w.exits looked)).1 ≡ none

  Drained-empty :
      (now : ℕ) (r : ℕ × Option Error) → Drained now r → r.1 ≡ none → w.in_flight r.0 ≡ pos 0
  Drained-empty now r d e = elim d.outcome [ inl (f, empty) ↦ empty | inr (f, late) ↦ cc (e, f) ]

  consumed_of :
      (now : ℕ)
      → (stop_consumer deadline w now).1 ≡ none
      → (w.exits now ≤ deadline) × ((stop_consumer deadline w now).0 ≡ w.exits now)
  unfolding stop_consumer
  consumed_of now e = elim (Bool-cases (leb (w.exits now) deadline)) [
    | inl yes' ↦ (omega (tests, yes'), rw (stop_consumer, yes') refl)
    | inr no' ↦ absurd (ground (arith, no', e))
  ]

in_time : (deadline now : ℕ) → leb deadline now ≡ false → now < deadline
in_time deadline now h = ground arith

four_quiet :
    (timeout start : ℕ) (w : Outside)
    → 4 ≤ length (graceful_shutdown timeout start w).completed
    → Quieted (start + timeout) w start
unfolding graceful_shutdown api_steps
four_quiet timeout start w four =
    let T = start + timeout in
    let ran = shutdown-Ran (λ now. leb T now) 4 start (api_steps T w) four in
    let at_drain = (w.http start).0 in
    let drained = drain T w (suc T) at_drain in
    let d = drain-Drained T w (suc T) at_drain (in_time T at_drain ran.2.0) (omega arith) in
    let (consumed, left) = consumed_of T w drained.0 ran.2.2.1 in
    record {
      served = ran.1;
      looked = drained.0;
      after_http = d.later;
      nobody = Drained-empty T w at_drain drained d ran.2.1;
      consumed = consumed;
      flushed = ap (λ t. (w.flush t).1) (sym left) ∙ ran.2.2.2.1;
    }

-- the steps before the closing, and the closing
abbrev quieting : ℕ → Outside → List ShutdownStep
quieting deadline w =
    record { name = "stop-http"; fn = w.http }
    ∷ record { name = "drain-inflight"; fn = λ now. drain deadline w (suc deadline) now }
    ∷ record { name = "stop-consumer"; fn = stop_consumer deadline w }
    ∷ record { name = "flush-producer"; fn = w.flush }
    ∷ []

abbrev closing : ℕ → Outside → List ShutdownStep
closing deadline w = record { name = "close-deps"; fn = close_deps deadline w } ∷ []

api_steps_parts :
    (deadline : ℕ) (w : Outside) → api_steps deadline w ≡ quieting deadline w ++ closing deadline w
unfolding api_steps
api_steps_parts deadline w = refl

-- what is outside, with other connections
abbrev pub reconnected : Outside → List (Option Error) → (ℕ → ℕ) → Outside
reconnected w closes closed = record w { closes = closes; closed = closed }

module _ (deadline : ℕ) (w : Outside) (closes : List (Option Error)) (closed : ℕ → ℕ) where
  drain-reconnected :
      (fuel now : ℕ)
      → drain deadline (reconnected w closes closed) fuel now ≡ drain deadline w fuel now
  unfolding drain
  drain-reconnected zero now = refl
  drain-reconnected (suc fuel) now = rw (drain-reconnected fuel (now + pause)) refl

  quieting-reconnected : quieting deadline (reconnected w closes closed) ≡ quieting deadline w
  unfolding stop_consumer
  quieting-reconnected = λ i.
      record { name = "stop-http"; fn = w.http }
      ∷ record { name = "drain-inflight"; fn = λ now. drain-reconnected (suc deadline) now i }
      ∷ record { name = "stop-consumer"; fn = stop_consumer deadline w }
      ∷ record { name = "flush-producer"; fn = w.flush }
      ∷ []

few_or_four : (n : ℕ) → (n < 4) ⊎ (4 ≤ n)
few_or_four n = elim (dec_lt n 4) [ yes few ↦ inl few | no more ↦ inr (omega arith) ]

closing_unasked :
    (timeout start : ℕ) (w : Outside) (closes : List (Option Error)) (closed : ℕ → ℕ)
    → length (graceful_shutdown timeout start w).completed < 4
    → graceful_shutdown timeout start (reconnected w closes closed)
      ≡ graceful_shutdown timeout start w
unfolding graceful_shutdown api_steps
closing_unasked timeout start w closes closed few =
    let T = start + timeout in
    let other = closing T (reconnected w closes closed) in
    let same : shutdown (λ now. leb T now) start (quieting T (reconnected w closes closed) ++ other)
        ≡ shutdown (λ now. leb T now) start (quieting T w ++ other) =
      ap (λ xs. shutdown (λ now. leb T now) start (xs ++ other))
        (quieting-reconnected T w closes closed) in
    same ∙ sym (shutdown-append (λ now. leb T now) start (quieting T w) (closing T w) other few)

-- The shutdown either has quieted the process before it closes the connections: the server has stopped
-- without an error, a look at the door after that has found no request inside, the consumer's loop,
-- cancelled then, was over by the deadline, and after it the producer was flushed without an error. Or
-- fewer than four steps are completed, and the connections are not asked: what they would answer to a
-- closing, and when, makes no difference to the report.
pub graceful_shutdown-Quieted :
    (timeout start : ℕ) (w : Outside) (closes : List (Option Error)) (closed : ℕ → ℕ)
    → Quieted (start + timeout) w start
      ⊎ ((length (graceful_shutdown timeout start w).completed < 4)
          × (graceful_shutdown timeout start (reconnected w closes closed)
              ≡ graceful_shutdown timeout start w))
graceful_shutdown-Quieted timeout start w closes closed =
    elim (few_or_four (length (graceful_shutdown timeout start w).completed)) [
      | inr four ↦ inl (four_quiet timeout start w four)
      | inl few ↦ inr (few, closing_unasked timeout start w closes closed few)
    ]

-- Each error of the closings is recognised in the one that the step returns.
pub join_all-is :
    (closes : List (Option Error)) (e : Error) (s : Sentinel)
    → IsIn (some e) closes
    → is e s ≡ true
    → (x : Error) × (join_all closes ≡ some x) × (is x s ≡ true)
unfolding join_all
join_all-is [] e s found known = absurd found
join_all-is (none ∷ es) e s (inl found) known = cc
join_all-is (none ∷ es) e s (inr found) known = join_all-is es e s found known
join_all-is (some f ∷ es) e s (inl found) known = elim (Option-cases (join_all es)) [
  | inl fine ↦ (f, rw fine refl, cc)
  | inr (g, more) ↦ (join f g, rw more refl, cc)
]
join_all-is (some f ∷ es) e s (inr found) known =
    let (g, more, seen) = join_all-is es e s found known in
    (join f g, rw more refl, ground (arith, seen))
