-- ===== src/Overload/Admission/Slots.antt =====
-- internal/overload/p1_admission.go: no slot is lost, and how far the counter may be off.
use seckill.Prelude.{refl, ℕ, ◌+◌, ◌≤◌, ◌≡◌, arith, pos, ◌∙◌, ◌<◌, zero}
use seckill.Overload.Admission.{
  System, Step, Reach, start, new_admission, send_slot, count_accepted, count_rejected,
  receive_slot, count_released, sends, enters, gives_up, cancelled, receives, leaves, here, next,
  stats, suc,
}

-- Every token in the channel belongs to a request that entered and has not left, the channel is
-- not over its size, the counter lags by what is on its way, and no waiting time is ever added.
pub record Inv (capacity : ℕ) (s : System) : Type 0 where
  pub size : s.door.capacity ≡ capacity
  pub held : s.door.slots ≡ s.entering + s.holding
  pub fits : s.door.slots ≤ capacity
  pub counted : s.door.in_flight ≡ pos (s.holding + s.leaving)
  pub no_wait : s.door.wait_total ≡ 0

start-Inv : (c w : ℕ) → Inv c (start c w)
unfolding new_admission
start-Inv c w = ground arith

Step-Inv : {c : ℕ} {s t : System} → Step s t → Inv c s → Inv c t
unfolding send_slot count_accepted count_rejected receive_slot count_released
Step-Inv (sends h) i = ground arith
Step-Inv (enters h) i = ground arith
Step-Inv gives_up i = ground arith
Step-Inv cancelled i = i
Step-Inv (receives h) i = ground arith
Step-Inv (leaves h) i = ground arith

pub System-Inv : {c w : ℕ} {s : System} → Reach c w s → Inv c s
System-Inv {c} {w} here = start-Inv c w
System-Inv (next r st) = Step-Inv st (System-Inv r)

-- At any moment at most `capacity` requests have entered and not left.
pub holders-le-capacity : {c w : ℕ} {s : System} → Reach c w s → s.entering + s.holding ≤ c
holders-le-capacity r = omega (arith, System-Inv r)

-- No slot is lost: once every request has left or given up, all slots are free and `Stats` shows
-- none in flight.
pub idle_door_is_empty :
    {c w : ℕ} {s : System}
    → Reach c w s
    → s.entering ≡ 0
    → s.holding ≡ 0
    → s.leaving ≡ 0
    → (s.door.slots ≡ 0) × ((stats s.door).in_flight ≡ pos 0)
unfolding stats
idle_door_is_empty r e h l = ground (arith, System-Inv r)

-- `Stats` reports a waiting time of 0 in every reachable state.
pub wait_total-zero : {c w : ℕ} {s : System} → Reach c w s → (stats s.door).wait_total ≡ 0
unfolding stats
wait_total-zero r = (System-Inv r).no_wait

-- A state with `k` requests inside and none on the way.
abbrev Filled : ℕ → ℕ → ℕ → Type 0
Filled c w k = (s : System) × Reach c w s × (s.entering ≡ 0) × (s.holding ≡ k) × (s.leaving ≡ 0)

one_more :
    {c w k : ℕ} (s : System)
    → Reach c w s
    → s.entering ≡ 0
    → s.holding ≡ k
    → k < c
    → (t : System) × Reach c w t × (t.entering ≡ 0) × (t.holding ≡ suc k) × (t.leaving ≡ s.leaving)
unfolding send_slot count_accepted
one_more s r e h lt = (
  _,
  next (next r (sends (omega (arith, System-Inv r)))) (enters {n = 0} (omega arith)),
  refl,
  omega arith,
  refl,
)

fill : (c w k : ℕ) → k ≤ c → Filled c w k
fill c w zero h = (start c w, here, refl, refl, refl)
fill c w (suc k) h =
    let (s, r, e, hold, l) = fill c w k (omega arith) in
    let (t, rt, et, ht, lt) = one_more s r e hold h in (t, rt, et, ht, lt ∙ l)

-- The two parts of `Release` are not one step: for every capacity there is a state in which
-- `Stats` reports one request in flight more than the capacity.
pub in_flight_overshoots :
    (c w : ℕ) → 0 < c → (s : System) × Reach c w s × ((stats s.door).in_flight ≡ pos (c + 1))
unfolding stats receive_slot
in_flight_overshoots zero w h = absurd (omega arith)
in_flight_overshoots (suc k) w h =
    let (s, r, e, hold, l) = fill (suc k) w (suc k) (omega arith) in
    let freed = next r (receives {n = k} hold) in
    let (t, rt, et, ht, lt) = one_more _ freed e refl (omega arith) in
    (t, rt, ground (arith, System-Inv rt))
