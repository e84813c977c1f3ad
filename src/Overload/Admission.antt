-- ===== src/Overload/Admission.antt =====
-- internal/overload/p1_admission.go: bounded slots, with the counters behind a mutex. The channel
-- and the mutex are taken one after the other, so a call is two steps and others come between.
pub mod Slots
use seckill.Prelude.{◌≡◌, ℕ, zero, suc, ◌+◌, ◌-◌, ◌<◌, ◌≤◌, ℤ, pos, ◌+ℤ◌, ◌-ℤ◌}

-- `slots` is the number of tokens in the channel; times are in nanoseconds
pub record Admission : Type 0 where
  pub capacity : ℕ
  pub wait_budget : ℕ
  pub slots : ℕ
  pub in_flight : ℤ
  pub accepted : ℕ
  pub rejected : ℕ
  pub wait_total : ℕ

-- What `Stats` returns.
pub record AdmissionStats : Type 0 where
  pub capacity : ℕ
  pub in_flight : ℤ
  pub accepted : ℕ
  pub rejected : ℕ
  pub wait_total : ℕ

unfoldable pub new_admission : ℕ → ℕ → Admission
new_admission capacity wait_budget = record {
  capacity = capacity;
  wait_budget = wait_budget;
  slots = 0;
  in_flight = pos 0;
  accepted = 0;
  rejected = 0;
  wait_total = 0;
}

-- `Acquire`, first branch of the select: the send on the channel
unfoldable pub send_slot : Admission → Admission
send_slot a = record a { slots = a.slots + 1 }

-- `Acquire`, first branch: the counters under the mutex
unfoldable pub count_accepted : Admission → Admission
unfolding ◌+ℤ◌
count_accepted a = record a { in_flight = a.in_flight +ℤ pos 1; accepted = a.accepted + 1 }

-- `Acquire`, second branch: the wait budget is over
unfoldable pub count_rejected : Admission → Admission
count_rejected a = record a { rejected = a.rejected + 1 }

-- `Release`: the receive from the channel, which is done only while it holds a token
unfoldable pub receive_slot : Admission → Admission
receive_slot a = record a { slots = a.slots - 1 }

-- `Release`: the counter under the mutex
unfoldable pub count_released : Admission → Admission
unfolding ◌-ℤ◌
count_released a = record a { in_flight = a.in_flight -ℤ pos 1 }

unfoldable pub stats : Admission → AdmissionStats
stats a = record {
  capacity = a.capacity;
  in_flight = a.in_flight;
  accepted = a.accepted;
  rejected = a.rejected;
  wait_total = a.wait_total;
}

-- The requests around the door: `entering` have sent and not counted yet, `holding` have returned
-- from `Acquire`, `leaving` have received and not counted yet.
pub record System : Type 0 where
  pub door : Admission
  pub entering : ℕ
  pub holding : ℕ
  pub leaving : ℕ

-- One step of one request. A send waits for a free place; only a request that holds a slot calls
-- `Release`; a cancelled request returns and changes nothing.
pub data Step (s : System) : System → Type 0 where
  sends :
      s.door.slots < s.door.capacity
      → Step s (record s { door = send_slot s.door; entering = s.entering + 1 })
  enters :
      {n : ℕ}
      → s.entering ≡ suc n
      → Step s (record s { door = count_accepted s.door; entering = n; holding = s.holding + 1 })
  gives_up : Step s (record s { door = count_rejected s.door })
  cancelled : Step s s
  receives :
      {n : ℕ}
      → s.holding ≡ suc n
      → Step s (record s { door = receive_slot s.door; holding = n; leaving = s.leaving + 1 })
  leaves :
      {n : ℕ} → s.leaving ≡ suc n → Step s (record s { door = count_released s.door; leaving = n })

abbrev pub start : ℕ → ℕ → System
start capacity wait_budget = record {
  door = new_admission capacity wait_budget;
  entering = 0;
  holding = 0;
  leaving = 0;
}

pub data Reach (capacity wait_budget : ℕ) : System → Type 0 where
  here : Reach capacity wait_budget (start capacity wait_budget)
  next : {s t : System} → Reach capacity wait_budget s → Step s t → Reach capacity wait_budget t
