-- ===== src/Idgen.antt =====
-- internal/idgen/snowflake.go: the Snowflake generator of order ids.
pub mod Order
pub mod Draws
pub mod Wait
pub mod Fields
use seckill.Prelude.{
  ℕ, zero, suc, ◌+◌, ◌-◌, ◌*◌, ◌^◌, ◌%◌, Bool, ◌||◌, Option, none, some, List, [], ◌∷◌, ltb, ◌==◌,
  if◌then◌else◌, ℤ, pos, negsuc, pos_part, neg_part, ◌+ℤ◌, ◌-ℤ◌, ltb_ℤ, leb_ℤ, eqb_ℤ,
}

pub data IdError : Type 0 where
  node_out_of_range : ℤ → IdError
  clock_moved_backwards : ℤ → IdError

pub data IdResult (A : Type 0) : Type 0 where
  issued : A → IdResult A
  refused : IdError → IdResult A

-- 2025-01-01T00:00:00Z
abbrev pub epoch_milli : ℕ
epoch_milli = 1735689600000

abbrev pub max_node_id : ℕ
max_node_id = 1023

-- `maxSeq + 1`: masking by `maxSeq` is the remainder by it
abbrev pub seq_count : ℕ
seq_count = 4096

abbrev pub time_unit : ℕ
time_unit = 2 ^ 22

abbrev pub node_unit : ℕ
node_unit = 2 ^ 12

-- the mutex makes each call of `NextID` one step; `nowFunc` is the list of readings it returns
pub record Node : Type 0 where
  pub node_id : ℕ
  pub last_ts : ℤ
  pub seq : ℕ

unfoldable pub new_node : ℤ → IdResult Node
new_node id =
    if ltb_ℤ id (pos 0) || ltb_ℤ (pos max_node_id) id
    then refused (node_out_of_range id)
    else issued (record { node_id = pos_part id; last_ts = negsuc 0; seq = 0 })

-- int64 arithmetic wraps
unfoldable pub wrap64 : ℤ → ℤ
wrap64 x =
    let m = (pos_part x + (2 ^ 64 - neg_part x % 2 ^ 64)) % 2 ^ 64 in
    if ltb m (2 ^ 63) then pos m else negsuc (2 ^ 64 - 1 - m)

-- `x << timeShift`, before it wraps
unfoldable pub shift_time : ℤ → ℤ
shift_time (pos n) = pos (n * time_unit)
shift_time (negsuc n) = negsuc ((n + 1) * time_unit - 1)

-- The three fields occupy disjoint bits, so `|` is a sum.
unfoldable pub pack : ℤ → ℕ → ℕ → ℤ
unfolding wrap64 shift_time ◌+ℤ◌ ◌-ℤ◌
pack now node seq =
    wrap64 (wrap64 (shift_time (now -ℤ pos epoch_milli)) +ℤ pos (node * node_unit + seq))

-- The busy wait `for now <= n.lastTs { now = n.nowFunc() }`; `none` if the readings run out while
-- it still waits.
unfoldable pub wait_past : ℤ → ℤ → List ℤ → Option (ℤ × List ℤ)
wait_past last now [] = if leb_ℤ now last then none else some (now, [])
wait_past last now (r ∷ rs) =
    let rest = wait_past last r rs in if leb_ℤ now last then rest else some (now, r ∷ rs)

-- What a call leaves: the node, the readings that are left, and the id or the error.
pub record Call : Type 0 where
  pub node : Node
  pub clock : List ℤ
  pub result : IdResult ℤ

finish : Node → ℕ → ℤ × List ℤ → Call
unfolding pack
finish n s (now, clock) = record {
  node = record n { last_ts = now; seq = s };
  clock = clock;
  result = issued (pack now n.node_id s);
}

finish_waiting : Node → ℕ → Option (ℤ × List ℤ) → Option Call
unfolding finish
finish_waiting n s none = none
finish_waiting n s (some r) = some (finish n s r)

-- The body of `NextID` after its first reading of the clock.
unfoldable pub next_at : Node → ℤ → List ℤ → Option Call
unfolding finish_waiting wait_past
next_at n now clock =
    if ltb_ℤ now n.last_ts
    then some (record {
      node = n;
      clock = clock;
      result = refused (clock_moved_backwards (n.last_ts -ℤ now));
    })
    else if eqb_ℤ now n.last_ts
    then (let s = (n.seq + 1) % seq_count in
        if s == 0
        then finish_waiting n s (wait_past n.last_ts now clock)
        else some (finish n s (now, clock)))
    else some (finish n 0 (now, clock))

-- `none`: the clock gives no further reading, so the call does not return.
unfoldable pub next_id : Node → List ℤ → Option Call
unfolding next_at
next_id n [] = none
next_id n (now ∷ clock) = next_at n now clock

draw_result : (Node → List ℤ → List ℤ) → Call → IdResult ℤ → List ℤ
draw_result rest c (issued id) = id ∷ rest c.node c.clock
draw_result rest c (refused e) = []

draw_call : (Node → List ℤ → List ℤ) → Option Call → List ℤ
unfolding draw_result
draw_call rest none = []
draw_call rest (some c) = draw_result rest c c.result

-- A caller that draws ids one after another, until an error or a call that does not return.
unfoldable pub draw : ℕ → Node → List ℤ → List ℤ
unfolding draw_call
draw zero n clock = []
draw (suc k) n clock = draw_call (draw k) (next_id n clock)
