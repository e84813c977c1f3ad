-- ===== src/Idgen/Order.antt =====
-- internal/idgen/snowflake.go: the ids of one node grow, those of two nodes differ, and the busy
-- wait ends.
use seckill.Prelude.{
  ℕ, suc, ◌+◌, ◌/◌, ◌%◌, ◌≤◌, ◌<◌, ◌≡◌, ◌⊎◌, inl, inr, refl, arith, Option, none, some, List, [],
  ◌∷◌, ℤ, pos, negsuc, ◌<ℤ◌, ltb_ℤ, eqb_ℤ, Bool-cases, eqb_ℤ-eq, false, sym, ◌==◌,
}
use seckill.Idgen.{
  max_node_id, seq_count, node_unit, Node, Call, IdResult, issued, refused, wait_past, next_at,
  finish_waiting, finish,
}
use seckill.Idgen.Fields.{InRange, layout, pack-eq-layout}

abbrev pub AllInRange : List ℤ → Type 0
AllInRange [] = Unit {0}
AllInRange (r ∷ rs) = InRange r × AllInRange rs

-- The last reading is the initial -1 or in range, and both small fields fit.
abbrev pub HasStarted : ℤ → Type 0
HasStarted (pos t) = InRange (pos t)
HasStarted (negsuc k) = k ≡ 0

pub record IsValid (n : Node) : Type 0 where
  pub node_fits : n.node_id ≤ max_node_id
  pub seq_fits : n.seq < seq_count
  pub started : HasStarted n.last_ts

-- The least id that the node may still issue.
abbrev pub floor_at : ℤ → ℕ → ℕ → ℕ
floor_at (pos t) node seq = suc (layout t node seq)
floor_at (negsuc k) node seq = 0

abbrev pub floor : Node → ℕ
floor n = floor_at n.last_ts n.node_id n.seq

-- What a wait that ended has read: a later reading, in range, with readings in range left.
abbrev Later : ℤ → Option (ℤ × List ℤ) → Type 0
Later last none = Unit {0}
Later last (some (now, rs)) = (last <ℤ now) × InRange now × AllInRange rs

wait_past-Later :
    (last now : ℤ) (rs : List ℤ) → InRange now → AllInRange rs → Later last (wait_past last now rs)
unfolding wait_past
wait_past-Later last now [] h hs = ground arith
wait_past-Later last now (r ∷ rs) h hs = ground (arith, wait_past-Later last r rs hs.0 hs.1)

-- What one call gives: an id at or above the node's floor, which the floor then passes; the
-- invariant is kept, and the node number stays.
pub record Goes (n : Node) (c : Call) (id : ℤ) : Type 0 where
  pub value : ℕ
  pub eq : id ≡ pos value
  pub above : floor n ≤ value
  pub passed : floor c.node ≡ suc value
  pub same_node : c.node.node_id ≡ n.node_id
  pub valid : IsValid c.node
  pub readings : AllInRange c.clock
  pub node_field : value / node_unit % (max_node_id + 1) ≡ n.node_id

floor_at-le :
    (last : ℤ) (t node seq s : ℕ)
    → HasStarted last
    → InRange (pos t)
    → node ≤ max_node_id
    → seq < seq_count
    → (last <ℤ pos t) ⊎ ((last ≡ pos t) × (seq < s))
    → floor_at last node seq ≤ layout t node s
floor_at-le (pos l) t node seq s st h hn hq (inl lt) = omega arith
floor_at-le (pos l) t node seq s st h hn hq (inr (e, lt)) = ground arith
floor_at-le (negsuc k) t node seq s st h hn hq later = omega arith

-- What holds of a call, by how it ended.
abbrev pub EndsAt : Node → Call → IdResult ℤ → Type 0
EndsAt n c (issued id) = Goes n c id
EndsAt n c (refused e) = c.node ≡ n

abbrev pub Ends : Node → Option Call → Type 0
Ends n none = Unit {0}
Ends n (some c) = EndsAt n c c.result

-- A reading that is neither below the last one nor equal to it is above it.
above_of_tests : (now last : ℤ) → ltb_ℤ now last ≡ false → eqb_ℤ now last ≡ false → last <ℤ now
above_of_tests (pos a) (pos b) p q = ground arith
above_of_tests (pos a) (negsuc b) p q = ground arith
above_of_tests (negsuc a) (pos b) p q = ground arith
above_of_tests (negsuc a) (negsuc b) p q = ground arith

module _ (n : Node) (v : IsValid n) where
  finish-Ends :
      (s : ℕ) (now : ℤ) (rs : List ℤ)
      → s < seq_count
      → InRange now
      → AllInRange rs
      → (n.last_ts <ℤ now) ⊎ ((n.last_ts ≡ now) × (n.seq < s))
      → Ends n (some (finish n s (now, rs)))
  unfolding finish
  finish-Ends s (pos t) rs hs h hr later = record {
    value = layout t n.node_id s;
    eq = ground (arith, pack-eq-layout t n.node_id s h v.node_fits hs);
    above = floor_at-le n.last_ts t n.node_id n.seq s v.started h v.node_fits v.seq_fits later;
    passed = refl;
    same_node = refl;
    valid = record { node_fits = v.node_fits; seq_fits = hs; started = h };
    readings = hr;
    node_field = ground arith;
  }
  finish-Ends s (negsuc k) rs hs h hr later = absurd h

  finish_waiting-Ends :
      (s : ℕ) (w : Option (ℤ × List ℤ))
      → s < seq_count
      → Later n.last_ts w
      → Ends n (finish_waiting n s w)
  unfolding finish_waiting
  finish_waiting-Ends s none hs l = tt
  finish_waiting-Ends s (some (now, rs)) hs l = finish-Ends s now rs hs l.1 l.2 (inl l.0)

  pub next_at-Ends :
      (now : ℤ) (rs : List ℤ) → InRange now → AllInRange rs → Ends n (next_at n now rs)
  unfolding next_at
  next_at-Ends now rs h hr = elim (Bool-cases (ltb_ℤ now n.last_ts)) [
    | inl back ↦ rw back refl
    | inr on ↦ rw on (elim (Bool-cases (eqb_ℤ now n.last_ts)) [
      | inl same ↦ rw same (elim (Bool-cases ((n.seq + 1) % seq_count == 0)) [
        | inl full ↦ rw full (
            finish_waiting-Ends ((n.seq + 1) % seq_count) (wait_past n.last_ts now rs) (omega arith)
              (wait_past-Later n.last_ts now rs h hr))
        | inr fits ↦ rw fits (
            finish-Ends ((n.seq + 1) % seq_count) now rs (omega arith) h hr
              (inr (sym (eqb_ℤ-eq now n.last_ts same), ground (arith, v.seq_fits))))
      ])
      | inr new ↦
          rw new
            (finish-Ends 0 now rs (omega arith) h hr (inl (above_of_tests now n.last_ts on new)))
    ])
  ]
