-- ===== src/Idgen/Draws.antt =====
-- internal/idgen/snowflake.go: what a sequence of calls of `NextID` issues.
use seckill.Prelude.{
  ℕ, zero, suc, ◌/◌, ◌+◌, ◌%◌, ◌≤◌, ◌≡◌, ◌≢◌, arith, Option, none, some, List, [], ◌∷◌, ℤ, pos,
  get_elem?, subst,
}
use seckill.Idgen.{
  max_node_id, node_unit, Node, Call, IdResult, issued, refused, next_id, draw, draw_call,
  draw_result,
}
use seckill.Idgen.Order.{IsValid, AllInRange, floor, Ends, EndsAt, next_at-Ends}

next_id-Ends : (n : Node) (clock : List ℤ) → IsValid n → AllInRange clock → Ends n (next_id n clock)
unfolding next_id
next_id-Ends n [] v h = tt
next_id-Ends n (now ∷ rs) v h = next_at-Ends n v now rs h.0 h.1

-- Each id lies at or above a bound, below the ids after it, and carries the node's number.
abbrev pub Ascending : ℕ → ℕ → List ℤ → Type 0
Ascending node lo [] = Unit {0}
Ascending node lo (id ∷ ids) =
    (v : ℕ) × (id ≡ pos v)
    × (lo ≤ v)
    × (v / node_unit % (max_node_id + 1) ≡ node)
    × Ascending node (suc v) ids

module _ (rest : Node → List ℤ → List ℤ)
    (ih : (n : Node) (clock : List ℤ)
      → IsValid n
      → AllInRange clock
      → Ascending n.node_id (floor n) (rest n clock)) where
  draw_result-Ascending :
      (n : Node) (c : Call) (r : IdResult ℤ)
      → EndsAt n c r
      → Ascending n.node_id (floor n) (draw_result rest c r)
  unfolding draw_result
  draw_result-Ascending n c (issued id) g = (
    g.value,
    g.eq,
    g.above,
    g.node_field,
    subst (λ lo. Ascending n.node_id lo (rest c.node c.clock)) g.passed
        (subst (λ m. Ascending m (floor c.node) (rest c.node c.clock)) g.same_node
          (ih c.node c.clock g.valid g.readings)),
  )
  draw_result-Ascending n c (refused e) g = tt

  draw_call-Ascending :
      (n : Node) (o : Option Call) → Ends n o → Ascending n.node_id (floor n) (draw_call rest o)
  unfolding draw_call
  draw_call-Ascending n none e = tt
  draw_call-Ascending n (some c) e = draw_result-Ascending n c c.result e

-- From a valid node, with all readings in range, the ids of any number of calls ascend strictly,
-- start at or above the node's floor, and all carry the node's number.
pub draw-Ascending :
    (k : ℕ) (n : Node) (clock : List ℤ)
    → IsValid n
    → AllInRange clock
    → Ascending n.node_id (floor n) (draw k n clock)
unfolding draw
draw-Ascending zero n clock v h = tt
draw-Ascending (suc k) n clock v h =
    draw_call-Ascending (draw k) (draw-Ascending k) n (next_id n clock) (next_id-Ends n clock v h)

-- What any one of the ids is.
Ascending-get :
    (node lo : ℕ) (ids : List ℤ) (i : ℕ) {id : ℤ}
    → Ascending node lo ids
    → get_elem? ids i ≡ some id
    → (v : ℕ) × (id ≡ pos v) × (v / node_unit % (max_node_id + 1) ≡ node)
Ascending-get node lo [] i a e = cc
Ascending-get node lo (x ∷ ids) zero a e = (a.0, ground arith, a.3)
Ascending-get node lo (x ∷ ids) (suc i) a e = Ascending-get node (suc a.0) ids i a.4 e

-- Two valid nodes of different numbers never issue one id, whatever their clocks in range read.
pub draw_disjoint :
    (k l : ℕ) (n m : Node) (clock clock' : List ℤ) (i j : ℕ) {a b : ℤ}
    → IsValid n
    → IsValid m
    → AllInRange clock
    → AllInRange clock'
    → n.node_id ≢ m.node_id
    → get_elem? (draw k n clock) i ≡ some a
    → get_elem? (draw l m clock') j ≡ some b
    → a ≢ b
draw_disjoint k l n m clock clock' i j vn vm hn hm ne ea eb same =
    let (v, av, fv) =
      Ascending-get n.node_id (floor n) (draw k n clock) i (draw-Ascending k n clock vn hn) ea in
    let (w, bw, fw) =
      Ascending-get m.node_id (floor m) (draw l m clock') j (draw-Ascending l m clock' vm hm) eb in
    ground arith
