-- ===== src/Idgen/Wait.antt =====
-- internal/idgen/snowflake.go: when a call of `NextID` returns, and when it refuses.
use seckill.Prelude.{
  ◌≡◌, true, leb_ℤ, leb_ℤ→le, ◌⊎◌, inl, inr, arith, none, some, List, [], ◌∷◌, ℤ, ◌-ℤ◌, ◌<ℤ◌, ◌≢◌,
}
use seckill.Idgen.{Node, refused, clock_moved_backwards, wait_past, finish_waiting, next_id}

-- Some reading of the list is past the bound.
abbrev pub HasLater : ℤ → List ℤ → Type 0
HasLater last [] = ⊥
HasLater last (r ∷ rs) = (last <ℤ r) ⊎ HasLater last rs

later_of_waits :
    (last now : ℤ) (rs : List ℤ)
    → HasLater last (now ∷ rs)
    → leb_ℤ now last ≡ true
    → HasLater last rs
later_of_waits last now rs (inl h) w = absurd (omega (arith, leb_ℤ→le now last w))
later_of_waits last now rs (inr h) w = h

wait_past-returns :
    (last now : ℤ) (rs : List ℤ) → HasLater last (now ∷ rs) → wait_past last now rs ≢ none
unfolding wait_past
wait_past-returns last now [] (inl h) = ground arith
wait_past-returns last now [] (inr h) = absurd h
wait_past-returns last now (r ∷ rs) h =
    ground (arith, later_of_waits last now (r ∷ rs) h, wait_past-returns last r rs)

-- The busy wait ends and the call returns once the clock shows a reading past the last one.
pub next_id-returns :
    (n : Node) (now : ℤ) (rs : List ℤ) → HasLater n.last_ts (now ∷ rs) → next_id n (now ∷ rs) ≢ none
unfolding next_id finish_waiting
next_id-returns n now rs h = ground (arith, wait_past-returns n.last_ts now rs h)

-- A reading below the last one is refused by its distance, and the node is left as it was.
pub next_id-refuses :
    (n : Node) (now : ℤ) (rs : List ℤ)
    → now <ℤ n.last_ts
    → next_id n (now ∷ rs)
      ≡ some (record {
        node = n;
        clock = rs;
        result = refused (clock_moved_backwards (n.last_ts -ℤ now));
      })
unfolding next_id
next_id-refuses n now rs h = ground arith
