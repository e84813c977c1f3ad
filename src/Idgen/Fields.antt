-- ===== src/Idgen/Fields.antt =====
-- internal/idgen/snowflake.go: the id as three fields, and how each is read back.
use seckill.Prelude.{ℕ, ◌+◌, ◌-◌, ◌*◌, ◌/◌, ◌%◌, ◌^◌, ◌≤◌, ◌<◌, ◌≡◌, arith, ℤ, pos, negsuc}
use seckill.Idgen.{epoch_milli, max_node_id, seq_count, time_unit, node_unit, pack}

-- A reading that 41 bits hold: from the epoch to some 69 years after it.
abbrev pub InRange : ℤ → Type 0
InRange (pos n) = (epoch_milli ≤ n) × (n < epoch_milli + 2 ^ 41)
InRange (negsuc n) = ⊥

-- The id that the layout describes.
abbrev pub layout : ℕ → ℕ → ℕ → ℕ
layout t node seq = (t - epoch_milli) * time_unit + (node * node_unit + seq)

module _ (t node seq : ℕ) (h : InRange (pos t)) (hn : node ≤ max_node_id)
    (hs : seq < seq_count) where
  -- In range nothing wraps: the id is the sum of its fields, and is not negative.
  pub pack-eq-layout : pack (pos t) node seq ≡ pos (layout t node seq)
  unfolding pack
  pack-eq-layout = ground arith

  -- In range each field is read back from the id by its place in it.
  pub fields-pack :
      (v : ℕ) × (pack (pos t) node seq ≡ pos v)
      × (v / time_unit + epoch_milli ≡ t)
      × (v / node_unit % (max_node_id + 1) ≡ node)
      × (v % seq_count ≡ seq)
      × (v < 2 ^ 63)
  fields-pack =
      (layout t node seq, pack-eq-layout, omega arith, omega arith, omega arith, omega arith)
