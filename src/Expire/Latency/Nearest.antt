-- ===== src/Expire/Latency/Nearest.antt =====
-- internal/expire/p3_latency.go: `Percentiles` gives the samples of the ranks that it computes.
use seckill.Expire.Latency.Sorting.{count_if}
use seckill.Expire.Latency.{Quantile}
use seckill.Prelude.{List, ℤ, length, leb_ℤ, ltb_ℤ, ◌∷◌, [], false, pos, ◌||◌, Bool, ◌≤ℤ◌, ◌<ℤ◌}

-- The value has a rank among the samples, from 1: so many of them are at most the value, and fewer are
-- below it.
pub record HasRank (samples : List ℤ) (r : ℤ) (v : ℤ) : Type 0 where
  pub covers : r ≤ℤ pos (count_if (λ w. leb_ℤ w v) samples)
  pub least : pos (count_if (λ w. ltb_ℤ w v) samples) <ℤ r

module _ (Q : Quantile) where
  -- no requested percentile is NaN, which both tests of the code let through
  abbrev pub any_nan : List Q.P → Bool
  any_nan [] = false
  any_nan (p ∷ ps) = Q.is_nan p || any_nan ps

  -- the values one by one have the ranks of the percentiles
  abbrev pub AllRanked : List ℤ → List Q.P → List ℤ → Type 0
  AllRanked samples [] [] = Unit {0}
  AllRanked samples (p ∷ ps) (v ∷ vs) =
      HasRank samples (Q.rank p (length samples)) v × AllRanked samples ps vs
  AllRanked samples [] (v ∷ vs) = ⊥
  AllRanked samples (p ∷ ps) [] = ⊥
