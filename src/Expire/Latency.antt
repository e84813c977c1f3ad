-- ===== src/Expire/Latency.antt =====
-- internal/expire/p3_latency.go and model.go: the collected delays and their percentiles. The arithmetic
-- of float64 is a parameter.
pub mod Nearest
pub mod Fractions
pub mod Sorting
use seckill.Errors.{Result, ok, err, sentinel, invalid_percentile}
use seckill.Prelude.{
  ℕ, List, ℤ, Bool, Option, ◌++◌, ◌∷◌, leb_ℤ, false, pos_part, some, [], if◌then◌else◌, pos, ◌||◌,
  ◌*◌, ltb_ℤ, ◌+◌, none, suc, ◌/◌, get_elem?, length, ◌-◌, ◌≡◌, negsuc, ◌<◌, zero, ◌≤◌, ◌≤ℤ◌,
}

-- `LatencyCollector`: the samples in the order of `Record`
pub record LatencyCollector : Type 0 where
  pub samples : List ℤ

-- `LatencyCollector.Record`
unfoldable pub add_sample : ℤ → LatencyCollector → LatencyCollector
add_sample x c = record { samples = c.samples ++ x ∷ [] }

abbrev pub insert : ℤ → List ℤ → List ℤ
insert x [] = x ∷ []
insert x (y ∷ ys) = let rest = insert x ys in if leb_ℤ x y then x ∷ y ∷ ys else y ∷ rest

-- an ascending copy, which is what `sort.Slice` of a copy gives
unfoldable pub sort : List ℤ → List ℤ
sort [] = []
sort (x ∷ xs) = insert x (sort xs)

-- `LatencyCollector.Samples`
unfoldable pub sorted_samples : LatencyCollector → List ℤ
unfolding sort
sorted_samples c = sort c.samples

-- float64, as far as the code relies on it: the test `p <= 0 || p > 1`, whether `p` is no number, and
-- `int(math.Ceil(p * float64(n)))`. A product of a number above 0 and at most 1 with a length that
-- float64 holds exactly is rounded to a number above 0 and at most the length.
pub record Quantile : Type 1 where
  pub P : Type 0
  pub is_outside : P → Bool
  pub is_nan : P → Bool
  pub rank : P → ℕ → ℤ
  pub largest : ℕ
  pub rank_bounds :
      (p : P) (n : ℕ)
      → is_outside p ≡ false
      → is_nan p ≡ false
      → 0 < n
      → n ≤ largest
      → (pos 1 ≤ℤ rank p n) × (rank p n ≤ℤ pos n)

-- sorted[rank-1]
abbrev pub pick : List ℤ → ℤ → Option ℤ
pick sorted (pos zero) = none
pick sorted (pos (suc k)) = get_elem? sorted k
pick sorted (negsuc k) = none

abbrev pub push : Option ℤ → Option (List ℤ) → Option (List ℤ)
push none vs = none
push (some v) none = none
push (some v) (some vs) = some (v ∷ vs)

abbrev answered_by : Option (List ℤ) → Option (Result (List ℤ))
answered_by none = none
answered_by (some vs) = some (ok vs)

module _ (Q : Quantile) where
  abbrev pub any_outside : List Q.P → Bool
  any_outside [] = false
  any_outside (p ∷ ps) = Q.is_outside p || any_outside ps

  -- The loop over the requested percentiles; `none` if an index is out of range.
  unfoldable pub picks : List ℤ → List Q.P → Option (List ℤ)
  picks sorted [] = some []
  picks sorted (p ∷ ps) = push (pick sorted (Q.rank p (length sorted))) (picks sorted ps)

  -- `Percentiles`; `none` if it panics
  unfoldable pub percentiles : List ℤ → List Q.P → Option (Result (List ℤ))
  unfolding picks sort
  percentiles samples requested =
      if any_outside requested then some (err (sentinel invalid_percentile)) else elim samples [
        | [] ↦ some (ok [])
        | x ∷ xs ↦ answered_by (picks (sort (x ∷ xs)) requested)
      ]
