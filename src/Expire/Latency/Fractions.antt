-- ===== src/Expire/Latency/Fractions.antt =====
-- internal/expire/p3_latency.go: fractions with exact arithmetic, which have what `Percentiles` relies on.
use seckill.Expire.Latency.{Quantile}
use seckill.Prelude.{
  ℕ, ℤ, suc, ◌*◌, ◌+◌, ◌-◌, ◌/◌, ◌%◌, ◌<◌, ◌≤◌, ◌≡◌, arith, zero, pos, Bool, leb_ℤ, ltb_ℤ, ◌||◌,
  false, pos_part, ◌≤ℤ◌,
}
use native.Mathlib.Nat.{le-div_iff_mul-le, div-lt_iff_lt-mul, div-add-mod, mod-lt}

-- The fraction `num / (less + 1)`.
pub record Fraction : Type 0 where
  pub num : ℤ
  pub less : ℕ

-- p <= 0 || p > 1
abbrev pub fraction_outside : Fraction → Bool
fraction_outside p = leb_ℤ p.num (pos 0) || ltb_ℤ (pos (suc p.less)) p.num

-- the least integer that is not below `p * n`
abbrev pub fraction_rank : Fraction → ℕ → ℕ
fraction_rank p n = (pos_part p.num * n + p.less) / suc p.less

product_pos : (num n : ℕ) → 0 < num → 0 < n → 0 < num * n
product_pos num n h l = grind arith

mul_mono : (a b n : ℕ) → a ≤ b → n * a ≤ n * b
mul_mono a b n h = grind arith

product_le : (num less n : ℕ) → num ≤ suc less → num * n + less < suc n * suc less
product_le num less n k =
    let le = mul_mono num (suc less) n k in
    let same : suc n * suc less ≡ n * suc less + suc less = grind arith in
    let turn : num * n ≡ n * num = grind arith in omega (arith, le, same, turn)

-- a quotient that is rounded up, where the remainder of the division is `m`
rounded_up :
    (t less r m : ℕ)
    → suc less * r + m ≡ t + less
    → m < suc less
    → 0 < r
    → (t ≤ suc less * r) × (suc less * (r - 1) < t)
rounded_up t less zero m e h p = absurd (omega arith)
rounded_up t less (suc r) m e h p = (grind arith, grind arith)

-- the rank of a fraction between 0 and 1 is between 1 and the number of samples, and is the number
-- times the fraction, rounded up
rank_bounds :
    (num less n : ℕ)
    → 0 < num
    → num ≤ suc less
    → 0 < n
    → let r = (num * n + less) / suc less in
      (0 < r) × (r ≤ n) × (num * n ≤ suc less * r) × (suc less * (r - 1) < num * n)
rank_bounds num less n h k l =
    let t = product_pos num n h l in
    let first =
      (le-div_iff_mul-le {k = suc less} {x = 1} {y = num * n + less} (omega arith)).1
        (omega (arith, t)) in
    let last =
      (div-lt_iff_lt-mul {k = suc less} {x = num * n + less} {y = suc n} (omega arith)).1
        (product_le num less n k) in
    let (up, down) =
      rounded_up (num * n) less ((num * n + less) / suc less) ((num * n + less) % suc less)
        (div-add-mod (num * n + less) (suc less)) (mod-lt (num * n + less) (omega arith)) first in
    (first, omega (arith, last), up, down)

fraction_of_test :
    (num : ℤ) (less : ℕ)
    → (leb_ℤ num (pos 0) || ltb_ℤ (pos (suc less)) num) ≡ false
    → (0 < pos_part num) × (pos_part num ≤ suc less)
fraction_of_test num less h = (ground arith, ground arith)

pub fraction_bounds :
    (p : Fraction) (n : ℕ)
    → fraction_outside p ≡ false
    → 0 < n
    → (pos 1 ≤ℤ pos (fraction_rank p n)) × (pos (fraction_rank p n) ≤ℤ pos n)
fraction_bounds p n inside more =
    let (low, high) = fraction_of_test p.num p.less inside in
    let (first, last, up, down) = rank_bounds (pos_part p.num) p.less n low high more in
    (omega (arith, first), omega (arith, last))

-- exact fractions, for lengths up to 2^53
abbrev pub fractions : Quantile
fractions = record {
  P = Fraction;
  is_outside = fraction_outside;
  is_nan = λ p. false;
  rank = λ p n. pos (fraction_rank p n);
  largest = 9007199254740992;
  rank_bounds = λ p n inside number more few. fraction_bounds p n inside more;
}
