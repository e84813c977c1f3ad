-- ===== src/Bucket/Spread/Total.antt =====
-- internal/bucket/p2_spread.go: the plan is of the whole stock, and even.
use seckill.Prelude.{
  ℕ, ◌≤◌, ◌<◌, ◌+◌, pos, ◌≡◌, ◌*◌, ◌/◌, ◌-◌, ◌%◌, arith, ◌∙◌, suc, ap, dec_lt, ltb_ℤ, true, false,
  zero, ◌+ℤ◌, int_laws,
}
use seckill.Bucket.Spread.{planned, quotient, sum, remainder, share}
use native.Mathlib.Nat.{mod-add-div', mod-lt}

with_one : (q x y : ℕ) → q + 1 + x ≡ y → pos q +ℤ pos 1 +ℤ pos x ≡ pos y
with_one q x y h = omega (int_laws, arith)

without : (q x y : ℕ) → q + x ≡ y → pos q +ℤ pos x ≡ pos y
without q x y h = omega (int_laws, arith)

count_more : (q r b left : ℕ) → b < r → q + 1 + (q * left + (r - suc b)) ≡ q * suc left + (r - b)
count_more q r b left h = grind arith

count_same : (q r b left : ℕ) → ¬ (b < r) → q + (q * left + (r - suc b)) ≡ q * suc left + (r - b)
count_same q r b left h = grind arith

sum-planned :
    (q r b left : ℕ)
    → r ≤ b + left
    → sum (planned (pos q) (pos r) b left) ≡ pos (q * left + (r - b))
unfolding planned sum share
sum-planned q r b zero h = let none_left : r - b ≡ 0 = omega arith in grind arith
sum-planned q r b (suc left) h =
    let rest = sum-planned q r (suc b) left (omega arith) in
    elim (dec_lt b r) [
      | yes lt ↦
          let test : ltb_ℤ (pos b) (pos r) ≡ true = ground arith in
          rw (test, rest) (with_one q _ _ (count_more q r b left lt))
      | no ge ↦
          let test : ltb_ℤ (pos b) (pos r) ≡ false = ground arith in
          rw (test, rest) (without q _ _ (count_same q r b left ge))
    ]

-- The plan of `SpreadStock` for a stock that is not negative and a positive number of buckets: its sum
-- is the stock, so that no piece is lost or made up.
pub sum-planned-eq-stock :
    (m n : ℕ) → 0 < n → sum (planned (quotient (pos m) n) (remainder (pos m) n) 0 n) ≡ pos m
unfolding quotient remainder
sum-planned-eq-stock m n h =
    sum-planned (m / n) (m % n) 0 n (omega (arith, mod-lt m h))
    ∙ ap pos (omega (arith, mod-add-div' m n))
