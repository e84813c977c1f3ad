-- ===== src/Overload/TokenBucket/Scale.antt =====
-- An integer times a natural number.
use seckill.Prelude.{ℕ, suc, ◌*◌, ◌≡◌, ℤ, pos, negsuc, pos_part, neg_part, sub_ℕ, arith}

unfoldable pub scale : ℤ → ℕ → ℤ
scale (pos n) k = pos (n * k)
scale (negsuc n) k = sub_ℕ 0 (suc n * k)

pub scale_parts :
    (x : ℤ) (k : ℕ)
    → (pos_part (scale x k) ≡ pos_part x * k) × (neg_part (scale x k) ≡ neg_part x * k)
unfolding scale
scale_parts (pos n) k = ground arith
scale_parts (negsuc n) k = ground arith
