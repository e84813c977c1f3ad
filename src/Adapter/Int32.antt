-- ===== src/Adapter/Int32.antt =====
-- The conversion `int32(n)` of internal/adapter/grpcclient and grpcserver, with its wrap-around.
use seckill.Prelude.{ℕ, ℤ, if◌then◌else◌, pos, negsuc, ◌<◌, ◌≡◌, ltb, ◌%◌, ◌-◌, arith, ◌*◌, ◌≤ℤ◌}

abbrev half : ℕ
half = 2147483648

-- a number below 2^32, read as a signed one
abbrev signed : ℕ → ℤ
signed r = if ltb r half then pos r else negsuc (2 * half - r - 1)

unfoldable pub to_int32 : ℤ → ℤ
to_int32 (pos n) = signed (n % (2 * half))
to_int32 (negsuc n) =
    let r = n % (2 * half) in if ltb r half then negsuc r else pos (2 * half - r - 1)

abbrev pub FitsInt32 : ℤ → Type 0
FitsInt32 n = (negsuc (half - 1) ≤ℤ n) × (n ≤ℤ pos (half - 1))

mod_small : (n : ℕ) → n < half → n % (2 * half) ≡ n
mod_small n h = omega arith

-- A number that fits is passed as it is, and whatever is passed fits.
pub to_int32-id : (n : ℤ) → FitsInt32 n → to_int32 n ≡ n
unfolding to_int32
to_int32-id (pos n) h = ground arith
to_int32-id (negsuc n) h = ground arith

pub to_int32-FitsInt32 : (n : ℤ) → FitsInt32 (to_int32 n)
unfolding to_int32
to_int32-FitsInt32 (pos n) = ground arith
to_int32-FitsInt32 (negsuc n) = ground arith
