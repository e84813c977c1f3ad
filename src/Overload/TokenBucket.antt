-- ===== src/Overload/TokenBucket.antt =====
-- internal/overload/p2_bucket.go: the token bucket. Tokens are counted in billionths, so that the
-- nanoseconds of a `time.Duration` and a whole refill rate give whole numbers; the rounding of
-- float64 is not modelled. A call holds the mutex throughout, and is one step.
mod Scale
pub mod Rate
use seckill.Prelude.{ℕ, ◌*◌, Bool, true, false, ℤ, pos, ◌+ℤ◌, ◌-ℤ◌, ltb_ℤ, leb_ℤ, if◌then◌else◌}
use Scale.{scale}

abbrev pub nano : ℕ
nano = 1000000000

pub record TokenBucket : Type 0 where
  pub capacity : ℕ
  pub refill_per_second : ℕ
  pub tokens : ℤ
  pub last : ℤ

-- `NewTokenBucket`, with the reading of the clock
unfoldable pub new_token_bucket : ℕ → ℕ → ℤ → TokenBucket
new_token_bucket capacity rate now = record {
  capacity = capacity;
  refill_per_second = rate;
  tokens = pos (capacity * nano);
  last = now;
}

abbrev pub cap_tokens : TokenBucket → ℤ → ℤ
cap_tokens b t = if ltb_ℤ (pos (b.capacity * nano)) t then pos (b.capacity * nano) else t

-- The tokens at a moment: what is there and the refill since the last call, up to the capacity.
unfoldable pub tokens : TokenBucket → ℤ → ℤ
unfolding ◌+ℤ◌ ◌-ℤ◌
tokens b now = cap_tokens b (b.tokens +ℤ scale (now -ℤ b.last) b.refill_per_second)

unfoldable pub allow : TokenBucket → ℤ → TokenBucket × Bool
unfolding ◌+ℤ◌ ◌-ℤ◌
allow b now =
    let t = cap_tokens b (b.tokens +ℤ scale (now -ℤ b.last) b.refill_per_second) in
    if leb_ℤ (pos nano) t
    then (record b { tokens = t -ℤ pos nano; last = now }, true)
    else (record b { tokens = t; last = now }, false)
