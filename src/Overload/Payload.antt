-- ===== src/Overload/Payload.antt =====
-- internal/overload/p3_breaker.go: what a refused request is answered.
use seckill.Prelude.{ℕ, ◌≡◌, arith, Bool, true, false, Option, none, some, if◌then◌else◌}
use seckill.Errors.{Error, is, rate_limited}

-- `error` is the error whose text is sent; the empty fields are left out of the JSON.
pub record DegradedPayload : Type 0 where
  pub error : Option Error
  pub degraded : Bool
  pub retry_after : ℕ

abbrev pub write_retry_after_seconds : ℕ
write_retry_after_seconds = 1

unfoldable pub write_path_failure : Error → ℕ × DegradedPayload
write_path_failure e = (
  if is e rate_limited then 429 else 503,
  record { error = some e; degraded = false; retry_after = write_retry_after_seconds },
)

unfoldable pub read_path_fallback : Error → Bool → ℕ × DegradedPayload
unfolding write_path_failure
read_path_fallback e stale_available =
    if stale_available
    then (200, record { error = none; degraded = true; retry_after = 0 })
    else write_path_failure e

-- A write that failed is never answered as a success or as degraded: whatever the error, the answer
-- is 429 for the rate limit and 503 for all else, names the error and asks to retry. A read is
-- answered as degraded exactly when a stale value is at hand, and else as the write is.
pub refused_write_shows :
    (e : Error) (stale_available : Bool)
    → let (status, payload) = write_path_failure e in
      (status ≡ (if is e rate_limited then 429 else 503))
      × (payload.degraded ≡ false)
      × (payload.error ≡ some e)
      × ((read_path_fallback e stale_available).1.degraded ≡ stale_available)
      × (stale_available ≡ false → read_path_fallback e stale_available ≡ write_path_failure e)
unfolding read_path_fallback
refused_write_shows e true = ground arith
refused_write_shows e false = ground arith
