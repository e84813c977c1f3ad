-- ===== src/Mq/Lag.antt =====
-- internal/mq/p4_lag.go: the lag of a consumer group, read at each scrape. What the admin client
-- answers is an argument: the groups that it describes, or an error.
-- what is described of a group
use seckill.Errors.{Error, Result, driver, err, ◌>>=◌, ok, check, ◌>>◌}
use seckill.Prelude.{Option, ℤ, String, pos, some, negsuc, ◌≤ℤ◌, ◌≡◌, arith, none, refl}

record Described : Type 0 where
  pub error : Option Error
  pub total : ℤ

-- `fmt.Errorf` of a group that is missing, which wraps no sentinel
abbrev not_found : Error
not_found = driver 0

described_lag : Option Described → Result ℤ
described_lag none = err not_found
described_lag (some d) = check d.error >> ok d.total

-- `GroupLagTotal`
unfoldable group_lag_total : Result (String → Option Described) → String → Result ℤ
unfolding described_lag
group_lag_total lags group = lags >>= λ groups. described_lag (groups group)

-- the reading of the gauge, which is -1 on an error
gauge_of : Result ℤ → ℤ
gauge_of (ok n) = n
gauge_of (err e) = negsuc 0

unfoldable lag_gauge : Result (String → Option Described) → String → ℤ
unfolding gauge_of group_lag_total
lag_gauge lags group = gauge_of (group_lag_total lags group)

gauge_of-nonneg : (r : Result ℤ) → pos 0 ≤ℤ gauge_of r → r ≡ ok (gauge_of r)
unfolding gauge_of
gauge_of-nonneg (ok n) h = refl
gauge_of-nonneg (err e) h = absurd (omega arith)

-- A reading that is not negative is the lag of the group; the reading of a failure never is.
lag_gauge-nonneg :
    (lags : Result (String → Option Described)) (group : String)
    → pos 0 ≤ℤ lag_gauge lags group
    → group_lag_total lags group ≡ ok (lag_gauge lags group)
unfolding lag_gauge
lag_gauge-nonneg lags group h = gauge_of-nonneg (group_lag_total lags group) h
