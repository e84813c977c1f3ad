-- ===== src/Api/Settings.antt =====
-- cmd/api/main.go, cmd/order-service/main.go, cmd/inventory-service/main.go: settings from the
-- environment and from queries. What the environment or the query holds is the argument, the empty
-- string where it has nothing; what strconv makes of it too.
use seckill.Bucket.Probe.{Config}
use seckill.Prelude.{String, ℤ, pos, Option, if◌then◌else◌, ◌≤ℤ◌, none, some, arith, ltb_ℤ, leb_ℤ}
use text.Mathlib.Text.{◌==◌ as str_eq}

unfoldable env_or : String → String → String
env_or v def = if str_eq v "" then def else v

-- `envIntOr`, and `envFloatOr` with its parser
unfoldable env_parsed_or {ℓ} : {A : Type ℓ} → (String → Option A) → String → A → A
env_parsed_or parse v def =
    if str_eq v "" then def else (elim (parse v) [ none ↦ def | some n ↦ n ])

-- `DefaultConfig` of internal/bucket
abbrev default_config : Config
default_config = record { bucket_count = pos 8; max_probes = pos 2 }

-- `bucketCfgFrom`
unfoldable bucket_cfg_from : Option ℤ → Option ℤ → Config
bucket_cfg_from n k = record {
  bucket_count = elim n [
    | none ↦ default_config.bucket_count
    | some n ↦ if ltb_ℤ (pos 0) n then n else default_config.bucket_count
  ];
  max_probes = elim k [
    | none ↦ default_config.max_probes
    | some k ↦ if leb_ℤ (pos 0) k then k else default_config.max_probes
  ];
}

-- Whatever the query holds, there is a bucket and no negative number of probes.
bucket_cfg_from_bounds :
    (n k : Option ℤ)
    → let c = bucket_cfg_from n k in (pos 1 ≤ℤ c.bucket_count) × (pos 0 ≤ℤ c.max_probes)
unfolding bucket_cfg_from
bucket_cfg_from_bounds none none = ground arith
bucket_cfg_from_bounds none (some k) = ground arith
bucket_cfg_from_bounds (some n) none = ground arith
bucket_cfg_from_bounds (some n) (some k) = ground arith
