-- ===== src/Overload/TokenBucket/Rate.antt =====
-- internal/overload/p2_bucket.go: how many calls `Allow` lets through.
use seckill.Prelude.{
  ℕ, ◌+◌, ◌*◌, ◌≤◌, ◌≡◌, arith, Bool, true, false, List, [], ◌∷◌, ℤ, pos, pos_part, ◌-ℤ◌, ◌≤ℤ◌, ◌↔◌,
}
use seckill.Overload.TokenBucket.{nano, TokenBucket, allow, new_token_bucket, tokens}
use seckill.Overload.TokenBucket.Scale.{scale_parts}

abbrev pub granted_by : Bool → ℕ
granted_by true = 1
granted_by false = 0

-- `Allow` at each of a list of moments, and the number of calls that it let through.
pub allow_all : TokenBucket → List ℤ → TokenBucket × ℕ
allow_all b [] = (b, 0)
allow_all b (now ∷ later) =
    let (c, yes_or_no) = allow b now in
    let (d, n) = allow_all c later in (d, granted_by yes_or_no + n)

-- One call, at a moment not before the last: the tokens stay between 0 and the capacity, and those
-- granted and left are no more than those there and refilled.
pub allow-budget :
    (b : TokenBucket) (now : ℤ)
    → b.last ≤ℤ now
    → pos 0 ≤ℤ b.tokens
    → let (c, g) = allow b now in
      (pos 0 ≤ℤ c.tokens)
      × (c.last ≡ now)
      × (c.refill_per_second ≡ b.refill_per_second)
      × (c.tokens ≤ℤ pos (b.capacity * nano))
      × (pos_part c.tokens + granted_by g * nano
          ≤ pos_part b.tokens + pos_part (now -ℤ b.last) * b.refill_per_second)
unfolding allow
allow-budget b now h p = ground (arith, scale_parts (now -ℤ b.last) b.refill_per_second)

-- The moments do not go backwards.
abbrev pub Forward : ℤ → List ℤ → Type 0
Forward last [] = Unit {0}
Forward last (now ∷ later) = (last ≤ℤ now) × Forward now later

stretch_adds :
    (a b c : ℤ) → a ≤ℤ b → b ≤ℤ c → pos_part (c -ℤ a) ≡ pos_part (b -ℤ a) + pos_part (c -ℤ b)
unfolding ◌-ℤ◌
stretch_adds a b c h k = ground arith

-- Two stretches of time refill what the whole of it does.
refill_adds :
    (a b c : ℤ) (rate : ℕ)
    → a ≤ℤ b
    → b ≤ℤ c
    → pos_part (b -ℤ a) * rate + pos_part (c -ℤ b) * rate ≡ pos_part (c -ℤ a) * rate
refill_adds a b c rate h k = rw (stretch_adds a b c h k) (omega arith)

-- Over any list of moments that do not go backwards, the calls let through cost no more than the
-- tokens at the start and the refill since then: the rate holds over every stretch of time.
pub allow_all-rate :
    (b : TokenBucket) (times : List ℤ)
    → Forward b.last times
    → pos 0 ≤ℤ b.tokens
    → let (d, n) = allow_all b times in
      (b.last ≤ℤ d.last)
      × (n * nano + pos_part d.tokens
          ≤ pos_part b.tokens + pos_part (d.last -ℤ b.last) * b.refill_per_second)
unfolding allow_all
allow_all-rate b [] f p = omega arith
allow_all-rate b (now ∷ later) f p =
    let c = (allow b now).0 in
    let (nonneg, moved, same, capped, spent) = allow-budget b now f.0 p in
    let forward : Forward c.last later = rw moved f.1 in
    let (on, paid) = allow_all-rate c later forward nonneg in
    let d = (allow_all c later).0 in
    let whole = refill_adds b.last now d.last b.refill_per_second f.0 (rw moved at on) in
    let paid' = rw same at (rw moved at paid) in let on' = rw moved at on in omega arith

-- From a new bucket: calls let through cost at most the capacity and what the time since then
-- refills.
pub new_bucket_rate :
    (capacity rate : ℕ) (start : ℤ) (times : List ℤ)
    → Forward start times
    → let (d, n) = allow_all (new_token_bucket capacity rate start) times in
      n * nano ≤ capacity * nano + pos_part (d.last -ℤ start) * rate
unfolding new_token_bucket
new_bucket_rate capacity rate start times f =
    omega (arith, allow_all-rate (new_token_bucket capacity rate start) times f (omega arith))

-- `Tokens` shows what `Allow` decides by: at one moment, a call is let through exactly when a whole
-- token is shown.
pub allow-tokens :
    (b : TokenBucket) (now : ℤ) → ((allow b now).1 ≡ true) ↔ (pos nano ≤ℤ tokens b now)
unfolding allow tokens
allow-tokens b now = ground arith
