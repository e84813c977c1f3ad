-- ===== src/Errors.antt =====
-- The sentinel errors of the packages under internal/, and `errors.Is` over them.
use seckill.Prelude.{ℕ, Bool, true, false, ◌⊎◌, inl, inr, ◌||◌, ◌==◌, Option, none, some, ◌≡◌, refl}

-- `order_…` are those of internal/order (internal/deduct passes two of them on), `port_…` those of
-- internal/ports, `cache_…` that of internal/cache; `canceled` and `deadline_exceeded` are the
-- context's, `no_rows` and `redis_nil` the drivers'.
pub data Sentinel : Type 0 where
  order_insufficient_stock order_product_not_found order_invalid_quantity : Sentinel
  cas_retries_exhausted lock_not_acquired lock_lost : Sentinel
  admission_full rate_limited breaker_open shutdown_timeout : Sentinel
  canceled deadline_exceeded no_rows redis_nil : Sentinel
  port_insufficient_stock port_product_not_found port_invalid_quantity : Sentinel
  port_order_not_found port_cached_product_miss : Sentinel
  port_reservation_conflict port_reservation_not_found : Sentinel
  cache_product_not_found simulated_crash invalid_percentile no_record : Sentinel

abbrev pub code : Sentinel → ℕ
code order_insufficient_stock = 0
code order_product_not_found = 1
code order_invalid_quantity = 2
code cas_retries_exhausted = 3
code lock_not_acquired = 4
code lock_lost = 5
code admission_full = 6
code rate_limited = 7
code breaker_open = 8
code shutdown_timeout = 9
code canceled = 10
code deadline_exceeded = 11
code no_rows = 12
code redis_nil = 13
code port_insufficient_stock = 14
code port_product_not_found = 15
code port_invalid_quantity = 16
code port_order_not_found = 17
code port_cached_product_miss = 18
code port_reservation_conflict = 19
code port_reservation_not_found = 20
code cache_product_not_found = 21
code simulated_crash = 22
code invalid_percentile = 23
code no_record = 24

-- `driver n` is an error of a driver or of a caller's function that wraps none of the sentinels;
-- `join` is `errors.Join` of two errors.
pub data Error : Type 0 where
  sentinel : Sentinel → Error
  driver : ℕ → Error
  join : Error → Error → Error

-- `errors.Is(err, s)`
abbrev pub is : Error → Sentinel → Bool
is (sentinel t) s = code t == code s
is (driver n) s = false
is (join a b) s = is a s || is b s

-- A value, or the error that a function of the source returns beside a zero value.
pub data Result {ℓ} (A : Type ℓ) : Type ℓ where
  err : Error → Result A
  ok : A → Result A

infixl 5 ◌>>◌ ◌>>=◌
-- `if err != nil { return …, err }`, and what follows it
abbrev pub ◌>>=◌ {ι ℓ} : {X : Type ι} {Y : Type ℓ} → Result X → (X → Result Y) → Result Y
err e >>= next = err e
ok x >>= next = next x

-- the same where the value is none
abbrev pub ◌>>◌ {ℓ} : {Y : Type ℓ} → Result (Unit {0}) → Result Y → Result Y
done >> after = done >>= λ _. after

-- A call that reports the error if there is one.
abbrev pub check : Option Error → Result (Unit {0})
check none = ok tt
check (some e) = err e

abbrev pub raise_if : Bool → Sentinel → Result (Unit {0})
raise_if true s = err (sentinel s)
raise_if false s = ok tt

-- What holds of the value, if there is one.
abbrev pub Returns {ℓ κ} : {A : Type ℓ} → (A → Type κ) → Result A → Type κ
Returns P (ok a) = P a
Returns P (err e) = Unit

-- A step of a `do` block, with the equation of its value.
pub Returns-bind {ℓ κ ι} :
    {A : Type ℓ} {B : Type κ} (P : B → Type ι) (m : Result A) (f : A → Result B)
    → ((a : A) → m ≡ ok a → Returns P (f a))
    → Returns P (m >>= f)
Returns-bind P (ok a) f h = h a refl
Returns-bind P (err e) f h = tt

pub raise_if-ok : (b : Bool) (s : Sentinel) {u : Unit {0}} → raise_if b s ≡ ok u → b ≡ false
raise_if-ok true s h = cc
raise_if-ok false s h = refl

-- A chain that ends with a value, step by step.
pub >>=-eq-ok {ι ℓ} :
    {X : Type ι} {Y : Type ℓ} (first : Result X) (next : X → Result Y) {y : Y}
    → (first >>= next) ≡ ok y
    → (x : X) × (first ≡ ok x) × (next x ≡ ok y)
>>=-eq-ok (err e) next h = cc
>>=-eq-ok (ok x) next h = (x, refl, h)

-- To split on a computed result and keep the equation.
pub Result-cases {ℓ} :
    {A : Type ℓ} (r : Result A) → ((e : Error) × (r ≡ err e)) ⊎ ((a : A) × (r ≡ ok a))
Result-cases (err e) = inl (e, refl)
Result-cases (ok a) = inr (a, refl)
