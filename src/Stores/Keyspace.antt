-- ===== src/Stores/Keyspace.antt =====
-- A family of Redis keys that hold values of one kind, as an interface: GET, SET and DEL, with what
-- Redis documents of them. A script runs with nothing between its commands, so it is one function.
use seckill.Prelude.{◌≡◌, ◌≢◌, Option, none, some, ℤ, pos, ◌+ℤ◌, ◌-ℤ◌}

pub record Keyspace (K V : Type 0) : Type 1 where
  pub State : Type 0
  pub get : State → K → Option V
  pub put : State → K → V → State
  pub del : State → K → State
  pub get-put_self : (s : State) (k : K) (v : V) → get (put s k v) k ≡ some v
  pub get-put_ne : (s : State) (j k : K) (v : V) → j ≢ k → get (put s k v) j ≡ get s j
  pub get-del_self : (s : State) (k : K) → get (del s k) k ≡ none
  pub get-del_ne : (s : State) (j k : K) → j ≢ k → get (del s k) j ≡ get s j

abbrev pub number : Option ℤ → ℤ
number none = pos 0
number (some n) = n

-- The commands that take a missing key for 0.
module _ {K : Type 0} (r : Keyspace K ℤ) where
  abbrev pub number_at : r.State → K → ℤ
  number_at s k = number (r.get s k)

  -- INCRBY and DECRBY return the new number
  unfoldable pub incr_by : r.State → K → ℤ → r.State × ℤ
  unfolding ◌+ℤ◌
  incr_by s k n = (r.put s k (number (r.get s k) +ℤ n), number (r.get s k) +ℤ n)

  unfoldable pub decr_by : r.State → K → ℤ → r.State × ℤ
  unfolding ◌-ℤ◌
  decr_by s k n = (r.put s k (number (r.get s k) -ℤ n), number (r.get s k) -ℤ n)
