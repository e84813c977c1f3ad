-- ===== src/Scenarios/Guards.antt =====
-- The theorems on ids, overload protection, the lock, the cache and retries at concrete inputs.
use seckill.Deduct.Lock.Expired.{expired_lock_oversells}
use seckill.Order.Statements.{PlaceOrderRequest, Env, find_order, has_id, new_order}
use seckill.Order.Effect.{stock_at}
use seckill.Deduct.Lock.Sells.{place_order_with_lock-Conditional}
use seckill.Deduct.Optimistic.Conditional.{Conditional}
use seckill.Deduct.Lock.Exclusion.{acquire_excludes}
use seckill.Idgen.Wait.{next_id-returns}
use seckill.Cache.Fresh.{Fresh, absent, get_product-Fresh, Gets}
use seckill.Overload.Admission.Slots.{holders-le-capacity}
use seckill.Errors.{ok, err, sentinel, driver, lock_not_acquired, lock_lost}
use seckill.Mq.Retry.{Try, process_with_retry}
use seckill.Scenarios.Memory.{buy_two, calm, tables, ten, memory, ℤ-discrete, phone, ten-phone}
use seckill.Stores.Call.{answered}
use seckill.Mq.Retry.Ends.{Disposed, process_with_retry-Disposed}
use seckill.Cache.{get_product, Cached}
use seckill.Deduct.Lock.{acquire, Lease, release, Section, place_order_with_lock}
use seckill.Stores.Keyspace.{Keyspace}
use seckill.Overload.TokenBucket.Rate.{allow_all, new_bucket_rate}
use seckill.Idgen.Draws.{Ascending, draw-Ascending}
use seckill.Idgen.Order.{IsValid, AllInRange, floor}
use seckill.Idgen.{Node, next_id, draw, wait_past}
use seckill.Prelude.{
  ℕ, List, ◌+◌, pos, none, negsuc, ℤ, arith, ◌∷◌, ◌≡◌, ◌≤◌, false, [], refl, ◌≢◌, ◌*◌, int_laws,
  inr, pos_part, inl, ◌-ℤ◌, String, ◌<ℤ◌, some,
}
use seckill.Overload.Admission.{next, send_slot, stats, new_admission}
use seckill.Overload.Admission as Door
use seckill.Overload.Breaker.{BreakerPolicy, half_open, new_breaker}
use seckill.Overload.TokenBucket.{TokenBucket, new_token_bucket, nano}
use seckill.Overload.Breaker.Probes as Calls
use seckill.Overload.Breaker.Pile.{probes_pile_up}

abbrev node : Node
node = record { node_id = 3; last_ts = negsuc 0; seq = 0 }

abbrev other_node : Node
other_node = record { node_id = 4; last_ts = negsuc 0; seq = 0 }

abbrev later_node : Node
later_node = record { node_id = 3; last_ts = pos 1800000000000; seq = 4095 }

abbrev clock : List ℤ
clock = pos 1800000000000 ∷ pos 1800000000000 ∷ []

node-IsValid : IsValid node
node-IsValid = record { node_fits = omega arith; seq_fits = omega arith; started = refl }

other_node-IsValid : IsValid other_node
other_node-IsValid = record { node_fits = omega arith; seq_fits = omega arith; started = refl }

clock-AllInRange : AllInRange clock
clock-AllInRange = ((omega arith, omega arith), ((omega arith, omega arith), tt))

next_id-returns_example :
    next_id later_node (pos 1800000000000 ∷ pos 1800000000000 ∷ pos 1800000000001 ∷ []) ≢ none
next_id-returns_example =
    next_id-returns later_node (pos 1800000000000) (pos 1800000000000 ∷ pos 1800000000001 ∷ [])
      (inr (inr (inl (omega int_laws))))

-- The sequence is full, so the call of the example waits through two readings.
waits_for_next :
    wait_past (pos 1800000000000) (pos 1800000000000) (pos 1800000000000 ∷ pos 1800000000001 ∷ [])
    ≡ some (pos 1800000000001, [])
unfolding wait_past
waits_for_next = refl

draw-Ascending_example : Ascending 3 (floor node) (draw 2 node clock)
draw-Ascending_example = draw-Ascending 2 node clock node-IsValid clock-AllInRange

abbrev bucket : TokenBucket
bucket = new_token_bucket 2 1 (pos 0)

new_bucket_rate_example :
    let (d, n) = allow_all (new_token_bucket 2 1 (pos 0)) (pos 0 ∷ pos 5 ∷ []) in
    n * nano ≤ 2 * nano + pos_part (d.last -ℤ pos 0) * 1
new_bucket_rate_example =
    new_bucket_rate 2 1 (pos 0) (pos 0 ∷ pos 5 ∷ []) (omega int_laws, (omega int_laws, tt))

abbrev one_sent : Door.System
one_sent = record (Door.start 2 5) { door = send_slot (Door.start 2 5).door; entering = 0 + 1 }

holders-le-capacity_example : one_sent.entering + one_sent.holding ≤ 2
unfolding new_admission
holders-le-capacity_example =
    holders-le-capacity {c = 2} {w = 5} {s = one_sent}
      (Door.next Door.here (Door.sends (omega arith)))

abbrev policy : BreakerPolicy
policy = record { failure_threshold = 2; open_for = pos 10; half_open_probes = pos 1 }

abbrev quiet : Calls.System
quiet = record { breaker = new_breaker; ordinary = 0; probing = 0 }

probes_pile_up_example :
    (s : Calls.System) × Calls.Reach policy s × (s.breaker.state ≡ half_open) × (s.probing ≡ 5)
probes_pile_up_example = probes_pile_up policy 4 (omega arith) (omega int_laws)

abbrev locks : Keyspace ℤ Lease
locks = memory ℤ-discrete

acquire_excludes_example :
    let (t, r) = acquire locks answered (ok "a") (pos 1) 10 0 (λ k. none) in
    (r ≡ ok "a")
    × (acquire locks answered (ok "b") (pos 1) 10 5 t ≡ (t, err (sentinel lock_not_acquired)))
    × (release locks answered (pos 1) "b" 5 t ≡ (t, err (sentinel lock_lost)))
acquire_excludes_example =
    acquire_excludes locks (pos 1) "a" "b" 10 10 0 5 (λ k. none) refl refl (omega arith)

abbrev shelf : Keyspace ℤ Cached
shelf = memory ℤ-discrete

get_product-Fresh_example :
    let (t, r) = get_product shelf tables calm answered answered (pos 1) ten (λ k. none) in
    Fresh shelf tables (pos 1) ten t × Gets shelf tables calm answered (pos 1) ten (λ k. none) r
get_product-Fresh_example =
    get_product-Fresh shelf tables calm answered answered (pos 1) ten (λ k. none) (absent refl)

abbrev failing : ℕ → Try ℕ
failing n = record { answer = err (driver n); cancelled = none }

process_with_retry-Disposed_example :
    Disposed failing none 1 3
      (process_with_retry record { max_attempts = pos 3; base_backoff = 50 } failing none)
process_with_retry-Disposed_example =
    process_with_retry-Disposed failing none record { max_attempts = pos 3; base_backoff = 50 } 2
      refl

abbrev section : Section locks tables
section = record {
  options = record { ttl = 10; watchdog = false; watchdog_interval = 1 };
  token = ok "a";
  acquiring = answered;
  start = 0;
  ticks = [];
  others = λ s. s;
  releasing = answered;
  end = 4;
}

place_order_with_lock-Conditional_example :
    let (s', d', r) = place_order_with_lock locks tables section calm ten buy_two (λ k. none) ten in
    Conditional tables calm buy_two ten d' r
place_order_with_lock-Conditional_example =
    place_order_with_lock-Conditional locks tables calm buy_two ten ten refl section (λ k. none)

-- Two buyers of seven pieces each, the second after the lock of the first has run out.
abbrev seven : String → PlaceOrderRequest
seven r = record { request_id = r; product_id = pos 1; user_id = pos 7; quantity = pos 7 }

abbrev next_calm : Env
next_calm = record calm { next = ok (pos 6) }

abbrev slow : Section locks tables
slow = record section {
  options = record { ttl = 2; watchdog = false; watchdog_interval = 1 };
  start = 1;
  end = 9;
}

abbrev overtaking : Section locks tables
overtaking = record section { token = ok "t2"; start = 3; end = 5 }

expired_lock_oversells_example :
    let s' =
      (acquire locks slow.acquiring slow.token (pos 1) slow.options.ttl slow.start (λ k. none)).0 in
    let (_, d1, r) =
      place_order_with_lock locks tables slow calm ten (seven "r1") (λ k. none) ten in
    let (_, d2, r') =
      place_order_with_lock locks tables overtaking next_calm ten (seven "r2") s' d1 in
    (r ≡ ok (new_order (pos 5) (seven "r1")))
    × (r' ≡ ok (new_order (pos 6) (seven "r2")))
    × (stock_at tables d2 (pos 1) <ℤ pos 0)
unfolding find_order has_id new_order
expired_lock_oversells_example =
    expired_lock_oversells locks tables slow overtaking calm next_calm (seven "r1") (seven "r2")
      (λ k. none) ten phone (pos 5) (pos 6) "a" "t2" refl refl refl refl refl refl (omega arith)
      (omega arith) ten-phone
      (record {
        up = λ x. refl;
        committed = refl;
        next = refl;
        positive = omega arith;
        covered = omega arith;
      })
      (record {
        up = λ x. refl;
        committed = refl;
        next = refl;
        positive = omega arith;
        covered = omega arith;
      })
      refl refl refl refl (omega int_laws)
