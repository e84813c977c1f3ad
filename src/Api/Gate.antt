-- ===== src/Api/Gate.antt =====
-- cmd/api/main.go: `overloadGate`, the two doors before a handler that writes, with one request in
-- the gate; and the step of the shutdown that waits for the requests inside.
-- What the gate answers, and the Retry-After header if it sets one; or the handler's answer.
use seckill.Overload.Payload.{DegradedPayload, write_path_failure}
use seckill.Gateway.{Response}
use seckill.Overload.TokenBucket.{TokenBucket, allow}
use seckill.Overload.Admission.{
  count_released, Admission, receive_slot, count_accepted, send_slot, count_rejected,
}
use seckill.Errors.{Error, sentinel, admission_full, rate_limited}
use seckill.Prelude.{
  ℕ, ◌≡◌, ℤ, Option, if◌then◌else◌, ◌+◌, ◌+ℤ◌, ◌⊎◌, pos, ◌-ℤ◌, none, some, int_laws, arith, Bool,
  inr, inl, refl, true, false,
}

pub data Gated : Type 0 where
  refused : ℕ → DegradedPayload → Option ℕ → Gated
  handled : Response → Gated

-- How `Acquire` ends: with a slot, with the wait budget over, or with the context.
pub data Acquired : Type 0 where
  slot : Acquired
  no_slot : Acquired
  gave_up : Error → Acquired

-- `Release`, by the request that holds a slot
abbrev release : Admission → Admission
unfolding count_released receive_slot
release a = count_released (receive_slot a)

abbrev enter : Admission → Admission
enter a = count_accepted (send_slot a)

pub record Doors (S : Type 0) : Type 0 where
  pub bucket : TokenBucket
  pub door : Admission
  pub state : S

module _ {S : Type 0} (handler : S → S × Response) where
  refuse : Error → ℕ × DegradedPayload
  unfolding write_path_failure
  refuse e = write_path_failure e

  -- behind the token bucket
  admit : Acquired → Doors S → Doors S × Gated
  unfolding refuse count_accepted send_slot count_released receive_slot count_rejected
  admit slot d =
      let (s, answer) = handler d.state in
      (record { bucket = d.bucket; door = release (enter d.door); state = s }, handled answer)
  admit no_slot d =
      let (code, payload) = refuse (sentinel admission_full) in
      (record d { door = count_rejected d.door }, refused code payload none)
  admit (gave_up e) d = let (code, payload) = refuse e in (d, refused code payload none)

  -- `overloadGate` before a handler
  unfoldable pub overload_gate : ℤ → Acquired → Doors S → Doors S × Gated
  unfolding admit allow refuse
  overload_gate now acquired d =
      let (b, allowed) = allow d.bucket now in
      if allowed
      then admit acquired (record d { bucket = b })
      else (let (code, payload) = refuse (sentinel rate_limited) in
          (record d { bucket = b }, refused code payload (some payload.retry_after)))

  -- Either the handler runs, once, or the request is refused with 429 or 503 before it runs, and
  -- then its state is as it was; either way no slot stays taken.
  pub data Passes (d d' : Doors S) (g : Gated) : Type 0 where
    passes :
        g ≡ handled (handler d.state).1
        → d'.state ≡ (handler d.state).0
        → d'.door.accepted ≡ d.door.accepted + 1
        → Passes d d' g
    stops :
        (code : ℕ) (payload : DegradedPayload) (header : Option ℕ)
        → g ≡ refused code payload header
        → (code ≡ 429) ⊎ (code ≡ 503)
        → d'.state ≡ d.state
        → d'.door.accepted ≡ d.door.accepted
        → Passes d d' g

  one_more_one_less : (n : ℤ) → n +ℤ pos 1 -ℤ pos 1 ≡ n
  one_more_one_less n = omega int_laws

  -- and as many requests are inside as before
  abbrev pub Door : Doors S → Doors S → Gated → Type 0
  Door d d' g =
      Passes d d' g × (d'.door.in_flight ≡ d.door.in_flight) × (d'.door.slots ≡ d.door.slots)

  admit-Passes :
      (acquired : Acquired) (b : TokenBucket) (d : Doors S)
      → let (d', g) = admit acquired (record d { bucket = b }) in Door d d' g
  unfolding admit count_accepted send_slot count_released receive_slot count_rejected refuse
  admit-Passes slot b d = (passes refl refl refl, one_more_one_less _, omega arith)
  admit-Passes no_slot b d = (stops 503 _ none refl (inr refl) refl refl, refl, refl)
  admit-Passes (gave_up x) b d = (stops _ _ none refl (ground arith) refl refl, refl, refl)

  gate_of :
      (now : ℤ) (acquired : Acquired) (d : Doors S) (allowed : Bool)
      → (allow d.bucket now).1 ≡ allowed
      → let (d', g) = overload_gate now acquired d in Door d d' g
  unfolding overload_gate refuse
  gate_of now acquired d true e = rw e (admit-Passes acquired (allow d.bucket now).0 d)
  gate_of now acquired d false e = rw e (stops 429 _ _ refl (inl refl) refl refl, refl, refl)

  -- The gate before any handler, at any moment and however the wait for a slot ends: the handler runs
  -- and its answer is sent, or the request is refused with 429 or 503 and the handler's state is as
  -- it was; either way as many requests are inside as before.
  pub overload_gate-Door :
      (now : ℤ) (acquired : Acquired) (d : Doors S)
      → let (d', g) = overload_gate now acquired d in Door d d' g
  overload_gate-Door now acquired d = gate_of now acquired d _ refl
