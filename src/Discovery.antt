-- ===== src/Discovery.antt =====
-- internal/discovery/etcd: what the resolver hands to the balancer, and the end of a registration. The
-- bodies of `Register`, `snapshot` and `applyWatchResponse` only panic, so `Build` and the watch, which
-- call them first, are left out.
pub mod Sorted
pub mod Text
use seckill.Stores.Call.{Fate, not_made, answer_lost, answered}
use seckill.Errors.{Error, Result, err, ok}
use seckill.Prelude.{List, Bool, Option, String, some, false, ◌++◌, none, [], ◌∷◌, if◌then◌else◌}
use seckill.Discovery.Sorted.{StringOrder, sort}

-- What the balancer and the observer have been given: the states, the errors reported, and the lists of
-- addresses observed.
pub record Seen : Type 0 where
  pub updates : List (List String)
  pub errors : List Error
  pub observed : List (List String)

-- cc.ReportError
unfoldable pub report : Seen × Option Error → Seen
report (c, none) = c
report (c, some e) = record {
  updates = c.updates;
  errors = c.errors ++ e ∷ [];
  observed = c.observed;
}

module _ (O : StringOrder) (observing : Bool) where
  -- `publishLocked`, by the order in which the addresses are visited and the answer to `UpdateState`
  unfoldable pub publish_locked : List String → Option Error → Seen → Seen × Option Error
  unfolding sort
  publish_locked visited answer c = (
    record {
      updates = c.updates ++ sort O visited ∷ [];
      errors = c.errors;
      observed = if observing then c.observed ++ sort O visited ∷ [] else c.observed;
    },
    answer,
  )

-- `Registration`: whether its lease is kept alive, and whether its key is in the store
pub record Registration : Type 0 where
  pub kept_alive : Bool
  pub listed : Bool

unfoldable pub revoked : Fate → Registration → Registration × Option Error
revoked answered r = (record { kept_alive = r.kept_alive; listed = false }, none)
revoked (not_made e) r = (r, some e)
revoked (answer_lost e) r = (record { kept_alive = r.kept_alive; listed = false }, some e)

-- `Registration.Close`; `waited` is the error of the context if it ends before the keepalive has
unfoldable pub close_registration :
    Option Error → Fate → Option Registration → Option Registration × Option Error
unfolding revoked
close_registration waited fate none = (none, none)
close_registration waited fate (some r) =
    let still : Registration = record { kept_alive = false; listed = r.listed } in
    elim waited [
      | some e ↦ (some still, some e)
      | none ↦ let (s, e) = revoked fate still in (some s, e)
    ]
