-- ===== src/Deduct/Lock/Exclusion.antt =====
-- internal/deduct/lock.go: a lock excludes others until it expires, and spares the next holder's.
use seckill.Errors.{ok, err, sentinel, lock_not_acquired, lock_lost}
use seckill.Stores.Call.{answered}
use seckill.Deduct.Lock.{
  lasts, expiry, Lease, set_nx, acquire, release, live, release_script, str_eq, owns,
}
use seckill.Prelude.{
  ℤ, ℕ, String, ◌<◌, ◌≡◌, none, some, ◌+◌, true, false, arith, ◌≤◌, refl, Bool-cases, inl, inr, suc,
  zero,
}
use seckill.Stores.Keyspace.{Keyspace}

lasts_until : (start ttl now : ℕ) → now < start + ttl → lasts now (expiry start ttl) ≡ true
lasts_until start zero now h = refl
lasts_until start (suc ttl) now h = ground arith

pub lasts_after :
    (start ttl now : ℕ) → 1 ≤ ttl → start + ttl ≤ now → lasts now (expiry start ttl) ≡ false
lasts_after start zero now runs h = absurd (omega arith)
lasts_after start (suc ttl) now runs h = ground arith

module _ (K : Keyspace ℤ Lease) where
  pub acquire_free :
      (i : ℤ) (token : String) (ttl now : ℕ) (s : K.State)
      → live now (K.get s i) ≡ none
      → acquire K answered (ok token) i ttl now s
        ≡ (K.put s i record { token = token; expires = expiry now ttl }, ok token)
  unfolding acquire
  acquire_free i token ttl now s h = rw (h, set_nx) refl

  acquire_held :
      (i : ℤ) (token : String) (ttl now : ℕ) (s : K.State) (l : Lease)
      → live now (K.get s i) ≡ some l
      → acquire K answered (ok token) i ttl now s ≡ (s, err (sentinel lock_not_acquired))
  unfolding acquire
  acquire_held i token ttl now s l h = rw (h, set_nx) refl

  release_lost :
      (i : ℤ) (token : String) (now : ℕ) (s : K.State)
      → owns token (live now (K.get s i)) ≡ false
      → release K answered i token now s ≡ (s, err (sentinel lock_lost))
  unfolding release
  release_lost i token now s h = rw (h, release_script) refl

  not_owner :
      (i : ℤ) (l : Lease) (token : String) (now : ℕ) (s : K.State)
      → str_eq l.token token ≡ false
      → owns token (live now (K.get (K.put s i l) i)) ≡ false
  not_owner i l token now s h = elim (Bool-cases (lasts now l.expires)) [
    | inl soon ↦ rw (K.get-put_self s i l) (rw soon h)
    | inr late ↦ rw (K.get-put_self s i l) (rw late refl)
  ]

  live_until :
      (i : ℤ) (l : Lease) (s : K.State) (now : ℕ)
      → lasts now l.expires ≡ true
      → live now (K.get (K.put s i l) i) ≡ some l
  live_until i l s now h = rw (K.get-put_self s i l) (rw h refl)

  pub expired :
      (i : ℤ) (l : Lease) (s : K.State) (now : ℕ)
      → lasts now l.expires ≡ false
      → live now (K.get (K.put s i l) i) ≡ none
  expired i l s now h = rw (K.get-put_self s i l) (rw h refl)

  -- A lock acquired at one time: until its time to live has passed, every other acquisition fails and
  -- changes nothing, and a release under another token fails and changes nothing.
  pub acquire_excludes :
      (i : ℤ) (mine theirs : String) (ttl ttl' start now : ℕ) (s : K.State)
      → live start (K.get s i) ≡ none
      → str_eq mine theirs ≡ false
      → now < start + ttl
      → let (t, r) = acquire K answered (ok mine) i ttl start s in
        (r ≡ ok mine)
        × (acquire K answered (ok theirs) i ttl' now t ≡ (t, err (sentinel lock_not_acquired)))
        × (release K answered i theirs now t ≡ (t, err (sentinel lock_lost)))
  acquire_excludes i mine theirs ttl ttl' start now s free differ soon =
      let lease : Lease = record { token = mine; expires = expiry start ttl } in
      let held = live_until i lease s now (lasts_until start ttl now soon) in
      rw (acquire_free i mine ttl start s free) (
        refl,
        acquire_held i theirs ttl' now _ lease held,
        release_lost i theirs now _ (not_owner i lease theirs now s differ),
      )

  -- A lock with a time to live that expired and was acquired by another: the first holder's release reports that it is
  -- lost and leaves the second holder's lease.
  pub late_release_spares :
      (i : ℤ) (mine theirs : String) (ttl ttl' start later now : ℕ) (s : K.State)
      → live start (K.get s i) ≡ none
      → str_eq theirs mine ≡ false
      → 1 ≤ ttl
      → start + ttl ≤ later
      → let t = (acquire K answered (ok mine) i ttl start s).0 in
        let (u, r) = acquire K answered (ok theirs) i ttl' later t in
        (r ≡ ok theirs)
        × (release K answered i mine now u ≡ (u, err (sentinel lock_lost)))
        × (K.get u i ≡ some record { token = theirs; expires = expiry later ttl' })
  late_release_spares i mine theirs ttl ttl' start later now s free differ runs late =
      let lease : Lease = record { token = mine; expires = expiry start ttl } in
      let next : Lease = record { token = theirs; expires = expiry later ttl' } in
      let gone : live later (K.get (K.put s i lease) i) ≡ none =
        expired i lease s later (lasts_after start ttl later runs late) in
      rw (acquire_free i mine ttl start s free, acquire_free i theirs ttl' later _ gone)
        (
          refl,
          release_lost i mine now _ (not_owner i next mine now _ differ),
          K.get-put_self _ i next,
        )
