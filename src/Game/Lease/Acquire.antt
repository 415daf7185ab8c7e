-- ===== src/Game/Lease/Acquire.antt =====
-- The branches of `Acquire`.
use some_server.Base.{ℕ, ◌≡◌, true, false, Bytes, arith, none, some, ◌⊎◌, ◌<◌, nat_eq_iff, Eq_ℕ}
use some_server.Base.Table.{put, find-put}
use some_server.Ipc.Types.{success}
use some_server.Game.Redis.{Redis, RedisLaws, status_ok, command}
use some_server.Game.Lease.{
  LeaseService, build_key, build_value, ttl_ms, own_lease, acquire, set_nx, with_count,
  is_held_locally,
}

module _ {R : Type 0} (redis : Redis R) where
  -- The service with the lease of a player added.
  abbrev pub acquired : LeaseService → ℕ → ℕ → LeaseService
  acquired s now p = with_count (record s { leases = put p (own_lease s now p) s.leases })

  pub acquire_cases :
      (s : LeaseService) (now p : ℕ) (r : R)
      → ((acquire redis s now p r).1 ≡ s) ⊎ ((acquire redis s now p r).1 ≡ acquired s now p)
  unfolding acquire
  acquire_cases s now p r = ground arith

  -- The server takes a value for a key that it does not have, and no other.
  set_nx_taken :
      (laws : RedisLaws redis) (k v : Bytes) (ttl : ℕ) (r : R)
      → 0 < ttl
      → (set_nx redis k v ttl r).0 ≡ status_ok
      → (redis.get r k ≡ none) × (redis.get (set_nx redis k v ttl r).1 k ≡ some v)
  unfolding set_nx
  set_nx_taken laws k v ttl r alive h = ground (arith, laws.get-set_px r k v ttl alive)

  -- SET NX leaves a value that is there.
  set_nx_either :
      (laws : RedisLaws redis) (k v : Bytes) (ttl : ℕ) (r : R)
      → 0 < ttl
      → (redis.get (set_nx redis k v ttl r).1 k ≡ redis.get r k)
        ⊎ ((redis.get r k ≡ none) × (redis.get (set_nx redis k v ttl r).1 k ≡ some v))
  unfolding set_nx
  set_nx_either laws k v ttl r alive = ground (arith, laws.get-set_px r k v ttl alive)

  -- With a time to live that is not 0: a player that was not tracked is acquired only where Redis had
  -- no lease for it, and then Redis has the lease of this process and the service tracks it. A player
  -- that is tracked is acquired again with no change. After a failure the service is as it was, and
  -- the lease in Redis is as it was, or it is one of this process where there was none, which the
  -- service does not track.
  pub acquire_lem :
      (laws : RedisLaws redis) (s : LeaseService) (now p : ℕ) (r : R)
      → 0 < ttl_ms s
      → let (result, t, r') = acquire redis s now p r in
        ((result ≡ success) × (t ≡ s) × (r' ≡ r) × (is_held_locally s p ≡ true))
        ⊎ ((result ≡ success)
            × (t ≡ acquired s now p)
            × (is_held_locally t p ≡ true)
            × (is_held_locally s p ≡ false)
            × (redis.get r (build_key s p) ≡ none)
            × (redis.get r' (build_key s p) ≡ some (build_value (own_lease s now p))))
        ⊎ ((result.ok ≡ false)
            × (t ≡ s)
            × ((redis.get r' (build_key s p) ≡ redis.get r (build_key s p))
                ⊎ ((redis.get r (build_key s p) ≡ none)
                    × (redis.get r' (build_key s p) ≡ some (build_value (own_lease s now p))))))
  unfolding acquire is_held_locally command
  acquire_lem laws s now p r alive =
      let k = build_key s p in
      let v = build_value (own_lease s now p) in
      ground (
        arith,
        set_nx_taken laws k v (ttl_ms s) (redis.outcome r).1 alive,
        set_nx_either laws k v (ttl_ms s) (redis.outcome r).1 alive,
        laws.get-outcome r k,
        find-put p p (own_lease s now p) s.leases,
        nat_eq_iff p p,
      )
