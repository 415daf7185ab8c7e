-- ===== src/Game/Lease/Exclusion.antt =====
-- A service tracks only leases of its own process, and two processes never keep one player.
use some_server.Base.{
  subst, ℕ, ◌≡◌, ◌≢◌, refl, ap, true, false, List, [], ◌∷◌, ◌++◌, Bytes, arith, none, some, inl,
  inr, ◌⊎◌, ◌<◌, ◌∙◌, sym, Option-cases, Eq_ℕ,
}
use some_server.Base.Table.{find, AllEntries, AllEntries-find, AllEntries-erase, AllEntries-put}
use some_server.Game.Redis.{Redis, RedisLaws}
use some_server.Game.Lease.{
  PlayerLeaseOwner, LeaseService, build_key, build_value, ttl_ms, own_lease, acquire, release,
  renew_each, renew_round, drop_lost, is_held_locally, to_string,
}
use some_server.Game.Lease.Acquire.{acquire_cases}
use some_server.Game.Lease.Text.{build_value-process}
use some_server.Game.Lease.Renewal.{Stands, renew_round-Stands, get-renew_each}

-- The owner of every tracked lease is this process.
abbrev pub Own : LeaseService → ℕ → PlayerLeaseOwner → Type 0
Own s p o = (o.game_service_type ≡ s.game_service_type) × (o.game_instance_id ≡ s.game_instance_id)

abbrev pub IsOwn : LeaseService → Type 0
IsOwn s = AllEntries (Own s) s.leases

build_key-prefix :
    (s t : LeaseService) (p : ℕ)
    → s.redis_key_prefix ≡ t.redis_key_prefix
    → build_key s p ≡ build_key t p
unfolding build_key
build_key-prefix s t p same = ap (λ (prefix : Bytes). prefix ++ to_string p) same

module _ {R : Type 0} (redis : Redis R) where
  acquire-IsOwn :
      (s : LeaseService) (now p : ℕ) (r : R) → IsOwn s → IsOwn (acquire redis s now p r).1
  acquire-IsOwn s now p r own = elim (acquire_cases redis s now p r) [
    | inl e ↦ subst IsOwn (sym e) own
    | inr e ↦
        subst IsOwn (sym e) (AllEntries-put (Own s) p (own_lease s now p) s.leases own (refl, refl))
  ]

  release-IsOwn : (s : LeaseService) (p : ℕ) (r : R) → IsOwn s → IsOwn (release redis s p r).1
  unfolding release
  release-IsOwn s p r own = elim (Option-cases (find p s.leases)) [
    | inl e ↦ rw (e, release) own
    | inr (o, e) ↦ rw (e, release) (AllEntries-erase (Own s) p s.leases own)
  ]

  drop_lost-IsOwn :
      (s : LeaseService) (lost : List ℕ) (t : LeaseService)
      → AllEntries (Own s) t.leases
      → AllEntries (Own s) (drop_lost redis lost t).leases
  unfolding drop_lost
  drop_lost-IsOwn s [] t own = own
  drop_lost-IsOwn s (p ∷ lost) t own =
      drop_lost-IsOwn s lost _ (AllEntries-erase (Own s) p t.leases own)

  -- The identity of the process is fixed.
  same_process :
      (lost : List ℕ) (t : LeaseService)
      → ((drop_lost redis lost t).game_service_type ≡ t.game_service_type)
        × ((drop_lost redis lost t).game_instance_id ≡ t.game_instance_id)
  unfolding drop_lost
  same_process [] t = (refl, refl)
  same_process (p ∷ lost) t = same_process lost _

  renew_round-IsOwn :
      (s : LeaseService) (now : ℕ) (r : R)
      → IsOwn s
      → AllEntries (Own s) (renew_round redis s now r).0.leases
  unfolding renew_round
  renew_round-IsOwn s now r own =
      let (lost, n, _) =
        renew_each redis s s.leases (record (s.snapshot) { last_renew_ms = now }) r in
      drop_lost-IsOwn s lost (record s { snapshot = n }) own

  get-renew_round :
      (laws : RedisLaws redis) (s : LeaseService) (alive : 0 < ttl_ms s) (now : ℕ) (r : R)
      (j : Bytes)
      → redis.get (renew_round redis s now r).1 j ≡ redis.get r j
  unfolding renew_round
  get-renew_round laws s alive now r j = get-renew_each redis laws s alive s.leases _ r j

  -- A lease that is tracked after a round stood in Redis before it and after it.
  tracked_after_round :
      (laws : RedisLaws redis) (s : LeaseService) (now p : ℕ) (o : PlayerLeaseOwner) (r : R)
      → 0 < ttl_ms s
      → IsOwn s
      → find p (renew_round redis s now r).0.leases ≡ some o
      → (redis.get r (build_key s p) ≡ some (build_value o))
        × (redis.get (renew_round redis s now r).1 (build_key s p) ≡ some (build_value o))
        × Own s p o
  tracked_after_round laws s now p o r alive own e =
      let after = renew_round redis s now r in
      let stands =
        AllEntries-find (Stands redis laws s alive after.1) p o after.0.leases
          (renew_round-Stands redis laws s alive now r) e in
      (
        sym (get-renew_round laws s alive now r (build_key s p)) ∙ stands,
        stands,
        AllEntries-find (Own s) p o after.0.leases (renew_round-IsOwn s now r own) e,
      )

  -- Two game processes with the same key prefix have each made a renewal round, one after the
  -- other, and in between keys of Redis at most expired. Then no player is tracked by both.
  pub no_double_ownership :
      (laws : RedisLaws redis) (s t : LeaseService) (now later p : ℕ) (r r' : R)
      → 0 < ttl_ms s
      → 0 < ttl_ms t
      → IsOwn s
      → IsOwn t
      → s.redis_key_prefix ≡ t.redis_key_prefix
      → ((s.game_service_type ≢ t.game_service_type) ⊎ (s.game_instance_id ≢ t.game_instance_id))
      → ((j : Bytes)
          → (redis.get r' j ≡ none) ⊎ (redis.get r' j ≡ redis.get (renew_round redis s now r).1 j))
      → is_held_locally (renew_round redis s now r).0 p ≡ true
      → is_held_locally (renew_round redis t later r').0 p ≡ false
  unfolding is_held_locally
  no_double_ownership laws s t now later p r r' alive_s alive_t own_s own_t prefix other expired
        held =
      elim (Option-cases (find p (renew_round redis t later r').0.leases)) [
        | inl e ↦ rw e
        | inr (o, e) ↦ elim (Option-cases (find p (renew_round redis s now r).0.leases)) [
          | inl bad ↦ ground arith
          | inr (q, e') ↦ ground (
            arith,
            expired (build_key s p),
            tracked_after_round laws t later p o r' alive_t own_t e,
            tracked_after_round laws s now p q r alive_s own_s e',
            build_key-prefix s t p prefix,
            build_value-process o q,
          )
        ]
      ]
