-- ===== src/Game/Lease/Renewal.antt =====
-- What a renewal round leaves: every lease that is still tracked stands in Redis under this
-- process's own value, so no two processes keep a player after both have renewed.
use some_server.Base.Table.{AllEntries, AllEntries-mono, erase, AllEntries-erased}
use some_server.Base.{
  subst, sym, inc64, ◌∙◌, refl, ℕ, ◌≡◌, Bool, true, false, List, [], ◌∷◌, Bytes, arith, none, some,
  nat_eq, if◌then◌else◌, inl, inr, ◌<◌, bytes_eq_iff, Option-cases, Option, String, ◌⊎◌, Eq_ℕ,
}
use some_server.Game.Redis.{Redis, RedisLaws, integer, command}
use some_server.Game.Lease.{
  PlayerLeaseOwner, LeaseService, build_key, build_value, ttl_ms, refresh_script, refresh_lease,
  renew_each, Table, PlayerLeaseSnapshot, drop_lost, renew_round,
}

abbrev listed : ℕ → List ℕ → Bool
listed k [] = false
listed k (j ∷ js) = if nat_eq j k then true else listed k js

module _ {R : Type 0} (redis : Redis R) (laws : RedisLaws redis) (s : LeaseService)
    (alive : 0 < ttl_ms s) where
  -- The lease of a player stands in Redis under the value of its owner.
  abbrev pub Stands : R → ℕ → PlayerLeaseOwner → Type 0
  Stands r p o = redis.get r (build_key s p) ≡ some (build_value o)

  get-refresh_script :
      (k v j : Bytes) (r : R)
      → redis.get (refresh_script redis k v (ttl_ms s) r).1 j ≡ redis.get r j
  unfolding refresh_script
  get-refresh_script k v j r = ground (arith, laws.get-pexpire r k j (ttl_ms s) alive)

  get-refresh_lease :
      (p : ℕ) (o : PlayerLeaseOwner) (j : Bytes) (r : R)
      → redis.get (refresh_lease redis s p o r).1 j ≡ redis.get r j
  unfolding refresh_lease command
  get-refresh_lease p o j r = ground (
    arith,
    laws.get-outcome r j,
    get-refresh_script (build_key s p) (build_value o) j (redis.outcome r).1,
  )

  refresh_script-Stands :
      (p : ℕ) (o : PlayerLeaseOwner) (r : R)
      → (refresh_script redis (build_key s p) (build_value o) (ttl_ms s) r).0 ≡ integer 1
      → Stands r p o
  unfolding refresh_script
  refresh_script-Stands p o r h = elim (Option-cases (redis.get r (build_key s p))) [
    | inl e ↦ ground arith
    | inr (w, e) ↦ ground (arith, bytes_eq_iff w (build_value o))
  ]

  refresh_lease-Stands :
      (p : ℕ) (o : PlayerLeaseOwner) (r : R) → (refresh_lease redis s p o r).0 ≡ none → Stands r p o
  unfolding refresh_lease command
  refresh_lease-Stands p o r h =
      ground
        (arith, laws.get-outcome r (build_key s p), refresh_script-Stands p o (redis.outcome r).1)

  -- The counters after one attempt to renew.
  abbrev after : Option String → PlayerLeaseSnapshot → PlayerLeaseSnapshot
  after none n = record n { renew_success_count = inc64 n.renew_success_count }
  after (some m) n = record n { renew_failure_count = inc64 n.renew_failure_count; last_error = m }

  abbrev lost_first : Option String → ℕ → List ℕ → List ℕ
  lost_first none p lost = lost
  lost_first (some m) p lost = p ∷ lost

  -- The loop, one lease at a time.
  renew_each_step :
      (p : ℕ) (o : PlayerLeaseOwner) (es : Table ℕ PlayerLeaseOwner) (n : PlayerLeaseSnapshot)
      (r : R)
      → let (err, r') = refresh_lease redis s p o r in
        let (lost, n', r'') = renew_each redis s es (after err n) r' in
        renew_each redis s ((p, o) ∷ es) n r ≡ (lost_first err p lost, n', r'')
  unfolding renew_each
  renew_each_step p o es n r = elim (Option-cases (refresh_lease redis s p o r).0) [
    | inl e ↦ rw (e, renew_each)
    | inr (m, e) ↦ rw (e, renew_each)
  ]

  pub get-renew_each :
      (es : Table ℕ PlayerLeaseOwner) (n : PlayerLeaseSnapshot) (r : R) (j : Bytes)
      → redis.get (renew_each redis s es n r).2 j ≡ redis.get r j
  unfolding renew_each
  get-renew_each [] n r j = refl
  get-renew_each ((p, o) ∷ es) n r j =
      let (err, r') = refresh_lease redis s p o r in
      rw (renew_each_step p o es n r)
        (get-renew_each es (after err n) r' j ∙ get-refresh_lease p o j r)

  -- A lease that was read is lost, or stands in Redis at the end.
  abbrev LostOrStands : List ℕ → R → ℕ → PlayerLeaseOwner → Type 0
  LostOrStands lost r p o = (listed p lost ≡ true) ⊎ Stands r p o

  head-LostOrStands :
      (p : ℕ) (o : PlayerLeaseOwner) (lost : List ℕ) (r final : R)
      → redis.get final (build_key s p) ≡ redis.get r (build_key s p)
      → LostOrStands (lost_first (refresh_lease redis s p o r).0 p lost) final p o
  head-LostOrStands p o lost r final same = elim (Option-cases (refresh_lease redis s p o r).0) [
    | inl e ↦ inr (same ∙ refresh_lease-Stands p o r e)
    | inr (m, e) ↦ inl (rw e (ground arith))
  ]

  later-LostOrStands :
      (err : Option String) (q : ℕ) (lost : List ℕ) (final : R) (p : ℕ) (o : PlayerLeaseOwner)
      → LostOrStands lost final p o
      → LostOrStands (lost_first err q lost) final p o
  later-LostOrStands none q lost final p o h = h
  later-LostOrStands (some m) q lost final p o (inl h) = inl (ground arith)
  later-LostOrStands (some m) q lost final p o (inr h) = inr h

  renew_each-LostOrStands :
      (es : Table ℕ PlayerLeaseOwner) (n : PlayerLeaseSnapshot) (r : R)
      → let (lost, _, final) = renew_each redis s es n r in AllEntries (LostOrStands lost final) es
  renew_each-LostOrStands [] n r = tt
  renew_each-LostOrStands ((p, o) ∷ es) n r =
      let (err, r') = refresh_lease redis s p o r in
      let (lost, _, final) = renew_each redis s es (after err n) r' in
      subst
        (λ (x : List ℕ × PlayerLeaseSnapshot × R). AllEntries (LostOrStands x.0 x.2) ((p, o) ∷ es))
        (sym (renew_each_step p o es n r))
        (
          head-LostOrStands p o lost r final (
              get-renew_each es (after err n) r' (build_key s p)
              ∙ get-refresh_lease p o (build_key s p) r),
          AllEntries-mono (LostOrStands lost final) (LostOrStands (lost_first err p lost) final) es
              (later-LostOrStands err p lost final) (renew_each-LostOrStands es (after err n) r'),
        )

  drop_lost-Stands :
      (lost : List ℕ) (final : R) (t : LeaseService)
      → AllEntries (LostOrStands lost final) t.leases
      → AllEntries (Stands final) (drop_lost redis lost t).leases
  unfolding drop_lost
  drop_lost-Stands [] final t all =
      AllEntries-mono (LostOrStands [] final) (Stands final) t.leases
        (λ p o h. elim h [ inl bad ↦ absurd (ground arith) | inr st ↦ st ]) all
  drop_lost-Stands (q ∷ lost) final t all = drop_lost-Stands lost final _ (
      AllEntries-mono _ (LostOrStands lost final) (erase q t.leases)
        (λ p o h. elim h.1 [ inl l ↦ inl (ground arith) | inr st ↦ inr st ])
        (AllEntries-erased (LostOrStands (q ∷ lost) final) q t.leases all))

  -- After a renewal round every lease that the service still tracks stands in Redis under the
  -- value that this process wrote.
  pub renew_round-Stands :
      (now : ℕ) (r : R)
      → let (t, final) = renew_round redis s now r in AllEntries (Stands final) t.leases
  unfolding renew_round
  renew_round-Stands now r =
      let n = record (s.snapshot) { last_renew_ms = now } in
      let (lost, n', final) = renew_each redis s s.leases n r in
      drop_lost-Stands lost final (record s { snapshot = n' })
        (renew_each-LostOrStands s.leases n r)
