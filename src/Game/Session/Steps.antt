-- ===== src/Game/Session/Steps.antt =====
-- What each step of a method of the session service changes, and what it leaves alone.
use some_server.Base.{
  ℕ, ◌≡◌, ◌≢◌, refl, sym, ap, ◌∙◌, subst, Bool, true, false, arith, if◌then◌else◌, inl, inr,
  Bool-cases, Option-cases, nat_eq_iff, is_some, none, some, Eq_ℕ, Eq_String,
}
use some_server.Base.Table.{find, put, contains, find-put, find-erase}
use some_server.Base.Decimal.{to_string}
use some_server.Ipc.Types.{Result, Eq_ProcessRef}
use some_server.Game.Redis.{Redis}
use some_server.Game.Lease
use some_server.Game.Lease.{LeaseService, is_held_locally}
use some_server.Game.Repository.{
  Repository, DataCodec, Storage, LoadTimes, PlayerRepositoryRecord, load_player, flush_player,
  flushed, record_or_new, finish_load, created, snapshot, release_player,
}
use some_server.Game.Runtime.{ensure_player, remove_player, loaded_record}
use some_server.Game.IpcClient.{bind_local_player, unbind_local_player}
use some_server.Game.Session.{
  PlayerSessionRecord, Game, with_session, or_else, release_data, bind_player, unbind_player,
  ensure_runtime, remove_runtime, acquire_lease, release_lease, load, flush,
}

module _ {D R : Type 0} where
  abbrev pub held : ℕ → Game D R → Bool
  held p g = is_held_locally g.lease p

  abbrev pub bound : ℕ → Game D R → Bool
  bound p g = contains p g.ipc.receivers

  abbrev pub running : ℕ → Game D R → Bool
  running p g = contains p g.runtime

  abbrev pub has_data : ℕ → Game D R → Bool
  has_data p g = is_some (loaded_record g.repository p)

  -- What the services of this process keep for a player: the session, the lease, the receiver, the
  -- instance and the record with its data.
  pub record Same (p : ℕ) (g h : Game D R) : Type 0 where
    pub session : find p h.players ≡ find p g.players
    pub lease : find p h.lease.leases ≡ find p g.lease.leases
    pub receiver : find p h.ipc.receivers ≡ find p g.ipc.receivers
    pub runtime : find p h.runtime ≡ find p g.runtime
    pub record_data : find p h.repository ≡ find p g.repository

  pub Same-held : (p : ℕ) (g h : Game D R) → Same p g h → held p h ≡ held p g
  unfolding is_held_locally
  Same-held p g h same = ap is_some same.lease

  pub Same-bound : (p : ℕ) (g h : Game D R) → Same p g h → bound p h ≡ bound p g
  Same-bound p g h same = ap is_some same.receiver

  pub Same-running : (p : ℕ) (g h : Game D R) → Same p g h → running p h ≡ running p g
  Same-running p g h same = ap is_some same.runtime

  pub Same-has_data : (p : ℕ) (g h : Game D R) → Same p g h → has_data p h ≡ has_data p g
  unfolding snapshot
  Same-has_data p g h same =
      ap (λ x. is_some (elim x [ none ↦ none | some r ↦ if r.loaded then some r else none ]))
        same.record_data

  -- The answers to whether a player has the lease, a receiver, an instance and data, and the session.
  pub record Alike (p : ℕ) (g h : Game D R) : Type 0 where
    pub session : find p h.players ≡ find p g.players
    pub lease : held p h ≡ held p g
    pub receiver : bound p h ≡ bound p g
    pub runtime : running p h ≡ running p g
    pub record_data : has_data p h ≡ has_data p g

  pub Same-Alike : (p : ℕ) (g h : Game D R) → Same p g h → Alike p g h
  Same-Alike p g h same = record {
    session = same.session;
    lease = Same-held p g h same;
    receiver = Same-bound p g h same;
    runtime = Same-running p g h same;
    record_data = Same-has_data p g h same;
  }

  pub Same-refl : (p : ℕ) (g : Game D R) → Same p g g
  Same-refl p g = record {
    session = refl;
    lease = refl;
    receiver = refl;
    runtime = refl;
    record_data = refl;
  }

  pub Same-trans : (p : ℕ) (g h i : Game D R) → Same p g h → Same p h i → Same p g i
  Same-trans p g h i a b = record {
    session = b.session ∙ a.session;
    lease = b.lease ∙ a.lease;
    receiver = b.receiver ∙ a.receiver;
    runtime = b.runtime ∙ a.runtime;
    record_data = b.record_data ∙ a.record_data;
  }

  pub release_data-Same : (p q : ℕ) (g : Game D R) → q ≢ p → Same p g (release_data q g).1
  unfolding release_data release_player snapshot
  release_data-Same p q g other = record {
    session = refl;
    lease = refl;
    receiver = refl;
    runtime = refl;
    record_data = ground (arith, find-erase q p g.repository, nat_eq_iff q p);
  }

  pub bind_player-Same : (p q : ℕ) (g : Game D R) → q ≢ p → Same p g (bind_player q g).1
  unfolding bind_player bind_local_player
  bind_player-Same p q g other = record {
    session = refl;
    lease = refl;
    receiver = ground (
      arith,
      find-put q p tt g.ipc.receivers,
      find-erase q p (put q tt g.ipc.receivers),
      nat_eq_iff q p,
    );
    runtime = refl;
    record_data = refl;
  }

  pub unbind_player-Same : (p q : ℕ) (g : Game D R) → q ≢ p → Same p g (unbind_player q g).1
  unfolding unbind_player unbind_local_player
  unbind_player-Same p q g other = record {
    session = refl;
    lease = refl;
    receiver = ground (arith, find-erase q p g.ipc.receivers, nat_eq_iff q p);
    runtime = refl;
    record_data = refl;
  }

  pub ensure_runtime-Same : (p q : ℕ) (g : Game D R) → q ≢ p → Same p g (ensure_runtime q g).1
  unfolding ensure_runtime ensure_player
  ensure_runtime-Same p q g other = record {
    session = refl;
    lease = refl;
    receiver = refl;
    runtime = ground (arith, find-put q p 0 g.runtime, nat_eq_iff q p);
    record_data = refl;
  }

  pub remove_runtime-Same : (p q : ℕ) (g : Game D R) → q ≢ p → Same p g (remove_runtime q g)
  unfolding remove_runtime remove_player
  remove_runtime-Same p q g other = record {
    session = refl;
    lease = refl;
    receiver = refl;
    runtime = ground (arith, find-erase q p g.runtime, nat_eq_iff q p);
    record_data = refl;
  }

  pub with_session-Same :
      (p q : ℕ) (x : PlayerSessionRecord) (g : Game D R) → q ≢ p → Same p g (with_session q x g)
  with_session-Same p q x g other = record {
    session = ground (arith, find-put q p x g.players, nat_eq_iff q p);
    lease = refl;
    receiver = refl;
    runtime = refl;
    record_data = refl;
  }

  -- The branches of a step that may fail, and of the two that attach a player to this process.
  pub or_else_cases :
      (P : Result × Game D R → Type 0) (step : Result × Game D R) (undo : Game D R → Game D R)
      (next : Game D R → Result × Game D R)
      → (step.0.ok ≡ false → P (step.0, undo step.1))
      → (step.0.ok ≡ true → P (next step.1))
      → P (or_else step undo next)
  unfolding or_else
  or_else_cases P (r, g) undo next fails works = elim (Bool-cases r.ok) [
    | inl t ↦ subst (λ b. P (if b then next g else (r, undo g))) (sym t) (works t)
    | inr t ↦ subst (λ b. P (if b then next g else (r, undo g))) (sym t) (fails t)
  ]

module _ {D R : Type 0} (redis : Redis R) where
  pub acquire_lease-Same :
      (now p q : ℕ) (g : Game D R) → q ≢ p → Same p g (acquire_lease redis now q g).1
  unfolding acquire_lease is_held_locally Lease.acquire
  acquire_lease-Same now p q g other = record {
    session = refl;
    lease =
        ground (arith, find-put q p (Lease.own_lease g.lease now q) g.lease.leases, nat_eq_iff q p);
    receiver = refl;
    runtime = refl;
    record_data = refl;
  }

  pub release_lease-Same : (p q : ℕ) (g : Game D R) → q ≢ p → Same p g (release_lease redis q g)
  unfolding release_lease is_held_locally Lease.release
  release_lease-Same p q g other = record {
    session = refl;
    lease = ground (arith, find-erase q p g.lease.leases, nat_eq_iff q p);
    receiver = refl;
    runtime = refl;
    record_data = refl;
  }

  pub acquire_lease-held :
      (now p : ℕ) (g : Game D R)
      → (acquire_lease redis now p g).0.ok ≡ true
      → held p (acquire_lease redis now p g).1 ≡ true
  unfolding acquire_lease is_held_locally Lease.acquire
  acquire_lease-held now p g h =
      ground (arith, find-put p p (Lease.own_lease g.lease now p) g.lease.leases, nat_eq_iff p p)

  pub acquire_lease-refused :
      (now p : ℕ) (g : Game D R)
      → (acquire_lease redis now p g).0.ok ≡ false
      → held p g ≡ false
      → held p (acquire_lease redis now p g).1 ≡ false
  unfolding acquire_lease is_held_locally Lease.acquire
  acquire_lease-refused now p g h n = ground arith

  pub release_lease-held : (p : ℕ) (g : Game D R) → held p (release_lease redis p g) ≡ false
  unfolding release_lease is_held_locally Lease.release
  release_lease-held p g = ground (arith, find-erase p p g.lease.leases, nat_eq_iff p p)

module _ {D : Type 0} (codec : DataCodec) (storage : Storage D) where
  -- A load changes the record of its player only.
  pub find-load_player :
      (m : Repository) (times : LoadTimes) (p q : ℕ) (allow : Bool) (d : D)
      → q ≢ p
      → find p (load_player codec storage m times q allow d).1 ≡ find p m
  unfolding load_player
  find-load_player m times p q allow d other =
      let before = record_or_new (find q m) in
      let content = (codec.parse (storage.dataset_get d (to_string q)).1).1 in
      let x : PlayerRepositoryRecord = record before { player_data = content } in
      ground (
        arith,
        find-put q p (finish_load times x) m,
        find-put q p x m,
        find-put q p before m,
        find-put q p (finish_load times (created times q false)) m,
        find-put q p (finish_load times (created times q true)) m,
        nat_eq_iff q p,
      )

module _ {D R : Type 0} (codec : DataCodec) (storage : Storage D) where
  pub load-Same :
      (times : LoadTimes) (p q : ℕ) (allow : Bool) (g : Game D R)
      → q ≢ p
      → Same p g (load codec storage times q allow g).1
  unfolding load snapshot
  load-Same times p q allow g other = record {
    session = refl;
    lease = refl;
    receiver = refl;
    runtime = refl;
    record_data =
        ground (
          arith,
          find-load_player codec storage g.repository times p q allow g.storage_state other,
        );
  }

  pub flush-Same : (now p q : ℕ) (g : Game D R) → q ≢ p → Same p g (flush codec storage now q g).1
  unfolding flush flush_player snapshot
  flush-Same now p q g other = record {
    session = refl;
    lease = refl;
    receiver = refl;
    runtime = refl;
    record_data = elim (Option-cases (find q g.repository)) [
      | inl e ↦ ground arith
      | inr (x, e) ↦
          ground
            (arith, find-put q p (flushed codec storage now x) g.repository, nat_eq_iff q p, other)
    ];
  }

  -- A flush changes what is noted in the record of its player, and no more.
  pub flush-Alike : (now p q : ℕ) (g : Game D R) → Alike p g (flush codec storage now q g).1
  unfolding flush flush_player snapshot
  flush-Alike now p q g = record {
    session = refl;
    lease = refl;
    receiver = refl;
    runtime = refl;
    record_data = elim (Option-cases (find q g.repository)) [
      | inl e ↦ ground arith
      | inr (x, e) ↦
          ground (arith, find-put q p (flushed codec storage now x) g.repository, nat_eq_iff q p)
    ];
  }
