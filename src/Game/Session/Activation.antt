-- ===== src/Game/Session/Activation.antt =====
-- What an activation of a player leads to.
use some_server.Base.{
  ℕ, ◌≡◌, refl, ap, sym, ◌∙◌, subst, Bool, true, false, not, ◌&&◌, ◌||◌, Option, none, some, arith,
  if◌then◌else◌, ◌/=◌, inl, inr, ◌⊎◌, Bool-cases, Option-cases, nat_eq_iff, Eq_ℕ, Eq_String,
  Eq_Bytes,
}
use some_server.Base.Table.{find, contains, find-put}
use some_server.Ipc.Types.{Result, success, Eq_ProcessRef}
use some_server.Game.Redis.{Redis}
use some_server.Ipc.Directory
use some_server.Ipc.Directory.{entry_or_new, make_key}
use some_server.Game.Lease.{LeaseService, is_held_locally}
use some_server.Game.Repository.{DataCodec, Storage, LoadTimes, snapshot}
use some_server.Game.Runtime.{ensure_player}
use some_server.Game.IpcClient.{IpcClient, bind_local_player, player_receiver_address}
use some_server.Game.Session.{
  GateRef, gate_eq, PlayerSessionRecord, Times, Game, with_session, or_else, attach, bind_failed,
  is_online, is_settled, go_online, move_gate, session_or_new, release_data, bind_player,
  unbind_player, ensure_runtime, acquire_lease, release_lease, load, load_if_absent, resume,
  activate_new, activate_again, activate_present, activate_player,
}
use some_server.Game.Session.Steps.{
  held, bound, running, has_data, or_else_cases, acquire_lease-held, acquire_lease-refused,
  release_lease-held,
}

-- The player is online through the gate.
abbrev pub is_online_at : GateRef → Option PlayerSessionRecord → Bool
is_online_at gate none = false
is_online_at gate (some x) = is_online x.state && gate_eq x.gate gate

abbrev pub settled_at : Option PlayerSessionRecord → Bool
settled_at none = false
settled_at (some x) = is_settled x.state

gate_eq_refl : (a : GateRef) → gate_eq a a ≡ true
gate_eq_refl a = ground (
  arith,
  nat_eq_iff a.service_type a.service_type,
  nat_eq_iff a.instance_id a.instance_id,
  nat_eq_iff a.session_id a.session_id,
)

-- Where a binding does not count as failed, the receiver is there.
bind_local_player_cases :
    (c : IpcClient) (p : ℕ)
    → let (r, c') = bind_local_player c p in
      ((bind_failed r ≡ true) × (r.ok ≡ false))
      ⊎ ((bind_failed r ≡ false) × (contains p c'.receivers ≡ true))
unfolding bind_local_player Directory.bind
bind_local_player_cases c p = elim (Option-cases c.self) [
  | inl e ↦ rw (e, bind_local_player) (inl (refl, refl))
  | inr (q, e) ↦ elim (Bool-cases (contains p c.receivers)) [
    | inl t ↦ rw (e, t, bind_local_player) (inr (refl, t))
    | inr t ↦
        let entry =
          entry_or_new (find (make_key (player_receiver_address p)) c.receiver_directory) in
        elim (Bool-cases (entry.version /= 0 && entry.owner /= q)) [
          | inl other ↦ rw (e, t, bind_local_player, Directory.bind, other) (inl (refl, refl))
          | inr free ↦
              rw (e, t, bind_local_player, Directory.bind, free)
                (inr (refl, ground (arith, find-put p p tt c.receivers, nat_eq_iff p p)))
        ]
  ]
]

module _ {D R : Type 0} where
  -- All that serving a player takes is there.
  abbrev pub is_attached : ℕ → Game D R → Bool
  is_attached p g = bound p g && running p g && has_data p g

  -- A player whose session is settled here, with a lease that is held, is attached.
  abbrev pub is_ready : ℕ → Game D R → Bool
  is_ready p g = not (settled_at (find p g.players) && held p g) || is_attached p g

  bind_player-bound :
      (p : ℕ) (g : Game D R)
      → bind_failed (bind_player p g).0 ≡ false
      → bound p (bind_player p g).1 ≡ true
  unfolding bind_player
  bind_player-bound p g h = ground (arith, bind_local_player_cases g.ipc p)

  ensure_runtime-runs :
      (p : ℕ) (g : Game D R)
      → (ensure_runtime p g).0.ok ≡ true
      → (running p (ensure_runtime p g).1 ≡ true) × (has_data p g ≡ true)
  unfolding ensure_runtime ensure_player snapshot
  ensure_runtime-runs p g h = ground (arith, find-put p p 0 g.runtime, nat_eq_iff p p)

  attach_cases :
      (P : Result × Game D R → Type 0) (p : ℕ) (undo_bind undo_runtime : Game D R → Game D R)
      (next : Game D R → Result × Game D R) (g : Game D R)
      → let h = (bind_player p g).1 in
        (bind_failed (bind_player p g).0 ≡ true → P ((bind_player p g).0, undo_bind h))
        → ((ensure_runtime p h).0.ok ≡ false
            → P ((ensure_runtime p h).0, undo_runtime (ensure_runtime p h).1))
        → (bound p h ≡ true → (ensure_runtime p h).0.ok ≡ true → P (next (ensure_runtime p h).1))
        → P (attach p undo_bind undo_runtime next g)
  unfolding attach
  attach_cases P p undo_bind undo_runtime next g unbound stopped works =
      let h = (bind_player p g).1 in
      let rest = or_else (ensure_runtime p h) undo_runtime next in
      elim (Bool-cases (bind_failed (bind_player p g).0)) [
        | inl t ↦
            subst (λ b. P (if b then ((bind_player p g).0, undo_bind h) else rest)) (sym t)
              (unbound t)
        | inr t ↦
            subst (λ b. P (if b then ((bind_player p g).0, undo_bind h) else rest)) (sym t)
              (or_else_cases P (ensure_runtime p h) undo_runtime next stopped
                (works (bind_player-bound p g t)))
      ]

  -- Success, with the player attached and online through the gate; or failure, with the session
  -- as it was, and no lease unless there was one.
  unfoldable pub Outcome : ℕ → GateRef → Game D R → Result × Game D R → Type 0
  Outcome p gate g (r, h) =
      ((r.ok ≡ true)
        × (is_online_at gate (find p h.players) ≡ true)
        × (held p h ≡ true)
        × (is_attached p h ≡ true))
      ⊎ ((r.ok ≡ false)
          × (find p h.players ≡ find p g.players)
          × ((held p g ≡ true) ⊎ (held p h ≡ false)))

  serves :
      (p : ℕ) (gate : GateRef) (g h : Game D R) (r : Result)
      → r.ok ≡ true
      → is_online_at gate (find p h.players) ≡ true
      → held p h ≡ true
      → is_attached p h ≡ true
      → Outcome p gate g (r, h)
  unfolding Outcome
  serves p gate g h r a b c d = inl (a, b, c, d)

  refuses :
      (p : ℕ) (gate : GateRef) (g h : Game D R) (r : Result)
      → r.ok ≡ false
      → find p h.players ≡ find p g.players
      → (held p g ≡ false → held p h ≡ false)
      → Outcome p gate g (r, h)
  unfolding Outcome
  refuses p gate g h r a b c =
      inr (a, b, elim (Bool-cases (held p g)) [ inl t ↦ inl t | inr t ↦ inr (c t) ])

module _ {D R : Type 0} (codec : DataCodec) (storage : Storage D) (redis : Redis R) where
  activate_new-Outcome :
      (times : Times) (p : ℕ) (gate : GateRef) (allow : Bool) (g : Game D R)
      → Outcome p gate g (activate_new codec storage redis times p gate allow g)
  unfolding activate_new load release_data bind_player unbind_player ensure_runtime release_lease
      acquire_lease
  activate_new-Outcome times p gate allow g =
      let a = (acquire_lease redis times.token p g).1 in
      let l = (load codec storage times.load p allow a).1 in
      let b = (bind_player p l).1 in
      let e = (ensure_runtime p b).1 in
      let undo_bind = λ (j : Game D R). (release_data p (release_lease redis p j)).1 in
      let undo_runtime =
        λ (j : Game D R). (release_data p (unbind_player p (release_lease redis p j)).1).1 in
      let finish : Game D R → Result × Game D R = λ j. (
        success,
        with_session p (go_online gate times.changed (session_or_new (find p j.players))) j,
      ) in
      let rest = λ (j : Game D R). attach p undo_bind undo_runtime finish j in
      or_else_cases (Outcome p gate g) (acquire_lease redis times.token p g) (λ h. h)
        (λ h. or_else (load codec storage times.load p allow h) (release_lease redis p) rest)
        (λ f. refuses p gate g a _ f refl (λ n. acquire_lease-refused redis times.token p g f n))
        λ ac.
          or_else_cases (Outcome p gate g) (load codec storage times.load p allow a)
            (release_lease redis p) rest
            (λ f. refuses p gate g _ _ f refl (λ n. release_lease-held redis p l))
            λ lo.
              attach_cases (Outcome p gate g) p undo_bind undo_runtime finish l
                (λ f. refuses p gate g _ _ (ground arith) refl (λ n. release_lease-held redis p b))
                (λ f. refuses p gate g _ _ f refl (λ n. release_lease-held redis p e))
                λ bo en.
                  serves p gate g (finish e).1 _ refl
                    (ground (
                      arith,
                      find-put p p
                          (go_online gate times.changed (session_or_new (find p e.players)))
                          e.players,
                      nat_eq_iff p p,
                      gate_eq_refl gate,
                    ))
                    (acquire_lease-held redis times.token p g ac)
                    (ground (arith, ensure_runtime-runs p b en))

  load_if_absent-keeps :
      (times : LoadTimes) (p : ℕ) (allow : Bool) (g : Game D R)
      → let h = (load_if_absent codec storage times p allow g).1 in
        (h.players ≡ g.players) × (h.lease ≡ g.lease)
  unfolding load_if_absent load
  load_if_absent-keeps times p allow g = elim (Option-cases (snapshot g.repository p)) [
    | inl e ↦ rw (e, load_if_absent) (refl, refl)
    | inr (x, e) ↦ rw (e, load_if_absent) (refl, refl)
  ]

  resume-Outcome :
      (now p : ℕ) (gate : GateRef) (g h : Game D R)
      → find p h.players ≡ find p g.players
      → held p h ≡ true
      → is_attached p h ≡ true
      → Outcome p gate g (resume redis now p gate h)
  unfolding Outcome resume release_lease
  resume-Outcome now p gate g h same lease attached = elim (Option-cases (find p h.players)) [
    | inl e ↦ rw (e, resume) (inr (refl, same, inr (release_lease-held redis p h)))
    | inr (x, e) ↦ elim (Bool-cases (is_settled x.state)) [
      | inl t ↦
          rw (e, resume, t)
            (inl (
              refl,
              ground (
                arith,
                find-put p p (go_online gate now x) h.players,
                nat_eq_iff p p,
                gate_eq_refl gate,
              ),
              lease,
              attached,
            ))
      | inr t ↦ rw (e, resume, t) (inr (refl, same, inr (release_lease-held redis p h)))
    ]
  ]

  activate_again-Outcome :
      (times : Times) (p : ℕ) (gate : GateRef) (allow : Bool) (g : Game D R)
      → Outcome p gate g (activate_again codec storage redis times p gate allow g)
  unfolding activate_again bind_player unbind_player ensure_runtime release_lease acquire_lease
  activate_again-Outcome times p gate allow g =
      let a = (acquire_lease redis times.token p g).1 in
      let l = (load_if_absent codec storage times.load p allow a).1 in
      let b = (bind_player p l).1 in
      let e = (ensure_runtime p b).1 in
      let undo_runtime = λ (j : Game D R). (unbind_player p (release_lease redis p j)).1 in
      let finish = λ (j : Game D R). resume redis times.changed p gate j in
      let rest = λ (j : Game D R). attach p (release_lease redis p) undo_runtime finish j in
      let kept = load_if_absent-keeps times.load p allow a in
      let same = ap (find p) kept.0 in
      or_else_cases (Outcome p gate g) (acquire_lease redis times.token p g) (λ h. h)
        (λ h.
          or_else (load_if_absent codec storage times.load p allow h) (release_lease redis p) rest)
        (λ f. refuses p gate g a _ f refl (λ n. acquire_lease-refused redis times.token p g f n))
        λ ac.
          or_else_cases (Outcome p gate g) (load_if_absent codec storage times.load p allow a)
            (release_lease redis p) rest
            (λ f. refuses p gate g _ _ f same (λ n. release_lease-held redis p l))
            λ lo.
              attach_cases (Outcome p gate g) p (release_lease redis p) undo_runtime finish l
                (λ f. refuses p gate g _ _ (ground arith) same (λ n. release_lease-held redis p b))
                (λ f. refuses p gate g _ _ f same (λ n. release_lease-held redis p e))
                λ bo en.
                  resume-Outcome times.changed p gate g e same
                    (ap (λ (x : LeaseService). is_held_locally x p) kept.1
                      ∙ acquire_lease-held redis times.token p g ac)
                    (ground (arith, ensure_runtime-runs p b en))

  activate_present-Outcome :
      (times : Times) (p : ℕ) (gate : GateRef) (x : PlayerSessionRecord) (g : Game D R)
      → find p g.players ≡ some x
      → not (is_settled x.state) || held p g ≡ true
      → is_ready p g ≡ true
      → Outcome p gate g (activate_present times p gate x g)
  unfolding Outcome activate_present
  activate_present-Outcome times p gate x g found lease ready = ground (
    arith,
    find-put p p (move_gate gate times.changed x) g.players,
    find-put p p (go_online gate times.changed x) g.players,
    nat_eq_iff p p,
    gate_eq_refl gate,
  )

  -- An activation of a player of a game whose settled sessions are attached, where their lease
  -- is held, ends in one of two ways: success, with the player online through the given gate,
  -- the lease held, the receiver bound, the instance running and the data loaded; or failure,
  -- with the session as it was, and with no lease where none was held before.
  pub activate_player-Outcome :
      (times : Times) (p : ℕ) (gate : GateRef) (allow : Bool) (g : Game D R)
      → is_ready p g ≡ true
      → Outcome p gate g (activate_player codec storage redis times p gate allow g)
  unfolding activate_player
  activate_player-Outcome times p gate allow g ready = elim (Option-cases (find p g.players)) [
    | inl e ↦ rw (e, activate_player) (activate_new-Outcome times p gate allow g)
    | inr (x, e) ↦ elim (Bool-cases (is_settled x.state && not (is_held_locally g.lease p))) [
      | inl t ↦ rw (e, activate_player, t) (activate_again-Outcome times p gate allow g)
      | inr t ↦
          rw (e, activate_player, t)
            (activate_present-Outcome times p gate x g e (ground arith) ready)
    ]
  ]
