-- ===== src/Game/Session/Others.antt =====
-- What a method of the session service for one player leaves of another.
use some_server.Base.{
  ℕ, ◌≢◌, refl, sym, subst, Bool, not, ◌&&◌, arith, if◌then◌else◌, ◌/=◌, inl, inr, Bool-cases,
  Option-cases, nat_eq_iff, Eq_ℕ, Eq_String,
}
use some_server.Ipc.Types.{Result, success}
use some_server.Base.Table.{find, erase, find-erase}
use some_server.Game.Redis.{Redis}
use some_server.Game.Repository.{DataCodec, Storage, LoadTimes, snapshot}
use some_server.Game.Lease.{is_held_locally}
use some_server.Game.IpcClient.{send_process_payload}
use some_server.Game.Session.{
  GateRef, gate_eq, PlayerSessionRecord, unloading, online, detached, loading, Times, Game,
  with_session, or_else, attach, bind_failed, is_online, is_settled, go_online, session_or_new,
  release_data, bind_player, unbind_player, ensure_runtime, remove_runtime, acquire_lease,
  release_lease, load, load_if_absent, resume, flush, activate_new, activate_again,
  activate_present, activate_player,
}
use some_server.Game.Session.Steps.{
  Same, Same-refl, Same-trans, or_else_cases, release_data-Same, bind_player-Same,
  unbind_player-Same, ensure_runtime-Same, remove_runtime-Same, with_session-Same,
  acquire_lease-Same, release_lease-Same, load-Same, flush-Same,
}
use some_server.Game.Session.Ending.{
  detach_player, detach_player_from, restore, leave, release_session,
}
use some_server.Game.Session.Losses.{notify_gate, reconcile_one}
use some_server.Game.Session.Releases.{begin_unload, release_session_cases}

module _ {D R : Type 0} (p q : ℕ) (other : q ≢ p) where
  -- The second component of a step.
  abbrev Leaves : Game D R → Result × Game D R → Type 0
  Leaves g r = Same p g r.1

  attach-Same :
      (undo_bind undo_runtime : Game D R → Game D R) (next : Game D R → Result × Game D R)
      (g : Game D R)
      → ((h : Game D R) → Same p h (undo_bind h))
      → ((h : Game D R) → Same p h (undo_runtime h))
      → ((h : Game D R) → Same p h (next h).1)
      → Same p g (attach q undo_bind undo_runtime next g).1
  unfolding attach
  attach-Same undo_bind undo_runtime next g u v n =
      let h = (bind_player q g).1 in
      let rest = or_else (ensure_runtime q h) undo_runtime next in
      let to_h = bind_player-Same p q g other in
      let to_i = Same-trans p g h _ to_h (ensure_runtime-Same p q h other) in
      elim (Bool-cases (bind_failed (bind_player q g).0)) [
        | inl t ↦
            subst (λ b. Leaves g (if b then ((bind_player q g).0, undo_bind h) else rest)) (sym t)
              (Same-trans p g h _ to_h (u h))
        | inr t ↦
            subst (λ b. Leaves g (if b then ((bind_player q g).0, undo_bind h) else rest)) (sym t)
              (or_else_cases (Leaves g) (ensure_runtime q h) undo_runtime next
                (λ _. Same-trans p g _ _ to_i (v _)) (λ _. Same-trans p g _ _ to_i (n _)))
      ]

  or_else-Same :
      (g : Game D R) (step : Result × Game D R) (undo : Game D R → Game D R)
      (next : Game D R → Result × Game D R)
      → Same p g step.1
      → ((h : Game D R) → Same p h (undo h))
      → ((h : Game D R) → Same p h (next h).1)
      → Same p g (or_else step undo next).1
  or_else-Same g step undo next s u n =
      or_else_cases (Leaves g) step undo next (λ _. Same-trans p g step.1 _ s (u step.1))
        (λ _. Same-trans p g step.1 _ s (n step.1))

  then-Same :
      (first second : Game D R → Game D R)
      → ((h : Game D R) → Same p h (first h))
      → ((h : Game D R) → Same p h (second h))
      → (h : Game D R) → Same p h (second (first h))
  then-Same first second a b h = Same-trans p h (first h) _ (a h) (b (first h))

module _ {D R : Type 0} (codec : DataCodec) (storage : Storage D) (redis : Redis R) (p q : ℕ)
    (other : q ≢ p) where
  activate_new-Same :
      (times : Times) (gate : GateRef) (allow : Bool) (g : Game D R)
      → Same p g (activate_new codec storage redis times q gate allow g).1
  unfolding activate_new
  activate_new-Same times gate allow g =
      or_else-Same p q other g (acquire_lease redis times.token q g) (λ h. h)
        (λ h. or_else (load codec storage times.load q allow h) (release_lease redis q) rest)
        (acquire_lease-Same redis times.token p q g other) (Same-refl p)
        λ h.
          or_else-Same p q other h (load codec storage times.load q allow h) (release_lease redis q)
            rest (load-Same codec storage times.load p q allow h other)
            (λ i. release_lease-Same redis p q i other)
            λ i.
              attach-Same p q other undo_bind undo_runtime finish i
                (then-Same p q other (release_lease redis q) (λ j. (release_data q j).1)
                  (λ j. release_lease-Same redis p q j other) (λ j. release_data-Same p q j other))
                (then-Same p q other (λ j. (unbind_player q (release_lease redis q j)).1)
                  (λ j. (release_data q j).1)
                  (then-Same p q other (release_lease redis q) (λ j. (unbind_player q j).1)
                    (λ j. release_lease-Same redis p q j other)
                    (λ j. unbind_player-Same p q j other))
                  (λ j. release_data-Same p q j other))
                (λ j. with_session-Same p q _ j other)
    where
      undo_bind : Game D R → Game D R
      undo_bind j = (release_data q (release_lease redis q j)).1

      undo_runtime : Game D R → Game D R
      undo_runtime j = (release_data q (unbind_player q (release_lease redis q j)).1).1

      finish : Game D R → Result × Game D R
      finish j = (
        success,
        with_session q (go_online gate times.changed (session_or_new (find q j.players))) j,
      )

      rest : Game D R → Result × Game D R
      rest j = attach q undo_bind undo_runtime finish j

  load_if_absent-Same :
      (times : LoadTimes) (allow : Bool) (g : Game D R)
      → Same p g (load_if_absent codec storage times q allow g).1
  unfolding load_if_absent
  load_if_absent-Same times allow g = elim (Option-cases (snapshot g.repository q)) [
    | inl e ↦ rw (e, load_if_absent) (load-Same codec storage times p q allow g other)
    | inr (x, e) ↦ rw (e, load_if_absent) (Same-refl p g)
  ]

  resume-Same : (now : ℕ) (gate : GateRef) (g : Game D R) → Same p g (resume redis now q gate g).1
  unfolding resume
  resume-Same now gate g = elim (Option-cases (find q g.players)) [
    | inl e ↦ rw (e, resume) (release_lease-Same redis p q g other)
    | inr (x, e) ↦ elim (Bool-cases (is_settled x.state)) [
      | inl t ↦ rw (e, resume, t) (with_session-Same p q _ g other)
      | inr t ↦ rw (e, resume, t) (release_lease-Same redis p q g other)
    ]
  ]

  activate_again-Same :
      (times : Times) (gate : GateRef) (allow : Bool) (g : Game D R)
      → Same p g (activate_again codec storage redis times q gate allow g).1
  unfolding activate_again
  activate_again-Same times gate allow g =
      or_else-Same p q other g (acquire_lease redis times.token q g) (λ h. h)
        (λ h.
          or_else (load_if_absent codec storage times.load q allow h) (release_lease redis q) rest)
        (acquire_lease-Same redis times.token p q g other) (Same-refl p)
        λ h.
          or_else-Same p q other h (load_if_absent codec storage times.load q allow h)
            (release_lease redis q) rest (load_if_absent-Same times.load allow h)
            (λ i. release_lease-Same redis p q i other)
            λ i.
              attach-Same p q other (release_lease redis q) undo_runtime
                (resume redis times.changed q gate) i (λ j. release_lease-Same redis p q j other)
                (then-Same p q other (release_lease redis q) (λ j. (unbind_player q j).1)
                  (λ j. release_lease-Same redis p q j other) (λ j. unbind_player-Same p q j other))
                (resume-Same times.changed gate)
    where
      undo_runtime : Game D R → Game D R
      undo_runtime j = (unbind_player q (release_lease redis q j)).1

      rest : Game D R → Result × Game D R
      rest j = attach q (release_lease redis q) undo_runtime (resume redis times.changed q gate) j

  activate_present-Same :
      (times : Times) (gate : GateRef) (x : PlayerSessionRecord) (g : Game D R)
      → Same p g (activate_present times q gate x g).1
  unfolding activate_present
  activate_present-Same times gate x g =
      elim x.state as (λ s. Same p g (activate_present times q gate (record x { state = s }) g).1) [
        | online ↦ with_session-Same p q _ g other
        | detached ↦ with_session-Same p q _ g other
        | loading ↦ Same-refl p g
        | unloading ↦ Same-refl p g
      ]

  -- An activation of one player leaves the session, the lease, the receiver, the instance and the
  -- record with the data of any other player as they were.
  pub activate_player-Same :
      (times : Times) (gate : GateRef) (allow : Bool) (g : Game D R)
      → Same p g (activate_player codec storage redis times q gate allow g).1
  unfolding activate_player
  activate_player-Same times gate allow g = elim (Option-cases (find q g.players)) [
    | inl e ↦ rw (e, activate_player) (activate_new-Same times gate allow g)
    | inr (x, e) ↦ elim (Bool-cases (is_settled x.state && not (is_held_locally g.lease q))) [
      | inl t ↦ rw (e, activate_player, t) (activate_again-Same times gate allow g)
      | inr t ↦ rw (e, activate_player, t) (activate_present-Same times gate x g)
    ]
  ]

  leave-Same : (g : Game D R) → Same p g (leave redis q g).1
  unfolding leave
  leave-Same g =
      or_else-Same p q other g (unbind_player q g) (λ h. h)
        (λ h. or_else (release_data q (remove_runtime q h)) (λ i. i) finish)
        (unbind_player-Same p q g other) (Same-refl p)
        λ h.
          or_else-Same p q other h (release_data q (remove_runtime q h)) (λ i. i) finish
            (then-Same p q other (remove_runtime q) (λ i. (release_data q i).1)
              (λ i. remove_runtime-Same p q i other) (λ i. release_data-Same p q i other) h)
            (Same-refl p)
            λ i.
              Same-trans p i (release_lease redis q i) _ (release_lease-Same redis p q i other)
                (erased (release_lease redis q i))
    where
      finish : Game D R → Result × Game D R
      finish i =
          let j = release_lease redis q i in (success, record j { players = erase q j.players })

      erased : (j : Game D R) → Same p j (record j { players = erase q j.players })
      erased j = record {
        session = ground (arith, find-erase q p j.players, nat_eq_iff q p);
        lease = refl;
        receiver = refl;
        runtime = refl;
        record_data = refl;
      }

  pub release_session-Same :
      (now flush_ms : ℕ) (g : Game D R)
      → Same p g (release_session codec storage redis now flush_ms q g).1
  unfolding restore
  release_session-Same now flush_ms g =
      release_session_cases codec storage redis now flush_ms q g (λ r. Same p g r.1)
        (λ _. Same-refl p g)
        (λ x _ _. Same-trans p g (start x) _ (started x) (leave-Same (start x)))
        (λ x _ _. Same-trans p g (start x) _ (started x) (
          Same-trans p (start x) (saved x) _ (flush-Same codec storage flush_ms p q (start x) other)
            (leave-Same (saved x))))
        (λ x _ _. Same-trans p g (start x) _ (started x) (
          Same-trans p (start x) (saved x) _ (flush-Same codec storage flush_ms p q (start x) other)
            (restore-Same x (saved x))))
    where
      start : PlayerSessionRecord → Game D R
      start x = begin_unload now q x g

      saved : PlayerSessionRecord → Game D R
      saved x = (flush codec storage flush_ms q (start x)).1

      started : (x : PlayerSessionRecord) → Same p g (start x)
      started x = with_session-Same p q _ g other

      restore-Same : (x : PlayerSessionRecord) (h : Game D R) → Same p h (restore q x h)
      restore-Same x h = elim (Option-cases (find q h.players)) [
        | inl e ↦ rw (e, restore) (Same-refl p h)
        | inr (y, e) ↦ rw (e, restore) (with_session-Same p q x h other)
      ]

module _ {D R : Type 0} (p q : ℕ) where
  -- The message to the gate leaves every player alone.
  pub notify_gate-Same :
      (scanned : PlayerSessionRecord) (g : Game D R) → Same p g (notify_gate q scanned g)
  unfolding send_process_payload
  notify_gate-Same scanned g =
      elim (Bool-cases (
        is_online scanned.state
        && scanned.gate.service_type /= 0
        && scanned.gate.instance_id /= 0
        && scanned.gate.session_id /= 0)) [
          | inl t ↦ rw t (record {
            session = refl;
            lease = refl;
            receiver = ground arith;
            runtime = refl;
            record_data = refl;
          })
          | inr t ↦ rw t (Same-refl p g)
        ]

module _ {D R : Type 0} (p q : ℕ) (other : q ≢ p) where
  pub detach_player-Same : (now : ℕ) (g : Game D R) → Same p g (detach_player now q g).1
  unfolding detach_player
  detach_player-Same now g = elim (Option-cases (find q g.players)) [
    | inl e ↦ rw (e, detach_player) (Same-refl p g)
    | inr (x, e) ↦ elim (Bool-cases (is_online x.state)) [
      | inl t ↦ rw (e, detach_player, t) (with_session-Same p q _ g other)
      | inr t ↦ rw (e, detach_player, t) (Same-refl p g)
    ]
  ]

  pub detach_player_from-Same :
      (now : ℕ) (gate : GateRef) (g : Game D R) → Same p g (detach_player_from now q gate g).1
  unfolding detach_player_from
  detach_player_from-Same now gate g = elim (Option-cases (find q g.players)) [
    | inl e ↦ rw (e, detach_player_from) (Same-refl p g)
    | inr (x, e) ↦ elim (Bool-cases (is_online x.state)) [
      | inr t ↦ rw (e, detach_player_from, t) (Same-refl p g)
      | inl t ↦ elim (Bool-cases (gate_eq x.gate gate)) [
        | inl u ↦ rw (e, detach_player_from, t, u) (with_session-Same p q _ g other)
        | inr u ↦ rw (e, detach_player_from, t, u) (Same-refl p g)
      ]
    ]
  ]

  pub reconcile_one-Same :
      (now : ℕ) (scanned : PlayerSessionRecord) (g : Game D R)
      → Same p g (reconcile_one now q scanned g).1
  unfolding reconcile_one
  reconcile_one-Same now scanned g = elim (Option-cases (find q h.players)) [
    | inl e ↦ rw (e, reconcile_one) to_h
    | inr (x, e) ↦ elim (Bool-cases (is_held_locally h.lease q)) [
      | inl t ↦ rw (e, reconcile_one, t) to_h
      | inr t ↦ elim (Bool-cases (is_online x.state)) [
        | inl u ↦
            rw (e, reconcile_one, t, u) (Same-trans p g h _ to_h (with_session-Same p q _ h other))
        | inr u ↦ rw (e, reconcile_one, t, u) to_h
      ]
    ]
  ]
    where
      h : Game D R
      h = (unbind_player q (notify_gate q scanned g)).1

      to_h : Same p g h
      to_h =
          Same-trans p g (notify_gate q scanned g) h (notify_gate-Same p q scanned g)
            (unbind_player-Same p q (notify_gate q scanned g) other)
