-- ===== src/Game/Session/Stuck.antt =====
-- A session that is released after its receiver was unbound stays in the state `unloading`.
use some_server.Base.{
  ℕ, ◌≡◌, refl, sym, subst, Bool, true, false, not, ◌&&◌, Option, none, some, List, [], ◌∷◌, arith,
  nat_eq, inl, inr, Bool-cases, nat_eq_iff, Eq_ℕ,
}
use some_server.Base.Table.{find, find-put}
use some_server.Ipc.Types.{Result, failure}
use some_server.Game.Redis.{Redis}
use some_server.Game.Repository.{DataCodec, Storage, snapshot}
use some_server.Game.IpcClient.{unbind_local_player}
use some_server.Game.Session.{
  GateRef, PlayerSessionRecord, unloading, Times, Game, or_else, is_settled, unbind_player, flush,
  activate_present, activate_player,
}
use some_server.Game.Session.Steps.{Same, Alike, Same-Alike, bound, flush-Alike}
use some_server.Game.Session.Ending.{
  is_dirty, detach_player, detach_player_from, restore, leave, release_session, release_each,
  expire_detached_players, expired_players,
}
use some_server.Game.Session.Losses.{
  notify_gate, reconcile_one, reconcile_each, reconcile_lease_losses, lost_players,
}
use some_server.Game.Session.Others.{
  activate_player-Same, release_session-Same, detach_player-Same, detach_player_from-Same,
  reconcile_one-Same, notify_gate-Same,
}
use some_server.Game.Session.Releases.{begin_unload, release_session_cases}
use some_server.Game.Session.Calls.{
  Call, activates, detaches, detaches_from, releases, expires, reconciles, renews, step, run, renew,
}

abbrev is_unloading : Option PlayerSessionRecord → Bool
is_unloading none = false
is_unloading (some x) = not (is_settled x.state) && elim x.state [ unloading ↦ true | _ ↦ false ]

module _ {D R : Type 0} where
  -- The session is unloading, and its receiver is not bound.
  abbrev pub is_stuck : ℕ → Game D R → Bool
  is_stuck p g = is_unloading (find p g.players) && not (bound p g)

  stuck-Alike : (p : ℕ) (g h : Game D R) → Alike p g h → is_stuck p g ≡ true → is_stuck p h ≡ true
  stuck-Alike p g h alike stuck = ground (arith, alike.session, alike.receiver)

  stuck_transport :
      (p : ℕ) (g h : Game D R) → Same p g h → is_stuck p g ≡ true → is_stuck p h ≡ true
  stuck_transport p g h same stuck = stuck-Alike p g h (Same-Alike p g h same) stuck

  -- A receiver that is not bound cannot be unbound.
  unbind_player-unbound :
      (p : ℕ) (g : Game D R)
      → bound p g ≡ false
      → ((unbind_player p g).0.ok ≡ false) × ((unbind_player p g).1 ≡ g)
  unfolding unbind_player unbind_local_player
  unbind_player-unbound p g e = ground arith

  detach_player-stuck :
      (now p : ℕ) (g : Game D R) → is_stuck p g ≡ true → is_stuck p (detach_player now p g).1 ≡ true
  unfolding detach_player
  detach_player-stuck now p g stuck = ground arith

  detach_player_from-stuck :
      (now p : ℕ) (gate : GateRef) (g : Game D R)
      → is_stuck p g ≡ true
      → is_stuck p (detach_player_from now p gate g).1 ≡ true
  unfolding detach_player_from
  detach_player_from-stuck now p gate g stuck = ground arith

  reconcile_one-stuck :
      (now p : ℕ) (scanned : PlayerSessionRecord) (g : Game D R)
      → is_stuck p g ≡ true
      → is_stuck p (reconcile_one now p scanned g).1 ≡ true
  unfolding reconcile_one
  reconcile_one-stuck now p scanned g stuck =
      let h = notify_gate p scanned g in
      let told = Same-Alike p g h (notify_gate-Same p p scanned g) in
      ground (arith, told.session, told.receiver, unbind_player-unbound p h)

module _ {D R : Type 0} (redis : Redis R) where
  leave-unbound :
      (p : ℕ) (g : Game D R)
      → bound p g ≡ false
      → ((leave redis p g).0.ok ≡ false) × ((leave redis p g).1 ≡ g)
  unfolding leave or_else
  leave-unbound p g e = ground (arith, unbind_player-unbound p g e)

module _ {D R : Type 0} (codec : DataCodec) (storage : Storage D) (redis : Redis R) where
  -- A failure that leaves the player stuck.
  abbrev pub Refused : ℕ → Result × Game D R → Type 0
  Refused p r = (r.0.ok ≡ false) × (is_stuck p r.1 ≡ true)

  leave-stuck : (p : ℕ) (g : Game D R) → is_stuck p g ≡ true → Refused p (leave redis p g)
  leave-stuck p g stuck = ground (arith, leave-unbound redis p g)

  begin_unload-stuck :
      (now p : ℕ) (x : PlayerSessionRecord) (g : Game D R)
      → bound p g ≡ false
      → is_stuck p (begin_unload now p x g) ≡ true
  begin_unload-stuck now p x g e = ground (
    arith,
    find-put p p (record x { state = unloading; last_state_change_ms = now }) g.players,
    nat_eq_iff p p,
  )

  -- `ReleasePlayer` of a player who has a session, whose receiver is not bound and whose data is
  -- not dirty fails and leaves the session unloading, with the receiver not bound.
  pub release_unbound :
      (now flush_ms p : ℕ) (x : PlayerSessionRecord) (g : Game D R)
      → find p g.players ≡ some x
      → bound p g ≡ false
      → is_dirty (snapshot g.repository p) ≡ false
      → Refused p (release_session codec storage redis now flush_ms p g)
  unfolding release_session
  release_unbound now flush_ms p x g found unbound clean =
      rw (found, release_session, clean)
        (leave-stuck p (begin_unload now p x g) (begin_unload-stuck now p x g unbound))

  release_session-stuck :
      (now flush_ms p : ℕ) (g : Game D R)
      → is_stuck p g ≡ true
      → Refused p (release_session codec storage redis now flush_ms p g)
  unfolding restore
  release_session-stuck now flush_ms p g stuck =
      release_session_cases codec storage redis now flush_ms p g (Refused p) (λ e. (refl, stuck))
        (λ x _ _. leave-stuck p (begin_unload now p x g) (begun x))
        (λ x _ _. leave-stuck p (saved x) (still x))
        (λ x e _. (refl, ground (arith, still x, find-put p p x (saved x).players, nat_eq_iff p p)))
    where
      saved : PlayerSessionRecord → Game D R
      saved x = (flush codec storage flush_ms p (begin_unload now p x g)).1

      begun : (x : PlayerSessionRecord) → is_stuck p (begin_unload now p x g) ≡ true
      begun x = begin_unload-stuck now p x g (ground arith)

      still : (x : PlayerSessionRecord) → is_stuck p (saved x) ≡ true
      still x =
          stuck-Alike p (begin_unload now p x g) (saved x)
            (flush-Alike codec storage flush_ms p p (begin_unload now p x g)) (begun x)

  activate_player-stuck :
      (times : Times) (p : ℕ) (gate : GateRef) (allow : Bool) (g : Game D R)
      → is_stuck p g ≡ true
      → activate_player codec storage redis times p gate allow g
        ≡ (failure "player is transitioning and cannot be activated", g)
  unfolding activate_player activate_present
  activate_player-stuck times p gate allow g stuck = ground arith

  release_each-stuck :
      (now flush_ms p : ℕ) (qs : List ℕ) (g : Game D R)
      → is_stuck p g ≡ true
      → is_stuck p (release_each codec storage redis now flush_ms qs g).1 ≡ true
  unfolding release_each
  release_each-stuck now flush_ms p [] g stuck = stuck
  release_each-stuck now flush_ms p (q ∷ qs) g stuck =
      release_each-stuck now flush_ms p qs (release_session codec storage redis now flush_ms q g).1
        (elim (Bool-cases (nat_eq q p)) [
          | inr t ↦
              stuck_transport p g _
                (release_session-Same codec storage redis p q (ground (arith, nat_eq_iff q p)) now
                  flush_ms g)
                stuck
          | inl t ↦
              subst
                (λ j. is_stuck p (release_session codec storage redis now flush_ms j g).1 ≡ true)
                (sym ((nat_eq_iff q p).0 t)) (release_session-stuck now flush_ms p g stuck).1
        ])

  reconcile_each-stuck :
      (now p : ℕ) (lost : List (ℕ × PlayerSessionRecord)) (g : Game D R)
      → is_stuck p g ≡ true
      → is_stuck p (reconcile_each now lost g).1 ≡ true
  unfolding reconcile_each
  reconcile_each-stuck now p [] g stuck = stuck
  reconcile_each-stuck now p ((q, x) ∷ lost) g stuck =
      reconcile_each-stuck now p lost (reconcile_one now q x g).1 (elim (Bool-cases (nat_eq q p)) [
        | inr t ↦
            stuck_transport p g _ (reconcile_one-Same p q (ground (arith, nat_eq_iff q p)) now x g)
              stuck
        | inl t ↦
            subst (λ j. is_stuck p (reconcile_one now j x g).1 ≡ true) (sym ((nat_eq_iff q p).0 t))
              (reconcile_one-stuck now p x g stuck)
      ])

  step-stuck :
      (p : ℕ) (g : Game D R) (c : Call)
      → is_stuck p g ≡ true
      → is_stuck p (step codec storage redis g c) ≡ true
  unfolding step expire_detached_players reconcile_lease_losses renew
  step-stuck p g (activates times q gate allow) stuck = elim (Bool-cases (nat_eq q p)) [
    | inr t ↦
        stuck_transport p g _
          (activate_player-Same codec storage redis p q (ground (arith, nat_eq_iff q p)) times gate
            allow g)
          stuck
    | inl t ↦
        subst (λ j. is_stuck p (activate_player codec storage redis times j gate allow g).1 ≡ true)
          (sym ((nat_eq_iff q p).0 t)) (rw (activate_player-stuck times p gate allow g stuck) stuck)
  ]
  step-stuck p g (detaches now q) stuck = elim (Bool-cases (nat_eq q p)) [
    | inr t ↦
        stuck_transport p g _ (detach_player-Same p q (ground (arith, nat_eq_iff q p)) now g) stuck
    | inl t ↦
        subst (λ j. is_stuck p (detach_player now j g).1 ≡ true) (sym ((nat_eq_iff q p).0 t))
          (detach_player-stuck now p g stuck)
  ]
  step-stuck p g (detaches_from now q gate) stuck = elim (Bool-cases (nat_eq q p)) [
    | inr t ↦
        stuck_transport p g _
          (detach_player_from-Same p q (ground (arith, nat_eq_iff q p)) now gate g) stuck
    | inl t ↦
        subst (λ j. is_stuck p (detach_player_from now j gate g).1 ≡ true)
          (sym ((nat_eq_iff q p).0 t)) (detach_player_from-stuck now p gate g stuck)
  ]
  step-stuck p g (releases now flush_ms q) stuck =
      release_each-stuck now flush_ms p (q ∷ []) g stuck
  step-stuck p g (expires scan_ms now flush_ms) stuck =
      release_each-stuck now flush_ms p (expired_players scan_ms g.players) g stuck
  step-stuck p g (reconciles now) stuck =
      reconcile_each-stuck now p (lost_players g.lease g.players) g stuck
  step-stuck p g (renews now) stuck = stuck

  run-stuck :
      (p : ℕ) (g : Game D R) (cs : List Call)
      → is_stuck p g ≡ true
      → is_stuck p (run codec storage redis g cs) ≡ true
  unfolding run
  run-stuck p g [] stuck = stuck
  run-stuck p g (c ∷ cs) stuck =
      run-stuck p (step codec storage redis g c) cs (step-stuck p g c stuck)

  -- Where a session is unloading and its receiver is not bound, it stays so through any calls
  -- and rounds of the lease service, and after them the player can be neither activated nor
  -- released.
  pub stuck_forever :
      (p : ℕ) (g : Game D R) (cs : List Call) (times : Times) (gate : GateRef) (allow : Bool)
      (now flush_ms : ℕ)
      → is_stuck p g ≡ true
      → let h = run codec storage redis g cs in
        (is_stuck p h ≡ true)
        × (activate_player codec storage redis times p gate allow h
            ≡ (failure "player is transitioning and cannot be activated", h))
        × ((release_session codec storage redis now flush_ms p h).0.ok ≡ false)
  stuck_forever p g cs times gate allow now flush_ms stuck =
      let after = run-stuck p g cs stuck in
      let h = run codec storage redis g cs in
      (
        after,
        activate_player-stuck times p gate allow h after,
        (release_session-stuck now flush_ms p h after).0,
      )
