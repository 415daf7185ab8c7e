-- ===== src/Game/Session/Ready.antt =====
-- The settled sessions of a game stay attached, through all calls of the session service.
use some_server.Base.{
  ℕ, ◌≡◌, refl, ap, sym, ◌∙◌, subst, Bool, true, false, List, [], ◌∷◌, arith, nat_eq, inl, inr,
  Bool-cases, Option-cases, nat_eq_iff, Eq_ℕ, Eq_String,
}
use some_server.Base.Table.{find, erase, find-put, find-erase}
use some_server.Ipc.Types.{Result, success}
use some_server.Game.Redis.{Redis}
use some_server.Game.Lease.{LeaseService, is_held_locally, drop_lost, renew_each}
use some_server.Game.Repository.{DataCodec, Storage}
use some_server.Game.Session.{
  GateRef, PlayerSessionRecord, unloading, Times, Game, or_else, activate_present, unbind_player,
  release_data, remove_runtime, release_lease, flush, activate_player,
}
use some_server.Game.Session.Steps.{Alike, or_else_cases, held, flush-Alike}
use some_server.Game.Session.Ending.{
  detach_player, detach_player_from, restore, leave, release_session, release_each,
  expire_detached_players, expired_players,
}
use some_server.Game.Session.Losses.{reconcile_lease_losses, lost_players}
use some_server.Game.Session.Activation.{is_ready, settled_at, Outcome, activate_player-Outcome}
use some_server.Game.Session.Others.{
  activate_player-Same, release_session-Same, detach_player-Same, detach_player_from-Same,
}
use some_server.Game.Session.Releases.{begin_unload, release_session_cases}
use some_server.Game.Session.Calls.{
  Call, activates, detaches, detaches_from, releases, expires, reconciles, renews, step, run, renew,
}
use some_server.Game.Session.Detached.{
  ready_transport, ready_unsettled, ready_unheld, detach_player-ready, detach_player_from-ready,
  reconcile_each-ready, lost_players-Lost,
}

module _ {R : Type 0} (redis : Redis R) where
  held-drop_lost :
      (p : ℕ) (lost : List ℕ) (s : LeaseService)
      → is_held_locally s p ≡ false
      → is_held_locally (drop_lost redis lost s) p ≡ false
  unfolding drop_lost is_held_locally
  held-drop_lost p [] s e = e
  held-drop_lost p (q ∷ lost) s e =
      held-drop_lost p lost _ (ground (arith, find-erase q p s.leases))

module _ {D R : Type 0} (redis : Redis R) where
  leave-ready :
      (p : ℕ) (g : Game D R)
      → settled_at (find p g.players) ≡ false
      → is_ready p (leave redis p g).1 ≡ true
  unfolding leave unbind_player remove_runtime release_data release_lease
  leave-ready p g e =
      or_else_cases P (unbind_player p g) (λ h. h)
        (λ h. or_else (release_data p (remove_runtime p h)) (λ i. i) finish)
        (λ _. ready_unsettled p h e)
        λ _.
          or_else_cases P (release_data p (remove_runtime p h)) (λ i. i) finish
            (λ _. ready_unsettled p i e)
            λ _.
              ready_unsettled p (finish i).1
                (ground (arith, find-erase p p g.players, nat_eq_iff p p))
    where
      P : Result × Game D R → Type 0
      P r = is_ready p r.1 ≡ true

      h : Game D R
      h = (unbind_player p g).1

      i : Game D R
      i = (release_data p (remove_runtime p h)).1

      finish : Game D R → Result × Game D R
      finish i =
          let j = release_lease redis p i in (success, record j { players = erase p j.players })

  -- A round of the lease service takes up no lease.
  renew-held : (now p : ℕ) (g : Game D R) → held p g ≡ false → held p (renew redis now g) ≡ false
  unfolding renew is_held_locally
  renew-held now p g e =
      let (lost, n, _) =
        renew_each redis g.lease g.lease.leases (record (g.lease.snapshot) { last_renew_ms = now })
          g.redis_state in
      held-drop_lost redis p lost (record (g.lease) { snapshot = n }) e

  renew-ready :
      (now p : ℕ) (g : Game D R) → is_ready p g ≡ true → is_ready p (renew redis now g) ≡ true
  unfolding renew
  renew-ready now p g ready = elim (Bool-cases (held p g)) [
    | inl t ↦ ground arith
    | inr t ↦ ready_unheld p (renew redis now g) (renew-held now p g t)
  ]

module _ {D R : Type 0} (codec : DataCodec) (storage : Storage D) (redis : Redis R) where
  release_session-ready :
      (now flush_ms p q : ℕ) (g : Game D R)
      → is_ready p g ≡ true
      → is_ready p (release_session codec storage redis now flush_ms q g).1 ≡ true
  unfolding restore
  release_session-ready now flush_ms p q g ready = elim (Bool-cases (nat_eq q p)) [
    | inr t ↦
        ready_transport p g _
          (release_session-Same codec storage redis p q (ground (arith, nat_eq_iff q p)) now
            flush_ms g)
          ready
    | inl t ↦
        subst (λ j. is_ready p (release_session codec storage redis now flush_ms j g).1 ≡ true)
          (sym ((nat_eq_iff q p).0 t)) own
  ]
    where
      unloading_of : PlayerSessionRecord → PlayerSessionRecord
      unloading_of x = record x { state = unloading; last_state_change_ms = now }

      saved : PlayerSessionRecord → Game D R
      saved x = (flush codec storage flush_ms p (begin_unload now p x g)).1

      same : (x : PlayerSessionRecord) → Alike p (begin_unload now p x g) (saved x)
      same x = flush-Alike codec storage flush_ms p p (begin_unload now p x g)

      unloaded :
          (x : PlayerSessionRecord) → settled_at (find p (begin_unload now p x g).players) ≡ false
      unloaded x = ground (arith, find-put p p (unloading_of x) g.players, nat_eq_iff p p)

      own : is_ready p (release_session codec storage redis now flush_ms p g).1 ≡ true
      own =
          release_session_cases codec storage redis now flush_ms p g (λ r. is_ready p r.1 ≡ true)
            (λ _. ready) (λ x _ _. leave-ready redis p (begin_unload now p x g) (unloaded x))
            (λ x _ _. leave-ready redis p (saved x) (ap settled_at (same x).session ∙ unloaded x))
            (λ x e f. ground (
              arith,
              (same x).session,
              (same x).lease,
              (same x).receiver,
              (same x).runtime,
              (same x).record_data,
              find-put p p (unloading_of x) g.players,
              find-put p p x (saved x).players,
              nat_eq_iff p p,
            ))

  release_each-ready :
      (now flush_ms p : ℕ) (qs : List ℕ) (g : Game D R)
      → is_ready p g ≡ true
      → is_ready p (release_each codec storage redis now flush_ms qs g).1 ≡ true
  unfolding release_each
  release_each-ready now flush_ms p [] g ready = ready
  release_each-ready now flush_ms p (q ∷ qs) g ready =
      release_each-ready now flush_ms p qs (release_session codec storage redis now flush_ms q g).1
        (release_session-ready now flush_ms p q g ready)

  -- A player whose session is settled and whose lease is held is not refused.
  activates_held :
      (times : Times) (p : ℕ) (gate : GateRef) (allow : Bool) (g : Game D R)
      → settled_at (find p g.players) ≡ true
      → held p g ≡ true
      → (activate_player codec storage redis times p gate allow g).0.ok ≡ true
  unfolding activate_player activate_present
  activates_held times p gate allow g settled lease = elim (Option-cases (find p g.players)) [
    | inl e ↦ absurd (ground arith)
    | inr (x, e) ↦ rw (e, activate_player, activate_present) (ground arith)
  ]

  activate_player-ready :
      (times : Times) (p q : ℕ) (gate : GateRef) (allow : Bool) (g : Game D R)
      → is_ready p g ≡ true
      → is_ready p (activate_player codec storage redis times q gate allow g).1 ≡ true
  unfolding Outcome
  activate_player-ready times p q gate allow g ready = elim (Bool-cases (nat_eq q p)) [
    | inr t ↦
        ready_transport p g _
          (activate_player-Same codec storage redis p q (ground (arith, nat_eq_iff q p)) times gate
            allow g)
          ready
    | inl t ↦
        subst (λ j. is_ready p (activate_player codec storage redis times j gate allow g).1 ≡ true)
          (sym ((nat_eq_iff q p).0 t))
          (elim (activate_player-Outcome codec storage redis times p gate allow g ready) [
            | inl s ↦ ground arith
            | inr s ↦ ground (arith, activates_held times p gate allow g)
          ])
  ]

  step-ready :
      (p : ℕ) (g : Game D R) (c : Call)
      → is_ready p g ≡ true
      → is_ready p (step codec storage redis g c) ≡ true
  unfolding step expire_detached_players reconcile_lease_losses
  step-ready p g (activates times q gate allow) ready =
      activate_player-ready times p q gate allow g ready
  step-ready p g (detaches now q) ready = elim (Bool-cases (nat_eq q p)) [
    | inr t ↦
        ready_transport p g _ (detach_player-Same p q (ground (arith, nat_eq_iff q p)) now g) ready
    | inl t ↦
        subst (λ j. is_ready p (detach_player now j g).1 ≡ true) (sym ((nat_eq_iff q p).0 t))
          (detach_player-ready now p g ready)
  ]
  step-ready p g (detaches_from now q gate) ready = elim (Bool-cases (nat_eq q p)) [
    | inr t ↦
        ready_transport p g _
          (detach_player_from-Same p q (ground (arith, nat_eq_iff q p)) now gate g) ready
    | inl t ↦
        subst (λ j. is_ready p (detach_player_from now j gate g).1 ≡ true)
          (sym ((nat_eq_iff q p).0 t)) (detach_player_from-ready now p gate g ready)
  ]
  step-ready p g (releases now flush_ms q) ready = release_session-ready now flush_ms p q g ready
  step-ready p g (expires scan_ms now flush_ms) ready =
      release_each-ready now flush_ms p (expired_players scan_ms g.players) g ready
  step-ready p g (reconciles now) ready =
      reconcile_each-ready now p (lost_players g.lease g.players) g (lost_players-Lost g g.players)
        ready
  step-ready p g (renews now) ready = renew-ready redis now p g ready

  -- From a game with no sessions, after any calls and any rounds of the lease service: a player
  -- whose session is online or detached, and whose lease this process holds, has a bound
  -- receiver, a running instance and loaded data.
  pub run-ready :
      (p : ℕ) (g : Game D R) (cs : List Call)
      → g.players ≡ []
      → is_ready p (run codec storage redis g cs) ≡ true
  unfolding run find
  run-ready p g cs empty = from_ready g cs (ready_unsettled p g none_settled)
    where
      none_settled : settled_at (find p g.players) ≡ false
      none_settled = rw (empty, find) refl

      from_ready :
          (h : Game D R) (ds : List Call)
          → is_ready p h ≡ true
          → is_ready p (run codec storage redis h ds) ≡ true
      from_ready h [] ready = ready
      from_ready h (d ∷ ds) ready =
          from_ready (step codec storage redis h d) ds (step-ready p h d ready)
