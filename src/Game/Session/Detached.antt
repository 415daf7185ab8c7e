-- ===== src/Game/Session/Detached.antt =====
-- Detachment and the reconciliation of lost leases keep the settled sessions attached.
use some_server.Base.{
  ℕ, ◌≡◌, ◌∙◌, subst, true, false, not, ◌&&◌, List, [], ◌∷◌, arith, nat_eq, inl, inr, Bool-cases,
  Option-cases, nat_eq_iff, Eq_ℕ, Eq_String,
}
use some_server.Base.Table.{Table, find, find-put, AllEntries, AllEntries-mono}
use some_server.Game.Lease.{is_held_locally}
use some_server.Game.Session.{
  GateRef, gate_eq, PlayerSessionRecord, Game, with_session, is_online, is_settled, detach,
  unbind_player,
}
use some_server.Game.Session.Steps.{Same, Same-Alike, Same-held, held}
use some_server.Game.Session.Ending.{detach_player, detach_player_from}
use some_server.Game.Session.Losses.{notify_gate, reconcile_one, reconcile_each, lost_players}
use some_server.Game.Session.Activation.{is_ready, settled_at}
use some_server.Game.Session.Others.{reconcile_one-Same, notify_gate-Same}

module _ {D R : Type 0} where
  -- What is the same leaves a player ready.
  pub ready_transport :
      (p : ℕ) (g h : Game D R) → Same p g h → is_ready p g ≡ true → is_ready p h ≡ true
  ready_transport p g h same ready =
      let alike = Same-Alike p g h same in
      ground (arith, alike.session, alike.lease, alike.receiver, alike.runtime, alike.record_data)

  -- So does a session that is not settled, or a lease that is not held.
  pub ready_unsettled :
      (p : ℕ) (g : Game D R) → settled_at (find p g.players) ≡ false → is_ready p g ≡ true
  ready_unsettled p g e = ground arith

  pub ready_unheld : (p : ℕ) (g : Game D R) → held p g ≡ false → is_ready p g ≡ true
  ready_unheld p g e = ground arith

  pub detach_player-ready :
      (now p : ℕ) (g : Game D R) → is_ready p g ≡ true → is_ready p (detach_player now p g).1 ≡ true
  unfolding detach_player
  detach_player-ready now p g ready = elim (Option-cases (find p g.players)) [
    | inl e ↦ rw (e, detach_player) ready
    | inr (x, e) ↦ elim (Bool-cases (is_online x.state)) [
      | inl t ↦
          rw (e, detach_player, t)
            (ground
              (arith, find-put p p (detach g.detached_ttl_seconds now x) g.players, nat_eq_iff p p))
      | inr t ↦ rw (e, detach_player, t) ready
    ]
  ]

  pub detach_player_from-ready :
      (now p : ℕ) (gate : GateRef) (g : Game D R)
      → is_ready p g ≡ true
      → is_ready p (detach_player_from now p gate g).1 ≡ true
  unfolding detach_player_from detach_player
  detach_player_from-ready now p gate g ready = elim (Option-cases (find p g.players)) [
    | inl e ↦ rw (e, detach_player_from) ready
    | inr (x, e) ↦ elim (Bool-cases (is_online x.state)) [
      | inr t ↦ rw (e, detach_player_from, t) ready
      | inl t ↦ elim (Bool-cases (gate_eq x.gate gate)) [
        | inl u ↦
            rw (e, detach_player_from, t, u)
              (ground (
                arith,
                find-put p p (detach g.detached_ttl_seconds now x) g.players,
                nat_eq_iff p p,
              ))
        | inr u ↦ rw (e, detach_player_from, t, u) ready
      ]
    ]
  ]

  -- A player who is reconciled has no lease.
  reconcile_one-ready :
      (now p : ℕ) (scanned : PlayerSessionRecord) (g : Game D R)
      → held p g ≡ false
      → is_ready p (reconcile_one now p scanned g).1 ≡ true
  unfolding reconcile_one
  reconcile_one-ready now p scanned g lost = elim (Option-cases (find p h.players)) [
    | inl e ↦ rw (e, reconcile_one) (ready_unheld p h lost_h)
    | inr (x, e) ↦ elim (Bool-cases (is_held_locally h.lease p)) [
      | inl t ↦ rw (e, reconcile_one, t) (ready_unheld p h lost_h)
      | inr t ↦ elim (Bool-cases (is_online x.state)) [
        | inl u ↦
            rw (e, reconcile_one, t, u)
              (ready_unheld p (with_session p (detach h.detached_ttl_seconds now x) h) lost_h)
        | inr u ↦ rw (e, reconcile_one, t, u) (ready_unheld p h lost_h)
      ]
    ]
  ]
    where
      h : Game D R
      h = (unbind_player p (notify_gate p scanned g)).1

      lost_h : held p h ≡ false
      lost_h = Same-held p g (notify_gate p scanned g) (notify_gate-Same p p scanned g) ∙ lost

  reconcile_one-lease :
      (now p q : ℕ) (scanned : PlayerSessionRecord) (g : Game D R)
      → held p (reconcile_one now q scanned g).1 ≡ held p g
  unfolding reconcile_one
  reconcile_one-lease now p q scanned g =
      elim (Option-cases (find q (unbind_player q (notify_gate q scanned g)).1.players)) [
        | inl e ↦ rw (e, reconcile_one) told
        | inr (x, e) ↦
            elim (Bool-cases
              (is_held_locally (unbind_player q (notify_gate q scanned g)).1.lease q)) [
                | inl t ↦ rw (e, reconcile_one, t) told
                | inr t ↦ elim (Bool-cases (is_online x.state)) [
                  | inl u ↦ rw (e, reconcile_one, t, u) told
                  | inr u ↦ rw (e, reconcile_one, t, u) told
                ]
              ]
      ]
    where
      told : held p (notify_gate q scanned g) ≡ held p g
      told = Same-held p g (notify_gate q scanned g) (notify_gate-Same p q scanned g)

  abbrev pub Lost : Game D R → List (ℕ × PlayerSessionRecord) → Type 0
  Lost g lost = AllEntries (λ q _. held q g ≡ false) lost

  pub reconcile_each-ready :
      (now p : ℕ) (lost : List (ℕ × PlayerSessionRecord)) (g : Game D R)
      → Lost g lost
      → is_ready p g ≡ true
      → is_ready p (reconcile_each now lost g).1 ≡ true
  unfolding reconcile_each
  reconcile_each-ready now p [] g all ready = ready
  reconcile_each-ready now p ((q, x) ∷ lost) g all ready =
      reconcile_each-ready now p lost h
        (AllEntries-mono (λ j _. held j g ≡ false) (λ j _. held j h ≡ false) lost
          (λ j _ e. reconcile_one-lease now j q x g ∙ e) all.1)
        (elim (Bool-cases (nat_eq q p)) [
          | inl t ↦
              subst (λ j. is_ready j h ≡ true) ((nat_eq_iff q p).0 t)
                (reconcile_one-ready now q x g all.0)
          | inr t ↦
              ready_transport p g h
                (reconcile_one-Same p q (ground (arith, nat_eq_iff q p)) now x g) ready
        ])
    where
      h : Game D R
      h = (reconcile_one now q x g).1

  pub lost_players-Lost :
      (g : Game D R) (m : Table ℕ PlayerSessionRecord) → Lost g (lost_players g.lease m)
  lost_players-Lost g [] = tt
  lost_players-Lost g ((q, x) ∷ m) =
      elim (Bool-cases (is_settled x.state && not (is_held_locally g.lease q))) [
        | inl t ↦ rw t (ground arith, lost_players-Lost g m)
        | inr t ↦ rw t (lost_players-Lost g m)
      ]
