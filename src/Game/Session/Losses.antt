-- ===== src/Game/Session/Losses.antt =====
-- src/game/services/player_session_service: `ReconcileLeaseLosses`, a round of the service's loop.
use some_server.Base.{
  ℕ, ◌+◌, Bool, true, false, none, some, List, [], ◌∷◌, if◌then◌else◌, ◌&&◌, ◌/=◌, not, Eq_ℕ,
}
use some_server.Base.Table.{Table, find}
use some_server.Game.Lease.{LeaseService, is_held_locally}
use some_server.Game.IpcClient.{send_process_payload, disconnect_reason_kicked}
use some_server.Game.Session.{
  PlayerSessionRecord, Game, with_session, detach, is_online, is_detached, is_settled,
  unbind_player,
}

-- The sessions whose lease this process does not hold any more, as they were at the scan.
abbrev pub lost_players :
    LeaseService → Table ℕ PlayerSessionRecord → List (ℕ × PlayerSessionRecord)
lost_players lease [] = []
lost_players lease ((player_id, x) ∷ m) =
    let rest = lost_players lease m in
    if is_settled x.state && not (is_held_locally lease player_id)
    then (player_id, x) ∷ rest
    else rest

module _ {D R : Type 0} where
  -- The gate of a player who was online is told to drop the session.
  abbrev pub notify_gate : ℕ → PlayerSessionRecord → Game D R → Game D R
  notify_gate player_id x g =
      if is_online x.state
        && x.gate.service_type /= 0
        && x.gate.instance_id /= 0
        && x.gate.session_id /= 0
      then record g {
        ipc =
            (send_process_payload g.ipc (record {
              to = record { service_type = x.gate.service_type; instance_id = x.gate.instance_id };
              player_id = player_id;
              gate_service_type = x.gate.service_type;
              gate_instance_id = x.gate.instance_id;
              gate_session_id = x.gate.session_id;
              reason = disconnect_reason_kicked;
            })).1;
      }
      else g

  -- What is done to one such session, and whether it counts as reconciled.
  unfoldable pub reconcile_one : ℕ → ℕ → PlayerSessionRecord → Game D R → Bool × Game D R
  unfolding unbind_player is_held_locally send_process_payload
  reconcile_one now player_id scanned g =
      let h = (unbind_player player_id (notify_gate player_id scanned g)).1 in
      elim (find player_id h.players) [
        | none ↦ (false, h)
        | some x ↦
            if is_held_locally h.lease player_id
            then (false, h)
            else if is_online x.state
            then (true, with_session player_id (detach h.detached_ttl_seconds now x) h)
            else (is_detached x.state, h)
      ]

  unfoldable pub reconcile_each : ℕ → List (ℕ × PlayerSessionRecord) → Game D R → ℕ × Game D R
  unfolding reconcile_one
  reconcile_each now [] g = (0, g)
  reconcile_each now ((player_id, x) ∷ rest) g =
      let (counted, h) = reconcile_one now player_id x g in
      let (n, i) = reconcile_each now rest h in ((if counted then n + 1 else n), i)

  unfoldable pub reconcile_lease_losses : ℕ → Game D R → ℕ × Game D R
  unfolding reconcile_each
  reconcile_lease_losses now g = reconcile_each now (lost_players g.lease g.players) g
