-- ===== src/Game/Session/Ending.antt =====
-- src/game/services/player_session_service: how a session ends, by `DetachPlayer`, `ReleasePlayer`
-- and `ExpireDetachedPlayers`.
use some_server.Base.{
  ℕ, ◌+◌, Bool, false, Option, none, some, List, [], ◌∷◌, leb, if◌then◌else◌, ◌&&◌, ◌/=◌, Eq_String,
  Eq_ℕ,
}
use Prim.Native.String.{◌++◌ as append}
use some_server.Base.Table.{Table, find, erase}
use some_server.Ipc.Types.{Result, success, failure}
use some_server.Game.Redis.{Redis}
use some_server.Game.Repository.{DataCodec, Storage, PlayerRepositoryRecord, snapshot}
use some_server.Game.Session.{
  GateRef, gate_eq, PlayerSessionRecord, unloading, Game, with_session, or_else, detach, is_online,
  is_detached, unbind_player, flush, remove_runtime, release_data, release_lease,
}

module _ {D R : Type 0} where
  -- `DetachPlayer(player_id)`
  unfoldable pub detach_player : ℕ → ℕ → Game D R → Result × Game D R
  detach_player now player_id g = elim (find player_id g.players) [
    | none ↦ (failure "player session is not tracked", g)
    | some x ↦
        if is_online x.state
        then (success, with_session player_id (detach g.detached_ttl_seconds now x) g)
        else (failure "player is not online", g)
  ]

  -- `DetachPlayer` of the connection of one gate.
  unfoldable pub detach_player_from : ℕ → ℕ → GateRef → Game D R → Result × Game D R
  detach_player_from now player_id gate g = elim (find player_id g.players) [
    | none ↦ (failure "player session is not tracked", g)
    | some x ↦
        if is_online x.state
        then (if gate_eq x.gate gate
            then (success, with_session player_id (detach g.detached_ttl_seconds now x) g)
            else (failure "player gate session does not match", g))
        else (failure "player is not online", g)
  ]

abbrev pub is_dirty : Option PlayerRepositoryRecord → Bool
is_dirty none = false
is_dirty (some x) = x.dirty

abbrev is_expired : ℕ → PlayerSessionRecord → Bool
is_expired now x = is_detached x.state && x.detach_deadline_ms /= 0 && leb x.detach_deadline_ms now

abbrev pub expired_players : ℕ → Table ℕ PlayerSessionRecord → List ℕ
expired_players now [] = []
expired_players now ((player_id, x) ∷ m) =
    let rest = expired_players now m in if is_expired now x then player_id ∷ rest else rest

module _ {D R : Type 0} where
  -- The session as it was before `ReleasePlayer`, where there still is one.
  unfoldable pub restore : ℕ → PlayerSessionRecord → Game D R → Game D R
  restore player_id previous g = elim (find player_id g.players) [
    | none ↦ g
    | some _ ↦ with_session player_id previous g
  ]

module _ {D R : Type 0} (redis : Redis R) where
  -- The end of `ReleasePlayer`, once the data is safe.
  unfoldable pub leave : ℕ → Game D R → Result × Game D R
  unfolding or_else unbind_player remove_runtime release_data release_lease
  leave player_id g =
      or_else (unbind_player player_id g) (λ h. h)
        λ h.
          or_else (release_data player_id (remove_runtime player_id h)) (λ i. i)
            λ i.
              let j = release_lease redis player_id i in
              (success, record j { players = erase player_id j.players })

module _ {D R : Type 0} (codec : DataCodec) (storage : Storage D) (redis : Redis R) where
  -- The two readings of the clock are for the change of state and for the flush.
  unfoldable pub release_session : ℕ → ℕ → ℕ → Game D R → Result × Game D R
  unfolding leave flush snapshot restore
  release_session now flush_ms player_id g = elim (find player_id g.players) [
    | none ↦ (failure "player session is not tracked", g)
    | some previous ↦
        let h =
          with_session player_id (record previous { state = unloading; last_state_change_ms = now })
            g in
        if is_dirty (snapshot h.repository player_id)
        then (let (r, i) = flush codec storage flush_ms player_id h in
            if r.ok then leave redis player_id i else (
              failure (append "player flush before release failed: " r.message),
              restore player_id previous i,
            ))
        else leave redis player_id h
  ]

  -- How many of the players could be released.
  unfoldable pub release_each : ℕ → ℕ → List ℕ → Game D R → ℕ × Game D R
  unfolding release_session
  release_each now flush_ms [] g = (0, g)
  release_each now flush_ms (player_id ∷ rest) g =
      let (r, h) = release_session now flush_ms player_id g in
      let (n, i) = release_each now flush_ms rest h in ((if r.ok then n + 1 else n), i)

  -- The clock is read once for the scan, and once more for each kind of reading in the releases.
  unfoldable pub expire_detached_players : ℕ → ℕ → ℕ → Game D R → ℕ × Game D R
  unfolding release_each
  expire_detached_players scan_ms now flush_ms g =
      release_each now flush_ms (expired_players scan_ms g.players) g
