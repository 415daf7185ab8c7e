-- ===== src/Game/Session.antt =====
-- src/game/services/player_session_service: the sessions of the players of this process, over the
-- repository, the lease, the runtime and the IPC service. The four are there (their pointers are
-- set when the service is built), and the methods run one at a time.
pub mod Activation
pub mod Ending
pub mod Losses
pub mod Steps
pub mod Releases
pub mod Others
pub mod Calls
pub mod Detached
pub mod Ready
pub mod Saving
pub mod Stuck
use some_server.Base.{
  ℕ, ◌*◌, ◌+◌, ◌≡◌, Bool, true, false, Option, none, some, List, [], ◌∷◌, ◌++◌, String, Bytes,
  nat_eq, leb, if◌then◌else◌, ◌&&◌, ◌||◌, ◌==◌, ◌/=◌, inc64, add64, not, Eq_String, Eq_ℕ,
}
use some_server.Base.Table.{Table, find, put, erase}
use some_server.Ipc.Types.{Result, success, failure}
use some_server.Game.Redis.{Redis}
use some_server.Game.Lease
use some_server.Game.Lease.{LeaseService, is_held_locally}
use some_server.Game.Repository
use some_server.Game.Repository.{
  Repository, DataCodec, Storage, LoadTimes, PlayerRepositoryRecord, load_player, flush_player,
  snapshot, release_player,
}
use some_server.Game.Runtime.{Runtime, ensure_player, remove_player}
use some_server.Game.IpcClient.{
  IpcClient, UnbindPlayerSession, bind_local_player, unbind_local_player, send_process_payload,
}

pub data PlayerSessionState : Type 0 where
  loading online detached unloading : PlayerSessionState

abbrev pub is_online : PlayerSessionState → Bool
is_online online = true
is_online _ = false

abbrev pub is_detached : PlayerSessionState → Bool
is_detached detached = true
is_detached _ = false

abbrev pub is_settled : PlayerSessionState → Bool
is_settled s = is_online s || is_detached s

-- The gate connection of a player: the type and instance of the gate process, and its session.
pub record GateRef : Type 0 where
  pub service_type : ℕ
  pub instance_id : ℕ
  pub session_id : ℕ

abbrev pub no_gate : GateRef
no_gate = record { service_type = 0; instance_id = 0; session_id = 0 }

abbrev pub gate_eq : GateRef → GateRef → Bool
gate_eq a b =
    nat_eq a.service_type b.service_type
    && nat_eq a.instance_id b.instance_id
    && nat_eq a.session_id b.session_id

-- The three gate fields of the source stand together in `gate`.
pub record PlayerSessionRecord : Type 0 where
  pub state : PlayerSessionState
  pub gate : GateRef
  pub activate_count : ℕ
  pub last_state_change_ms : ℕ
  pub detach_deadline_ms : ℕ

-- What `PlayerSessionRecord{}` holds.
abbrev pub no_session : PlayerSessionRecord
no_session = record {
  state = loading;
  gate = no_gate;
  activate_count = 0;
  last_state_change_ms = 0;
  detach_deadline_ms = 0;
}

abbrev pub session_or_new : Option PlayerSessionRecord → PlayerSessionRecord
session_or_new none = no_session
session_or_new (some x) = x

-- The session service with the services that it uses, the storage and the Redis server.
pub record Game (D R : Type 0) : Type 0 where
  pub repository : Repository
  pub lease : LeaseService
  pub runtime : Runtime
  pub ipc : IpcClient
  pub players : Table ℕ PlayerSessionRecord
  pub detached_ttl_seconds : ℕ
  pub storage_state : D
  pub redis_state : R

-- The readings of the clock in one activation.
pub record Times : Type 0 where
  pub token : ℕ
  pub load : LoadTimes
  pub changed : ℕ

-- A player who is detached until the deadline.
abbrev pub detach : ℕ → ℕ → PlayerSessionRecord → PlayerSessionRecord
detach ttl now x = record x {
  state = detached;
  last_state_change_ms = now;
  detach_deadline_ms = add64 now (ttl * 1000);
  gate = no_gate;
}

-- A player who is online through a gate.
abbrev pub go_online : GateRef → ℕ → PlayerSessionRecord → PlayerSessionRecord
go_online gate now x = record x {
  state = online;
  gate = gate;
  last_state_change_ms = now;
  detach_deadline_ms = 0;
  activate_count = inc64 x.activate_count;
}

-- A player who was online already: the deadline is not written.
abbrev pub move_gate : GateRef → ℕ → PlayerSessionRecord → PlayerSessionRecord
move_gate gate now x = record x {
  gate = gate;
  last_state_change_ms = now;
  activate_count = inc64 x.activate_count;
}

abbrev pub already_bound : String
already_bound = "player is already bound locally"

-- `!bind_result.ok && bind_result.message != "player is already bound locally"`
abbrev pub bind_failed : Result → Bool
bind_failed r = not r.ok && r.message /= already_bound

module _ {D R : Type 0} where
  abbrev pub with_session : ℕ → PlayerSessionRecord → Game D R → Game D R
  with_session player_id x g = record g { players = put player_id x g.players }

  -- A step that fails ends the method with its result, after a clean-up.
  unfoldable pub or_else :
      Result × Game D R → (Game D R → Game D R) → (Game D R → Result × Game D R) → Result × Game D R
  or_else (r, g) undo next = if r.ok then next g else (r, undo g)

  -- The methods of the other services, as steps of the game.
  unfoldable pub release_data : ℕ → Game D R → Result × Game D R
  release_data player_id g =
      let (r, m) = release_player g.repository player_id in (r, record g { repository = m })

  unfoldable pub bind_player : ℕ → Game D R → Result × Game D R
  bind_player player_id g =
      let (r, c) = bind_local_player g.ipc player_id in (r, record g { ipc = c })

  unfoldable pub unbind_player : ℕ → Game D R → Result × Game D R
  unbind_player player_id g =
      let (r, c) = unbind_local_player g.ipc player_id in (r, record g { ipc = c })

  unfoldable pub ensure_runtime : ℕ → Game D R → Result × Game D R
  ensure_runtime player_id g =
      let (r, t) = ensure_player g.repository g.runtime player_id in (r, record g { runtime = t })

  unfoldable pub remove_runtime : ℕ → Game D R → Game D R
  remove_runtime player_id g = record g { runtime = (remove_player g.runtime player_id).1 }

  -- `BindLocalPlayer` and `EnsurePlayer`, with what is undone when one fails.
  unfoldable pub attach :
      ℕ
      → (Game D R → Game D R)
      → (Game D R → Game D R)
      → (Game D R → Result × Game D R)
      → Game D R
      → Result × Game D R
  unfolding or_else bind_player ensure_runtime
  attach player_id undo_bind undo_runtime next g =
      let (bound, h) = bind_player player_id g in
      if bind_failed bound
      then (bound, undo_bind h)
      else or_else (ensure_runtime player_id h) undo_runtime next

  -- A player who has a session, and whose lease this process holds or who is in transition.
  unfoldable pub activate_present :
      Times → ℕ → GateRef → PlayerSessionRecord → Game D R → Result × Game D R
  activate_present times player_id gate x g = elim x.state [
    | online ↦ (success, with_session player_id (move_gate gate times.changed x) g)
    | detached ↦ (success, with_session player_id (go_online gate times.changed x) g)
    | _ ↦ (failure "player is transitioning and cannot be activated", g)
  ]

module _ {D R : Type 0} (redis : Redis R) where
  unfoldable pub acquire_lease : ℕ → ℕ → Game D R → Result × Game D R
  acquire_lease now player_id g =
      let (r, lease, s) = Lease.acquire redis g.lease now player_id g.redis_state in
      (r, record g { lease = lease; redis_state = s })

  unfoldable pub release_lease : ℕ → Game D R → Game D R
  release_lease player_id g =
      let (_, lease, s) = Lease.release redis g.lease player_id g.redis_state in
      record g { lease = lease; redis_state = s }

  -- The end of `activate_again`, where the player has the session again.
  unfoldable pub resume : ℕ → ℕ → GateRef → Game D R → Result × Game D R
  unfolding release_lease
  resume now player_id gate g = elim (find player_id g.players) [
    | none ↦ (failure "player session disappeared during lease recovery", release_lease player_id g)
    | some x ↦
        if is_settled x.state
        then (success, with_session player_id (go_online gate now x) g)
        else (failure "player is transitioning and cannot be activated", release_lease player_id g)
  ]

module _ {D R : Type 0} (codec : DataCodec) (storage : Storage D) where
  unfoldable pub load : LoadTimes → ℕ → Bool → Game D R → Result × Game D R
  load times player_id allow g =
      let (r, m, d) =
        load_player codec storage g.repository times player_id allow g.storage_state in
      (r, record g { repository = m; storage_state = d })

  unfoldable pub load_if_absent : LoadTimes → ℕ → Bool → Game D R → Result × Game D R
  unfolding load snapshot
  load_if_absent times player_id allow g = elim (snapshot g.repository player_id) [
    | some _ ↦ (success, g)
    | none ↦ load times player_id allow g
  ]

  unfoldable pub flush : ℕ → ℕ → Game D R → Result × Game D R
  flush now player_id g =
      let (r, m, d) = flush_player codec storage g.repository now player_id g.storage_state in
      (r, record g { repository = m; storage_state = d })

module _ {D R : Type 0} (codec : DataCodec) (storage : Storage D) (redis : Redis R) where
  -- The part for a player who has no session here.
  unfoldable pub activate_new : Times → ℕ → GateRef → Bool → Game D R → Result × Game D R
  unfolding or_else attach acquire_lease release_lease load release_data bind_player unbind_player
      ensure_runtime
  activate_new times player_id gate allow g =
      or_else (acquire_lease redis times.token player_id g) (λ h. h)
        λ h.
          or_else (load codec storage times.load player_id allow h) (release_lease redis player_id)
            λ i.
              attach player_id (λ j. (release_data player_id (release_lease redis player_id j)).1)
                (λ j.
                  (release_data player_id
                    (unbind_player player_id (release_lease redis player_id j)).1).1)
                (λ j. (
                  success,
                  with_session player_id
                      (go_online gate times.changed (session_or_new (find player_id j.players))) j,
                ))
                i

  -- The part for a player whose lease was lost while the session stayed: `reuse_existing`.
  unfoldable pub activate_again : Times → ℕ → GateRef → Bool → Game D R → Result × Game D R
  unfolding or_else attach acquire_lease release_lease load_if_absent bind_player unbind_player
      ensure_runtime resume
  activate_again times player_id gate allow g =
      or_else (acquire_lease redis times.token player_id g) (λ h. h)
        λ h.
          or_else (load_if_absent codec storage times.load player_id allow h)
            (release_lease redis player_id)
            λ i.
              attach player_id (release_lease redis player_id)
                (λ j. (unbind_player player_id (release_lease redis player_id j)).1)
                (resume redis times.changed player_id gate) i

  unfoldable pub activate_player : Times → ℕ → GateRef → Bool → Game D R → Result × Game D R
  unfolding activate_new activate_again activate_present is_held_locally
  activate_player times player_id gate allow g = elim (find player_id g.players) [
    | none ↦ activate_new times player_id gate allow g
    | some x ↦
        if is_settled x.state && not (is_held_locally g.lease player_id)
        then activate_again times player_id gate allow g
        else activate_present times player_id gate x g
  ]
