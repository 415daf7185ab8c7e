-- ===== src/Gate/Login/Kicks.antt =====
-- How the login service ends the session of an account that signs in anew, and answers the requests
-- of other processes to end one.
use some_server.Base.{
  ℕ, ◌||◌, Option, none, some, String, nat_eq, if◌then◌else◌, ◌==◌, Eq_ℕ, Eq_String, Eq_Bytes,
  Bytes, inc64,
}
use some_server.Ipc.Types.{Result, success}
use some_server.Gate.State.{World, Gate, ProcessPayload, kick_account_session}
use some_server.Gate.Accounts.{GateAccountOwner, lookup_account}
use some_server.Gate.Sessions.{GateSessionRecord, find_by_account, snapshot}
use some_server.Gate.Connections.{close}
use some_server.Gate.Protocol.{send_kick_notification}
use some_server.Gate.Login.Disconnect.{gate_service_type, disconnected}

abbrev pub replaced : String
replaced = "same account logged in on a new connection"

-- The requests of other processes, less the fields that the handlers do not read.
pub record KickRequest : Type 0 where
  pub account_id : Bytes
  pub old_gate_session_id : ℕ
  pub reason : String

pub record UnbindRequest : Type 0 where
  pub player_id : ℕ
  pub gate_session_id : ℕ

-- `mNextRequestId++`
abbrev pub next_request : {W : Type 0} → Gate W → Gate W
next_request g = record g {
  login = record (g.login) { next_request_id = inc64 g.login.next_request_id };
}

module _ {W : Type 0} (world : World W) where
  abbrev pub close_connection : Gate W → ℕ → Result × Gate W
  close_connection = close world (disconnected world)

  -- A kick notification, and the end of the connection where it was sent.
  unfoldable pub kick_connection : Gate W → ℕ → String → Result × Gate W
  kick_connection g connection_id reason =
      let (sent, g') = send_kick_notification world g connection_id reason in
      if sent.ok then close_connection g' connection_id else (sent, g')

  -- A session that another connection than the current one holds is kicked.
  unfoldable pub kick_session : Gate W → Option GateSessionRecord → ℕ → Result × Gate W
  unfolding kick_connection
  kick_session g none current_connection_id = (success, g)
  kick_session g (some existing) current_connection_id =
      if nat_eq existing.connection_id current_connection_id
      then (success, g)
      else kick_connection g existing.connection_id replaced

  abbrev pub kick_message : Gate W → Bytes → GateAccountOwner → ProcessPayload
  kick_message g account_id owner = kick_account_session (record {
    request_id = g.login.next_request_id;
    account_id = account_id;
    old_gate_service_type = owner.gate_service_type;
    old_gate_instance_id = owner.gate_instance_id;
    old_gate_session_id = owner.gate_session_id;
    new_gate_service_type = gate_service_type;
    new_gate_instance_id = g.login.gate_instance_id;
    reason = replaced;
  })

  -- The owner is at another gate.
  unfoldable pub kick_elsewhere : Gate W → Bytes → GateAccountOwner → Result × Gate W
  kick_elsewhere g account_id owner =
      let (sent, w) =
        world.send_process_payload
          (record { service_type = owner.gate_service_type; instance_id = owner.gate_instance_id })
          (kick_message g account_id owner) g.world in
      ((if sent.ok then success else sent), record (next_request g) { world = w })

  unfoldable pub kick_existing_account_session : Gate W → Bytes → ℕ → Result × Gate W
  unfolding kick_session kick_elsewhere
  kick_existing_account_session g account_id current_connection_id =
      let (found, w) = lookup_account world.redis g.accounts account_id g.world in
      let g' = record g { world = w } in
      elim found [
        | none ↦ kick_session g' (find_by_account g.sessions account_id) current_connection_id
        | some owner ↦
            if nat_eq owner.gate_instance_id g.login.gate_instance_id
            then kick_session g' (snapshot g.sessions owner.gate_session_id) current_connection_id
            else kick_elsewhere g' account_id owner
      ]

  unfoldable pub handle_kick_account_session : Gate W → KickRequest → Result × Gate W
  unfolding kick_connection
  handle_kick_account_session g request = elim (snapshot g.sessions request.old_gate_session_id) [
    | none ↦ (success, g)
    | some session ↦
        if session.account_id == request.account_id
        then kick_connection g session.connection_id
            (if request.reason == "" then replaced else request.reason)
        else (success, g)
  ]

  unfoldable pub handle_unbind_player_session : Gate W → UnbindRequest → Result × Gate W
  handle_unbind_player_session g request = elim (snapshot g.sessions request.gate_session_id) [
    | none ↦ (success, g)
    | some session ↦
        if nat_eq session.player_id request.player_id
        then (let (sent, g') =
              send_kick_notification world g session.connection_id
                "player session ownership moved" in
            if sent.ok
            then (let (closed, g'') = close_connection g' session.connection_id in
                if closed.ok || (closed.message == "connection does not exist")
                then (success, g'')
                else (closed, g''))
            else (sent, g'))
        else (success, g)
  ]
