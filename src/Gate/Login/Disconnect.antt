-- ===== src/Gate/Login/Disconnect.antt =====
-- How a session of a gate is taken down: `HandleSessionDisconnected`, and the disconnect handler that
-- src/gate/application.cpp sets.
use some_server.Base.{
  ℕ, ◌*◌, ◌%◌, ◌^◌, Bool, not, ◌||◌, none, some, nat_eq, if◌then◌else◌, Eq_ℕ, Eq_String, Eq_Bytes,
}
use some_server.Ipc.Types.{Result, success}
use some_server.Gate.State.{World, Gate, ProcessPayload, player_disconnected}
use some_server.Gate.Accounts.{GateAccountOwner, remove_account_if_matches}
use some_server.Gate.Sessions.{GateSessionRecord, remove_by_connection}
use some_server.Gate.Routing.{unbind_player}

abbrev pub gate_service_type : ℕ
gate_service_type = 20

-- `pb::ipc::DISCONNECT_REASON_CLIENT_CLOSED`
abbrev pub client_closed : ℕ
client_closed = 1

module _ {W : Type 0} (world : World W) where
  -- This gate as the owner of a session.
  abbrev pub own_session : Gate W → ℕ → GateAccountOwner
  own_session g gate_session_id = record {
    gate_service_type = gate_service_type;
    gate_instance_id = g.login.gate_instance_id;
    gate_session_id = gate_session_id;
  }

  -- The message for the game process of a session.
  abbrev pub disconnect_message : Gate W → GateSessionRecord → ℕ → ℕ → ProcessPayload
  disconnect_message g session reason now = player_disconnected (record {
    player_id = session.player_id;
    gate_service_type = gate_service_type;
    gate_instance_id = g.login.gate_instance_id;
    gate_session_id = session.gate_session_id;
    reason = reason;
    occurred_at_ms = now * 1000 % 2 ^ 64;
  })

  abbrev pub has_game : GateSessionRecord → Bool
  has_game s =
      not (nat_eq s.player_id 0 || nat_eq s.game_service_type 0 || nat_eq s.game_instance_id 0)

  -- The route and the account of a session are given up.
  abbrev pub forget_session : Gate W → GateSessionRecord → Gate W
  forget_session g session =
      let (_, w) =
        remove_account_if_matches world.redis g.accounts session.account_id
          (own_session g session.gate_session_id) g.world in
      record g {
        routes = (unbind_player g.routes session.player_id session.gate_session_id).1;
        world = w;
      }

  unfoldable pub handle_session_disconnected : Gate W → GateSessionRecord → ℕ → Result × Gate W
  handle_session_disconnected g session reason =
      if has_game session
      then (let (now, w) = world.time g.world in
          let (sent, w') =
            world.send_process_payload
              (record {
                service_type = session.game_service_type;
                instance_id = session.game_instance_id;
              })
              (disconnect_message g session reason now) w in
          let g' = record g { world = w' } in
          if sent.ok then (success, forget_session g' session) else (sent, g'))
      else (success, g)

  -- The disconnect handler: the first session of the connection goes.
  unfoldable pub disconnected : ℕ → Gate W → Gate W
  unfolding handle_session_disconnected
  disconnected connection_id g =
      let (_, removed, sessions) = remove_by_connection g.sessions connection_id in
      elim removed [
        | none ↦ g
        | some session ↦
            (handle_session_disconnected (record g { sessions = sessions }) session client_closed).1
      ]
