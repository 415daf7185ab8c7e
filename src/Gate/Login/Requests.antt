-- ===== src/Gate/Login/Requests.antt =====
-- How a client signs in: the handler of its message, up to the request to the game process.
use some_server.Base.{ℕ, false, none, some, if◌then◌else◌, Eq_ℕ, Eq_String, Eq_Bytes, Bytes}
use some_server.Base.Table.{put}
use some_server.Ipc.Types.{Result, success}
use some_server.Gate.State.{World, Gate, ProcessPayload, LoginRequest, login_player_request}
use some_server.Gate.Sessions.{open_anonymous, snapshot}
use some_server.Gate.Connections.{mark_anonymous}
use some_server.Gate.Protocol.{send_login_response, error_code_unauthorized}
use some_server.Gate.Login.Auth.{validate}
use some_server.Gate.Login.Disconnect.{gate_service_type}
use some_server.Gate.Login.Kicks.{next_request, kick_existing_account_session}

abbrev pub game_service : ℕ
game_service = 10

module _ {W : Type 0} (world : World W) where
  abbrev pub login_message : Gate W → ℕ → Bytes → Bytes → ℕ → ProcessPayload
  login_message g gate_session_id platform account_id area_id = login_player_request (record {
    request_id = g.login.next_request_id;
    gate_service_type = gate_service_type;
    gate_instance_id = g.login.gate_instance_id;
    gate_session_id = gate_session_id;
    platform = platform;
    account_id = account_id;
    area_id = area_id;
    client_version = 1;
    channel = "runtime";
    login_token = "runtime-login-token";
  })

  unfoldable pub request_login : Gate W → ℕ → ℕ → ℕ → Bytes → Bytes → ℕ → Result × Gate W
  request_login g game_instance_id connection_id gate_session_id platform account_id area_id =
      let id = g.login.next_request_id in
      let (sent, w) =
        world.send_process_payload
          (record { service_type = game_service; instance_id = game_instance_id })
          (login_message g gate_session_id platform account_id area_id) g.world in
      let g' = record (next_request g) { world = w } in
      if sent.ok
      then (
        success,
        record g' {
          login = record (g'.login) {
            pending_logins =
                put id
                  (record {
                    connection_id = connection_id;
                    gate_session_id = gate_session_id;
                    account_id = account_id;
                  })
                  g.login.pending_logins;
            snapshot = record (g.login.snapshot) { last_request_id = id };
          };
        },
      )
      else (sent, g')

  -- The session of the connection, which has its number, is opened unless it is there.
  unfoldable pub open_session : Gate W → ℕ → Result × Gate W
  open_session g connection_id = elim (snapshot g.sessions connection_id) [
    | some r ↦ (success, g)
    | none ↦
        let (now, w) = world.now_ms g.world in
        let (result, sessions) = open_anonymous g.sessions now connection_id connection_id in
        (result, record g { sessions = sessions; world = w })
  ]

  -- `HandleClientLogin` behind the kick.
  unfoldable pub begin_login : Gate W → ℕ → Bytes → Bytes → Result × Gate W
  unfolding open_session request_login
  begin_login g connection_id platform account_id =
      let (opened, g') = open_session g connection_id in
      if opened.ok
      then (let (anonymous, connections) = mark_anonymous g'.connections connection_id in
          let g'' = record g' { connections = connections } in
          if anonymous.ok
          then request_login g'' 1 connection_id connection_id platform account_id 1
          else (anonymous, g''))
      else (opened, g')

  unfoldable pub handle_client_login : Gate W → ℕ → LoginRequest → Result × Gate W
  unfolding begin_login kick_existing_account_session
  handle_client_login g connection_id request =
      let auth = validate request.platform request.account_id request.credential in
      if auth.ok
      then (let (kick, g') = kick_existing_account_session world g auth.account_id connection_id in
          if kick.ok
          then begin_login g' connection_id request.platform auth.account_id
          else (kick, g'))
      else send_login_response world g connection_id 0 false error_code_unauthorized auth.message
