-- ===== src/Gate/Login/Answers.antt =====
-- What the answer of the game process does to a sign-in.
use some_server.Base.{ℕ, Bool, none, some, String, nat_eq, if◌then◌else◌, Eq_ℕ, Eq_String, Eq_Bytes}
use some_server.Base.Table.{find, erase}
use some_server.Ipc.Types.{Result, failure}
use some_server.Gate.State.{World, Gate, PendingLogin, GateLoginSnapshot}
use some_server.Gate.Accounts.{bind_account}
use some_server.Gate.Sessions.{activate}
use some_server.Gate.Routing.{bind_player}
use some_server.Gate.Connections.{mark_bound}
use some_server.Gate.Protocol.{send_login_response, error_code_ok, error_code_internal}
use some_server.Gate.Login.Disconnect.{own_session}

-- `pb::ipc::RESULT_CODE_OK`
abbrev pub result_code_ok : ℕ
result_code_ok = 1

-- `pb::ipc::LoginPlayerResponse`, less the snapshot of the player.
pub record LoginPlayerResponse : Type 0 where
  pub request_id : ℕ
  pub result_code : ℕ
  pub player_id : ℕ
  pub game_service_type : ℕ
  pub game_instance_id : ℕ
  pub is_reconnect : Bool
  pub error_message : String

abbrev pub noted : LoginPlayerResponse → GateLoginSnapshot
noted response = record {
  last_request_id = response.request_id;
  last_player_id = response.player_id;
  last_result_code = response.result_code;
  last_game_service_type = response.game_service_type;
  last_game_instance_id = response.game_instance_id;
  last_is_reconnect = response.is_reconnect;
  last_error_message = response.error_message;
}

abbrev pub answer_code : LoginPlayerResponse → ℕ
answer_code response =
    if nat_eq response.result_code result_code_ok then error_code_ok else error_code_internal

module _ {W : Type 0} (world : World W) where
  -- What an answer OK does to the session, the route, the connection and the account; the results
  -- are ignored.
  unfoldable pub sign_in : Gate W → PendingLogin → LoginPlayerResponse → Gate W
  sign_in g pending response =
      let (now, w) = world.now_ms g.world in
      let (_, sessions) = activate g.sessions now pending.gate_session_id (record {
        account_id = pending.account_id;
        player_id = response.player_id;
        game_service_type = response.game_service_type;
        game_instance_id = response.game_instance_id;
      }) in
      let (now', w') = world.now_ms w in
      let (_, routes) =
        bind_player g.routes now' response.player_id response.game_service_type
          response.game_instance_id pending.gate_session_id in
      let (_, connections) = mark_bound g.connections pending.connection_id in
      let (_, w'') =
        bind_account world.redis g.accounts pending.account_id
          (own_session world g pending.gate_session_id) w' in
      record g { sessions = sessions; routes = routes; connections = connections; world = w'' }

  unfoldable pub handle_login_response : Gate W → LoginPlayerResponse → Result × Gate W
  unfolding sign_in
  handle_login_response g response =
      let g' = record g { login = record (g.login) { snapshot = noted response } } in
      elim (find response.request_id g.login.pending_logins) [
        | none ↦ (failure "missing pending login", g')
        | some pending ↦
            let taken = record g' {
              login = record (g'.login) {
                pending_logins = erase response.request_id g.login.pending_logins;
              };
            } in
            let signed =
              if nat_eq response.result_code result_code_ok
              then sign_in taken pending response
              else taken in
            send_login_response world signed pending.connection_id response.player_id
              response.is_reconnect (answer_code response) response.error_message
      ]
