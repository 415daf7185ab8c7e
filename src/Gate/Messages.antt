-- ===== src/Gate/Messages.antt =====
-- src/gate/services/player_message_service: the messages between a client and the game process of its
-- player, and the dispatcher of all messages from clients.
pub mod Exchange
use some_server.Base.{
  ℕ, Bool, true, false, not, ◌&&◌, ◌||◌, none, some, String, nat_eq, if◌then◌else◌, Eq_ℕ, Eq_String,
  Eq_Bytes, Bytes, inc64,
}
use some_server.Base.Table.{find, put, erase}
use some_server.Ipc.Types.{Result, success, failure}
use some_server.Gate.State.{
  World, Gate, ForwardPlayerMessageRequest, PlayerMessageRequest, forward_player_message_request,
}
use some_server.Gate.Sessions.{
  GateSessionState, GateSessionRecord, active, find_by_connection, snapshot,
}
use some_server.Gate.Protocol.{
  send_player_message_response, send_player_push_message, handle_heartbeat, error_code_ok,
  error_code_internal,
}
use some_server.Gate.Login.Disconnect.{disconnected}
use some_server.Gate.Login.Requests.{handle_client_login}
use some_server.Gate.Login.Answers.{result_code_ok}
use some_server.Gate.Connections.Worker.{worker_round}

-- `pb::ipc::ForwardPlayerMessageResponse` and `pb::ipc::PushPlayerMessage`, less what is not read.
pub record ForwardPlayerMessageResponse : Type 0 where
  pub request_id : ℕ
  pub message_id : ℕ
  pub result_code : ℕ
  pub response_payload_bytes : Bytes
  pub error_message : String

pub record PushPlayerMessage : Type 0 where
  pub player_id : ℕ
  pub gate_session_id : ℕ
  pub message_id : ℕ
  pub payload_bytes : Bytes

abbrev pub is_active : GateSessionState → Bool
is_active active = true
is_active _ = false

-- A session that messages are forwarded for.
abbrev pub plays : GateSessionRecord → Bool
plays r = is_active r.state && not (nat_eq r.player_id 0)

-- The type and the instance of the gate are constants here.
abbrev pub forward_request :
    ℕ → GateSessionRecord → PlayerMessageRequest → ForwardPlayerMessageRequest
forward_request id session request = record {
  request_id = id;
  gate_service_type = 20;
  gate_instance_id = 1;
  gate_session_id = session.gate_session_id;
  player_id = session.player_id;
  message_id = request.message_id;
  payload_bytes = request.payload;
  client_sequence = request.sequence;
  timestamp_ms = request.timestamp_ms;
}

-- The messages that handlers are registered for: `pb::MESSAGE_ID_LOGIN_REQUEST`,
-- `HEARTBEAT_REQUEST` and `PLAYER_MESSAGE_REQUEST`.
pub data ClientHandler : Type 0 where
  login heartbeat player_message unsupported : ClientHandler

abbrev pub handler_of : ℕ → ClientHandler
handler_of message_id =
    if nat_eq message_id 1001
    then login
    else if nat_eq message_id 1002
    then heartbeat
    else if nat_eq message_id 3001
    then player_message
    else unsupported

module _ {W : Type 0} (world : World W) where
  -- The message goes to the game process of a session.
  unfoldable pub forward : Gate W → ℕ → GateSessionRecord → PlayerMessageRequest → Result × Gate W
  forward g connection_id session request =
      let id = g.messages.next_request_id in
      let (sent, w) =
        world.send_process_payload
          (record {
            service_type = session.game_service_type;
            instance_id = session.game_instance_id;
          })
          (forward_player_message_request (forward_request id session request)) g.world in
      let g' = record g {
        messages = record (g.messages) { next_request_id = inc64 id };
        world = w;
      } in
      if sent.ok
      then (
        success,
        record g' {
          messages = record (g'.messages) {
            pending_messages =
                put id
                  (record {
                    connection_id = connection_id;
                    gate_session_id = session.gate_session_id;
                    player_id = session.player_id;
                    client_message_id = request.message_id;
                  })
                  g.messages.pending_messages;
          };
        },
      )
      else (sent, g')

  unfoldable pub handle_client_player_message : Gate W → ℕ → PlayerMessageRequest → Result × Gate W
  unfolding forward
  handle_client_player_message g connection_id request =
      elim (find_by_connection g.sessions connection_id) [
        | none ↦ (failure "gate session is not active", g)
        | some session ↦
            if plays session
            then forward g connection_id session request
            else (failure "gate session is not active", g)
      ]

  unfoldable pub handle_forward_player_message_response :
      Gate W → ForwardPlayerMessageResponse → Result × Gate W
  handle_forward_player_message_response g response =
      elim (find response.request_id g.messages.pending_messages) [
        | none ↦ (failure "missing pending player message", g)
        | some pending ↦
            send_player_message_response world
              (record g {
                messages = record (g.messages) {
                  pending_messages = erase response.request_id g.messages.pending_messages;
                };
              })
              pending.connection_id response.message_id response.response_payload_bytes
              (if nat_eq response.result_code result_code_ok
                then error_code_ok
                else error_code_internal)
              response.error_message
      ]

  unfoldable pub handle_push_player_message : Gate W → PushPlayerMessage → Result × Gate W
  handle_push_player_message g push = elim (snapshot g.sessions push.gate_session_id) [
    | none ↦ (failure "gate session for push is not available", g)
    | some session ↦
        if nat_eq session.connection_id 0 || not (nat_eq session.player_id push.player_id)
        then (failure "gate session for push is not available", g)
        else send_player_push_message world g session.connection_id push.message_id
            push.payload_bytes
  ]

  -- Parsing a message, and the call of its handler.
  unfoldable pub call_handler : ClientHandler → Gate W → ℕ → Bytes → Result × Gate W
  call_handler login g connection_id payload = elim (world.parse_login_request payload) [
    | none ↦ (failure "failed to parse protobuf payload", g)
    | some request ↦ handle_client_login world g connection_id request
  ]
  call_handler heartbeat g connection_id payload =
      if world.parse_heartbeat_request payload
      then handle_heartbeat world g connection_id
      else (failure "failed to parse protobuf payload", g)
  call_handler player_message g connection_id payload =
      elim (world.parse_player_message_request payload) [
        | none ↦ (failure "failed to parse protobuf payload", g)
        | some request ↦ handle_client_player_message g connection_id request
      ]
  call_handler unsupported g connection_id payload = (failure "unsupported message id", g)

  -- `DispatchClientMessage`
  unfoldable pub dispatch_client_message : Gate W → ℕ → ℕ → Bytes → Result × Gate W
  dispatch_client_message g connection_id message_id payload =
      call_handler (handler_of message_id) g connection_id payload

  -- The message handler that src/gate/application.cpp sets.
  abbrev pub handle_message : ℕ → ℕ → Bytes → Gate W → Gate W
  handle_message connection_id message_id payload g =
      (dispatch_client_message g connection_id message_id payload).1

  -- A round of the worker thread of the gate.
  abbrev pub gate_round : Gate W → Bool × Gate W
  gate_round = worker_round world (disconnected world) handle_message
