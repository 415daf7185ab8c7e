-- ===== src/Gate/Protocol.antt =====
-- src/gate/services/client_protocol_service: the messages to the clients. The dispatcher of the
-- messages from them stands with their handlers.
use some_server.Base.{
  ℕ, ◌*◌, ◌%◌, ◌^◌, Bool, none, some, String, Eq_ℕ, Eq_String, Eq_Bytes, Bytes, length,
}
use some_server.Ipc.Types.{Result, failure}
use some_server.Gate.State.{
  GateClientProtocolSnapshot, ClientMessage, login_response, heartbeat_response, kick_notification,
  player_message_response, player_push, World, Gate,
}
use some_server.Gate.Connections.{send}

abbrev pub error_code_ok : ℕ
error_code_ok = 1

abbrev pub error_code_unauthorized : ℕ
error_code_unauthorized = 3

abbrev pub error_code_internal : ℕ
error_code_internal = 4

-- The number in the frame of a message.
abbrev pub frame_message_id : ClientMessage → ℕ
frame_message_id (login_response _ _ _ _) = 2001
frame_message_id (heartbeat_response _) = 2002
frame_message_id (kick_notification _) = 2003
frame_message_id (player_message_response _ _ _ _) = 3002
frame_message_id (player_push _ _) = 3003

-- `mSnapshot.*counter = payload.size()`
abbrev pub count_bytes : ClientMessage → ℕ → GateClientProtocolSnapshot → GateClientProtocolSnapshot
count_bytes (login_response _ _ _ _) n s = record s { encoded_login_response_bytes = n }
count_bytes (heartbeat_response _) n s = record s { encoded_heartbeat_response_bytes = n }
count_bytes (kick_notification _) n s = record s { encoded_kick_notification_bytes = n }
count_bytes (player_message_response _ _ _ _) n s = record s {
  encoded_player_message_response_bytes = n;
}
count_bytes (player_push _ _) n s = record s { encoded_player_push_bytes = n }

module _ {W : Type 0} (world : World W) where
  -- `SendMessage`, with the send handler that the application sets, the `Send` of the connections.
  unfoldable pub send_message : Gate W → ℕ → ClientMessage → Result × Gate W
  send_message g connection_id message = elim (world.serialize message) [
    | none ↦ (failure "failed to serialize protobuf payload", g)
    | some payload ↦
        send world (record g { protocol = count_bytes message (length payload) g.protocol })
          connection_id (frame_message_id message) payload
  ]

  abbrev pub send_login_response : Gate W → ℕ → ℕ → Bool → ℕ → String → Result × Gate W
  send_login_response g connection_id player_id is_reconnect error_code error_message =
      send_message g connection_id (login_response error_code error_message player_id is_reconnect)

  abbrev pub send_heartbeat_response : Gate W → ℕ → ℕ → Result × Gate W
  send_heartbeat_response g connection_id server_time_ms =
      send_message g connection_id (heartbeat_response server_time_ms)

  abbrev pub send_kick_notification : Gate W → ℕ → String → Result × Gate W
  send_kick_notification g connection_id reason =
      send_message g connection_id (kick_notification reason)

  abbrev pub send_player_message_response : Gate W → ℕ → ℕ → Bytes → ℕ → String → Result × Gate W
  send_player_message_response g connection_id message_id payload error_code error_message =
      send_message g connection_id
        (player_message_response message_id error_code error_message payload)

  abbrev pub send_player_push_message : Gate W → ℕ → ℕ → Bytes → Result × Gate W
  send_player_push_message g connection_id message_id payload =
      send_message g connection_id (player_push message_id payload)

  unfoldable pub handle_heartbeat : Gate W → ℕ → Result × Gate W
  handle_heartbeat g connection_id =
      let (now, w) = world.time g.world in
      send_heartbeat_response (record g { world = w }) connection_id (now * 1000 % 2 ^ 64)
