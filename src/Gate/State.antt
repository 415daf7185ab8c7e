-- ===== src/Gate/State.antt =====
-- What the services of a gate keep, and the world that they act on: sockets, the clock, Redis, the
-- IPC network and the generated protobuf code, none of which the gate implements.
use some_server.Base.{ℕ, ◌≡◌, Bool, Option, List, String, Eq_ℕ, Eq_String, Eq_Bytes, Bytes}
use some_server.Base.Table.{Table}
use some_server.Ipc.Types.{Result, ProcessId}
use some_server.Game.Redis.{Redis, RedisLaws}
use some_server.Gate.Accounts.{AccountDirectory}
use some_server.Gate.Sessions.{Sessions}

-- connection_service.h
pub data GateConnectionState : Type 0 where
  accepted handshaking anonymous authenticating bound closing closed : GateConnectionState

pub record GateConnectionRecord : Type 0 where
  pub state : GateConnectionState
  pub remote_endpoint : Bytes
  pub last_recv_time_ms : ℕ
  pub last_send_time_ms : ℕ
  pub heartbeat_deadline_ms : ℕ

pub record ConnectionService : Type 0 where
  pub connections : Table ℕ GateConnectionRecord
  pub socket_by_connection_id : Table ℕ ℕ
  pub connection_id_by_socket : Table ℕ ℕ
  pub next_connection_id : ℕ
  pub listen_socket_fd : Option ℕ
  pub stopping : Bool
  -- `mWorkerThread.joinable()`
  pub has_worker : Bool

-- routing_service.h
pub record GatePlayerRoute : Type 0 where
  pub game_service_type : ℕ
  pub game_instance_id : ℕ
  pub gate_session_id : ℕ
  pub last_update_ms : ℕ

abbrev pub Routes : Type 0
Routes = Table ℕ GatePlayerRoute

-- login_service.h
pub record PendingLogin : Type 0 where
  pub connection_id : ℕ
  pub gate_session_id : ℕ
  pub account_id : Bytes

pub record GateLoginSnapshot : Type 0 where
  pub last_request_id : ℕ
  pub last_player_id : ℕ
  pub last_result_code : ℕ
  pub last_game_service_type : ℕ
  pub last_game_instance_id : ℕ
  pub last_is_reconnect : Bool
  pub last_error_message : String

pub record LoginService : Type 0 where
  pub gate_instance_id : ℕ
  pub pending_logins : Table ℕ PendingLogin
  pub next_request_id : ℕ
  pub snapshot : GateLoginSnapshot

-- player_message_service.h
pub record PendingMessage : Type 0 where
  pub connection_id : ℕ
  pub gate_session_id : ℕ
  pub player_id : ℕ
  pub client_message_id : ℕ

pub record MessageService : Type 0 where
  pub next_request_id : ℕ
  pub pending_messages : Table ℕ PendingMessage

-- client_protocol_service.h: the sizes of the last messages.
pub record GateClientProtocolSnapshot : Type 0 where
  pub encoded_login_response_bytes : ℕ
  pub encoded_heartbeat_response_bytes : ℕ
  pub encoded_kick_notification_bytes : ℕ
  pub encoded_player_message_response_bytes : ℕ
  pub encoded_player_push_bytes : ℕ

-- The messages to a client: src/proto/game. The header of a response has the sequence 1; the
-- error code and text of a heartbeat response are OK and empty.
pub data ClientMessage : Type 0 where
  login_response :
      (error_code : ℕ) (error_message : String) (player_id : ℕ) (is_reconnect : Bool)
      → ClientMessage
  heartbeat_response : (server_time_ms : ℕ) → ClientMessage
  kick_notification : (reason : String) → ClientMessage
  player_message_response :
      (message_id error_code : ℕ) (error_message : String) (payload : Bytes) → ClientMessage
  player_push : (message_id : ℕ) (payload : Bytes) → ClientMessage

-- The messages to other processes: src/proto/ipc.
pub record LoginPlayerRequest : Type 0 where
  pub request_id : ℕ
  pub gate_service_type : ℕ
  pub gate_instance_id : ℕ
  pub gate_session_id : ℕ
  pub platform : Bytes
  pub account_id : Bytes
  pub area_id : ℕ
  pub client_version : ℕ
  pub channel : String
  pub login_token : String

pub record KickAccountSession : Type 0 where
  pub request_id : ℕ
  pub account_id : Bytes
  pub old_gate_service_type : ℕ
  pub old_gate_instance_id : ℕ
  pub old_gate_session_id : ℕ
  pub new_gate_service_type : ℕ
  pub new_gate_instance_id : ℕ
  pub reason : String

pub record PlayerDisconnected : Type 0 where
  pub player_id : ℕ
  pub gate_service_type : ℕ
  pub gate_instance_id : ℕ
  pub gate_session_id : ℕ
  pub reason : ℕ
  pub occurred_at_ms : ℕ

pub record ForwardPlayerMessageRequest : Type 0 where
  pub request_id : ℕ
  pub gate_service_type : ℕ
  pub gate_instance_id : ℕ
  pub gate_session_id : ℕ
  pub player_id : ℕ
  pub message_id : ℕ
  pub payload_bytes : Bytes
  pub client_sequence : ℕ
  pub timestamp_ms : ℕ

pub data ProcessPayload : Type 0 where
  login_player_request : LoginPlayerRequest → ProcessPayload
  kick_account_session : KickAccountSession → ProcessPayload
  player_disconnected : PlayerDisconnected → ProcessPayload
  forward_player_message_request : ForwardPlayerMessageRequest → ProcessPayload

-- The messages that a client sends, less the fields that the gate does not read.
pub record LoginRequest : Type 0 where
  pub platform : Bytes
  pub account_id : Bytes
  pub credential : Bytes

pub record PlayerMessageRequest : Type 0 where
  pub message_id : ℕ
  pub sequence : ℕ
  pub timestamp_ms : ℕ
  pub payload : Bytes

-- What the gate calls. `send` and `recv` are those of a socket: how many bytes were taken, and the
-- bytes that came, none for an error or the end; `close` is `shutdown` with `close`, `accept` gives
-- the socket with the text of its endpoint. `set_up` is `socket` with its options, `bind_listen`
-- `inet_pton`, `bind` and `listen`. `select` gives the sockets that are ready.
pub record World (W : Type 0) : Type 0 where
  pub redis : Redis W
  pub send : ℕ → Bytes → W → ℕ × W
  pub recv : ℕ → ℕ → W → Bytes × W
  pub close : ℕ → W → W
  pub accept : ℕ → W → Option (ℕ × Bytes) × W
  pub set_up : W → Option ℕ × W
  pub bind_listen : ℕ → W → Bool × W
  pub select : List ℕ → W → List ℕ × W
  -- the system clock in milliseconds, and `std::time`
  pub now_ms : W → ℕ × W
  pub time : W → ℕ × W
  pub serialize : ClientMessage → Option Bytes
  -- `ParseFromString` of the three messages from a client
  pub parse_login_request : Bytes → Option LoginRequest
  pub parse_heartbeat_request : Bytes → Bool
  pub parse_player_message_request : Bytes → Option PlayerMessageRequest
  -- `GateIpcService::SendProcessPayload`
  pub send_process_payload : ProcessId → ProcessPayload → W → Result × W

-- The commands of Redis behave as documented, and only they touch its keys.
pub record WorldLaws {W : Type 0} (world : World W) : Type 0 where
  pub redis_laws : RedisLaws world.redis
  pub get-send :
      (fd : ℕ) (s k : Bytes) (w : W) → world.redis.get (world.send fd s w).1 k ≡ world.redis.get w k
  pub get-close :
      (fd : ℕ) (k : Bytes) (w : W) → world.redis.get (world.close fd w) k ≡ world.redis.get w k
  pub get-now_ms : (k : Bytes) (w : W) → world.redis.get (world.now_ms w).1 k ≡ world.redis.get w k
  pub get-time : (k : Bytes) (w : W) → world.redis.get (world.time w).1 k ≡ world.redis.get w k
  pub get-send_process_payload :
      (to : ProcessId) (p : ProcessPayload) (k : Bytes) (w : W)
      → world.redis.get (world.send_process_payload to p w).1 k ≡ world.redis.get w k

-- A gate with all its services, as the application wires them.
pub record Gate (W : Type 0) : Type 0 where
  pub connections : ConnectionService
  pub sessions : Sessions
  pub routes : Routes
  pub accounts : AccountDirectory
  pub login : LoginService
  pub messages : MessageService
  pub protocol : GateClientProtocolSnapshot
  pub world : W
