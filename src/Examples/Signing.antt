-- ===== src/Examples/Signing.antt =====
-- A gate over a world that can be run, and the theorems on its login service at concrete inputs.
use some_server.Base.{
  ◌≡◌, ◌⊎◌, refl, true, false, none, some, [], ◌∷◌, arith, nat_eq, if◌then◌else◌, Eq_ℕ, Eq_String,
  Eq_Bytes, Bytes, length,
}
use some_server.Base.Table.{Table, find, put, erase}
use some_server.Ipc.Types.{success, failure}
use some_server.Game.Redis.{command}
use some_server.Base.Fields.{getline, read_field}
use some_server.Base.Decimal.{stoul, skip_space, read_signed, read_magnitude, scan}
use some_server.Gate.State.{
  World, WorldLaws, Gate, ConnectionService, GateConnectionRecord, PendingLogin, LoginRequest,
  PlayerMessageRequest, ForwardPlayerMessageRequest, closed, bound,
}
use some_server.Gate.Accounts.{
  AccountDirectory, GateAccountOwner, account_key, build_value, parse_value, bind_account,
  lookup_account, remove_account_if_matches,
}
use some_server.Gate.Accounts.Entries.{lookup_account-bind_account, remove_account_if_matches_lem}
use some_server.Gate.Sessions.{Sessions, GateSessionRecord, opened, logged_in, snapshot, active}
use some_server.Gate.Connections.{arrived, send, write_frame, write_loop}
use some_server.Gate.Connections.Writing.{state_of}
use some_server.Gate.Protocol.{send_message}
use some_server.Gate.Login.Answers.{LoginPlayerResponse, handle_login_response}
use some_server.Gate.Login.SignedIn.{
  login_of, route_of, handle_login_response_lem, handle_login_response_gone,
}
use some_server.Gate.Login.Once.{handle_login_response_once, noted_in}
use some_server.Gate.Login.Kicks.{kick_existing_account_session}
use some_server.Gate.Login.Kicking.{Same, kick_existing_account_session-Same, kicks_named_session}
use some_server.Gate.Login.Requests.{handle_client_login, begin_login, open_session, request_login}
use some_server.Gate.Login.Kicks.{kick_session}
use some_server.Gate.Sessions.{
  find_by_account, find_by_connection, first_of_connection, open_anonymous,
}
use some_server.Gate.Connections.{mark_anonymous}
use some_server.Gate.Messages.{forward, dispatch_client_message, call_handler}
use some_server.Gate.Connections.Worker.{
  worker_round, watch, serve, handle_ready, accept_ready_socket,
}
use some_server.Gate.Connections.{
  handle_readable, read_loop, finalize_connection, close_socket, close,
}
use some_server.Gate.Login.Disconnect.{disconnected}
use some_server.Gate.Sessions.{remove_by_connection}
use some_server.Gate.Login.Beginning.{Begun, handle_client_login-Begun}
use some_server.Gate.Messages.{
  handle_client_player_message, handle_forward_player_message_response,
  ForwardPlayerMessageResponse, plays,
}
use some_server.Gate.Messages.Exchange.{IsSent, answer_reaches_client, settled, client_answer}
use some_server.Gate.Console.{connection_accept, connection_close, session_open}
use some_server.Gate.Connections.{accept}
use some_server.Gate.Run.{round, closes, accepts, opens, snapshot-run_gate}
use some_server.Gate.Login.Auth.{validate}
use some_server.Examples.Instances.{memory_redis, memory_redis-RedisLaws}

-- Sockets that take all that is written, a clock that stands still, and a network that takes every
-- message; nothing arrives.
unfoldable memory_world : World (Table Bytes Bytes)
memory_world = record {
  redis = memory_redis;
  send = λ fd s w. (length s, w);
  recv = λ fd n w. ([], w);
  close = λ fd w. w;
  accept = λ fd w. (none, w);
  set_up = λ w. (none, w);
  bind_listen = λ fd w. (true, w);
  select = λ fds w. (fds, w);
  now_ms = λ w. (5, w);
  time = λ w. (1, w);
  serialize = λ m. some [];
  parse_login_request = λ b. none;
  parse_heartbeat_request = λ b. true;
  parse_player_message_request = λ b. none;
  send_process_payload = λ to p w. (success, w);
}

memory_world-WorldLaws : WorldLaws memory_world
unfolding memory_world
memory_world-WorldLaws = record {
  redis_laws = memory_redis-RedisLaws;
  get-send = λ fd s k w. refl;
  get-close = λ fd k w. refl;
  get-now_ms = λ k w. refl;
  get-time = λ k w. refl;
  get-send_process_payload = λ to p k w. refl;
}

abbrev anna : Bytes
anna = b'a' ∷ b'n' ∷ []

abbrev bert : Bytes
bert = b'b' ∷ []

abbrev directory : AccountDirectory
directory = record { connected = true; redis_key_prefix = b'g' ∷ b':' ∷ [] }

abbrev first_record : GateConnectionRecord
first_record = arrived 3 []

-- Connections one and two, with their sockets.
abbrev two_connections : ConnectionService
two_connections = record {
  connections = (1, first_record) ∷ (2, first_record) ∷ [];
  socket_by_connection_id = (1, 7) ∷ (2, 8) ∷ [];
  connection_id_by_socket = (7, 1) ∷ (8, 2) ∷ [];
  next_connection_id = 3;
  listen_socket_fd = some 6;
  stopping = false;
  has_worker = true;
}

abbrev asked : PendingLogin
asked = record { connection_id = 1; gate_session_id = 1; account_id = anna }

abbrev gate_with : Sessions → Table Bytes Bytes → Gate (Table Bytes Bytes)
gate_with sessions redis = record {
  connections = two_connections;
  sessions = sessions;
  routes = [];
  accounts = directory;
  login = record {
    gate_instance_id = 1;
    pending_logins = (9, asked) ∷ [];
    next_request_id = 10;
    snapshot = record {
      last_request_id = 0;
      last_player_id = 0;
      last_result_code = 0;
      last_game_service_type = 0;
      last_game_instance_id = 0;
      last_is_reconnect = false;
      last_error_message = "";
    };
  };
  messages = record { next_request_id = 4; pending_messages = [] };
  protocol = record {
    encoded_login_response_bytes = 0;
    encoded_heartbeat_response_bytes = 0;
    encoded_kick_notification_bytes = 0;
    encoded_player_message_response_bytes = 0;
    encoded_player_push_bytes = 0;
  };
  world = redis;
}

abbrev session_one : GateSessionRecord
session_one = opened 4 1 1

abbrev waiting_gate : Gate (Table Bytes Bytes)
waiting_gate = gate_with ((1, session_one) ∷ []) []

abbrev lost_gate : Gate (Table Bytes Bytes)
lost_gate = gate_with [] []

abbrev accepted_answer : LoginPlayerResponse
accepted_answer = record {
  request_id = 9;
  result_code = 1;
  player_id = 42;
  game_service_type = 10;
  game_instance_id = 1;
  is_reconnect = false;
  error_message = "";
}

abbrev first_owner : GateAccountOwner
first_owner = record { gate_service_type = 20; gate_instance_id = 1; gate_session_id = 1 }

handle_login_response_lem_example :
    let g' = (handle_login_response memory_world waiting_gate accepted_answer).1 in
    (find 1 g'.sessions ≡ some (logged_in 5 1 (login_of asked accepted_answer) session_one))
    × (find 42 g'.routes ≡ some (route_of 5 asked accepted_answer))
    × (state_of g'.connections 1 ≡ some bound)
    × (memory_redis.get g'.world (account_key directory anna) ≡ some (build_value first_owner))
    × (find 9 g'.login.pending_logins ≡ none)
unfolding memory_world memory_redis find
handle_login_response_lem_example =
    handle_login_response_lem memory_world memory_world-WorldLaws waiting_gate accepted_answer asked
      refl refl session_one refl refl refl refl

handle_login_response_gone_example :
    let g' = (handle_login_response memory_world lost_gate accepted_answer).1 in
    (g'.sessions ≡ [])
    × (find 42 g'.routes ≡ some (route_of 5 asked accepted_answer))
    × (state_of g'.connections 1 ≡ some bound)
unfolding memory_world find
handle_login_response_gone_example =
    handle_login_response_gone memory_world memory_world-WorldLaws lost_gate accepted_answer asked
      refl refl refl refl

abbrev refused_answer : LoginPlayerResponse
refused_answer = record {
  request_id = 9;
  result_code = 8;
  player_id = 0;
  game_service_type = 10;
  game_instance_id = 1;
  is_reconnect = false;
  error_message = "late";
}

handle_login_response_once_example :
    let g' = (handle_login_response memory_world waiting_gate accepted_answer).1 in
    handle_login_response memory_world g' refused_answer
    ≡ (failure "missing pending login", noted_in memory_world g' refused_answer)
handle_login_response_once_example =
    handle_login_response_once memory_world memory_world-WorldLaws waiting_gate accepted_answer
      refused_answer refl

-- Account anna is at session one of this gate, as Redis says; the session there is another's.
abbrev owned_gate : Gate (Table Bytes Bytes)
owned_gate =
    gate_with ((1, record session_one { account_id = bert; state = active; player_id = 3 }) ∷ [])
      ((b'g' ∷ b':' ∷ anna, b'2' ∷ b'0' ∷ b':' ∷ b'1' ∷ b':' ∷ b'1' ∷ []) ∷ [])

kick_existing_account_session-Same_example :
    Same memory_world 2 owned_gate (kick_existing_account_session memory_world owned_gate anna 2).1
kick_existing_account_session-Same_example =
    kick_existing_account_session-Same memory_world memory_world-WorldLaws 2 owned_gate anna
      (refl, tt)

kicks_named_session_example :
    let (result, g') = kick_existing_account_session memory_world owned_gate anna 2 in
    (result ≡ success) × (state_of g'.connections 1 ≡ some closed) × (find 1 g'.sessions ≡ none)
unfolding memory_world memory_redis find lookup_account parse_value command getline read_field stoul
    skip_space read_signed read_magnitude scan send_message send write_frame write_loop
kicks_named_session_example =
    kicks_named_session memory_world memory_world-WorldLaws 2 owned_gate anna first_owner
      (record session_one { account_id = bert; state = active; player_id = 3 }) (refl, tt) refl refl
      refl refl refl refl

abbrev credentials : LoginRequest
credentials = record { platform = b'p' ∷ []; account_id = anna; credential = b'c' ∷ [] }

handle_client_login-Begun_example :
    Begun memory_world 2 anna 10 (handle_client_login memory_world lost_gate 2 credentials).1
unfolding memory_world memory_redis find lookup_account command validate
    kick_existing_account_session kick_session find_by_account handle_client_login begin_login
    open_session open_anonymous snapshot mark_anonymous request_login
handle_client_login-Begun_example =
    handle_client_login-Begun memory_world lost_gate 2 credentials refl refl

-- The same with a client at socket seven, which signs in; the other one has left.
unfoldable client_world : World (Table Bytes Bytes)
unfolding memory_world
client_world = record memory_world {
  recv = λ fd n w. ((if nat_eq fd 7 then 233 ∷ 3 ∷ 0 ∷ 0 ∷ 0 ∷ 0 ∷ 0 ∷ 0 ∷ [] else []), w);
  parse_login_request = λ b. some credentials;
}

snapshot-run_gate_example : (opened 5 1 1).connection_id ≡ 1
unfolding client_world memory_world memory_redis find put erase lookup_account command validate
    kick_existing_account_session kick_session find_by_account handle_client_login begin_login
    open_session open_anonymous snapshot mark_anonymous request_login worker_round watch serve
    handle_ready handle_readable read_loop accept_ready_socket finalize_connection close_socket
    disconnected remove_by_connection first_of_connection dispatch_client_message call_handler close
    connection_accept connection_close session_open accept
snapshot-run_gate_example =
    snapshot-run_gate client_world (accepts 5 [] ∷ opens 5 5 ∷ round ∷ closes 2 ∷ []) lost_gate 1
      (opened 5 1 1) (refl, tt) refl refl

abbrev playing : GateSessionRecord
playing = record session_one {
  account_id = anna;
  state = active;
  player_id = 42;
  game_service_type = 10;
  game_instance_id = 1;
}

abbrev playing_gate : Gate (Table Bytes Bytes)
playing_gate = gate_with ((1, playing) ∷ []) []

abbrev echo : PlayerMessageRequest
echo = record { message_id = 3101; sequence = 1; timestamp_ms = 2; payload = anna }

abbrev echoed : ForwardPlayerMessageResponse
echoed = record {
  request_id = 4;
  message_id = 3101;
  result_code = 1;
  response_payload_bytes = anna;
  error_message = "";
}

answer_reaches_client_example :
    let g' = (handle_client_player_message memory_world playing_gate 1 echo).1 in
    ((session : GateSessionRecord) × (sent : ForwardPlayerMessageRequest) × (find_by_connection
          playing_gate.sessions 1
        ≡ some session)
      × (plays session ≡ true)
      × IsSent memory_world playing_gate g' session echo sent
      × (sent.request_id ≡ echoed.request_id))
    × (handle_forward_player_message_response memory_world g' echoed
        ≡ send_message memory_world (settled memory_world g' echoed) 1 (client_answer echoed))
unfolding memory_world handle_client_player_message forward find_by_connection first_of_connection
answer_reaches_client_example =
    answer_reaches_client memory_world playing_gate 1 echo echoed refl refl

lookup_account-bind_account_example :
    let (result, r') = bind_account memory_redis directory anna first_owner [] in
    (result ≡ success) × ((lookup_account memory_redis directory anna r').0 ≡ some first_owner)
unfolding memory_redis
lookup_account-bind_account_example =
    lookup_account-bind_account memory_redis memory_redis-RedisLaws directory anna first_owner []
      refl
      (record { type_fits = omega arith; instance_fits = omega arith; session_fits = omega arith })
      refl refl

remove_account_if_matches_lem_example :
    let r = owned_gate.world in
    let k = account_key directory anna in
    let r' = (remove_account_if_matches memory_redis directory anna first_owner r).1 in
    (memory_redis.get r' k ≡ memory_redis.get r k)
    ⊎ ((k ≡ account_key directory anna)
        × (memory_redis.get r' k ≡ none)
        × ((w : Bytes) × (memory_redis.get r k ≡ some w) × (parse_value w ≡ some first_owner)))
remove_account_if_matches_lem_example =
    remove_account_if_matches_lem memory_redis memory_redis-RedisLaws directory anna first_owner
      owned_gate.world (account_key directory anna)
