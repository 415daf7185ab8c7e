-- ===== src/Gate/Console.antt =====
-- The console commands of src/gate/application.cpp that change the gate, with their arguments read.
-- A command that fails is logged, and changes nothing.
use some_server.Base.{ℕ, if◌then◌else◌, Eq_ℕ, Eq_String, Eq_Bytes, Bytes}
use some_server.Gate.State.{World, Gate}
use some_server.Gate.Sessions.{Login, open_anonymous, activate}
use some_server.Gate.Routing.{bind_player}
use some_server.Gate.Connections.{accept}
use some_server.Gate.Login.Requests.{request_login}
use some_server.Gate.Login.Kicks.{close_connection}

module _ {W : Type 0} (world : World W) where
  -- `connection_accept`: a connection without a socket.
  unfoldable pub connection_accept : Gate W → ℕ → Bytes → Gate W
  connection_accept g connection_id remote_endpoint =
      let (now, w) = world.now_ms g.world in
      let (result, connections) = accept g.connections now connection_id remote_endpoint in
      if result.ok then record g { connections = connections; world = w } else g

  -- `connection_close`
  unfoldable pub connection_close : Gate W → ℕ → Gate W
  connection_close g connection_id = (close_connection world g connection_id).1

  -- `session_open`: the number of the session and that of the connection are given.
  unfoldable pub session_open : Gate W → ℕ → ℕ → Gate W
  session_open g gate_session_id connection_id =
      let (now, w) = world.now_ms g.world in
      let (result, sessions) = open_anonymous g.sessions now gate_session_id connection_id in
      if result.ok then record g { sessions = sessions; world = w } else g

  -- `session_activate`
  unfoldable pub session_activate : Gate W → ℕ → Login → Gate W
  session_activate g gate_session_id login =
      let (now, w) = world.now_ms g.world in
      let (result, sessions) = activate g.sessions now gate_session_id login in
      if result.ok then record g { sessions = sessions; world = w } else g

  -- `route_bind`
  unfoldable pub route_bind : Gate W → ℕ → ℕ → ℕ → ℕ → Gate W
  route_bind g player_id game_service_type game_instance_id gate_session_id =
      let (now, w) = world.now_ms g.world in
      record g {
        routes =
            (bind_player g.routes now player_id game_service_type game_instance_id
              gate_session_id).1;
        world = w;
      }

  -- `login_request`: a request for connection 0.
  unfoldable pub login_request : Gate W → ℕ → ℕ → Bytes → Bytes → ℕ → Gate W
  login_request g game_instance_id gate_session_id platform account_id area_id =
      (request_login world g game_instance_id 0 gate_session_id platform account_id area_id).1
