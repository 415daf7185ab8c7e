-- ===== src/Gate/Routing.antt =====
-- src/gate/services/routing_service: which game process serves a player of this gate. Each method
-- holds the lock; the clock comes in as an argument.
use some_server.Base.{ℕ, Option, none, some, nat_eq, if◌then◌else◌, Eq_ℕ, Eq_String, Eq_Bytes}
use some_server.Base.Table.{find, put, erase}
use some_server.Ipc.Types.{Result, success, failure}
use some_server.Gate.State.{GatePlayerRoute, Routes}

unfoldable pub bind_player : Routes → ℕ → ℕ → ℕ → ℕ → ℕ → Result × Routes
bind_player m now player_id game_service_type game_instance_id gate_session_id = (
  success,
  put player_id
      (record {
        game_service_type = game_service_type;
        game_instance_id = game_instance_id;
        gate_session_id = gate_session_id;
        last_update_ms = now;
      })
      m,
)

unfoldable pub unbind_player : Routes → ℕ → ℕ → Result × Routes
unbind_player m player_id gate_session_id = elim (find player_id m) [
  | none ↦ (failure "player route does not exist", m)
  | some r ↦
      if nat_eq r.gate_session_id gate_session_id
      then (success, erase player_id m)
      else (failure "player route gate_session_id mismatch", m)
]

unfoldable pub snapshot : Routes → ℕ → Option GatePlayerRoute
snapshot m player_id = find player_id m
