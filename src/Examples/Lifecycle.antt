-- ===== src/Examples/Lifecycle.antt =====
-- The theorem on the start of an application at concrete inputs.
use some_server.Base.{
  ℕ, ◌+◌, ◌^◌, ◌≡◌, refl, true, Option, none, some, List, [], ◌∷◌, String, if◌then◌else◌, ◌==◌,
  Eq_ℕ, Eq_String, Eq_Bytes,
}
use some_server.Application.{Service, Services, Hooks, Application, start, stop}
use some_server.Application.Starting.{BringsUp, start_lem}

-- The names of the services that were started, and of those that were stopped, the last one first.
record World : Type 0 where
  started : List String
  stopped : List String

-- The service that has the name throws.
abbrev fails : String → String → Option String
fails bad name = if name == bad then some "broken" else none

abbrev calls : String → String → Services World
calls bad_start bad_stop = record {
  load_service = λ s w. (none, w);
  start_service = λ s w. (fails bad_start s.name, record w { started = s.name ∷ w.started });
  stop_service = λ s w. (fails bad_stop s.name, record w { stopped = s.name ∷ w.stopped });
  unload_service = λ s w. (none, w);
}

abbrev hooks : Hooks World
hooks = record {
  application_name = "game";
  register_services = [];
  register_runtime_commands = λ w. (none, w);
  on_load = λ w. (none, w);
  on_start = λ w. (none, w);
  on_stop = λ w. (none, w);
  on_unload = λ w. (none, w);
}

abbrev service : String → ℕ → Service
service name batch = record { name = name; batch = 2 ^ 31 + batch }

abbrev game : Application
game = record {
  services = [];
  services_in_order = service "lease" 10 ∷ service "session" 30 ∷ service "login" 30 ∷ [];
  loaded_services = [];
  started_services = [];
  services_registered = true;
  runtime_commands_registered = true;
}

abbrev idle : World
idle = record { started = []; stopped = [] }

-- The last service does not start, and the session does not stop: the list keeps the two, and a
-- stop goes through them again.
stopped_twice :
    (stop
      (calls "login" "session")
      hooks
      (start (calls "login" "session") hooks game idle).1
      (start (calls "login" "session") hooks game idle).2).2.stopped
    ≡ "lease" ∷ "session" ∷ "lease" ∷ "session" ∷ []
unfolding start stop
stopped_twice = refl

start_lem_example :
    let r = start (calls "login" "session") hooks game idle in
    BringsUp
      (calls "login" "session").start_service
      (calls "login" "session").stop_service
      game.services_in_order
      idle
      (r.0, r.1.started_services, r.2)
start_lem_example = start_lem (calls "login" "session") hooks game idle refl
