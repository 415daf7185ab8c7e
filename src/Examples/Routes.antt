-- ===== src/Examples/Routes.antt =====
-- The theorems on routing at concrete inputs.
use some_server.Base.{◌≡◌, true, false, none, some, [], ◌∷◌, nat_eq, if◌then◌else◌}
use some_server.Ipc.Types.{ProcessRef, ProcessDescriptor, direct, no_scope}
use some_server.Ipc.Routing.{MembershipView, RoutingContext, resolve}
use some_server.Ipc.Routing.Hops.{is_sound, is_sound-resolve}

abbrev game_one : ProcessRef
game_one = record { process_id = record { service_type = 1; instance_id = 1 }; incarnation_id = 41 }

abbrev relay_two : ProcessRef
relay_two = record {
  process_id = record { service_type = 2; instance_id = 2 };
  incarnation_id = 42;
}

abbrev relay_process : ProcessDescriptor
relay_process = record {
  process = relay_two;
  service_name = "relay";
  listen_endpoint = record { host = "localhost"; port = 7000 };
  protocol_version = 3;
  start_time_unix_ms = 0;
  labels = ("zone", "a") ∷ [];
  relay_capabilities = [];
}

-- A view with one relay.
abbrev view : MembershipView
view = record {
  find = λ id. none;
  find_by_service = λ t. if nat_eq t 2 then relay_process ∷ [] else [];
}

-- A message to process 3.4, to which there is no link.
abbrev context : RoutingContext
context = record {
  self = game_one;
  envelope = record {
    header = record {
      source_process = game_one;
      semantic = direct;
      target_receiver = record { type = 1; key_hi = 3; key_lo = 4 };
      resolved_target_process = none;
      request_id = 1;
      flags = 0;
    };
    broadcast_scope = no_scope;
    payload_type_url = [];
    payload_bytes = [];
  };
  receiver_location = none;
  membership = some view;
  links = some (λ p. false);
}

is_sound-resolve_example : is_sound 2 context (resolve 2 context) ≡ true
is_sound-resolve_example = is_sound-resolve 2 context
