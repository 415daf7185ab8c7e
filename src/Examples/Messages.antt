-- ===== src/Examples/Messages.antt =====
-- The theorems on messaging at concrete inputs, with a codec, hosts and a transport that can be run.
use some_server.Base.{
  ℕ, zero, suc, ◌≡◌, refl, sym, ap, ◌∙◌, Bool, true, false, Option, none, some, List, [], ◌∷◌, ◌++◌,
  arith, nat_eq, if◌then◌else◌, ◌==◌, Eq_ℕ, Eq_String, Eq_Bytes, Bytes,
}
use some_server.Base.Table.{find}
use some_server.Base.{length, take, drop}
use some_server.Base.Decimal.{to_string}
use some_server.Ipc.Types.{
  ProcessRef, ProcessDescriptor, ReceiverAddress, broadcast, Envelope, Eq_ProcessRef, Result,
  success,
}
use some_server.Ipc.Frame.{RawFrame}
use some_server.Ipc.Routing.{MembershipView, first_relay, resolve}
use some_server.Ipc.Directory
use some_server.Ipc.Directory.{make_key}
use some_server.Ipc.Link.{LinkManager, active, find_connection}
use some_server.Ipc.Messaging.{
  Hosts, Message, Messenger, type_url_for, envelope_to, with_resolved, dispatch_local,
  send_envelope, rounds, context_of,
}
use some_server.Ipc.Messaging.Calls.{
  data_frame, transport_send, send_to_receiver, handle_incoming_frame,
}
use some_server.Ipc.Messaging.Delivery.{deliver, send_envelope_lem}
use some_server.Ipc.Messaging.Arrival.{message_arrives}
use some_server.Ipc.Messaging.Codec.{
  ProtoSemantic, semantic_unspecified, semantic_direct, semantic_broadcast, semantic_unknown,
  ProtoReceiverAddress, ProtoDataEnvelope, EnvelopeCodec, encode_data_envelope,
}

-- An envelope without its scope as a list of numbers.
abbrev write_process : Option ProcessRef → Bytes → Bytes
write_process none s = 0 ∷ 0 ∷ 0 ∷ 0 ∷ s
write_process (some p) s =
    1 ∷ p.process_id.service_type ∷ p.process_id.instance_id ∷ p.incarnation_id ∷ s

abbrev read_process : ℕ → ℕ → ℕ → ℕ → Option ProcessRef
read_process zero t i n = none
read_process (suc _) t i n =
    some (record { process_id = record { service_type = t; instance_id = i }; incarnation_id = n })

abbrev write_address : Option ProtoReceiverAddress → Bytes → Bytes
write_address none s = 0 ∷ 0 ∷ 0 ∷ 0 ∷ s
write_address (some r) s = 1 ∷ r.type ∷ r.key_hi ∷ r.key_lo ∷ s

abbrev read_address : ℕ → ℕ → ℕ → ℕ → Option ProtoReceiverAddress
read_address zero t h l = none
read_address (suc _) t h l = some (record { type = t; key_hi = h; key_lo = l })

abbrev semantic_number : ProtoSemantic → ℕ
semantic_number semantic_unspecified = 0
semantic_number semantic_direct = 1
semantic_number semantic_broadcast = 2
semantic_number semantic_unknown = 3

abbrev number_semantic : ℕ → ProtoSemantic
number_semantic zero = semantic_unspecified
number_semantic (suc zero) = semantic_direct
number_semantic (suc (suc zero)) = semantic_broadcast
number_semantic (suc (suc (suc _))) = semantic_unknown

abbrev write_envelope : ProtoDataEnvelope → Bytes
write_envelope p = write_process p.source_process (
    write_process p.resolved_target_process (
      write_address p.target_receiver (
        semantic_number p.semantic
        ∷ p.request_id
        ∷ p.flags
        ∷ length p.payload_type_url
        ∷ (p.payload_type_url ++ p.payload_bytes))))

abbrev read_envelope : Bytes → Option ProtoDataEnvelope
read_envelope (a ∷ b ∷ c ∷ d ∷ e ∷ f ∷ g ∷ h ∷ i ∷ j ∷ k ∷ l ∷ s ∷ request ∷ flags ∷ n ∷ rest) =
    some record {
      source_process = read_process a b c d;
      resolved_target_process = read_process e f g h;
      target_receiver = read_address i j k l;
      semantic = number_semantic s;
      broadcast_scope = none;
      payload_type_url = take n rest;
      payload_bytes = drop n rest;
      request_id = request;
      flags = flags;
    }
read_envelope _ = none

take-append : (a b : Bytes) → take (length a) (a ++ b) ≡ a
take-append [] b = refl
take-append (x ∷ a) b = ap (λ s. x ∷ s) (take-append a b)

drop-append : (a b : Bytes) → drop (length a) (a ++ b) ≡ b
drop-append [] b = refl
drop-append (x ∷ a) b = drop-append a b

semantic_round : (s : ProtoSemantic) → number_semantic (semantic_number s) ≡ s
semantic_round semantic_unspecified = refl
semantic_round semantic_direct = refl
semantic_round semantic_broadcast = refl
semantic_round semantic_unknown = refl

-- What is behind the first three fields.
rest_round :
    (p : ProtoDataEnvelope) (s r : Option ProcessRef) (t : Option ProtoReceiverAddress)
    → some (record p {
      source_process = s;
      resolved_target_process = r;
      target_receiver = t;
      semantic = number_semantic (semantic_number p.semantic);
      broadcast_scope = none;
      payload_type_url = take (length p.payload_type_url) (p.payload_type_url ++ p.payload_bytes);
      payload_bytes = drop (length p.payload_type_url) (p.payload_type_url ++ p.payload_bytes);
    })
      ≡ some (record p {
        source_process = s;
        resolved_target_process = r;
        target_receiver = t;
        broadcast_scope = none;
      })
rest_round p s r t = λ i. some (record p {
  source_process = s;
  resolved_target_process = r;
  target_receiver = t;
  semantic = semantic_round p.semantic i;
  broadcast_scope = none;
  payload_type_url = take-append p.payload_type_url p.payload_bytes i;
  payload_bytes = drop-append p.payload_type_url p.payload_bytes i;
})

fields_round :
    (p : ProtoDataEnvelope) (s r : Option ProcessRef) (t : Option ProtoReceiverAddress)
    → read_envelope (
        write_process s (
          write_process r (
            write_address t (
              semantic_number p.semantic
              ∷ p.request_id
              ∷ p.flags
              ∷ length p.payload_type_url
              ∷ (p.payload_type_url ++ p.payload_bytes)))))
      ≡ some (record p {
        source_process = s;
        resolved_target_process = r;
        target_receiver = t;
        broadcast_scope = none;
      })
fields_round p none none none = rest_round p none none none
fields_round p none none (some z) = rest_round p none none (some z)
fields_round p none (some y) none = rest_round p none (some y) none
fields_round p none (some y) (some z) = rest_round p none (some y) (some z)
fields_round p (some x) none none = rest_round p (some x) none none
fields_round p (some x) none (some z) = rest_round p (some x) none (some z)
fields_round p (some x) (some y) none = rest_round p (some x) (some y) none
fields_round p (some x) (some y) (some z) = rest_round p (some x) (some y) (some z)

abbrev envelope_codec : EnvelopeCodec
envelope_codec = record {
  serialize_envelope = write_envelope;
  parse_envelope = read_envelope;
  parse-serialize_envelope = λ p h.
      fields_round p p.source_process p.resolved_target_process p.target_receiver
      ∙ ap (λ x. some (record p { broadcast_scope = x })) (sym h);
}

-- The frames that were written and the envelopes that were dispatched.
record World : Type 0 where
  written : List RawFrame
  dispatched : List Envelope

abbrev all_hosts : Hosts World
all_hosts = record {
  can_handle = λ host type. true;
  host_dispatch = λ w host target e. (success, record w { dispatched = e ∷ w.dispatched });
}

abbrev write_frame : World → RawFrame → Result × World
write_frame w f = (success, record w { written = f ∷ w.written })

abbrev nothing : World
nothing = record { written = []; dispatched = [] }

abbrev gate : ProcessRef
gate = record { process_id = record { service_type = 3; instance_id = 1 }; incarnation_id = 5 }

abbrev relay : ProcessRef
relay = record { process_id = record { service_type = 2; instance_id = 1 }; incarnation_id = 6 }

abbrev game : ProcessRef
game = record { process_id = record { service_type = 1; instance_id = 1 }; incarnation_id = 7 }

abbrev described : ProcessRef → ProcessDescriptor
described p = record {
  process = p;
  service_name = "node";
  listen_endpoint = record { host = "localhost"; port = 7000 };
  protocol_version = 3;
  start_time_unix_ms = 0;
  labels = [];
  relay_capabilities = [];
}

abbrev members : MembershipView
members = record {
  find = λ id. none;
  find_by_service = λ t.
      if nat_eq t 2 then described relay ∷ [] else if nat_eq t 1 then described game ∷ [] else [];
}

abbrev player_nine : ReceiverAddress
player_nine = record { type = 2; key_hi = 9; key_lo = 0 }

abbrev hello : Message
hello = record { full_name = b'H' ∷ []; bytes = 1 ∷ 2 ∷ [] }

-- A process that has links to some others, and a host for players.
abbrev process : ProcessRef → (ProcessRef → Bool) → Messenger
process self linked = record {
  self = self;
  relay_service_type = 2;
  receiver_directory = (make_key player_nine, record { owner = game; version = 4 }) ∷ [];
  receiver_registry = (2, 77) ∷ [];
  payload_registry = (type_url_for hello, tt) ∷ [];
  membership = some members;
  links = some linked;
}

-- The gate has a link to the relay, and the relay has one to the game.
abbrev at_gate : Messenger
at_gate = process gate (λ p. p == relay)

abbrev at_relay : Messenger
at_relay = process relay (λ p. p == game)

abbrev at_game : Messenger
at_game = process game (λ p. false)

-- The links of a process to another, over connection 11.
abbrev linked_to : ProcessRef → ProcessRef → LinkManager
linked_to self p = record {
  self = self;
  protocol_version = 3;
  links = (11, record { connection_id = 11; remote_process = p; state = active }) ∷ [];
  outbound_frames = [];
}

abbrev to_game : Envelope
to_game = with_resolved (envelope_to at_gate player_nine hello) game

-- The whole way: the gate writes one frame, and the game dispatches its envelope.
dispatched_at_game :
    (handle_incoming_frame all_hosts at_game none envelope_codec
      (data_frame envelope_codec 30 to_game)
      nothing)
    ≡ some (success, record { written = []; dispatched = to_game ∷ [] })
unfolding handle_incoming_frame encode_data_envelope find type_url_for
dispatched_at_game = refl

message_arrives_example :
    (send_to_receiver all_hosts at_gate
        (some (transport_send envelope_codec (linked_to gate relay) write_frame))
        player_nine
        hello
        nothing
      ≡ some (write_frame nothing (data_frame envelope_codec 11 to_game)))
    × (handle_incoming_frame all_hosts at_relay
          (some (transport_send envelope_codec (linked_to relay game) write_frame))
          envelope_codec
          (data_frame envelope_codec 20 to_game)
          nothing
        ≡ some (write_frame nothing (data_frame envelope_codec 11 to_game)))
    × (handle_incoming_frame all_hosts at_game none envelope_codec
          (data_frame envelope_codec 30 to_game)
          nothing
        ≡ some (dispatch_local all_hosts at_game to_game nothing))
unfolding make_key find first_relay find_connection Directory.resolve to_string
message_arrives_example =
    message_arrives envelope_codec all_hosts at_gate at_relay at_game (linked_to gate relay)
      (linked_to relay game) write_frame player_nine hello 4 11 11 20 30 nothing refl (omega arith)
      refl refl refl refl refl refl refl refl

-- A broadcast of the gate to the games.
abbrev to_games : Envelope
to_games = record (envelope_to at_gate (record { type = 4; key_hi = 1; key_lo = 1 }) hello) {
  header = record (envelope_to at_gate (record { type = 4; key_hi = 1; key_lo = 1 }) hello).header {
    semantic = broadcast;
  };
}

send_envelope_lem_example :
    send_envelope all_hosts at_gate
      (some (transport_send envelope_codec (linked_to gate relay) write_frame))
      rounds
      to_games
      none
      nothing
    ≡ some (
        deliver all_hosts at_gate
          (some (transport_send envelope_codec (linked_to gate relay) write_frame))
          (resolve 2 (context_of at_gate to_games none))
          to_games
          nothing)
send_envelope_lem_example =
    send_envelope_lem all_hosts at_gate
      (some (transport_send envelope_codec (linked_to gate relay) write_frame)) 0 to_games none
      nothing
