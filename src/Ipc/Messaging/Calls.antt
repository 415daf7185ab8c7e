-- ===== src/Ipc/Messaging/Calls.antt =====
-- src/framework/ipc/messaging/messenger.cpp and transport_message_sender.cpp: the calls of the
-- messenger, and the sender that writes to the links.
use some_server.Base.{
  ℕ, ◌%◌, ◌^◌, Bool, false, not, Option, none, some, [], ◌∷◌, nat_eq, if◌then◌else◌, ◌==◌, Eq_ℕ,
  Eq_String, Eq_Bytes,
}
use some_server.Base.{length}
use some_server.Ipc.Types.{
  ProcessId, Eq_ProcessId, ReceiverAddress, ReceiverLocation, local, BroadcastScope, broadcast,
  Envelope, process_type, service_receiver_type, Result, failure,
}
use some_server.Ipc.Directory
use some_server.Ipc.Frame.{RawFrame, data_kind, default_header}
use some_server.Ipc.Link.{LinkManager, find_connection}
use some_server.Ipc.Messaging.{
  Message, Hosts, Messenger, Sender, process_receiver, envelope_to, single_location, send_envelope,
  rounds,
}
use some_server.Ipc.Messaging.Codec.{EnvelopeCodec, encode_data_envelope, decode_data_envelope}

-- The frame of an envelope for a connection.
abbrev pub data_frame : EnvelopeCodec → ℕ → Envelope → RawFrame
data_frame codec connection_id e =
    let payload = encode_data_envelope codec e in
    record {
      connection_id = connection_id;
      header = record default_header { kind = data_kind; length = length payload % 2 ^ 32 };
      payload = payload;
    }

-- `TransportMessageSender`, over the links and the `Send` of a transport in the world.
unfoldable pub transport_send :
    {W : Type 0} → EnvelopeCodec → LinkManager → (W → RawFrame → Result × W) → Sender W
transport_send codec links send w next_hop e = elim (find_connection links next_hop) [
  | none ↦ (failure "no healthy link to next hop", w)
  | some connection_id ↦ send w (data_frame codec connection_id e)
]

module _ {W : Type 0} (hosts : Hosts W) (m : Messenger) (sender : Option (Sender W)) where
  unfoldable pub send_to_process : ProcessId → Message → W → Option (Result × W)
  unfolding send_envelope process_receiver
  send_to_process target message w =
      let location : ReceiverLocation = record {
        kind = local;
        processes = m.self ∷ [];
        version = 1;
      } in
      send_envelope hosts m sender rounds (envelope_to m (process_receiver target) message)
        (if target == m.self.process_id then some location else none) w

  unfoldable pub send_to_receiver : ReceiverAddress → Message → W → Option (Result × W)
  unfolding send_envelope
  send_to_receiver target message w =
      send_envelope hosts m sender rounds (envelope_to m target message)
        (some (Directory.resolve m.receiver_directory target)) w

  -- The scope names another service than the receiver's.
  abbrev pub names_other : Option ℕ → ℕ → Bool
  names_other none service_type = false
  names_other (some t) service_type = not (nat_eq t service_type)

  unfoldable pub broadcast_to_receiver :
      ReceiverAddress → BroadcastScope → Message → W → Option (Result × W)
  unfolding send_envelope
  broadcast_to_receiver target scope message w =
      let service_type = target.key_hi % 2 ^ 32 in
      let e = envelope_to m target message in
      if not (nat_eq target.type service_receiver_type)
      then some (failure "broadcast is not supported for this receiver type", w)
      else if names_other scope.service_type service_type
      then some (failure "broadcast scope service_type does not match target receiver", w)
      else send_envelope hosts m sender rounds
          (record e {
            header = record e.header { semantic = broadcast };
            broadcast_scope = record scope { service_type = some service_type };
          })
          none w

  unfoldable pub broadcast_to_service : ℕ → BroadcastScope → Message → W → Option (Result × W)
  unfolding broadcast_to_receiver
  broadcast_to_service service_type scope message w =
      broadcast_to_receiver
        (record { type = service_receiver_type; key_hi = service_type; key_lo = 1 }) scope message w

  -- Where a frame that came in is to go.
  abbrev pub incoming_location : Envelope → Option ReceiverLocation
  incoming_location e =
      if nat_eq e.header.target_receiver.type process_type
      then none
      else elim e.header.resolved_target_process [
        | some p ↦ some (single_location p)
        | none ↦ some (Directory.resolve m.receiver_directory e.header.target_receiver)
      ]

  unfoldable pub handle_incoming_frame : EnvelopeCodec → RawFrame → W → Option (Result × W)
  unfolding send_envelope decode_data_envelope
  handle_incoming_frame codec frame w =
      if not (nat_eq frame.header.kind data_kind)
      then some (failure "unsupported frame kind", w)
      else elim (decode_data_envelope codec frame.payload) [
        | none ↦ some (failure "invalid data envelope", w)
        | some e ↦ send_envelope hosts m sender rounds e (incoming_location e) w
      ]
