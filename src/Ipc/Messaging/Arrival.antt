-- ===== src/Ipc/Messaging/Arrival.antt =====
-- src/framework/ipc/messaging/messenger.cpp: a message to a receiver of another process arrives there,
-- also by way of a relay.
use some_server.Base.{
  ℕ, suc, ◌^◌, ◌<◌, ◌≡◌, refl, sym, ap, ◌∙◌, true, false, Option, none, some, [], ◌∷◌, nat_eq, ◌==◌,
  Eq_ℕ, Eq_String, Eq_Bytes, beq_refl,
}
use some_server.Ipc.Types.{
  ProcessRef, Eq_ProcessRef, ReceiverAddress, ReceiverLocation, single_process, direct, Envelope,
  no_scope, process_type, Result,
}
use some_server.Ipc.Directory
use some_server.Ipc.Frame.{RawFrame}
use some_server.Ipc.Link.{LinkManager, find_connection}
use some_server.Ipc.Routing.{
  first_relay, has_direct, relays, resolve, resolve_for, resolve_location, resolve_single_target,
}
use some_server.Ipc.Messaging.{
  Message, Hosts, Messenger, Sender, dispatch_local, envelope_to, with_resolved, resolve_target,
  single_location, context_of, send_envelope,
}
use some_server.Ipc.Messaging.Codec.{
  EnvelopeCodec, encode_data_envelope, decode_data_envelope, decode-encode_data_envelope,
}
use some_server.Ipc.Messaging.Calls.{
  data_frame, transport_send, send_to_receiver, handle_incoming_frame, incoming_location,
}
use some_server.Ipc.Messaging.Delivery.{deliver_to, send_plan-resolve_single_target}

-- An envelope on its way to a receiver of the process `p`.
pub record OnItsWay (e : Envelope) (p : ProcessRef) : Type 0 where
  pub is_direct : e.header.semantic ≡ direct
  pub is_logical : nat_eq e.header.target_receiver.type process_type ≡ false
  pub type_fits : e.header.target_receiver.type < 2 ^ 16
  pub has_target : e.header.resolved_target_process ≡ some p
  pub has_no_scope : e.broadcast_scope ≡ no_scope

module _ {W : Type 0} (hosts : Hosts W) (m : Messenger) (sender : Option (Sender W)) where
  resolve_target_way :
      (e : Envelope) (p : ProcessRef)
      → OnItsWay e p
      → resolve_target e (some (single_location p)) ≡ e
  resolve_target_way e p way = rw way.is_logical (
      ap (λ r. record e { header = record e.header { resolved_target_process = r } })
        (sym way.has_target))

  resolve_way :
      (e : Envelope) (p : ProcessRef)
      → OnItsWay e p
      → resolve m.relay_service_type (context_of m e (some (single_location p)))
        ≡ resolve_single_target m.relay_service_type (context_of m e (some (single_location p))) p
  unfolding resolve resolve_for resolve_location
  resolve_way e p way =
      ap
        (λ s.
          resolve_for m.relay_service_type (context_of m e (some (single_location p))) s
            (some (single_location p)))
        way.is_direct

  send_envelope_way :
      (fuel : ℕ) (e : Envelope) (p : ProcessRef) (w : W)
      → OnItsWay e p
      → send_envelope hosts m sender (suc fuel) e (some (single_location p)) w
        ≡ some (deliver_to hosts m sender e p w)
  unfolding send_envelope
  send_envelope_way fuel e p w way =
      rw (send_envelope, resolve_target_way e p way, resolve_way e p way)
        (send_plan-resolve_single_target hosts m sender (send_envelope hosts m sender fuel) e
          (some (single_location p)) e p w)

  incoming_location_way :
      (e : Envelope) (p : ProcessRef)
      → OnItsWay e p
      → incoming_location hosts m sender e ≡ some (single_location p)
  incoming_location_way e p way = rw (way.is_logical, way.has_target) refl

  decode_way :
      (codec : EnvelopeCodec) (e : Envelope) (p : ProcessRef)
      → OnItsWay e p
      → decode_data_envelope codec (encode_data_envelope codec e) ≡ some e
  decode_way codec e p way =
      decode-encode_data_envelope codec e way.is_direct way.type_fits
      ∙ ap (λ s. some (record e { broadcast_scope = s })) (sym way.has_no_scope)

  -- Whoever gets the frame of an envelope on its way delivers it to its process, unchanged.
  handle_way :
      (codec : EnvelopeCodec) (c : ℕ) (e : Envelope) (p : ProcessRef) (w : W)
      → OnItsWay e p
      → handle_incoming_frame hosts m sender codec (data_frame codec c e) w
        ≡ some (deliver_to hosts m sender e p w)
  unfolding handle_incoming_frame
  handle_way codec c e p w way =
      rw (decode_way codec e p way, incoming_location_way e p way) (send_envelope_way 1 e p w way)

  -- The first call: the directory has the receiver at one process.
  send_to_receiver_lem :
      (target : ReceiverAddress) (message : Message) (p : ProcessRef) (version : ℕ) (w : W)
      → nat_eq target.type process_type ≡ false
      → Directory.resolve m.receiver_directory target
        ≡ record { kind = single_process; processes = p ∷ []; version = version }
      → send_to_receiver hosts m sender target message w
        ≡ some (deliver_to hosts m sender (with_resolved (envelope_to m target message) p) p w)
  unfolding send_to_receiver send_envelope resolve resolve_for resolve_location
  send_to_receiver_lem target message p version w logical found =
      let e = with_resolved (envelope_to m target message) p in
      let l : ReceiverLocation = record {
        kind = single_process;
        processes = p ∷ [];
        version = version;
      } in
      rw (send_to_receiver, found, send_envelope, logical)
        (send_plan-resolve_single_target hosts m sender (send_envelope hosts m sender 1) e (some l)
          e p w)

  deliver_over_link :
      (codec : EnvelopeCodec) (links : LinkManager) (send : W → RawFrame → Result × W)
      (e : Envelope) (p : ProcessRef) (c : ℕ) (w : W)
      → (p == m.self) ≡ false
      → has_direct m.links p ≡ true
      → find_connection links p ≡ some c
      → deliver_to hosts m (some (transport_send codec links send)) e p w
        ≡ send w (data_frame codec c e)
  unfolding transport_send
  deliver_over_link codec links send e p c w other linked found =
      rw (other, linked, transport_send, found) refl

  deliver_by_relay :
      (codec : EnvelopeCodec) (links : LinkManager) (send : W → RawFrame → Result × W)
      (e : Envelope) (p relay : ProcessRef) (c : ℕ) (w : W)
      → (p == m.self) ≡ false
      → has_direct m.links p ≡ false
      → first_relay m.self (relays m.membership m.relay_service_type) ≡ some relay
      → find_connection links relay ≡ some c
      → deliver_to hosts m (some (transport_send codec links send)) e p w
        ≡ send w (data_frame codec c e)
  unfolding transport_send
  deliver_by_relay codec links send e p relay c w other unlinked first found =
      rw (other, unlinked, first, transport_send, found) refl

  deliver_here :
      (e : Envelope) (w : W) → deliver_to hosts m sender e m.self w ≡ dispatch_local hosts m e w
  deliver_here e w = rw (beq_refl m.self) refl

-- A message to a logical receiver that the directory of process `a` has at process `b`, to which
-- `a` has no link: `a` writes it to its first relay `r`; `r`, which has a link to `b`, writes the
-- same envelope to `b`; and `b` dispatches it to its own host. The connections that the frames come
-- in on do not matter.
pub message_arrives :
    {W : Type 0} (codec : EnvelopeCodec) (hosts : Hosts W) (a r b : Messenger)
    (links_a links_r : LinkManager) (send : W → RawFrame → Result × W) (target : ReceiverAddress)
    (message : Message) (version c d at_relay at_target : ℕ) (w : W)
    → nat_eq target.type process_type ≡ false
    → target.type < 2 ^ 16
    → Directory.resolve a.receiver_directory target
      ≡ record { kind = single_process; processes = b.self ∷ []; version = version }
    → (b.self == a.self) ≡ false
    → has_direct a.links b.self ≡ false
    → first_relay a.self (relays a.membership a.relay_service_type) ≡ some r.self
    → find_connection links_a r.self ≡ some c
    → (b.self == r.self) ≡ false
    → has_direct r.links b.self ≡ true
    → find_connection links_r b.self ≡ some d
    → let e = with_resolved (envelope_to a target message) b.self in
      (send_to_receiver hosts a (some (transport_send codec links_a send)) target message w
        ≡ some (send w (data_frame codec c e)))
      × (handle_incoming_frame hosts r
            (some (transport_send codec links_r send))
            codec
            (data_frame codec at_relay e)
            w
          ≡ some (send w (data_frame codec d e)))
      × (handle_incoming_frame hosts b none codec (data_frame codec at_target e) w
          ≡ some (dispatch_local hosts b e w))
message_arrives codec hosts a r b links_a links_r send target message version c d at_relay at_target
      w logical fits found b≠a unlinked first to_relay b≠r linked to_target =
    let e = with_resolved (envelope_to a target message) b.self in
    let way : OnItsWay e b.self = record {
      is_direct = refl;
      is_logical = logical;
      type_fits = fits;
      has_target = refl;
      has_no_scope = refl;
    } in
    (
      send_to_receiver_lem hosts a (some (transport_send codec links_a send)) target message b.self
            version w logical found
          ∙ ap some (
              deliver_by_relay hosts a none codec links_a send e b.self r.self c w b≠a unlinked
                first to_relay),
      handle_way hosts r (some (transport_send codec links_r send)) codec at_relay e b.self w way
          ∙ ap some
              (deliver_over_link hosts r none codec links_r send e b.self d w b≠r linked to_target),
      handle_way hosts b none codec at_target e b.self w way
          ∙ ap some (deliver_here hosts b none e w),
    )
