-- ===== src/Ipc/Messaging.antt =====
-- src/framework/ipc/messaging and src/framework/ipc/receiver/receiver_registry.cpp: messages to
-- receivers, wherever they are. The hosts of receivers and the sender to other processes act on a
-- world `W`, which goes from one call to the next; a host is known by its address.
pub mod Codec
pub mod Delivery
pub mod Calls
pub mod Arrival
use some_server.Base.{
  ℕ, zero, suc, ◌+◌, ◌-◌, ◌*◌, ◌/◌, ◌%◌, ◌^◌, ◌≤◌, ◌<◌, ◌≡◌, ◌≢◌, ◌↔◌, ◌⊎◌, inl, inr, refl, sym, ap,
  ◌∙◌, subst, Bool, true, false, not, ◌&&◌, ◌||◌, Option, none, some, List, [], ◌∷◌, ◌++◌, String,
  arith, nat_eq, ltb, leb, if◌then◌else◌, ◌==◌, ◌/=◌, Eq, Eq_ℕ, Eq_String, Eq_Bytes, bytes_eq_iff,
  Bool-cases, Option-cases, is_some, Bytes, inc64, add64,
}
use some_server.Base.Table.{
  Table, find, put, erase, contains, keys, AllEntries, Distinct, find-put, find-erase,
  AllEntries-put, AllEntries-erase, Distinct-put, Distinct-erase,
}
use some_server.Ipc.Types.{
  ProcessId, ProcessRef, Eq_ProcessId, ReceiverType, ReceiverAddress, ReceiverLocation,
  ReceiverLocationKind, local, single_process, BroadcastScope, no_scope, direct, broadcast,
  Envelope, EnvelopeHeader, process_type, service_receiver_type, Result, success, failure,
}
use some_server.Ipc.Directory.{Directory}
use some_server.Ipc.Directory
use some_server.Ipc.Routing.{
  RouteHop, RoutePlan, RoutePlanKind, local_delivery, single_next_hop, multi_next_hop, drop,
  unreachable, RoutingContext, MembershipView, LinkView, resolve,
}
use some_server.Ipc.Frame.{RawFrame, data_kind, default_header}
use some_server.Ipc.Link.{LinkManager, find_connection}
use some_server.Ipc.Messaging.Codec.{EnvelopeCodec, encode_data_envelope, decode_data_envelope}

-- A protobuf message, by its full name and its bytes.
pub record Message : Type 0 where
  pub full_name : Bytes
  pub bytes : Bytes

-- `IReceiverHost`
pub record Hosts (W : Type 0) : Type 0 where
  pub can_handle : ℕ → ReceiverType → Bool
  pub host_dispatch : W → ℕ → ReceiverAddress → Envelope → Result × W

abbrev pub max_receiver_types : ℕ
max_receiver_types = 8

-- The entries of the array that are not null.
abbrev pub ReceiverRegistry : Type 0
ReceiverRegistry = Table ℕ ℕ

-- The set of the type urls.
abbrev pub PayloadRegistry : Type 0
PayloadRegistry = Table Bytes Unit

-- The text `type.googleapis.com/`.
abbrev url_prefix : Bytes
url_prefix =
    b't' ∷ b'y' ∷ b'p' ∷ b'e' ∷ b'.' ∷ b'g' ∷ b'o' ∷ b'o' ∷ b'g' ∷ b'l' ∷ b'e' ∷ b'a' ∷ b'p' ∷ b'i'
    ∷ b's' ∷ b'.' ∷ b'c' ∷ b'o' ∷ b'm' ∷ b'/' ∷ []

unfoldable pub type_url_for : Message → Bytes
type_url_for message = url_prefix ++ message.full_name

unfoldable pub register_payload : PayloadRegistry → Message → Result × PayloadRegistry
unfolding type_url_for
register_payload r message = (success, put (type_url_for message) tt r)

unfoldable pub is_registered : PayloadRegistry → Bytes → Bool
is_registered r payload_type_url = contains payload_type_url r

-- `Clear` of the two registries.
unfoldable pub clear_payloads : PayloadRegistry → PayloadRegistry
clear_payloads r = []

unfoldable pub clear_hosts : ReceiverRegistry → ReceiverRegistry
clear_hosts r = []

-- `IRemoteMessageSender`
abbrev pub Sender : Type 0 → Type 0
Sender W = W → ProcessRef → Envelope → Result × W

pub record Messenger : Type 0 where
  pub self : ProcessRef
  pub relay_service_type : ℕ
  pub receiver_directory : Directory
  pub receiver_registry : ReceiverRegistry
  pub payload_registry : PayloadRegistry
  pub membership : Option MembershipView
  pub links : Option LinkView

unfoldable pub process_receiver : ProcessId → ReceiverAddress
process_receiver target = record {
  type = process_type;
  key_hi = target.service_type;
  key_lo = target.instance_id;
}

-- The envelope that the four ways to send begin with.
abbrev pub envelope_to : Messenger → ReceiverAddress → Message → Envelope
envelope_to m target message = record {
  header = record {
    source_process = m.self;
    semantic = direct;
    target_receiver = target;
    resolved_target_process = none;
    request_id = 0;
    flags = 0;
  };
  broadcast_scope = no_scope;
  payload_type_url = type_url_for message;
  payload_bytes = message.bytes;
}

abbrev pub with_resolved : Envelope → ProcessRef → Envelope
with_resolved e p = record e { header = record e.header { resolved_target_process = some p } }

-- A location of one process names it as the resolved target of a logical receiver.
abbrev pub resolve_target : Envelope → Option ReceiverLocation → Envelope
resolve_target e none = e
resolve_target e (some l) = by_location l.kind l.processes
  where
    by_location : ReceiverLocationKind → List ProcessRef → Envelope
    by_location single_process (p ∷ ps) =
        if nat_eq e.header.target_receiver.type process_type then e else with_resolved e p
    by_location _ _ = e

abbrev pub single_location : ProcessRef → ReceiverLocation
single_location p = record { kind = single_process; processes = p ∷ []; version = 1 }

-- What goes to one hop of several.
abbrev pub next_envelope : Envelope → ProcessRef → Envelope
next_envelope e hop =
    let bare = record e {
      header = record e.header { semantic = direct };
      broadcast_scope = no_scope;
    } in
    if nat_eq e.header.target_receiver.type process_type then bare else with_resolved bare hop

abbrev pub context_of : Messenger → Envelope → Option ReceiverLocation → RoutingContext
context_of m e location = record {
  self = m.self;
  envelope = e;
  receiver_location = location;
  membership = m.membership;
  links = m.links;
}

-- The rounds of `SendEnvelope` that are enough: a call, and one for each of its hops.
abbrev pub rounds : ℕ
rounds = 2

-- The index of `Register` and `Dispatch` is the number of the type.
module _ {W : Type 0} (hosts : Hosts W) where
  unfoldable pub register_host : ReceiverRegistry → ℕ → ReceiverType → Result × ReceiverRegistry
  register_host r host type =
      if not (ltb type max_receiver_types)
      then (failure "receiver type out of range", r)
      else if not (hosts.can_handle host type)
      then (failure "receiver host cannot handle requested type", r)
      else elim (find type r) [
        | none ↦ (success, put type host r)
        | some present ↦
            if present == host
            then (success, put type host r)
            else (failure "receiver host already registered", r)
      ]

  unfoldable pub dispatch : ReceiverRegistry → ReceiverAddress → Envelope → W → Result × W
  dispatch r target e w =
      if not (ltb target.type max_receiver_types)
      then (failure "receiver type out of range", w)
      else elim (find target.type r) [
        | none ↦ (failure "receiver host not registered", w)
        | some host ↦ hosts.host_dispatch w host target e
      ]

  unfoldable pub dispatch_local : Messenger → Envelope → W → Result × W
  unfolding dispatch is_registered
  dispatch_local m e w =
      if is_registered m.payload_registry e.payload_type_url
      then dispatch m.receiver_registry e.header.target_receiver e w
      else (failure "payload type is not registered", w)

  -- A single hop; the sender may be missing.
  abbrev pub send_remote : Option (Sender W) → List RouteHop → Envelope → W → Result × W
  send_remote none hops e w = (failure "remote message sender is not configured", w)
  send_remote (some send) [] e w = (failure "remote message sender is not configured", w)
  send_remote (some send) (h ∷ hops) e w = send w h.next_hop e

  -- The loop over several hops, which ends with the first failure. Nothing stands for a call that
  -- ran out of fuel.
  abbrev pub send_hops :
      (Envelope → Option ReceiverLocation → W → Option (Result × W))
      → Envelope
      → List RouteHop
      → W
      → Option (Result × W)
  send_hops send e [] w = some (success, w)
  send_hops send e (h ∷ hops) w =
      elim (send (next_envelope e h.next_hop) (some (single_location h.next_hop)) w) [
        | none ↦ none
        | some (result, w') ↦ if result.ok then send_hops send e hops w' else some (result, w')
      ]

  -- What is done with a plan.
  abbrev pub send_plan :
      Messenger
      → Option (Sender W)
      → (Envelope → Option ReceiverLocation → W → Option (Result × W))
      → RoutePlan
      → Envelope
      → W
      → Option (Result × W)
  send_plan m sender send plan e w = elim plan.kind [
    | local_delivery ↦ some (dispatch_local m e w)
    | drop ↦ some (failure "message dropped during route resolution", w)
    | single_next_hop ↦ some (send_remote sender plan.hops e w)
    | multi_next_hop ↦ send_hops send e plan.hops w
    | unreachable ↦ some (failure "route plan kind is not implemented yet", w)
  ]

  unfoldable pub send_envelope :
      Messenger
      → Option (Sender W)
      → ℕ
      → Envelope
      → Option ReceiverLocation
      → W
      → Option (Result × W)
  unfolding dispatch_local resolve
  send_envelope m sender zero envelope location w = none
  send_envelope m sender (suc fuel) envelope location w =
      let e = resolve_target envelope location in
      send_plan m sender (send_envelope m sender fuel)
        (resolve m.relay_service_type (context_of m e location)) e w
