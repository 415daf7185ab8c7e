-- ===== src/Ipc/Link.antt =====
-- src/framework/ipc/link: the handshake of each connection, and the links that it makes healthy.
-- The order of `links` stands for the order in which the hash map is iterated.
pub mod Handshake
pub mod Identity
pub mod Queries
use some_server.Base.{
  ℕ, ◌+◌, ◌%◌, ◌^◌, ◌≡◌, Bool, true, false, Option, none, some, List, [], ◌∷◌, ◌++◌, Bytes, length,
  ltb, nat_eq, if◌then◌else◌, ◌&&◌, ◌==◌, Eq_ℕ,
}
use some_server.Base.Table.{Table, find, put, erase}
use some_server.Ipc.Types.{ProcessRef, no_process, process_ref_eq, Result, success, failure}
use some_server.Ipc.Frame.{RawFrame, control_kind, default_header}
use some_server.Ipc.Control.{
  ControlMessage, ControlMessageType, ControlCodec, HelloInfo, got, refused, Extracted, ack_ok,
  ack_incompatible_version, get_control_message_type, extract_hello_info, extract_hello_ack_result,
  encode_hello, encode_hello_ack, encode_pong, decode_control_message,
}

-- link.h
pub data LinkState : Type 0 where
  idle handshaking active closed : LinkState

abbrev pub is_active : LinkState → Bool
is_active active = true
is_active _ = false

pub record Link : Type 0 where
  pub connection_id : ℕ
  pub remote_process : ProcessRef
  pub state : LinkState

-- What `Link{}` holds.
abbrev pub no_link : Link
no_link = record { connection_id = 0; remote_process = no_process; state = idle }

pub data ConnectionEventType : Type 0 where
  connected disconnected : ConnectionEventType

pub record LinkManager : Type 0 where
  pub self : ProcessRef
  pub protocol_version : ℕ
  pub links : Table ℕ Link
  pub outbound_frames : List RawFrame

unfoldable pub new_manager : ProcessRef → ℕ → LinkManager
new_manager self version = record {
  self = self;
  protocol_version = version;
  links = [];
  outbound_frames = [];
}

-- The length is a 32-bit field.
unfoldable pub queue_frame : LinkManager → ℕ → ℕ → Bytes → LinkManager
queue_frame m c kind payload = record m { outbound_frames = m.outbound_frames ++ frame ∷ [] }
  where
    frame : RawFrame
    frame = record {
      connection_id = c;
      header = record default_header { kind = kind; length = length payload % 2 ^ 32 };
      payload = payload;
    }

-- `mLinks[c]`, to be read and written.
abbrev pub link_or_new : Option Link → Link
link_or_new none = no_link
link_or_new (some l) = l

unfoldable pub is_protocol_compatible : ℕ → HelloInfo → Bool
is_protocol_compatible version hello =
    if nat_eq hello.protocol_version 0
    then false
    else if ltb hello.protocol_version version
    then false
    else if ltb version hello.min_supported_protocol_version
    then false
    else true

-- `it->second.state = s`, for a link that is there.
abbrev pub set_state : LinkManager → ℕ → Link → LinkState → LinkManager
set_state m c l s = record m { links = put c (record l { state = s }) m.links }

-- What the transport does to a manager, in the order in which it happens.
pub data Input : Type 0 where
  event : ConnectionEventType → ℕ → Input
  frame : RawFrame → Input

module _ (codec : ControlCodec) where
  unfoldable pub on_connection_event : LinkManager → ConnectionEventType → ℕ → LinkManager
  unfolding queue_frame
  on_connection_event m connected c =
      let l = link_or_new (find c m.links) in
      queue_frame
        (record m { links = put c (record l { connection_id = c; state = handshaking }) m.links }) c
        control_kind (encode_hello codec m.self m.protocol_version)
  on_connection_event m disconnected c = record m { links = erase c m.links }

  -- The rest of `HandleHello`, from the check of the version on.
  unfoldable pub answer_hello : LinkManager → ℕ → HelloInfo → LinkManager × Result
  unfolding queue_frame is_protocol_compatible
  answer_hello m c hello =
      if is_protocol_compatible m.protocol_version hello
      then (
        queue_frame
            (record m {
              links =
                  put c
                    (record {
                      connection_id = c;
                      remote_process = hello.process_ref;
                      state = active;
                    })
                    m.links;
            })
            c control_kind (encode_hello_ack codec m.self m.protocol_version ack_ok),
        success,
      )
      else (
        queue_frame
            (record m {
              links =
                  put c
                    (record {
                      connection_id = c;
                      remote_process = hello.process_ref;
                      state = closed;
                    })
                    m.links;
            })
            c control_kind
            (encode_hello_ack codec m.self m.protocol_version ack_incompatible_version),
        failure "incompatible protocol version",
      )

  unfoldable pub handle_hello : LinkManager → ℕ → Bytes → LinkManager × Result
  unfolding answer_hello
  handle_hello m c payload = elim (decode_control_message codec payload) [
    | none ↦ (m, failure "invalid hello control message")
    | some message ↦ elim (extract_hello_info message) [
      | refused r ↦ (m, r)
      | got hello ↦ answer_hello m c hello
    ]
  ]

  -- The case of a hello_ack.
  unfoldable pub handle_hello_ack : LinkManager → ℕ → ControlMessage → LinkManager × Result
  handle_hello_ack m c message = elim (find c m.links) [
    | none ↦ (m, failure "link not found")
    | some l ↦ elim (extract_hello_ack_result message) [
      | refused r ↦ (m, r)
      | got result ↦
          if nat_eq result ack_ok
          then (set_state m c l active, success)
          else (set_state m c l closed, failure "hello_ack rejected")
    ]
  ]

  -- The switch on the type of a message.
  unfoldable pub handle_control :
      LinkManager → RawFrame → ControlMessage → ControlMessageType → LinkManager × Result
  unfolding handle_hello handle_hello_ack queue_frame
  handle_control m f message ControlMessageType.hello = handle_hello m f.connection_id f.payload
  handle_control m f message ControlMessageType.hello_ack =
      handle_hello_ack m f.connection_id message
  handle_control m f message ControlMessageType.ping =
      (queue_frame m f.connection_id control_kind (encode_pong codec), success)
  handle_control m f message ControlMessageType.pong = (m, success)
  handle_control m f message ControlMessageType.close = (m, success)

  unfoldable pub on_frame : LinkManager → RawFrame → LinkManager × Result
  unfolding handle_control
  on_frame m f =
      if nat_eq f.header.kind control_kind
      then elim (decode_control_message codec f.payload) [
        | none ↦ (m, failure "invalid control message")
        | some message ↦ handle_control m f message (get_control_message_type message)
      ]
      else (m, failure "unsupported frame kind")

  unfoldable pub step : LinkManager → Input → LinkManager
  step m (event t c) = on_connection_event m t c
  step m (frame f) = (on_frame m f).0

  unfoldable pub run : LinkManager → List Input → LinkManager
  run m [] = m
  run m (i ∷ is) = run (step m i) is

abbrev pub is_healthy_to : ProcessRef → Link → Bool
is_healthy_to target l = is_active l.state && process_ref_eq l.remote_process target

abbrev any_healthy : ProcessRef → Table ℕ Link → Bool
any_healthy target [] = false
any_healthy target ((c, l) ∷ ls) = if is_healthy_to target l then true else any_healthy target ls

unfoldable pub has_healthy_direct_link : LinkManager → ProcessRef → Bool
has_healthy_direct_link m target = any_healthy target m.links

abbrev active_remotes : Table ℕ Link → List ProcessRef
active_remotes [] = []
active_remotes ((c, l) ∷ ls) =
    let rest = active_remotes ls in if is_active l.state then l.remote_process ∷ rest else rest

unfoldable pub get_healthy_links : LinkManager → List ProcessRef
get_healthy_links m = active_remotes m.links

abbrev first_connection : ProcessRef → Table ℕ Link → Option ℕ
first_connection target [] = none
first_connection target ((c, l) ∷ ls) =
    if is_healthy_to target l then some c else first_connection target ls

unfoldable pub find_connection : LinkManager → ProcessRef → Option ℕ
find_connection m target = first_connection target m.links

unfoldable pub drain_outbound_frames : LinkManager → List RawFrame × LinkManager
drain_outbound_frames m = (m.outbound_frames, record m { outbound_frames = [] })
