-- ===== src/Ipc/Control.antt =====
-- src/framework/ipc/link/control_codec: the control messages of a link. The protobuf code that
-- writes and reads them is generated; `ControlCodec` is what this code relies on.
use some_server.Base.{ℕ, ◌≡◌, Option, some, Bytes}
use some_server.Ipc.Types.{ProcessRef, Result, failure}

-- `HelloAck_Result`
abbrev pub ack_unspecified : ℕ
ack_unspecified = 0

abbrev pub ack_ok : ℕ
ack_ok = 1

abbrev pub ack_incompatible_version : ℕ
ack_incompatible_version = 2

-- The variants of the message, with the fields that the code reads or writes. An identity that
-- the sender left out is `none`.
pub data ControlMessage : Type 0 where
  hello : Option ProcessRef → ℕ → ℕ → ControlMessage
  hello_ack : ℕ → Option ProcessRef → ℕ → ControlMessage
  ping pong close body_not_set : ControlMessage

-- `ParseFromArray` and `SerializeToArray`: what is written is read back.
pub record ControlCodec : Type 0 where
  pub serialize : ControlMessage → Bytes
  pub parse : Bytes → Option ControlMessage
  pub parse-serialize : (m : ControlMessage) → parse (serialize m) ≡ some m

pub data ControlMessageType : Type 0 where
  hello hello_ack ping pong close : ControlMessageType

pub record HelloInfo : Type 0 where
  pub process_ref : ProcessRef
  pub protocol_version : ℕ
  pub min_supported_protocol_version : ℕ

unfoldable pub get_control_message_type : ControlMessage → ControlMessageType
get_control_message_type (ControlMessage.hello self v min) = ControlMessageType.hello
get_control_message_type (ControlMessage.hello_ack r self v) = ControlMessageType.hello_ack
get_control_message_type ControlMessage.ping = ControlMessageType.ping
get_control_message_type ControlMessage.pong = ControlMessageType.pong
get_control_message_type ControlMessage.close = ControlMessageType.close
get_control_message_type ControlMessage.body_not_set = ControlMessageType.close

-- An error leaves the caller's `HelloInfo` as it was; here it comes with none.
pub data Extracted (A : Type 0) : Type 0 where
  got : A → Extracted A
  refused : Result → Extracted A

unfoldable pub extract_hello_info : ControlMessage → Extracted HelloInfo
extract_hello_info (ControlMessage.hello (some self) v min) =
    got (record { process_ref = self; protocol_version = v; min_supported_protocol_version = min })
extract_hello_info _ = refused (failure "hello message missing process identity")

unfoldable pub extract_hello_ack_result : ControlMessage → Extracted ℕ
extract_hello_ack_result (ControlMessage.hello_ack r self v) = got r
extract_hello_ack_result _ = refused (failure "hello_ack message missing result")

module _ (codec : ControlCodec) where
  unfoldable pub encode_hello : ProcessRef → ℕ → Bytes
  encode_hello self version = codec.serialize (ControlMessage.hello (some self) version version)

  unfoldable pub encode_hello_ack : ProcessRef → ℕ → ℕ → Bytes
  encode_hello_ack self version result =
      codec.serialize (ControlMessage.hello_ack result (some self) version)

  unfoldable pub encode_pong : Bytes
  encode_pong = codec.serialize ControlMessage.pong

  unfoldable pub decode_control_message : Bytes → Option ControlMessage
  decode_control_message bytes = codec.parse bytes
