-- ===== src/Ipc/Messaging/Codec.antt =====
-- src/framework/ipc/messaging/data_codec.cpp: an envelope as the protobuf message that carries it.
-- The generated code is a parameter. A submessage that is not set reads as its default.
use some_server.Base.{
  ℕ, ◌%◌, ◌^◌, ◌<◌, ◌≡◌, ap, Bool, Option, none, some, [], ◌∷◌, String, arith, Eq_ℕ, Eq_String,
  Eq_Bytes, Bytes,
}
use some_server.Base.Table.{Table, put}
use some_server.Ipc.Types.{
  ProcessRef, no_process, ReceiverAddress, BroadcastScope, no_scope, StringMap, DeliverySemantic,
  direct, broadcast, Envelope,
}

-- The enumerators of `DataEnvelope.DeliverySemantic`, and a number that is none of them.
pub data ProtoSemantic : Type 0 where
  semantic_unspecified semantic_direct semantic_broadcast semantic_unknown : ProtoSemantic

pub record ProtoReceiverAddress : Type 0 where
  pub type : ℕ
  pub key_hi : ℕ
  pub key_lo : ℕ

-- The labels are a map of the message.
pub record ProtoBroadcastScope : Type 0 where
  pub service_type : Option ℕ
  pub required_labels : Table String String
  pub include_local : Bool

-- A process reference has the fields of `ProcessRef`.
pub record ProtoDataEnvelope : Type 0 where
  pub source_process : Option ProcessRef
  pub semantic : ProtoSemantic
  pub target_receiver : Option ProtoReceiverAddress
  pub resolved_target_process : Option ProcessRef
  pub broadcast_scope : Option ProtoBroadcastScope
  pub payload_type_url : Bytes
  pub payload_bytes : Bytes
  pub request_id : ℕ
  pub flags : ℕ

-- The generated code: a message without a broadcast scope is read back as it was written.
pub record EnvelopeCodec : Type 0 where
  pub serialize_envelope : ProtoDataEnvelope → Bytes
  pub parse_envelope : Bytes → Option ProtoDataEnvelope
  pub parse-serialize_envelope :
      (p : ProtoDataEnvelope)
      → p.broadcast_scope ≡ none
      → parse_envelope (serialize_envelope p) ≡ some p

-- `ToProto` and `FromProto` of an address: `ReceiverType` has 16 bits.
abbrev pub address_to_proto : ReceiverAddress → ProtoReceiverAddress
address_to_proto r = record { type = r.type; key_hi = r.key_hi; key_lo = r.key_lo }

abbrev pub address_from_proto : Option ProtoReceiverAddress → ReceiverAddress
address_from_proto none = record { type = 0; key_hi = 0; key_lo = 0 }
address_from_proto (some p) = record {
  type = p.type % 2 ^ 16;
  key_hi = p.key_hi;
  key_lo = p.key_lo;
}

abbrev pub process_from_proto : Option ProcessRef → ProcessRef
process_from_proto none = no_process
process_from_proto (some p) = p

abbrev pub labels_to_proto : StringMap → Table String String → Table String String
labels_to_proto [] m = m
labels_to_proto ((key, value) ∷ labels) m = labels_to_proto labels (put key value m)

abbrev pub scope_to_proto : BroadcastScope → ProtoBroadcastScope
scope_to_proto s = record {
  service_type = s.service_type;
  required_labels = labels_to_proto s.required_labels [];
  include_local = s.include_local;
}

abbrev pub scope_from_proto : Option ProtoBroadcastScope → BroadcastScope
scope_from_proto none = no_scope
scope_from_proto (some p) = record {
  service_type = p.service_type;
  required_labels = p.required_labels;
  include_local = p.include_local;
}

abbrev pub semantic_to_proto : DeliverySemantic → ProtoSemantic
semantic_to_proto direct = semantic_direct
semantic_to_proto broadcast = semantic_broadcast

abbrev pub semantic_from_proto : ProtoSemantic → DeliverySemantic
semantic_from_proto semantic_broadcast = broadcast
semantic_from_proto _ = direct

abbrev pub scope_for : DeliverySemantic → BroadcastScope → Option ProtoBroadcastScope
scope_for direct scope = none
scope_for broadcast scope = some (scope_to_proto scope)

unfoldable pub to_proto : Envelope → ProtoDataEnvelope
to_proto e = record {
  source_process = some e.header.source_process;
  semantic = semantic_to_proto e.header.semantic;
  target_receiver = some (address_to_proto e.header.target_receiver);
  resolved_target_process = e.header.resolved_target_process;
  broadcast_scope = scope_for e.header.semantic e.broadcast_scope;
  payload_type_url = e.payload_type_url;
  payload_bytes = e.payload_bytes;
  request_id = e.header.request_id;
  flags = e.header.flags;
}

unfoldable pub from_proto : ProtoDataEnvelope → Envelope
from_proto p = record {
  header = record {
    source_process = process_from_proto p.source_process;
    semantic = semantic_from_proto p.semantic;
    target_receiver = address_from_proto p.target_receiver;
    resolved_target_process = p.resolved_target_process;
    request_id = p.request_id;
    flags = p.flags;
  };
  broadcast_scope = scope_from_proto p.broadcast_scope;
  payload_type_url = p.payload_type_url;
  payload_bytes = p.payload_bytes;
}

from_proto-to_proto :
    (e : Envelope)
    → e.header.semantic ≡ direct
    → e.header.target_receiver.type < 2 ^ 16
    → some (from_proto (to_proto e)) ≡ some (record e { broadcast_scope = no_scope })
unfolding from_proto to_proto
from_proto-to_proto e direct_only fits = ground (arith, direct_only)

module _ (codec : EnvelopeCodec) where
  unfoldable pub encode_data_envelope : Envelope → Bytes
  unfolding to_proto
  encode_data_envelope e = codec.serialize_envelope (to_proto e)

  -- Nothing where the bytes are refused with "invalid data envelope".
  unfoldable pub decode_data_envelope : Bytes → Option Envelope
  unfolding from_proto
  decode_data_envelope bytes = elim (codec.parse_envelope bytes) [
    | none ↦ none
    | some p ↦ some (from_proto p)
  ]

  -- A direct envelope comes back as it was, but for its broadcast scope, which is not sent.
  pub decode-encode_data_envelope :
      (e : Envelope)
      → e.header.semantic ≡ direct
      → e.header.target_receiver.type < 2 ^ 16
      → decode_data_envelope (encode_data_envelope e)
        ≡ some (record e { broadcast_scope = no_scope })
  unfolding decode_data_envelope encode_data_envelope to_proto from_proto
  decode-encode_data_envelope e direct_only fits =
      rw
        (
          decode_data_envelope,
          codec.parse-serialize_envelope (to_proto e)
              (ap (λ s. scope_for s e.broadcast_scope) direct_only),
        )
        (from_proto-to_proto e direct_only fits)
