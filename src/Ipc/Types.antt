-- ===== src/Ipc/Types.antt =====
-- src/framework/ipc/base: the identities, addresses and envelopes that every IPC layer shares.
-- An enum with a fixed underlying type holds any value of that type after a `static_cast`, so
-- `ReceiverType` is its number, with a constant for each enumerator.
use some_server.Base.{
  ℕ, ◌≡◌, ◌↔◌, Bool, true, false, ◌&&◌, Option, none, List, [], String, arith, Bytes, Eq, nat_eq,
}

-- result.h
pub record Result : Type 0 where
  pub ok : Bool
  pub message : String

abbrev pub success : Result
success = record { ok = true; message = "" }

abbrev pub failure : String → Result
failure error = record { ok = false; message = error }

-- process.h
pub record ProcessId : Type 0 where
  pub service_type : ℕ
  pub instance_id : ℕ

pub record ProcessRef : Type 0 where
  pub process_id : ProcessId
  pub incarnation_id : ℕ

-- What `ProcessRef{}` holds.
abbrev pub no_process : ProcessRef
no_process = record {
  process_id = record { service_type = 0; instance_id = 0 };
  incarnation_id = 0;
}

abbrev pub process_id_eq : ProcessId → ProcessId → Bool
process_id_eq a b = nat_eq a.service_type b.service_type && nat_eq a.instance_id b.instance_id

abbrev pub process_ref_eq : ProcessRef → ProcessRef → Bool
process_ref_eq a b =
    process_id_eq a.process_id b.process_id && nat_eq a.incarnation_id b.incarnation_id

pub process_id_eq_iff : (a b : ProcessId) → (process_id_eq a b ≡ true) ↔ (a ≡ b)
process_id_eq_iff a b = (λ h. ground arith, λ h. ground arith)

pub process_ref_eq_iff : (a b : ProcessRef) → (process_ref_eq a b ≡ true) ↔ (a ≡ b)
process_ref_eq_iff a b = (λ h. ground arith, λ h. ground arith)

instance abbrev pub Eq_ProcessId : Eq ProcessId
Eq_ProcessId = record { beq = process_id_eq; beq_iff = process_id_eq_iff }

instance abbrev pub Eq_ProcessRef : Eq ProcessRef
Eq_ProcessRef = record { beq = process_ref_eq; beq_iff = process_ref_eq_iff }

pub record Endpoint : Type 0 where
  pub host : String
  pub port : ℕ

-- types.h: `StringMap` is a vector of pairs.
abbrev pub StringMap : Type 0
StringMap = List (String × String)

pub record ProcessDescriptor : Type 0 where
  pub process : ProcessRef
  pub service_name : String
  pub listen_endpoint : Endpoint
  pub protocol_version : ℕ
  pub start_time_unix_ms : ℕ
  pub labels : StringMap
  pub relay_capabilities : List ℕ

-- receiver.h
abbrev pub ReceiverType : Type 0
ReceiverType = ℕ

abbrev pub process_type : ReceiverType
process_type = 1

abbrev pub player_type : ReceiverType
player_type = 2

abbrev pub service_receiver_type : ReceiverType
service_receiver_type = 4

pub record ReceiverAddress : Type 0 where
  pub type : ReceiverType
  pub key_hi : ℕ
  pub key_lo : ℕ

abbrev pub receiver_address_eq : ReceiverAddress → ReceiverAddress → Bool
receiver_address_eq a b =
    nat_eq a.type b.type && nat_eq a.key_hi b.key_hi && nat_eq a.key_lo b.key_lo

pub receiver_address_eq_iff : (a b : ReceiverAddress) → (receiver_address_eq a b ≡ true) ↔ (a ≡ b)
receiver_address_eq_iff a b = (λ h. ground arith, λ h. ground arith)

instance abbrev pub Eq_ReceiverAddress : Eq ReceiverAddress
Eq_ReceiverAddress = record { beq = receiver_address_eq; beq_iff = receiver_address_eq_iff }

pub data ReceiverLocationKind : Type 0 where
  local single_process multi_process unresolved : ReceiverLocationKind

pub record ReceiverLocation : Type 0 where
  pub kind : ReceiverLocationKind
  pub processes : List ProcessRef
  pub version : ℕ

-- What `ReceiverLocation{}` holds.
abbrev pub no_location : ReceiverLocation
no_location = record { kind = unresolved; processes = []; version = 0 }

pub record BroadcastScope : Type 0 where
  pub service_type : Option ℕ
  pub required_labels : StringMap
  pub include_local : Bool

-- What `BroadcastScope{}` holds.
abbrev pub no_scope : BroadcastScope
no_scope = record { service_type = none; required_labels = []; include_local = true }

-- envelope.h
pub data DeliverySemantic : Type 0 where
  direct broadcast : DeliverySemantic

pub record EnvelopeHeader : Type 0 where
  pub source_process : ProcessRef
  pub semantic : DeliverySemantic
  pub target_receiver : ReceiverAddress
  pub resolved_target_process : Option ProcessRef
  pub request_id : ℕ
  pub flags : ℕ

pub record Envelope : Type 0 where
  pub header : EnvelopeHeader
  pub broadcast_scope : BroadcastScope
  pub payload_type_url : Bytes
  pub payload_bytes : Bytes
