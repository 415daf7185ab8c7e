-- ===== src/Ipc/Discovery/Etcd.antt =====
-- src/framework/ipc/discovery/etcd_discovery: the view of the members that etcd has. The backend
-- and the JSON library are parameters. Each method holds the lock of the discovery, but for the
-- calls of the backend in `keep_alive_once` and `refresh_snapshot`.
use some_server.Base.{
  ℕ, ◌≡◌, ◌⊎◌, inl, inr, refl, Bool, false, not, ◌&&◌, Option, none, some, List, [], ◌∷◌, ◌++◌,
  String, nat_eq, ltb, if◌then◌else◌, ◌==◌, Eq_ℕ, Eq_String, Eq_Bytes, Bytes, inc64,
}
use some_server.Base.Table.{put, erase}
use some_server.Base.Decimal.{to_string}
use some_server.Ipc.Types.{
  ProcessId, Eq_ProcessId, ProcessDescriptor, StringMap, Result, success, failure,
}
use some_server.Ipc.Discovery.{MembershipEvent, Processes, process_key}
use some_server.Ipc.Discovery.Diff.{queue_diff_events}
use some_server.Ipc.Discovery.Base64.{base64_decode}

pub record EtcdDiscoveryRuntimeStats : Type 0 where
  pub watch_restart_count : ℕ
  pub watch_start_failure_count : ℕ
  pub watch_stream_closed_count : ℕ
  pub snapshot_refresh_failure_count : ℕ

pub data WatchPollKind : Type 0 where
  event stream_closed stopped error : WatchPollKind

-- etcd_discovery_backend.h: `IEtcdDiscoveryBackend`, over a state `B` of the backend. An output
-- parameter comes in and goes out.
pub record Backend (B : Type 0) : Type 0 where
  pub grant_lease : B → ℕ → ℕ → Result × ℕ × B
  pub backend_put : B → Bytes → Bytes → ℕ → Result × B
  pub backend_keep_alive_once : B → ℕ → Result × B
  pub backend_delete : B → Bytes → Result × B
  pub get_prefix : B → Bytes → Result × Bytes × B
  pub start_watch_prefix : B → Bytes → Result × B
  pub wait_for_watch_event : B → WatchPollKind × B
  pub backend_stop_watch : B → B
  pub backend_watch_running : B → Bool

pub record SerializableProcessDescriptor : Type 0 where
  pub service_type : ℕ
  pub instance_id : ℕ
  pub incarnation_id : ℕ
  pub service_name : String
  pub host : String
  pub port : ℕ
  pub protocol_version : ℕ
  pub start_time_unix_ms : ℕ
  pub relay_capabilities : List ℕ
  pub labels : StringMap

pub record JsonKv : Type 0 where
  pub key : Bytes
  pub value : Bytes

-- What reading a JSON text gives: a value, or the formatted error.
pub data Parsed (A : Type 0) : Type 0 where
  parsed : A → Parsed A
  malformed : String → Parsed A

pub Parsed-cases :
    {A : Type 0} (o : Parsed A) → ((t : String) × (o ≡ malformed t)) ⊎ ((a : A) × (o ≡ parsed a))
Parsed-cases (malformed t) = inl (t, refl)
Parsed-cases (parsed a) = inr (a, refl)

-- glaze, as the discovery uses it.
pub record Json : Type 0 where
  pub write_json : SerializableProcessDescriptor → Option Bytes
  pub read_descriptor : Bytes → Parsed SerializableProcessDescriptor
  pub read_response : Bytes → Parsed (List JsonKv)

pub record EtcdDiscovery (B : Type 0) : Type 0 where
  pub prefix : Bytes
  pub lease_ttl_seconds : ℕ
  pub backend : B
  pub processes : Processes
  pub events : List MembershipEvent
  pub self : Option ProcessDescriptor
  pub lease_id : ℕ
  pub stop_watch_requested : Bool
  pub stats : EtcdDiscoveryRuntimeStats

-- The text `/members/`.
abbrev pub members : Bytes
members = b'/' ∷ b'm' ∷ b'e' ∷ b'm' ∷ b'b' ∷ b'e' ∷ b'r' ∷ b's' ∷ b'/' ∷ []

unfoldable pub serialize_descriptor : Json → ProcessDescriptor → Bytes
serialize_descriptor json p =
    let written = json.write_json record {
      service_type = p.process.process_id.service_type;
      instance_id = p.process.process_id.instance_id;
      incarnation_id = p.process.incarnation_id;
      service_name = p.service_name;
      host = p.listen_endpoint.host;
      port = p.listen_endpoint.port;
      protocol_version = p.protocol_version;
      start_time_unix_ms = p.start_time_unix_ms;
      relay_capabilities = p.relay_capabilities;
      labels = p.labels;
    } in
    elim written [ none ↦ [] | some text ↦ text ]

abbrev pub descriptor_of : SerializableProcessDescriptor → ProcessDescriptor
descriptor_of s = record {
  process = record {
    process_id = record { service_type = s.service_type; instance_id = s.instance_id };
    incarnation_id = s.incarnation_id;
  };
  service_name = s.service_name;
  listen_endpoint = record { host = s.host; port = s.port };
  protocol_version = s.protocol_version;
  start_time_unix_ms = s.start_time_unix_ms;
  labels = s.labels;
  relay_capabilities = s.relay_capabilities;
}

unfoldable pub deserialize_descriptor : Json → Bytes → Parsed ProcessDescriptor
deserialize_descriptor json text = elim (json.read_descriptor text) [
  | parsed s ↦ parsed (descriptor_of s)
  | malformed message ↦ malformed message
]

-- The loop of `ParseSnapshot`.
unfoldable pub parse_members : Json → List JsonKv → Processes → Parsed Processes
unfolding deserialize_descriptor process_key
parse_members json [] refreshed = parsed refreshed
parse_members json (kv ∷ kvs) refreshed =
    elim (deserialize_descriptor json (base64_decode kv.value)) [
      | malformed message ↦ malformed message
      | parsed p ↦ parse_members json kvs (put (process_key p.process.process_id) p refreshed)
    ]

unfoldable pub parse_snapshot : Json → Bytes → Parsed Processes
unfolding parse_members
parse_snapshot json output = elim (json.read_response output) [
  | malformed message ↦ malformed message
  | parsed kvs ↦ parse_members json kvs []
]

module _ {B : Type 0} (etcd : Backend B) (json : Json) where
  unfoldable pub member_key : EtcdDiscovery B → ProcessId → Bytes
  member_key d id =
      d.prefix ++ (members ++ (to_string id.service_type ++ b'/' ∷ to_string id.instance_id))

  -- `GrantLease`
  unfoldable pub grant : EtcdDiscovery B → Result × EtcdDiscovery B
  grant d =
      let (result, lease_id, backend) = etcd.grant_lease d.backend d.lease_ttl_seconds d.lease_id in
      (result, record d { lease_id = lease_id; backend = backend })

  -- One `Put` of the descriptor under the lease that there is.
  unfoldable pub put_self : EtcdDiscovery B → ProcessDescriptor → Result × EtcdDiscovery B
  unfolding member_key serialize_descriptor
  put_self d self =
      let (result, backend) =
        etcd.backend_put d.backend (member_key d self.process.process_id)
          (serialize_descriptor json self) d.lease_id in
      (result, record d { backend = backend })

  -- The end of `RegisterSelf`, behind the last `Put`.
  abbrev pub registered : Result × EtcdDiscovery B → ProcessDescriptor → Result × EtcdDiscovery B
  registered (result, d) self =
      if result.ok
      then (
        success,
        record d {
          self = some self;
          processes = put (process_key self.process.process_id) self d.processes;
        },
      )
      else (result, d)

  -- A lease where none is held and one is wanted, or success.
  abbrev pub ensure_lease : EtcdDiscovery B → Result × EtcdDiscovery B
  ensure_lease d =
      if ltb 0 d.lease_ttl_seconds && nat_eq d.lease_id 0 then grant d else (success, d)

  -- After a refused `Put`: a fresh lease, and once more.
  abbrev pub put_again : EtcdDiscovery B → ProcessDescriptor → Result × EtcdDiscovery B
  put_again d self =
      let (leased, d1) = grant (record d { lease_id = 0 }) in
      if leased.ok then registered (put_self d1 self) self else (leased, d1)

  unfoldable pub register_self : EtcdDiscovery B → ProcessDescriptor → Result × EtcdDiscovery B
  unfolding process_key grant put_self
  register_self d self =
      let (leased, d1) = ensure_lease d in
      let (first, d2) = put_self d1 self in
      if leased.ok
      then (if not first.ok && ltb 0 d2.lease_ttl_seconds
          then put_again d2 self
          else registered (first, d2) self)
      else (leased, d1)

  unfoldable pub keep_alive_once : EtcdDiscovery B → Result × EtcdDiscovery B
  keep_alive_once d =
      let (result, backend) = etcd.backend_keep_alive_once d.backend d.lease_id in
      if nat_eq d.lease_id 0
      then (failure "lease not initialized", d)
      else if result.ok
      then (result, record d { backend = backend })
      else (result, record d { backend = backend; lease_id = 0 })

  unfoldable pub apply_snapshot : EtcdDiscovery B → Processes → EtcdDiscovery B
  unfolding queue_diff_events
  apply_snapshot d refreshed = record d {
    events = queue_diff_events d.processes refreshed d.events;
    processes = refreshed;
  }

  abbrev pub refresh_failed : EtcdDiscovery B → EtcdDiscovery B
  refresh_failed d =
      let count = inc64 d.stats.snapshot_refresh_failure_count in
      record d { stats = record d.stats { snapshot_refresh_failure_count = count } }

  unfoldable pub refresh_snapshot : EtcdDiscovery B → Result × EtcdDiscovery B
  unfolding parse_snapshot apply_snapshot
  refresh_snapshot d =
      let (got, output, backend) = etcd.get_prefix d.backend (d.prefix ++ members) in
      let d1 = record d { backend = backend } in
      if got.ok
      then elim (parse_snapshot json output) [
        | malformed message ↦ (failure message, refresh_failed d1)
        | parsed refreshed ↦ (success, apply_snapshot d1 refreshed)
      ]
      else (got, refresh_failed d1)

  -- `mSelf` is the process `id`.
  abbrev pub is_self : EtcdDiscovery B → ProcessId → Bool
  is_self d id = elim d.self [ none ↦ false | some p ↦ p.process.process_id == id ]

  unfoldable pub remove : EtcdDiscovery B → ProcessId → Result × EtcdDiscovery B
  unfolding process_key member_key
  remove d id =
      let (deleted, backend) = etcd.backend_delete d.backend (member_key d id) in
      let d1 = record d { backend = backend } in
      let d2 = record d1 { processes = erase (process_key id) d1.processes } in
      if deleted.ok
      then (success, if is_self d2 id then record d2 { self = none; lease_id = 0 } else d2)
      else (deleted, d1)

  unfoldable pub drain_events : EtcdDiscovery B → List MembershipEvent × EtcdDiscovery B
  drain_events d = (d.events, record d { events = [] })
