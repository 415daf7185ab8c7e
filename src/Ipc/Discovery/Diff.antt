-- ===== src/Ipc/Discovery/Diff.antt =====
-- src/framework/ipc/discovery/etcd_discovery.cpp: the events between two views.
use some_server.Base.{
  ◌≡◌, refl, Bool, true, false, not, none, some, List, [], ◌∷◌, ◌++◌, arith, nat_eq, if◌then◌else◌,
  ◌&&◌, ◌||◌, ◌==◌, ◌/=◌, Eq_ℕ, Eq_String, Eq_Bytes, bytes_eq_iff,
}
use some_server.Base.Table.{find, contains}
use some_server.Ipc.Types.{
  ProcessDescriptor, Endpoint, StringMap, Eq_ProcessRef, process_ref_eq_iff,
}
use some_server.Ipc.Discovery.{MembershipEvent, added, updated, removed, Processes}

abbrev pub endpoint_eq : Endpoint → Endpoint → Bool
endpoint_eq a b = a.host == b.host && nat_eq a.port b.port

abbrev pub labels_eq : StringMap → StringMap → Bool
labels_eq [] [] = true
labels_eq ((j, v) ∷ s) ((k, w) ∷ t) = j == k && v == w && labels_eq s t
labels_eq _ _ = false

-- The test for an update.
unfoldable pub differs : ProcessDescriptor → ProcessDescriptor → Bool
differs p q =
    p.process /= q.process
    || not (endpoint_eq p.listen_endpoint q.listen_endpoint)
    || p.protocol_version /= q.protocol_version
    || p.start_time_unix_ms /= q.start_time_unix_ms
    || p.service_name /= q.service_name
    || not (labels_eq p.labels q.labels)
    || p.relay_capabilities /= q.relay_capabilities

-- The first loop of `QueueDiffEvents`, over the current view.
unfoldable pub changes : Processes → Processes → List MembershipEvent
unfolding differs
changes previous [] = []
changes previous ((key, p) ∷ current) =
    let rest = changes previous current in
    elim (find key previous) [
      | none ↦ record { type = added; process = p } ∷ rest
      | some q ↦ if differs q p then record { type = updated; process = p } ∷ rest else rest
    ]

-- The second loop, over the previous view.
unfoldable pub removals : Processes → Processes → List MembershipEvent
removals current [] = []
removals current ((key, p) ∷ previous) =
    let rest = removals current previous in
    if contains key current then rest else record { type = removed; process = p } ∷ rest

unfoldable pub queue_diff_events :
    Processes → Processes → List MembershipEvent → List MembershipEvent
unfolding changes removals
queue_diff_events previous current events =
    events ++ (changes previous current ++ removals current previous)

labels_eq→eq : (s t : StringMap) → labels_eq s t ≡ true → s ≡ t
labels_eq→eq [] [] h = refl
labels_eq→eq [] (b ∷ t) h = ground arith
labels_eq→eq (a ∷ s) [] h = ground arith
labels_eq→eq ((j, v) ∷ s) ((k, w) ∷ t) h =
    ground (arith, Eq_String.beq_iff j k, Eq_String.beq_iff v w, labels_eq→eq s t)

-- A process that does not count as updated is the same.
pub differs-eq : (p q : ProcessDescriptor) → differs p q ≡ false → p ≡ q
unfolding differs
differs-eq p q h = ground (
  arith,
  process_ref_eq_iff p.process q.process,
  Eq_String.beq_iff p.listen_endpoint.host q.listen_endpoint.host,
  Eq_String.beq_iff p.service_name q.service_name,
  labels_eq→eq p.labels q.labels,
  bytes_eq_iff p.relay_capabilities q.relay_capabilities,
)
