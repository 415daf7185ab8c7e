-- ===== src/Ipc/Routing.antt =====
-- src/framework/ipc/routing: where an envelope goes next, by relay_first_policy.cpp. A view of the
-- membership and of the links may be missing; what a view answers is a function here.
pub mod Hops
use some_server.Base.{
  ℕ, ◌^◌, ◌%◌, ◌≡◌, Bool, true, false, Option, none, some, List, [], ◌∷◌, String, nat_eq,
  if◌then◌else◌, ◌&&◌, ◌||◌, not, ◌==◌, Eq_String,
}
use some_server.Ipc.Types.{
  ProcessId, ProcessRef, ProcessDescriptor, StringMap, ReceiverAddress, ReceiverLocation,
  ReceiverLocationKind, DeliverySemantic, local, single_process, multi_process, unresolved,
  Envelope, direct, broadcast, process_type, service_receiver_type, Eq_ProcessRef,
}

pub data RoutePlanKind : Type 0 where
  local_delivery single_next_hop multi_next_hop unreachable drop : RoutePlanKind

pub record RouteHop : Type 0 where
  pub next_hop : ProcessRef
  pub is_direct : Bool

pub record RoutePlan : Type 0 where
  pub kind : RoutePlanKind
  pub hops : List RouteHop

abbrev pub no_hops : RoutePlanKind → RoutePlan
no_hops kind = record { kind = kind; hops = [] }

-- `IMembershipView`
pub record MembershipView : Type 0 where
  pub find : ProcessId → Option ProcessDescriptor
  pub find_by_service : ℕ → List ProcessDescriptor

-- `ILinkView`, of which routing asks one thing.
abbrev pub LinkView : Type 0
LinkView = ProcessRef → Bool

pub record RoutingContext : Type 0 where
  pub self : ProcessRef
  pub envelope : Envelope
  pub receiver_location : Option ReceiverLocation
  pub membership : Option MembershipView
  pub links : Option LinkView

abbrev has_label : String → String → StringMap → Bool
has_label key value [] = false
has_label key value ((k, v) ∷ labels) = (k == key && v == value) || has_label key value labels

unfoldable pub matches_labels : ProcessDescriptor → StringMap → Bool
matches_labels process [] = true
matches_labels process ((key, value) ∷ required) =
    has_label key value process.labels && matches_labels process required

-- A hop to each process that the broadcast is for.
unfoldable pub broadcast_hops :
    ProcessRef → Bool → StringMap → List ProcessDescriptor → List RouteHop
unfolding matches_labels
broadcast_hops self include_local required [] = []
broadcast_hops self include_local required (p ∷ ps) =
    let rest = broadcast_hops self include_local required ps in
    if (not include_local && p.process == self) || not (matches_labels p required)
    then rest
    else record { next_hop = p.process; is_direct = p.process == self } ∷ rest

-- A hop to each process of a location.
unfoldable pub location_hops : ProcessRef → List ProcessRef → List RouteHop
location_hops self [] = []
location_hops self (p ∷ ps) = record { next_hop = p; is_direct = p == self } ∷ location_hops self ps

-- The first relay that is another process.
unfoldable pub first_relay : ProcessRef → List ProcessDescriptor → Option ProcessRef
first_relay self [] = none
first_relay self (p ∷ ps) = if p.process == self then first_relay self ps else some p.process

abbrev pub has_direct : Option LinkView → ProcessRef → Bool
has_direct none target = false
has_direct (some links) target = links target

abbrev pub relays : Option MembershipView → ℕ → List ProcessDescriptor
relays none relay_service_type = []
relays (some m) relay_service_type = m.find_by_service relay_service_type

unfoldable pub resolve_single_target : ℕ → RoutingContext → ProcessRef → RoutePlan
unfolding first_relay
resolve_single_target relay_service_type x target =
    if target == x.self
    then no_hops local_delivery
    else if has_direct x.links target
    then record {
      kind = single_next_hop;
      hops = record { next_hop = target; is_direct = true } ∷ [];
    }
    else elim (first_relay x.self (relays x.membership relay_service_type)) [
      | none ↦ no_hops unreachable
      | some relay ↦ record {
        kind = single_next_hop;
        hops = record { next_hop = relay; is_direct = false } ∷ [];
      }
    ]

abbrev pub plan_or_drop : List RouteHop → RoutePlan
plan_or_drop [] = no_hops drop
plan_or_drop (h ∷ hops) = record { kind = multi_next_hop; hops = h ∷ hops }

-- The service that a broadcast is for.
abbrev pub broadcast_service : RoutingContext → ℕ
broadcast_service x = service_type x.envelope.broadcast_scope.service_type
  where
    service_type : Option ℕ → ℕ
    service_type none = x.envelope.header.target_receiver.key_hi % 2 ^ 32
    service_type (some t) = t

-- The hops of a broadcast to a service.
unfoldable pub service_hops : RoutingContext → MembershipView → List RouteHop
unfolding broadcast_hops
service_hops x m =
    broadcast_hops x.self x.envelope.broadcast_scope.include_local
      x.envelope.broadcast_scope.required_labels (m.find_by_service (broadcast_service x))

unfoldable pub resolve_broadcast : RoutingContext → RoutePlan
unfolding service_hops
resolve_broadcast x = elim x.membership [
  | none ↦ no_hops drop
  | some m ↦
      if nat_eq x.envelope.header.target_receiver.type service_receiver_type
      then plan_or_drop (service_hops x m)
      else no_hops drop
]

-- The process that an address of the type `process` stands for.
unfoldable pub target_process : RoutingContext → ProcessRef
target_process x = known x.membership
  where
    id : ProcessId
    id = record {
      service_type = x.envelope.header.target_receiver.key_hi % 2 ^ 32;
      instance_id = x.envelope.header.target_receiver.key_lo % 2 ^ 32;
    }

    unknown : ProcessRef
    unknown = record { process_id = id; incarnation_id = 0 }

    found : Option ProcessDescriptor → ProcessRef
    found none = unknown
    found (some p) = p.process

    known : Option MembershipView → ProcessRef
    known none = unknown
    known (some m) = found (m.find id)

-- What is left when no location decides.
unfoldable pub resolve_by_type : ℕ → RoutingContext → RoutePlan
unfolding resolve_single_target target_process
resolve_by_type relay_service_type x =
    if nat_eq x.envelope.header.target_receiver.type process_type
    then resolve_single_target relay_service_type x (target_process x)
    else no_hops drop

-- What the location of the receiver decides.
unfoldable pub resolve_location :
    ℕ → RoutingContext → ReceiverLocationKind → List ProcessRef → RoutePlan
unfolding resolve_single_target resolve_by_type location_hops
resolve_location relay_service_type x local ps = no_hops local_delivery
resolve_location relay_service_type x unresolved ps = no_hops drop
resolve_location relay_service_type x _ [] = resolve_by_type relay_service_type x
resolve_location relay_service_type x single_process (p ∷ ps) =
    resolve_single_target relay_service_type x p
resolve_location relay_service_type x multi_process (p ∷ ps) = record {
  kind = multi_next_hop;
  hops = location_hops x.self (p ∷ ps);
}

unfoldable pub resolve_for :
    ℕ → RoutingContext → DeliverySemantic → Option ReceiverLocation → RoutePlan
unfolding resolve_broadcast resolve_by_type resolve_location
resolve_for relay_service_type x broadcast l = resolve_broadcast x
resolve_for relay_service_type x direct none = resolve_by_type relay_service_type x
resolve_for relay_service_type x direct (some l) =
    resolve_location relay_service_type x l.kind l.processes

unfoldable pub resolve : ℕ → RoutingContext → RoutePlan
unfolding resolve_for
resolve relay_service_type x =
    resolve_for relay_service_type x x.envelope.header.semantic x.receiver_location
