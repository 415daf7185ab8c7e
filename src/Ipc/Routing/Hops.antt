-- ===== src/Ipc/Routing/Hops.antt =====
-- Where the hops of a plan lead.
use some_server.Base.{
  ℕ, ◌≡◌, refl, sym, subst, Bool, true, false, Option, none, some, List, [], ◌∷◌, arith,
  if◌then◌else◌, ◌&&◌, ◌||◌, not, ◌==◌, inl, inr, nat_eq, Bool-cases, Option-cases,
}
use some_server.Ipc.Types.{
  ProcessRef, ProcessDescriptor, StringMap, process_type, service_receiver_type, DeliverySemantic,
  broadcast, direct, ReceiverLocation, ReceiverLocationKind, local, single_process, multi_process,
  unresolved, process_ref_eq_iff, Eq_ProcessRef,
}
use some_server.Ipc.Routing.{
  RoutePlanKind, local_delivery, single_next_hop, multi_next_hop, unreachable, drop, RouteHop,
  RoutePlan, RoutingContext, MembershipView, matches_labels, broadcast_hops, location_hops,
  first_relay, has_direct, relays, resolve_single_target, resolve_by_type, resolve_broadcast,
  plan_or_drop, no_hops, service_hops, broadcast_service, resolve_location, resolve_for,
  target_process, resolve,
}

abbrev is_relay : ProcessRef → List ProcessDescriptor → Bool
is_relay p [] = false
is_relay p (d ∷ ds) = d.process == p || is_relay p ds

-- The flag of a hop to several processes says whether it is this process.
abbrev flags_self : ProcessRef → List RouteHop → Bool
flags_self self [] = true
flags_self self (h ∷ hops) =
    (if h.is_direct then h.next_hop == self else not (h.next_hop == self)) && flags_self self hops

-- A single hop leads to another process: over a healthy link, or to a relay. The hops of several
-- carry their flag, and there is one at least. The other plans have no hops.
abbrev pub is_sound : ℕ → RoutingContext → RoutePlan → Bool
is_sound relay_service_type x plan = check plan.kind plan.hops
  where
    check : RoutePlanKind → List RouteHop → Bool
    check single_next_hop (h ∷ []) =
        not (h.next_hop == x.self)
        && (if h.is_direct
            then has_direct x.links h.next_hop
            else is_relay h.next_hop (relays x.membership relay_service_type))
    check multi_next_hop (h ∷ hops) = flags_self x.self (h ∷ hops)
    check local_delivery [] = true
    check unreachable [] = true
    check drop [] = true
    check _ _ = false

first_relay-other :
    (self p : ProcessRef) (ds : List ProcessDescriptor)
    → first_relay self ds ≡ some p
    → (p == self ≡ false) × (is_relay p ds ≡ true)
unfolding first_relay
first_relay-other self p [] e = absurd (ground arith)
first_relay-other self p (d ∷ ds) e = elim (Bool-cases (d.process == self)) [
  | inl t ↦ ground (arith, first_relay-other self p ds)
  | inr t ↦ ground (arith, process_ref_eq_iff d.process p)
]

is_sound-resolve_single_target :
    (relay_service_type : ℕ) (x : RoutingContext) (target : ProcessRef)
    → is_sound relay_service_type x (resolve_single_target relay_service_type x target) ≡ true
unfolding resolve_single_target
is_sound-resolve_single_target relay_service_type x target =
    let ds = relays x.membership relay_service_type in
    elim (Bool-cases (target == x.self)) [
      | inl t ↦ rw (t, resolve_single_target) refl
      | inr t ↦ elim (Bool-cases (has_direct x.links target)) [
        | inl l ↦ rw (t, resolve_single_target, l) (ground arith)
        | inr l ↦ elim (Option-cases (first_relay x.self ds)) [
          | inl e ↦ rw (t, resolve_single_target, l, e) refl
          | inr (p, e) ↦
              rw (t, resolve_single_target, l, e) (ground (arith, first_relay-other x.self p ds e))
        ]
      ]
    ]

is_sound-resolve_by_type :
    (relay_service_type : ℕ) (x : RoutingContext)
    → is_sound relay_service_type x (resolve_by_type relay_service_type x) ≡ true
unfolding resolve_by_type
is_sound-resolve_by_type relay_service_type x =
    elim (Bool-cases (nat_eq x.envelope.header.target_receiver.type process_type)) [
      | inl t ↦
          rw (t, resolve_by_type)
            (is_sound-resolve_single_target relay_service_type x (target_process x))
      | inr t ↦ rw (t, resolve_by_type) refl
    ]

broadcast_hops-flags :
    (self : ProcessRef) (include_local : Bool) (required : StringMap) (ps : List ProcessDescriptor)
    → flags_self self (broadcast_hops self include_local required ps) ≡ true
unfolding broadcast_hops
broadcast_hops-flags self include_local required [] = refl
broadcast_hops-flags self include_local required (p ∷ ps) =
    ground (arith, broadcast_hops-flags self include_local required ps)

location_hops-flags :
    (self : ProcessRef) (ps : List ProcessRef) → flags_self self (location_hops self ps) ≡ true
unfolding location_hops
location_hops-flags self [] = refl
location_hops-flags self (p ∷ ps) = ground (arith, location_hops-flags self ps)

is_sound-plan_or_drop :
    (relay_service_type : ℕ) (x : RoutingContext) (hops : List RouteHop)
    → flags_self x.self hops ≡ true
    → is_sound relay_service_type x (plan_or_drop hops) ≡ true
is_sound-plan_or_drop relay_service_type x [] e = refl
is_sound-plan_or_drop relay_service_type x (h ∷ hops) e = e

service_hops-flags :
    (x : RoutingContext) (m : MembershipView) → flags_self x.self (service_hops x m) ≡ true
unfolding service_hops
service_hops-flags x m =
    broadcast_hops-flags x.self x.envelope.broadcast_scope.include_local
      x.envelope.broadcast_scope.required_labels (m.find_by_service (broadcast_service x))

is_sound-resolve_broadcast :
    (relay_service_type : ℕ) (x : RoutingContext)
    → is_sound relay_service_type x (resolve_broadcast x) ≡ true
unfolding resolve_broadcast service_hops
is_sound-resolve_broadcast relay_service_type x = elim (Option-cases x.membership) [
  | inl e ↦ drops (rw (e, resolve_broadcast) refl)
  | inr (m, e) ↦
      elim (Bool-cases (nat_eq x.envelope.header.target_receiver.type service_receiver_type)) [
        | inl t ↦ goes m (rw (e, resolve_broadcast, t) refl)
        | inr t ↦ drops (rw (e, resolve_broadcast, t) refl)
      ]
]
  where
    Sound : RoutePlan → Type 0
    Sound plan = is_sound relay_service_type x plan ≡ true

    drops : resolve_broadcast x ≡ no_hops drop → Sound (resolve_broadcast x)
    drops e = subst Sound (sym e) refl

    goes :
        (m : MembershipView)
        → resolve_broadcast x ≡ plan_or_drop (service_hops x m)
        → Sound (resolve_broadcast x)
    goes m e =
        subst Sound (sym e)
          (is_sound-plan_or_drop relay_service_type x (service_hops x m) (service_hops-flags x m))

-- A hop to the process is among the hops.
abbrev pub leads_to : ProcessRef → List RouteHop → Bool
leads_to p [] = false
leads_to p (h ∷ hops) = h.next_hop == p || leads_to p hops

-- The membership has the process with the required labels, and it is not left out as local.
abbrev pub is_meant : ProcessRef → Bool → StringMap → ProcessRef → List ProcessDescriptor → Bool
is_meant self include_local required p [] = false
is_meant self include_local required p (d ∷ ds) =
    (d.process == p && matches_labels d required && (include_local || not (d.process == self)))
    || is_meant self include_local required p ds

-- A broadcast has a hop to a process exactly when the membership has the process with the required
-- labels, and local delivery is asked for if it is this process.
pub leads_to-broadcast_hops :
    (self : ProcessRef) (include_local : Bool) (required : StringMap) (p : ProcessRef)
    (ds : List ProcessDescriptor)
    → leads_to p (broadcast_hops self include_local required ds)
      ≡ is_meant self include_local required p ds
unfolding broadcast_hops
leads_to-broadcast_hops self include_local required p [] = refl
leads_to-broadcast_hops self include_local required p (d ∷ ds) =
    ground (arith, leads_to-broadcast_hops self include_local required p ds)

-- Every plan of the relay-first policy is sound: a single hop leads to another process, over a
-- healthy link or to a relay of the membership; a plan of several hops has at least one, each with
-- a flag that says whether it is this process; any other plan has none.
pub is_sound-resolve :
    (relay_service_type : ℕ) (x : RoutingContext)
    → is_sound relay_service_type x (resolve relay_service_type x) ≡ true
unfolding resolve resolve_for resolve_location location_hops
is_sound-resolve relay_service_type x = by_semantic x.envelope.header.semantic x.receiver_location
  where
    Sound : RoutePlan → Type 0
    Sound plan = is_sound relay_service_type x plan ≡ true

    by_processes :
        (l : ReceiverLocation) (k : ReceiverLocationKind) (ps : List ProcessRef)
        → Sound (resolve_location relay_service_type x k ps)
    by_processes l local ps = refl
    by_processes l unresolved ps = refl
    by_processes l single_process [] = is_sound-resolve_by_type relay_service_type x
    by_processes l single_process (p ∷ ps) = is_sound-resolve_single_target relay_service_type x p
    by_processes l multi_process [] = is_sound-resolve_by_type relay_service_type x
    by_processes l multi_process (p ∷ ps) = location_hops-flags x.self (p ∷ ps)

    by_semantic :
        (s : DeliverySemantic) (l : Option ReceiverLocation)
        → Sound (resolve_for relay_service_type x s l)
    by_semantic broadcast l = is_sound-resolve_broadcast relay_service_type x
    by_semantic direct none = is_sound-resolve_by_type relay_service_type x
    by_semantic direct (some l) = by_processes l l.kind l.processes
