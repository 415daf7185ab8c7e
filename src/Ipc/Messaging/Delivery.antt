-- ===== src/Ipc/Messaging/Delivery.antt =====
-- src/framework/ipc/messaging/messenger.cpp: what becomes of an envelope that is sent.
use some_server.Base.{
  ℕ, suc, ◌≡◌, inl, inr, refl, true, false, Option, none, some, List, [], ◌∷◌, nat_eq,
  if◌then◌else◌, ◌==◌, Eq_ℕ, Eq_String, Eq_Bytes, Bool-cases, Option-cases,
}
use some_server.Ipc.Types.{
  ProcessRef, Eq_ProcessRef, ReceiverLocation, Envelope, process_type, Result, success, failure,
}
use some_server.Ipc.Routing.{
  RouteHop, RoutePlan, RoutePlanKind, local_delivery, single_next_hop, multi_next_hop, drop,
  unreachable, resolve, resolve_for, resolve_location, resolve_single_target, first_relay,
  has_direct, relays,
}
use some_server.Ipc.Messaging.{
  Messenger, Hosts, Sender, dispatch_local, send_remote, send_hops, send_plan, send_envelope,
  resolve_target, single_location, next_envelope, context_of,
}

module _ {W : Type 0} (hosts : Hosts W) (m : Messenger) (sender : Option (Sender W)) where
  -- A delivery to one process without any further round: here, over the link, or by way of a relay.
  abbrev pub deliver_to : Envelope → ProcessRef → W → Result × W
  deliver_to e p w =
      if p == m.self
      then dispatch_local hosts m e w
      else if has_direct m.links p
      then send_remote hosts sender (record { next_hop = p; is_direct = true } ∷ []) e w
      else elim (first_relay m.self (relays m.membership m.relay_service_type)) [
        | none ↦ (failure "route plan kind is not implemented yet", w)
        | some relay ↦
            send_remote hosts sender (record { next_hop = relay; is_direct = false } ∷ []) e w
      ]

  -- One after the other, up to the first failure.
  abbrev pub deliver_each : Envelope → List RouteHop → W → Result × W
  deliver_each e [] w = (success, w)
  deliver_each e (h ∷ hops) w =
      let (result, w') = deliver_to (next_envelope e h.next_hop) h.next_hop w in
      if result.ok then deliver_each e hops w' else (result, w')

  abbrev pub deliver : RoutePlan → Envelope → W → Result × W
  deliver plan e w = elim plan.kind [
    | local_delivery ↦ dispatch_local hosts m e w
    | drop ↦ (failure "message dropped during route resolution", w)
    | single_next_hop ↦ send_remote hosts sender plan.hops e w
    | multi_next_hop ↦ deliver_each e plan.hops w
    | unreachable ↦ (failure "route plan kind is not implemented yet", w)
  ]

  resolve_target_next :
      (e : Envelope) (p : ProcessRef)
      → resolve_target (next_envelope e p) (some (single_location p)) ≡ next_envelope e p
  resolve_target_next e p = elim (Bool-cases (nat_eq e.header.target_receiver.type process_type)) [
    | inl t ↦ rw (t, t) refl
    | inr t ↦ rw (t, t) refl
  ]

  resolve_next :
      (e : Envelope) (p : ProcessRef)
      → resolve m.relay_service_type (context_of m (next_envelope e p) (some (single_location p)))
        ≡ resolve_single_target m.relay_service_type
            (context_of m (next_envelope e p) (some (single_location p)))
            p
  unfolding resolve resolve_for resolve_location
  resolve_next e p = elim (Bool-cases (nat_eq e.header.target_receiver.type process_type)) [
    | inl t ↦ rw t refl
    | inr t ↦ rw t refl
  ]

  pub send_plan-resolve_single_target :
      (send : Envelope → Option ReceiverLocation → W → Option (Result × W)) (e' : Envelope)
      (l : Option ReceiverLocation) (e : Envelope) (p : ProcessRef) (w : W)
      → send_plan hosts m sender send
          (resolve_single_target m.relay_service_type (context_of m e' l) p)
          e
          w
        ≡ some (deliver_to e p w)
  unfolding resolve_single_target
  send_plan-resolve_single_target send e' l e p w = elim (Bool-cases (p == m.self)) [
    | inl t ↦ rw (resolve_single_target, t) refl
    | inr t ↦ elim (Bool-cases (has_direct m.links p)) [
      | inl u ↦ rw (resolve_single_target, t, u) refl
      | inr u ↦
          elim (Option-cases (first_relay m.self (relays m.membership m.relay_service_type))) [
            | inl v ↦ rw (resolve_single_target, t, u, v) refl
            | inr (relay, v) ↦ rw (resolve_single_target, t, u, v) refl
          ]
    ]
  ]

  send_envelope_next :
      (fuel : ℕ) (e : Envelope) (p : ProcessRef) (w : W)
      → send_envelope hosts m sender (suc fuel) (next_envelope e p) (some (single_location p)) w
        ≡ some (deliver_to (next_envelope e p) p w)
  unfolding send_envelope
  send_envelope_next fuel e p w =
      rw (send_envelope, resolve_target_next e p, resolve_next e p)
        (send_plan-resolve_single_target (send_envelope hosts m sender fuel) (next_envelope e p)
          (some (single_location p)) (next_envelope e p) p w)

  send_hops_lem :
      (fuel : ℕ) (e : Envelope) (hops : List RouteHop) (w : W)
      → send_hops hosts (send_envelope hosts m sender (suc fuel)) e hops w
        ≡ some (deliver_each e hops w)
  send_hops_lem fuel e [] w = refl
  send_hops_lem fuel e (h ∷ hops) w =
      let first = deliver_to (next_envelope e h.next_hop) h.next_hop w in
      elim (Bool-cases first.0.ok) [
        | inl t ↦
            rw (send_hops, send_envelope_next fuel e h.next_hop w, t)
              (send_hops_lem fuel e hops first.1)
        | inr t ↦ rw (send_hops, send_envelope_next fuel e h.next_hop w, t) refl
      ]

  send_plan_lem :
      (fuel : ℕ) (kind : RoutePlanKind) (hops : List RouteHop) (e : Envelope) (w : W)
      → send_plan hosts m sender
          (send_envelope hosts m sender (suc fuel))
          (record { kind = kind; hops = hops })
          e
          w
        ≡ some (deliver (record { kind = kind; hops = hops }) e w)
  send_plan_lem fuel local_delivery hops e w = refl
  send_plan_lem fuel drop hops e w = refl
  send_plan_lem fuel single_next_hop hops e w = refl
  send_plan_lem fuel multi_next_hop hops e w = send_hops_lem fuel e hops w
  send_plan_lem fuel unreachable hops e w = refl

  -- Sending ends after one round for the call and one for each hop, and does what its plan says:
  -- it dispatches here, gives the envelope to one other process, delivers to each of several hops
  -- here, over the link or by a relay up to the first failure, or fails.
  pub send_envelope_lem :
      (fuel : ℕ) (e : Envelope) (l : Option ReceiverLocation) (w : W)
      → send_envelope hosts m sender (suc (suc fuel)) e l w
        ≡ some (
            deliver
              (resolve m.relay_service_type (context_of m (resolve_target e l) l))
              (resolve_target e l)
              w)
  unfolding send_envelope
  send_envelope_lem fuel e l w =
      let plan = resolve m.relay_service_type (context_of m (resolve_target e l) l) in
      send_plan_lem fuel plan.kind plan.hops (resolve_target e l) w
