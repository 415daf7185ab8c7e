-- ===== src/Ipc/Discovery/Members.antt =====
-- What a reader of the membership events of src/framework/ipc/discovery/etcd_discovery knows.
use some_server.Base.{
  ℕ, ◌≡◌, ◌⊎◌, inl, inr, refl, sym, ap, ◌∙◌, subst, List, [], ◌∷◌, ◌++◌, arith, nat_eq, Eq_ℕ,
  Eq_String, Eq_Bytes, Bool-cases, Bytes,
}
use some_server.Base.Table.{find, put, find-put, find-erase, AllEntries-put, Distinct-put}
use some_server.Ipc.Types.{ProcessId, ProcessDescriptor}
use some_server.Ipc.Discovery.{
  MembershipEventType, MembershipEvent, added, updated, removed, Processes, process_key,
  find_process,
}
use some_server.Ipc.Discovery.Diff.{queue_diff_events}
use some_server.Ipc.Discovery.Etcd.{
  members, Parsed-cases, Backend, Json, JsonKv, Parsed, parsed, malformed, EtcdDiscovery,
  parse_members, parse_snapshot, deserialize_descriptor, refresh_snapshot, keep_alive_once,
  drain_events,
}
use some_server.Ipc.Discovery.Replay.{
  apply_as, apply_event, replay, Keyed, IsView, replay-append, replay-queue_diff_events,
}
use some_server.Ipc.Discovery.Base64.{base64_decode}

-- The predicate holds of a table that was read.
abbrev Reads : (Processes → Type 0) → Parsed Processes → Type 0
Reads P (malformed t) = Unit
Reads P (parsed m) = P m

put-IsView :
    (p : ProcessDescriptor) (m : Processes)
    → IsView m
    → IsView (put (process_key p.process.process_id) p m)
put-IsView p m v = (
  AllEntries-put Keyed (process_key p.process.process_id) p m v.0 refl,
  Distinct-put (process_key p.process.process_id) p m v.1,
)

parse_members-IsView :
    (json : Json) (kvs : List JsonKv) (m : Processes)
    → IsView m
    → Reads IsView (parse_members json kvs m)
unfolding parse_members
parse_members-IsView json [] m v = v
parse_members-IsView json (kv ∷ kvs) m v =
    elim (Parsed-cases (deserialize_descriptor json (base64_decode kv.value))) [
      | inl (t, e) ↦ rw (e, Reads) tt
      | inr (p, e) ↦
          rw (e, Reads)
            (parse_members-IsView json kvs (put (process_key p.process.process_id) p m)
              (put-IsView p m v))
    ]

parse_snapshot-IsView : (json : Json) (output : Bytes) → Reads IsView (parse_snapshot json output)
unfolding parse_snapshot
parse_snapshot-IsView json output = elim (Parsed-cases (json.read_response output)) [
  | inl (t, e) ↦ rw (e, Reads) tt
  | inr (kvs, e) ↦ rw (e, Reads) (parse_members-IsView json kvs [] (tt, tt))
]

-- Two views with the same members.
abbrev pub Same : Processes → Processes → Type 0
Same m n = (j : ℕ) → find j m ≡ find j n

apply_as-Same :
    (t : MembershipEventType) (p : ProcessDescriptor) (m n : Processes)
    → Same m n
    → Same (apply_as t p m) (apply_as t p n)
apply_as-Same removed p m n h j = ground (
  arith,
  h j,
  find-erase (process_key p.process.process_id) j m,
  find-erase (process_key p.process.process_id) j n,
)
apply_as-Same added p m n h j = ground (
  arith,
  h j,
  find-put (process_key p.process.process_id) j p m,
  find-put (process_key p.process.process_id) j p n,
)
apply_as-Same updated p m n h j = ground (
  arith,
  h j,
  find-put (process_key p.process.process_id) j p m,
  find-put (process_key p.process.process_id) j p n,
)

replay-Same :
    (es : List MembershipEvent) (m n : Processes) → Same m n → Same (replay m es) (replay n es)
replay-Same [] m n h = h
replay-Same (e ∷ es) m n h =
    replay-Same es (apply_event m e) (apply_event n e) (apply_as-Same e.type e.process m n h)

-- A call of the discovery that does not change its own registration.
pub data Call : Type 0 where
  refresh drain keep_alive : Call

module _ {B : Type 0} (etcd : Backend B) (json : Json) where
  -- The discovery beside the view of a reader, who applies the events that it drains.
  abbrev pub step : EtcdDiscovery B × Processes → Call → EtcdDiscovery B × Processes
  step (d, v) refresh = ((refresh_snapshot etcd json d).1, v)
  step (d, v) keep_alive = ((keep_alive_once etcd json d).1, v)
  step (d, v) drain = ((drain_events etcd json d).1, replay v (drain_events etcd json d).0)

  abbrev pub run : EtcdDiscovery B × Processes → List Call → EtcdDiscovery B × Processes
  run s [] = s
  run s (c ∷ cs) = run (step s c) cs

  -- The events that wait complete the view of the reader.
  abbrev pub Follows : EtcdDiscovery B × Processes → Type 0
  Follows (d, v) = IsView d.processes × Same (replay v d.events) d.processes

  abbrev Unchanged : EtcdDiscovery B → EtcdDiscovery B → Type 0
  Unchanged d d' = (d'.processes ≡ d.processes) × (d'.events ≡ d.events)

  abbrev Replaced : EtcdDiscovery B → EtcdDiscovery B → Processes → Type 0
  Replaced d d' r =
      IsView r × (d'.processes ≡ r) × (d'.events ≡ d.events ++ queue_diff_events d.processes r [])

  refresh_snapshot_cases :
      (d : EtcdDiscovery B)
      → Unchanged d (refresh_snapshot etcd json d).1
        ⊎ ((r : Processes) × Replaced d (refresh_snapshot etcd json d).1 r)
  unfolding refresh_snapshot queue_diff_events
  refresh_snapshot_cases d =
      let got = etcd.get_prefix d.backend (d.prefix ++ members) in
      elim (Bool-cases got.0.ok) [
        | inr t ↦ inl (rw t (refl, refl))
        | inl t ↦ elim (Parsed-cases (parse_snapshot json got.1)) [
          | inl (message, e) ↦ inl (rw (t, e) (refl, refl))
          | inr (r, e) ↦ inr (
            r,
            (
              subst (Reads IsView) e (parse_snapshot-IsView json got.1),
              rw (t, e) refl,
              rw (t, e) refl,
            ),
          )
        ]
      ]

  keep_alive_once-Unchanged : (d : EtcdDiscovery B) → Unchanged d (keep_alive_once etcd json d).1
  unfolding keep_alive_once
  keep_alive_once-Unchanged d = elim (Bool-cases (nat_eq d.lease_id 0)) [
    | inl t ↦ rw t (refl, refl)
    | inr t ↦ elim (Bool-cases (etcd.backend_keep_alive_once d.backend d.lease_id).0.ok) [
      | inl o ↦ rw (t, o) (refl, refl)
      | inr o ↦ rw (t, o) (refl, refl)
    ]
  ]

  Follows-Unchanged :
      (d d' : EtcdDiscovery B) (v : Processes) → Unchanged d d' → Follows (d, v) → Follows (d', v)
  Follows-Unchanged d d' v u f = rw (u.0, u.1) f

  Follows-Replaced :
      (d d' : EtcdDiscovery B) (r v : Processes)
      → Replaced d d' r
      → Follows (d, v)
      → Follows (d', v)
  Follows-Replaced d d' r v (view, processes, events) f = (
    subst IsView (sym processes) view,
    λ j.
        ap (λ x. find j (replay v x)) events
        ∙ ap (find j) (replay-append v d.events (queue_diff_events d.processes r []))
        ∙ replay-Same (queue_diff_events d.processes r []) (replay v d.events) d.processes f.1 j
        ∙ replay-queue_diff_events j d.processes r f.0 view
        ∙ ap (find j) (sym processes),
  )

  step-Follows : (c : Call) (s : EtcdDiscovery B × Processes) → Follows s → Follows (step s c)
  unfolding drain_events
  step-Follows refresh (d, v) f = elim (refresh_snapshot_cases d) [
    | inl u ↦ Follows-Unchanged d (refresh_snapshot etcd json d).1 v u f
    | inr (r, e) ↦ Follows-Replaced d (refresh_snapshot etcd json d).1 r v e f
  ]
  step-Follows drain (d, v) f = f
  step-Follows keep_alive (d, v) f =
      Follows-Unchanged d (keep_alive_once etcd json d).1 v (keep_alive_once-Unchanged d) f

  run-Follows : (cs : List Call) (s : EtcdDiscovery B × Processes) → Follows s → Follows (run s cs)
  run-Follows [] s f = f
  run-Follows (c ∷ cs) s f = run-Follows cs (step s c) (step-Follows c s f)

  -- From a view that the reader has, and after any refreshes, keep-alives and drains that end with
  -- a drain, the reader has found out by the events alone what the discovery finds, for every
  -- process.
  pub find_process-run :
      (d : EtcdDiscovery B) (cs : List Call) (id : ProcessId)
      → IsView d.processes
      → d.events ≡ []
      → find_process (step (run (d, d.processes) cs) drain).1 id
        ≡ find_process (run (d, d.processes) cs).0.processes id
  unfolding find_process drain_events
  find_process-run d cs id view none_waiting =
      (run-Follows cs (d, d.processes) (view, rw none_waiting λ j. refl)).1 (process_key id)
