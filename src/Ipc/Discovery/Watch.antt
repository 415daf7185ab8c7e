-- ===== src/Ipc/Discovery/Watch.antt =====
-- src/framework/ipc/discovery/etcd_discovery.cpp: `WatchLoop`, the thread that refreshes the view
-- when the backend reports a change, with `StartWatch` and `StopWatch`. One step runs from one
-- point at which the thread can wait to the next. `mWatchRunning` of the discovery is written and
-- never read, so it is left out.
use some_server.Base.{
  ℕ, zero, suc, ◌≡◌, ◌⊎◌, inl, inr, refl, sym, ap, ◌∙◌, subst, true, false, Option, none, some,
  List, [], ◌∷◌, ◌++◌, if◌then◌else◌, Eq_ℕ, Eq_String, Eq_Bytes, Bool-cases, Bytes, inc64,
}
use some_server.Base.{length}
use some_server.Ipc.Types.{Result, success}
use some_server.Ipc.Discovery.Etcd.{
  Backend, Json, EtcdDiscovery, WatchPollKind, event, stream_closed, stopped, error, members,
  refresh_snapshot, parse_snapshot, Parsed-cases,
}

-- Where the thread is: before `StartWatchPrefix`, in `WaitForWatchEvent`, in the pause before a
-- new start, or returned.
pub data Phase : Type 0 where
  starting polling pausing ended : Phase

module _ {B : Type 0} (etcd : Backend B) (json : Json) where
  unfoldable pub stop_backend : EtcdDiscovery B → EtcdDiscovery B
  stop_backend d = record d { backend = etcd.backend_stop_watch d.backend }

  -- The head of the outer loop.
  unfoldable pub start_step : EtcdDiscovery B → EtcdDiscovery B × Phase
  unfolding stop_backend
  start_step d =
      let (started, backend) = etcd.start_watch_prefix d.backend (d.prefix ++ members) in
      let d1 = record d { backend = backend } in
      let count = inc64 d.stats.watch_start_failure_count in
      if d.stop_watch_requested
      then (stop_backend d, ended)
      else if started.ok
      then (d1, polling)
      else (record d1 { stats = record d.stats { watch_start_failure_count = count } }, starting)

  -- The stream was closed, or failed.
  unfoldable pub stream_ended : EtcdDiscovery B → EtcdDiscovery B × Phase
  unfolding stop_backend
  stream_ended d =
      let closed = inc64 d.stats.watch_stream_closed_count in
      let restarts = inc64 d.stats.watch_restart_count in
      let stats = record d.stats {
        watch_stream_closed_count = closed;
        watch_restart_count = restarts;
      } in
      if d.stop_watch_requested
      then (stop_backend d, ended)
      else (stop_backend (refresh_snapshot etcd json (record d { stats = stats })).1, pausing)

  -- One round of the inner loop.
  unfoldable pub poll_step : EtcdDiscovery B → EtcdDiscovery B × Phase
  unfolding refresh_snapshot stream_ended
  poll_step d =
      let (kind, backend) = etcd.wait_for_watch_event d.backend in
      let d1 = record d { backend = backend } in
      elim kind [
        | event ↦ ((refresh_snapshot etcd json d1).1, polling)
        | stopped ↦ (d1, ended)
        | stream_closed ↦ stream_ended d1
        | error ↦ stream_ended d1
      ]

  unfoldable pub watch_step : EtcdDiscovery B × Phase → EtcdDiscovery B × Phase
  unfolding start_step poll_step stop_backend
  watch_step (d, starting) = start_step d
  watch_step (d, polling) = poll_step d
  watch_step (d, pausing) =
      if d.stop_watch_requested then (stop_backend d, ended) else (d, starting)
  watch_step (d, ended) = (d, ended)

  unfoldable pub watch_steps : ℕ → EtcdDiscovery B × Phase → EtcdDiscovery B × Phase
  unfolding watch_step
  watch_steps zero s = s
  watch_steps (suc n) s = watch_steps n (watch_step s)

  -- The thread of a discovery, where there is one.
  abbrev pub Watched : Type 0
  Watched = EtcdDiscovery B × Option Phase

  unfoldable pub start_watch : Watched → Result × Watched
  unfolding refresh_snapshot
  start_watch (d, some phase) = (success, (d, some phase))
  start_watch (d, none) =
      let (first, d1) = refresh_snapshot etcd json (record d { stop_watch_requested = false }) in
      let (second, d2) = refresh_snapshot etcd json d1 in
      if first.ok then (second, (d2, some starting)) else (first, (d1, none))

  -- `StopWatch` up to the wait for the thread.
  unfoldable pub request_stop : EtcdDiscovery B → EtcdDiscovery B
  unfolding stop_backend
  request_stop d = stop_backend (record d { stop_watch_requested = true })

-- The queue of poll results behind the backend, as etcd_sdk_discovery_backend.cpp has it: a wait
-- takes the first, or reports a stop where nothing runs; other calls leave it alone.
pub record WatchLaws {B : Type 0} (etcd : Backend B) : Type 0 where
  pub queue : B → List WatchPollKind
  pub stopped_by_stop : (b : B) → etcd.backend_watch_running (etcd.backend_stop_watch b) ≡ false
  pub wait_empty :
      (b : B)
      → queue b ≡ []
      → etcd.backend_watch_running b ≡ false
      → (etcd.wait_for_watch_event b).0 ≡ stopped
  pub wait_queued :
      (b : B) (k : WatchPollKind) (q : List WatchPollKind)
      → queue b ≡ k ∷ q
      → ((etcd.wait_for_watch_event b).0 ≡ k)
        × (queue (etcd.wait_for_watch_event b).1 ≡ q)
        × (etcd.backend_watch_running (etcd.wait_for_watch_event b).1
            ≡ etcd.backend_watch_running b)
  pub queue-get_prefix : (b : B) (p : Bytes) → queue (etcd.get_prefix b p).2 ≡ queue b
  pub running-get_prefix :
      (b : B) (p : Bytes)
      → etcd.backend_watch_running (etcd.get_prefix b p).2 ≡ etcd.backend_watch_running b

module _ {B : Type 0} (etcd : Backend B) (json : Json) (laws : WatchLaws etcd) where
  ended_stays : (n : ℕ) (d : EtcdDiscovery B) → (watch_steps etcd json n (d, ended)).1 ≡ ended
  unfolding watch_steps
  ended_stays zero d = refl
  ended_stays (suc n) d = ended_stays n d

  refresh_keeps :
      (d : EtcdDiscovery B)
      → ((refresh_snapshot etcd json d).1.stop_watch_requested ≡ d.stop_watch_requested)
        × ((refresh_snapshot etcd json d).1.backend
            ≡ (etcd.get_prefix d.backend (d.prefix ++ members)).2)
  unfolding refresh_snapshot
  refresh_keeps d =
      let got = etcd.get_prefix d.backend (d.prefix ++ members) in
      elim (Bool-cases got.0.ok) [
        | inr t ↦ rw t (refl, refl)
        | inl t ↦ elim (Parsed-cases (parse_snapshot json got.1)) [
          | inl (message, e) ↦ rw (t, e) (refl, refl)
          | inr (r, e) ↦ rw (t, e) (refl, refl)
        ]
      ]

  ended_keeps :
      (n : ℕ) (s : EtcdDiscovery B × Phase) → s.1 ≡ ended → (watch_steps etcd json n s).1 ≡ ended
  ended_keeps n s h =
      subst (λ p. (watch_steps etcd json n (s.0, p)).1 ≡ ended) (sym h) (ended_stays n s.0)

  poll_stopped :
      (d : EtcdDiscovery B)
      → (etcd.wait_for_watch_event d.backend).0 ≡ stopped
      → (poll_step etcd json d).1 ≡ ended
  unfolding poll_step
  poll_stopped d e = rw (poll_step, e) refl

  poll_failed :
      (d : EtcdDiscovery B)
      → ((etcd.wait_for_watch_event d.backend).0 ≡ stream_closed)
        ⊎ ((etcd.wait_for_watch_event d.backend).0 ≡ error)
      → d.stop_watch_requested ≡ true
      → (poll_step etcd json d).1 ≡ ended
  unfolding poll_step stream_ended
  poll_failed d (inl e) stop = rw (poll_step, e, stop) refl
  poll_failed d (inr e) stop = rw (poll_step, e, stop) refl

  poll_event :
      (d : EtcdDiscovery B)
      → (etcd.wait_for_watch_event d.backend).0 ≡ event
      → poll_step etcd json d ≡ (
        (refresh_snapshot etcd json
            (record d { backend = (etcd.wait_for_watch_event d.backend).1 })).1,
        polling,
      )
  unfolding poll_step
  poll_event d e = rw (poll_step, e) refl

  polling_ends :
      (q : List WatchPollKind) (d : EtcdDiscovery B)
      → laws.queue d.backend ≡ q
      → etcd.backend_watch_running d.backend ≡ false
      → d.stop_watch_requested ≡ true
      → (watch_steps etcd json (suc (length q)) (d, polling)).1 ≡ ended
  unfolding watch_steps
  polling_ends [] d h idle stop = poll_stopped d (laws.wait_empty d.backend h idle)
  polling_ends (event ∷ q) d h idle stop =
      let waited = laws.wait_queued d.backend event q h in
      let d1 = record d { backend = (etcd.wait_for_watch_event d.backend).1 } in
      let kept = refresh_keeps d1 in
      ap (λ s. (watch_steps etcd json (suc (length q)) s).1) (poll_event d waited.0)
      ∙ polling_ends q (refresh_snapshot etcd json d1).1
          (ap laws.queue kept.1
            ∙ laws.queue-get_prefix d1.backend (d1.prefix ++ members)
            ∙ waited.1)
          (ap etcd.backend_watch_running kept.1
            ∙ laws.running-get_prefix d1.backend (d1.prefix ++ members)
            ∙ waited.2
            ∙ idle)
          (kept.0 ∙ stop)
  polling_ends (stopped ∷ q) d h idle stop =
      ended_keeps (suc (length q)) (poll_step etcd json d)
        (poll_stopped d (laws.wait_queued d.backend stopped q h).0)
  polling_ends (stream_closed ∷ q) d h idle stop =
      ended_keeps (suc (length q)) (poll_step etcd json d)
        (poll_failed d (inl (laws.wait_queued d.backend stream_closed q h).0) stop)
  polling_ends (error ∷ q) d h idle stop =
      ended_keeps (suc (length q)) (poll_step etcd json d)
        (poll_failed d (inr (laws.wait_queued d.backend error q h).0) stop)

  -- After `StopWatch` has asked for it, the thread returns, wherever it is: one round more than
  -- there are poll results in the queue is enough.
  pub watch_steps-request_stop :
      (d : EtcdDiscovery B) (phase : Phase)
      → (watch_steps etcd json
          (suc (length (laws.queue (request_stop etcd json d).backend)))
          (request_stop etcd json d, phase)).1
        ≡ ended
  unfolding request_stop watch_steps watch_step start_step stop_backend
  watch_steps-request_stop d starting =
      ended_stays (length (laws.queue (request_stop etcd json d).backend))
        (stop_backend etcd json (request_stop etcd json d))
  watch_steps-request_stop d pausing =
      ended_stays (length (laws.queue (request_stop etcd json d).backend))
        (stop_backend etcd json (request_stop etcd json d))
  watch_steps-request_stop d ended =
      ended_stays (length (laws.queue (request_stop etcd json d).backend))
        (request_stop etcd json d)
  watch_steps-request_stop d polling =
      polling_ends (laws.queue (etcd.backend_stop_watch d.backend)) (request_stop etcd json d) refl
        (laws.stopped_by_stop d.backend) refl
