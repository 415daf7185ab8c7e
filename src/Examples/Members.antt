-- ===== src/Examples/Members.antt =====
-- The theorems on discovery at concrete inputs, with an etcd and a JSON library that can be run.
use some_server.Base.{
  ℕ, suc, ◌+◌, ◌^◌, ◌≡◌, refl, Bool, true, false, ◌&&◌, none, some, List, [], ◌∷◌, ◌++◌, arith,
  nat_eq, ltb, if◌then◌else◌, Eq_ℕ, Eq_String, Eq_Bytes, Bytes,
}
use some_server.Base.Table.{find, put}
use some_server.Ipc.Types.{ProcessId, ProcessDescriptor, success, failure}
use some_server.Ipc.Discovery.{Processes, process_key, find_process, added, removed}
use some_server.Ipc.Discovery.Diff.{queue_diff_events}
use some_server.Ipc.Discovery.Base64.{base64_decode}
use some_server.Ipc.Discovery.Encoding.{encode, base64_decode-encode}
use some_server.Ipc.Discovery.Etcd.{
  Backend, Json, JsonKv, parsed, malformed, EtcdDiscovery, SerializableProcessDescriptor,
  WatchPollKind, event, stream_closed, stopped, register_self, refresh_snapshot,
}
use some_server.Ipc.Discovery.Replay.{replay, replay-queue_diff_events}
use some_server.Ipc.Discovery.Members.{refresh, drain, keep_alive, run, step, find_process-run}
use some_server.Ipc.Discovery.Registration.{Registers, BackendLaws, register_self_lem}
use some_server.Ipc.Discovery.Watch.{
  WatchLaws, polling, ended, watch_steps, request_stop, watch_steps-request_stop,
}

-- An etcd that has one byte for each member, the members that it serves, and its watch.
record SmallEtcd : Type 0 where
  served : Bytes
  queue : List WatchPollKind
  running : Bool
  next_lease : ℕ

abbrev wait : SmallEtcd → WatchPollKind × SmallEtcd
wait b = elim b.queue [ [] ↦ (stopped, b) | k ∷ q ↦ (k, record b { queue = q }) ]

abbrev small_etcd : Backend SmallEtcd
small_etcd = record {
  grant_lease =
      λ b ttl old. (success, suc b.next_lease, record b { next_lease = suc b.next_lease });
  backend_put = λ b key value lease.
      if nat_eq lease 1
      then (failure "lease not found", b)
      else (success, record b { served = value ++ b.served });
  backend_keep_alive_once = λ b lease. (success, b);
  backend_delete = λ b key. (success, record b { served = [] });
  get_prefix = λ b prefix. (success, b.served, b);
  start_watch_prefix = λ b prefix. (success, record b { running = true });
  wait_for_watch_event = wait;
  backend_stop_watch = λ b. record b { running = false; queue = b.queue ++ stopped ∷ [] };
  backend_watch_running = λ b. b.running;
}

abbrev kvs_of : Bytes → List JsonKv
kvs_of [] = []
kvs_of (i ∷ s) = record { key = []; value = encode (i ∷ []) } ∷ kvs_of s

abbrev descriptor : ℕ → SerializableProcessDescriptor
descriptor i = record {
  service_type = 1;
  instance_id = i;
  incarnation_id = 7;
  service_name = "game";
  host = "localhost";
  port = 4000 + i;
  protocol_version = 1;
  start_time_unix_ms = 5;
  relay_capabilities = [];
  labels = [];
}

abbrev small_json : Json
small_json = record {
  write_json = λ s. some (s.instance_id ∷ []);
  read_descriptor =
      λ text. elim text [ [] ↦ malformed "no member" | i ∷ _ ↦ parsed (descriptor i) ];
  read_response = λ output. parsed (kvs_of output);
}

abbrev game : ℕ → ProcessDescriptor
game i = record {
  process = record {
    process_id = record { service_type = 1; instance_id = i };
    incarnation_id = 7;
  };
  service_name = "game";
  listen_endpoint = record { host = "localhost"; port = 4000 + i };
  protocol_version = 1;
  start_time_unix_ms = 5;
  labels = [];
  relay_capabilities = [];
}

abbrev viewed : List ℕ → Processes
viewed [] = []
viewed (i ∷ s) = (2 ^ 32 + i, game i) ∷ viewed s

abbrev discovery : EtcdDiscovery SmallEtcd
discovery = record {
  prefix = b'/' ∷ b'p' ∷ [];
  lease_ttl_seconds = 5;
  backend = record {
    served = 2 ∷ 3 ∷ [];
    queue = event ∷ stream_closed ∷ [];
    running = true;
    next_lease = 0;
  };
  processes = viewed (1 ∷ 2 ∷ []);
  events = [];
  self = none;
  lease_id = 0;
  stop_watch_requested = false;
  stats = record {
    watch_restart_count = 0;
    watch_start_failure_count = 0;
    watch_stream_closed_count = 0;
    snapshot_refresh_failure_count = 0;
  };
}

abbrev game_three : ProcessId
game_three = record { service_type = 1; instance_id = 3 }

-- The refresh brings an addition and a removal.
diff_example :
    queue_diff_events (viewed (1 ∷ 2 ∷ [])) (viewed (2 ∷ 3 ∷ [])) []
    ≡ record { type = added; process = game 3 } ∷ record { type = removed; process = game 1 } ∷ []
unfolding queue_diff_events find
diff_example = refl

refreshed_example :
    (refresh_snapshot small_etcd small_json discovery).1.processes ≡ viewed (2 ∷ 3 ∷ [])
unfolding refresh_snapshot base64_decode put process_key
refreshed_example = refl

-- The first lease is refused, and the second is taken.
registered_example : (register_self small_etcd small_json discovery (game 9)).1.lease_id ≡ 2
unfolding register_self
registered_example = refl

replay-queue_diff_events_example :
    find (2 ^ 32 + 3) (
      replay
        (viewed (1 ∷ 2 ∷ []))
        (queue_diff_events (viewed (1 ∷ 2 ∷ [])) (viewed (2 ∷ 3 ∷ [])) []))
    ≡ find (2 ^ 32 + 3) (viewed (2 ∷ 3 ∷ []))
unfolding find process_key
replay-queue_diff_events_example =
    replay-queue_diff_events (2 ^ 32 + 3) (viewed (1 ∷ 2 ∷ [])) (viewed (2 ∷ 3 ∷ []))
      ((refl, (refl, tt)), (refl, (refl, tt))) ((refl, (refl, tt)), (refl, (refl, tt)))

find_process-run_example :
    find_process
      (step small_etcd small_json
        (run small_etcd small_json (discovery, discovery.processes) (keep_alive ∷ refresh ∷ []))
        drain).1
      game_three
    ≡ find_process
        (run small_etcd small_json
          (discovery, discovery.processes)
          (keep_alive ∷ refresh ∷ [])).0.processes
        game_three
unfolding find process_key
find_process-run_example =
    find_process-run small_etcd small_json discovery (keep_alive ∷ refresh ∷ []) game_three
      ((refl, (refl, tt)), (refl, (refl, tt))) refl

small_etcd_laws : BackendLaws small_etcd
small_etcd_laws = record { grant_lease-ne-zero = λ b ttl old ok. ground arith }

register_self_lem_example :
    Registers small_etcd small_json discovery
      (game 9)
      (register_self small_etcd small_json discovery (game 9))
    × ((register_self small_etcd small_json discovery (game 9)).0.ok
          && ltb 0 5
          && nat_eq (register_self small_etcd small_json discovery (game 9)).1.lease_id 0
        ≡ false)
register_self_lem_example =
    register_self_lem small_etcd small_json small_etcd_laws discovery (game 9)

base64_decode-encode_example :
    base64_decode (encode (0 ∷ 255 ∷ 16 ∷ 7 ∷ [])) ≡ 0 ∷ 255 ∷ 16 ∷ 7 ∷ []
base64_decode-encode_example =
    base64_decode-encode (0 ∷ 255 ∷ 16 ∷ 7 ∷ [])
      (omega arith, (omega arith, (omega arith, (omega arith, tt))))

abbrev small_etcd_watch : WatchLaws small_etcd
small_etcd_watch = record {
  queue = λ b. b.queue;
  stopped_by_stop = λ b. refl;
  wait_empty = λ b h idle. rw h refl;
  wait_queued = λ b k q h. rw h (refl, refl, refl);
  queue-get_prefix = λ b p. refl;
  running-get_prefix = λ b p. refl;
}

watch_steps-request_stop_example :
    (watch_steps small_etcd small_json 4 (request_stop small_etcd small_json discovery, polling)).1
    ≡ ended
unfolding request_stop
watch_steps-request_stop_example =
    watch_steps-request_stop small_etcd small_json small_etcd_watch discovery polling
