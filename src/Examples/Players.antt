-- ===== src/Examples/Players.antt =====
-- The theorems on leases, player data and sessions at concrete inputs.
use some_server.Base.{
  ℕ, ◌≡◌, refl, Bool, true, false, none, some, List, [], ◌∷◌, Bytes, arith, inr, ◌⊎◌, Eq_ℕ,
  Eq_Bytes,
}
use some_server.Base.Decimal.{to_string}
use some_server.Base.Table.{Table, find, put}
use some_server.Ipc.Types.{ProcessRef, success, failure}
use some_server.Game.Redis.{command}
use some_server.Game.Lease
use some_server.Game.Lease.{
  LeaseService, PlayerLeaseOwner, PlayerLeaseSnapshot, build_key, build_value, ttl_ms, own_lease,
  generate_token, acquire, renew_round, is_held_locally,
}
use some_server.Game.Lease.Acquire.{acquired, acquire_lem}
use some_server.Game.Lease.Exclusion.{no_double_ownership}
use some_server.Game.Repository.{
  PlayerRepositoryRecord, no_record, no_data, load_player, flush_player, release_player,
}
use some_server.Game.Repository.Durability.{data_of, load_player-flush_player}
use some_server.Game.IpcClient.{unbind_local_player, player_receiver_address}
use some_server.Ipc.Directory.{make_key, resolve, invalidate}
use some_server.Game.Session.{
  Game, GateRef, PlayerSessionRecord, online, unloading, no_session, Times, activate_player,
}
use some_server.Game.Session.Steps.{Same}
use some_server.Game.Session.Ending.{release_session}
use some_server.Game.Session.Activation.{is_ready, Outcome, activate_player-Outcome}
use some_server.Game.Session.Others.{activate_player-Same}
use some_server.Game.Session.Calls.{Call, activates, detaches, reconciles, run}
use some_server.Game.Session.Ready.{run-ready}
use some_server.Game.Session.Saving.{release_session_saves, release_session_keeps}
use some_server.Game.Session.Stuck.{is_stuck, stuck_forever}
use some_server.Examples.Instances.{
  data_codec, memory_storage, memory_storage-StorageLaws, memory_redis, memory_redis-RedisLaws,
}

abbrev pub lease_service : ℕ → LeaseService
lease_service instance_id = record {
  game_service_type = 1;
  game_instance_id = instance_id;
  lease_ttl_seconds = 30;
  redis_key_prefix = b'k' ∷ [];
  connected = true;
  leases = [];
  snapshot = record {
    running = true;
    tracked_player_count = 0;
    renew_success_count = 0;
    renew_failure_count = 0;
    local_loss_count = 0;
    release_success_count = 0;
    release_failure_count = 0;
    last_renew_ms = 0;
    last_error = "";
  };
}

abbrev pub Server : Type 0
Server = Table Bytes Bytes

abbrev pub game_ref : ProcessRef
game_ref = record { process_id = record { service_type = 1; instance_id = 1 }; incarnation_id = 1 }

-- A game process that has just started.
abbrev pub new_game : Game Server Server
new_game = record {
  repository = [];
  lease = lease_service 1;
  runtime = [];
  ipc = record {
    self = some game_ref;
    receivers = [];
    receiver_directory = [];
    has_messenger = true;
    is_ipc_active = true;
    send_to_process = λ m. success;
    send_reject_count = 0;
    last_send_reject_reason = "";
    last_error = "";
    sent = [];
  };
  players = [];
  detached_ttl_seconds = 60;
  storage_state = [];
  redis_state = [];
}

abbrev gate_three : GateRef
gate_three = record { service_type = 3; instance_id = 1; session_id = 77 }

abbrev times : Times
times = record {
  token = 100;
  load = record { created = 101; dirtied = 102; loaded = 103 };
  changed = 104;
}

abbrev calls : List Call
calls = activates times 7 gate_three false ∷ detaches 200 7 ∷ reconciles 300 ∷ []

-- A loaded player, with data that is dirty or not.
abbrev pub player_record : Bool → PlayerRepositoryRecord
player_record dirty = record no_record {
  loaded = true;
  dirty = dirty;
  player_data = record no_data { player_id = 7; level = 5 };
}

abbrev pub player_session : PlayerSessionRecord
player_session = record no_session { state = online; gate = gate_three }

-- Player 7 is online here, bound or not.
abbrev pub playing : Bool → Game Server Server
playing dirty = record new_game {
  repository = (7, player_record dirty) ∷ [];
  players = (7, player_session) ∷ [];
}

-- Player 7 is online here with dirty data, and can leave.
abbrev leaving : Game Server Server
leaving = record (playing true) {
  ipc = record {
    self = some game_ref;
    receivers = (7, tt) ∷ [];
    receiver_directory =
        (make_key (player_receiver_address 7), record { owner = game_ref; version = 1 }) ∷ [];
    has_messenger = true;
    is_ipc_active = true;
    send_to_process = λ m. success;
    send_reject_count = 0;
    last_send_reject_reason = "";
    last_error = "";
    sent = [];
  };
}

-- Player 7 cannot leave.
abbrev stuck_game : Game Server Server
stuck_game = record new_game { players = (7, record player_session { state = unloading }) ∷ [] }

run-ready_example : is_ready 7 (run data_codec memory_storage memory_redis new_game calls) ≡ true
run-ready_example = run-ready data_codec memory_storage memory_redis 7 new_game calls refl

activate_player-Outcome_example :
    Outcome 7 gate_three new_game
      (activate_player data_codec memory_storage memory_redis times 7 gate_three false new_game)
unfolding find
activate_player-Outcome_example =
    activate_player-Outcome data_codec memory_storage memory_redis times 7 gate_three false new_game
      refl

activate_player-Same_example :
    Same 8 new_game
      (activate_player data_codec memory_storage memory_redis times 7 gate_three false new_game).1
activate_player-Same_example =
    activate_player-Same data_codec memory_storage memory_redis 8 7 (omega arith) times gate_three
      false new_game

stuck_forever_example :
    let h = run data_codec memory_storage memory_redis stuck_game calls in
    (is_stuck 7 h ≡ true)
    × (activate_player data_codec memory_storage memory_redis times 7 gate_three false h
        ≡ (failure "player is transitioning and cannot be activated", h))
    × ((release_session data_codec memory_storage memory_redis 400 401 7 h).0.ok ≡ false)
unfolding find
stuck_forever_example =
    stuck_forever data_codec memory_storage memory_redis 7 stuck_game calls times gate_three false
      400 401 refl

release_session_saves_example :
    let h = (release_session data_codec memory_storage memory_redis 400 401 7 leaving).1 in
    let (r, n, _) = load_player data_codec memory_storage [] (times.load) 7 false h.storage_state in
    (r ≡ success) × (data_of (find 7 n) ≡ some (player_record true).player_data)
unfolding find put release_session data_codec memory_storage to_string make_key flush_player
    unbind_local_player resolve invalidate release_player
release_session_saves_example =
    release_session_saves data_codec memory_storage memory_redis memory_storage-StorageLaws 400 401
      7 leaving (player_record true) [] (times.load) false refl refl refl refl

-- A player with extensions, which the codec refuses.
abbrev refused_record : PlayerRepositoryRecord
refused_record = record (player_record true) {
  player_data = record no_data { extensions = 1 ∷ [] };
}

abbrev refused_game : Game Server Server
refused_game = record (playing true) { repository = (7, refused_record) ∷ [] }

release_session_keeps_example :
    let (r, h) = release_session data_codec memory_storage memory_redis 400 401 7 refused_game in
    (r.ok ≡ false)
    × (find 7 h.players ≡ some player_session)
    × (h.repository ≡ refused_game.repository)
    × (h.lease ≡ refused_game.lease)
    × (h.ipc ≡ refused_game.ipc)
    × (h.runtime ≡ refused_game.runtime)
unfolding find flush_player data_codec
release_session_keeps_example =
    release_session_keeps data_codec memory_storage memory_redis 400 401 7 refused_game
      refused_record player_session refl refl refl refl

load_player-flush_player_example :
    let e = (flush_player data_codec memory_storage ((7, player_record true) ∷ []) 400 7 []).2 in
    let (r, n, _) = load_player data_codec memory_storage [] (times.load) 7 false e in
    (r ≡ success) × (data_of (find 7 n) ≡ some (player_record true).player_data)
unfolding find flush_player data_codec memory_storage
load_player-flush_player_example =
    load_player-flush_player data_codec memory_storage memory_storage-StorageLaws
      ((7, player_record true) ∷ []) [] 400 7 (times.load) false [] (player_record true) refl refl
      refl

abbrev two_leases : ℕ → LeaseService
two_leases instance_id = record (lease_service instance_id) {
  leases = (7, own_lease (lease_service instance_id) 100 7) ∷ [];
}

-- Redis has the lease of the first process.
abbrev first_holds : Server
first_holds = (build_key (two_leases 1) 7, build_value (own_lease (lease_service 1) 100 7)) ∷ []

acquire_lem_example :
    let s = lease_service 1 in
    let (result, t, r') = acquire memory_redis s 100 7 [] in
    ((result ≡ success) × (t ≡ s) × (r' ≡ []) × (is_held_locally s 7 ≡ true))
    ⊎ ((result ≡ success)
        × (t ≡ acquired memory_redis s 100 7)
        × (is_held_locally t 7 ≡ true)
        × (is_held_locally s 7 ≡ false)
        × (memory_redis.get [] (build_key s 7) ≡ none)
        × (memory_redis.get r' (build_key s 7) ≡ some (build_value (own_lease s 100 7))))
    ⊎ ((result.ok ≡ false)
        × (t ≡ s)
        × ((memory_redis.get r' (build_key s 7) ≡ memory_redis.get [] (build_key s 7))
            ⊎ ((memory_redis.get [] (build_key s 7) ≡ none)
                × (memory_redis.get r' (build_key s 7) ≡ some (build_value (own_lease s 100 7))))))
acquire_lem_example =
    acquire_lem memory_redis memory_redis-RedisLaws (lease_service 1) 100 7 [] (omega arith)

no_double_ownership_example :
    is_held_locally (renew_round memory_redis (two_leases 2) 600 first_holds).0 7 ≡ false
unfolding memory_redis renew_round command find is_held_locally build_key build_value generate_token
    to_string Lease.refresh_lease Lease.refresh_script
no_double_ownership_example =
    no_double_ownership memory_redis memory_redis-RedisLaws (two_leases 1) (two_leases 2) 500 600 7
      first_holds first_holds (omega arith) (omega arith) ((refl, refl), tt) ((refl, refl), tt) refl
      (inr (λ e. absurd (omega (arith, e)))) (λ j. inr refl) refl

abbrev plain_owner : PlayerLeaseOwner
plain_owner = record { game_service_type = 1; game_instance_id = 2; token = b't' ∷ [] }
