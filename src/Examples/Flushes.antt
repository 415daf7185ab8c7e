-- ===== src/Examples/Flushes.antt =====
-- The theorems on the persistence in the background at concrete inputs.
use some_server.Base.{
  ◌*◌, ◌≤◌, ◌≡◌, ◌⊎◌, refl, true, some, [], ◌∷◌, arith, Eq_ℕ, Eq_String, Eq_Bytes, map,
}
use some_server.Base.Table.{find}
use some_server.Game.Repository.{flush_player}
use some_server.Game.Session.{Game}
use some_server.Game.Lease.{PlayerLeaseOwner}
use some_server.Game.Persistence.{
  DatasetTimingConfiguration, Persistence, compute_retry_delay_ms, flush_due_players_once,
}
use some_server.Game.Persistence.Delay.{compute_retry_delay_ms_bounds}
use some_server.Game.Persistence.Rounds.{Scans, flush_due_players_once_lem}
use some_server.Examples.Instances.{data_codec, memory_storage}
use some_server.Examples.Players.{Server, lease_service, player_record, playing}

abbrev timing : DatasetTimingConfiguration
timing = record {
  alive_time_seconds = 600;
  landing_time_seconds = 60;
  landing_min_time_seconds = 10;
}

abbrev persistence : Persistence
persistence = record {
  timing = some timing;
  stats = record {
    running = true;
    scan_count = 0;
    tracked_player_count = 0;
    pending_initial_persist_count = 0;
    created_without_maria_count = 0;
    flush_attempt_count = 0;
    flush_success_count = 0;
    flush_failure_count = 0;
    last_scan_ms = 0;
    last_flush_player_id = 0;
    last_flush_ms = 0;
    last_error = "";
  };
  retry_states = [];
}

abbrev owner : PlayerLeaseOwner
owner = record { game_service_type = 1; game_instance_id = 1; token = 1 ∷ [] }

-- Player 7 is dirty and held, player 8 is dirty and not held.
abbrev two_players : Game Server Server
two_players = record (playing true) {
  repository = (7, player_record true) ∷ (8, player_record true) ∷ [];
  lease = record (lease_service 1) { leases = (7, owner) ∷ [] };
}

-- One of the two is flushed.
flushed_count :
    (flush_due_players_once data_codec memory_storage persistence two_players 5000 (λ i. 5001)).0
    ≡ 1
unfolding flush_due_players_once find flush_player data_codec memory_storage
flushed_count = refl

delays :
    map (compute_retry_delay_ms (some timing)) (1 ∷ 2 ∷ 3 ∷ 4 ∷ 9 ∷ [])
    ≡ 10000 ∷ 20000 ∷ 40000 ∷ 60000 ∷ 60000 ∷ []
unfolding compute_retry_delay_ms
delays = refl

compute_retry_delay_ms_bounds_example :
    (compute_retry_delay_ms (some timing) 2 ≤ timing.landing_time_seconds * 1000)
    × (compute_retry_delay_ms (some timing) 2 ≤ 8 * (timing.landing_min_time_seconds * 1000))
    × ((timing.landing_min_time_seconds * 1000 ≤ compute_retry_delay_ms (some timing) 2)
        ⊎ (compute_retry_delay_ms (some timing) 2 ≡ timing.landing_time_seconds * 1000))
    × (compute_retry_delay_ms (some timing) 2 ≤ compute_retry_delay_ms (some timing) 3)
compute_retry_delay_ms_bounds_example =
    compute_retry_delay_ms_bounds timing 2 (omega arith, omega arith)

flush_due_players_once_lem_example :
    let r =
      flush_due_players_once data_codec memory_storage persistence two_players 5000 (λ i. 5001) in
    Scans data_codec memory_storage
      (persistence, two_players)
      (r.1, r.2)
      7
      (player_record true)
      5000
      5001
unfolding find
flush_due_players_once_lem_example =
    flush_due_players_once_lem data_codec memory_storage persistence two_players 5000 (λ i. 5001) 7
      (player_record true) (refl, (refl, tt)) refl
