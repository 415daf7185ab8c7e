-- ===== src/Examples/Stores.antt =====
-- The theorems on the storage service and its configuration at concrete inputs.
use some_server.Base.{
  ◌≡◌, ◌⊎◌, refl, Bool, true, false, none, some, [], ◌∷◌, if◌then◌else◌, Eq_ℕ, Eq_String, Eq_Bytes,
  Bytes,
}
use some_server.Base.Table.{Table, find, put, erase, contains, find-put, find-erase, find-put_same}
use some_server.Game.Redis.{Redis, RedisLaws, runs, refuses}
use some_server.Game.Redis.{command}
use some_server.Examples.Instances.{memory_redis, memory_redis-RedisLaws}
use some_server.Game.Repository.Durability.{StorageLaws}
use some_server.Storage.Configuration.{
  RedisConfiguration, MariaConfiguration, CommonConfiguration, DatasetConfiguration,
  StorageConfiguration, ResolvedDatasetConfiguration, resolve_storage_configuration,
  is_safe_table_prefix,
}
use some_server.Storage.Configuration.Checking.{IsUsable}
use some_server.Storage.Configuration.Resolution.{Fails, resolve_storage_configuration_lem}
use some_server.Storage.Service.{
  Servers, StorageService, ConnectionProbeStatus, no_result, get_redis_for_dataset,
  get_maria_for_dataset, get_redis, get_maria, build_redis_key, ensure_maria_entries_table,
  build_maria_entries_table_name, redis_set, entry_suffix,
}
use some_server.Storage.Service.Datasets.{dataset_put, dataset_get}
use some_server.Storage.Service.Datasets.Reading.{
  ServersLaws, Answers, storage_of, storage_of-StorageLaws, dataset_get_stale,
}

abbrev main : Bytes
main = b'm' ∷ []

abbrev redis_profile : RedisConfiguration
redis_profile = record { endpoints = []; password = []; database = 0; key_prefix = b'k' ∷ [] }

abbrev maria_profile : MariaConfiguration
maria_profile = record {
  host = [];
  port = 3306;
  database = [];
  username = [];
  password = [];
  pool_size = 16;
}

abbrev common : CommonConfiguration
common = record { redis = (main, redis_profile) ∷ []; maria = (main, maria_profile) ∷ [] }

abbrev players_dataset : DatasetConfiguration
players_dataset = record {
  redis = main;
  maria = main;
  redis_prefix = b'p' ∷ [];
  table_prefix = b'p' ∷ b'_' ∷ [];
  timing = record {
    alive_time_seconds = 0;
    landing_time_seconds = 9;
    landing_min_time_seconds = 0;
  };
}

abbrev one_dataset : StorageConfiguration
one_dataset = record {
  defaults = record {
    alive_time_seconds = 86400;
    landing_time_seconds = 1800;
    landing_min_time_seconds = 60;
  };
  datasets = (b'p' ∷ [], players_dataset) ∷ [];
}

resolve_storage_configuration_lem_example :
    let (error, m) = resolve_storage_configuration common one_dataset in
    Fails common one_dataset.defaults one_dataset.datasets (error, m)
    ⊎ ((error ≡ none)
        × (((find (b'p' ∷ []) one_dataset.datasets ≡ none) × (find (b'p' ∷ []) m ≡ none))
            ⊎ ((d : DatasetConfiguration) × (r : ResolvedDatasetConfiguration) × (find
                    (b'p' ∷ [])
                    one_dataset.datasets
                  ≡ some d)
                × (find (b'p' ∷ []) m ≡ some r)
                × IsUsable common one_dataset.defaults (b'p' ∷ []) d r)))
unfolding find
resolve_storage_configuration_lem_example =
    resolve_storage_configuration_lem common one_dataset (b'p' ∷ [])

-- A Redis server that refuses the next command when it is told to.
abbrev Moody : Type 0
Moody = Bool × Table Bytes Bytes

unfoldable moody_redis : Redis Moody
moody_redis = record {
  outcome = λ r. ((if r.0 then refuses "OOM" else runs), (false, r.1));
  get = λ r k. find k r.1;
  set_px = λ r k v ttl. (r.0, put k v r.1);
  set = λ r k v. (r.0, put k v r.1);
  pexpire = λ r k ttl. ((if contains k r.1 then 1 else 0), r);
  del = λ r k. ((if contains k r.1 then 1 else 0), (r.0, erase k r.1));
}

moody_redis-RedisLaws : RedisLaws moody_redis
unfolding moody_redis
moody_redis-RedisLaws = record {
  get-outcome = λ r j. refl;
  get-set_px = λ r k v ttl h. find-put_same k v r.1;
  get-set = λ r k v j. find-put k j v r.1;
  get-del = λ r k j. find-erase k j r.1;
  get-pexpire = λ r k j ttl h. refl;
}

-- One server for all profiles; MariaDB takes every statement.
abbrev servers_with : {W : Type 0} → Redis W → Servers W
servers_with redis = record {
  redis = λ t. redis;
  query = λ t q w. (no_result "", w);
  connect_redis = λ t c w. (true, [], "", w);
  ping_redis = λ t w. (none, w);
  close_redis = λ t w. w;
  connect_maria = λ t c w. (true, [], "", w);
  ping_maria = λ t w. (none, w);
  close_maria = λ t w. w;
}

memory_servers-ServersLaws : ServersLaws (servers_with memory_redis)
memory_servers-ServersLaws = record {
  redis_laws = λ t. memory_redis-RedisLaws;
  get-query = λ t u k q w. refl;
}

memory_servers-Answers : Answers (servers_with memory_redis)
unfolding memory_redis
memory_servers-Answers = record { always = λ t w. refl }

moody_servers-ServersLaws : ServersLaws (servers_with moody_redis)
moody_servers-ServersLaws = record {
  redis_laws = λ t. moody_redis-RedisLaws;
  get-query = λ t u k q w. refl;
}

abbrev reachable_status : ConnectionProbeStatus
reachable_status = record { name = main; target = []; reachable = true; status_error = "" }

abbrev service : StorageService
service = record {
  configuration =
      (
        main,
        record {
          name = main;
          redis_name = main;
          maria_name = main;
          redis = redis_profile;
          maria = maria_profile;
          redis_prefix = b'p' ∷ [];
          table_prefix = b'p' ∷ b'_' ∷ [];
          full_redis_prefix = b'k' ∷ b'p' ∷ [];
          timing = one_dataset.defaults;
        },
      )
      ∷ [];
  redis_connections =
      (main, record { configuration = redis_profile; connected = true; status = reachable_status })
      ∷ [];
  maria_connections =
      (main, record { configuration = maria_profile; connected = true; status = reachable_status })
      ∷ [];
  disabled_maria_targets = [];
}

storage_of-StorageLaws_example : StorageLaws (storage_of (servers_with memory_redis) service main)
unfolding get_redis_for_dataset get_redis find
storage_of-StorageLaws_example =
    storage_of-StorageLaws (servers_with memory_redis) memory_servers-ServersLaws service main main
      memory_servers-Answers refl

-- The entry seven is in Redis, and the next command is refused.
abbrev refusing : Moody
refusing = (true, (b'k' ∷ b'p' ∷ entry_suffix (b'7' ∷ []), b'o' ∷ []) ∷ [])

dataset_get_stale_example :
    let servers = servers_with moody_redis in
    let w' = (dataset_put servers service main (b'7' ∷ []) (b'n' ∷ []) refusing).1 in
    ((dataset_get servers service main (b'7' ∷ []) [] w').0.ok ≡ true)
    × ((dataset_get servers service main (b'7' ∷ []) [] w').1 ≡ b'o' ∷ [])
unfolding moody_redis get_redis_for_dataset get_maria_for_dataset get_redis get_maria find
    build_redis_key dataset_put ensure_maria_entries_table build_maria_entries_table_name
    is_safe_table_prefix redis_set command
dataset_get_stale_example =
    dataset_get_stale (servers_with moody_redis) moody_servers-ServersLaws service main (b'7' ∷ [])
      (b'n' ∷ []) [] (b'o' ∷ []) main main "OOM" refusing refl refl refl refl refl refl
