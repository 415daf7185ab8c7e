-- ===== src/Storage/Service/Connections.antt =====
-- How the storage service is made from its configuration, and how its connections come and go. Load
-- is refresh_connections and Unload close_connections.
use some_server.Base.{
  Bool, true, false, Option, none, some, [], ◌∷◌, String, if◌then◌else◌, Eq_ℕ, Eq_String, Eq_Bytes,
  Bytes,
}
use some_server.Base.Table.{Table, find, put, erase, contains}
use some_server.Storage.Configuration.{
  ResolvedDatasetConfiguration, ResolvedStorageConfiguration, MariaConfiguration,
  RedisConfiguration,
}
use some_server.Storage.Service.{
  Servers, StorageService, RedisConnectionState, MariaConnectionState, ConnectionProbeStatus,
}

abbrev new_status : Bytes → ConnectionProbeStatus
new_status name = record { name = name; target = []; reachable = false; status_error = "" }

abbrev redis_of : Option RedisConnectionState → Bytes → RedisConfiguration → RedisConnectionState
redis_of none name configuration = record {
  configuration = configuration;
  connected = false;
  status = new_status name;
}
redis_of (some state) name configuration = record state {
  configuration = configuration;
  status = record (state.status) { name = name };
}

abbrev maria_of : Option MariaConnectionState → Bytes → MariaConfiguration → MariaConnectionState
maria_of none name configuration = record {
  configuration = configuration;
  connected = false;
  status = new_status name;
}
maria_of (some state) name configuration = record state {
  configuration = configuration;
  status = record (state.status) { name = name };
}

abbrev pub add_connections : ResolvedDatasetConfiguration → StorageService → StorageService
add_connections dataset s = record s {
  redis_connections =
      put dataset.redis_name
        (redis_of (find dataset.redis_name s.redis_connections) dataset.redis_name dataset.redis)
        s.redis_connections;
  maria_connections =
      put dataset.maria_name
        (maria_of (find dataset.maria_name s.maria_connections) dataset.maria_name dataset.maria)
        s.maria_connections;
}

abbrev add_all : ResolvedStorageConfiguration → StorageService → StorageService
add_all [] s = s
add_all ((name, dataset) ∷ rest) s = add_all rest (add_connections dataset s)

-- The constructor.
unfoldable pub new_service : ResolvedStorageConfiguration → StorageService
new_service configuration = add_all configuration (record {
  configuration = configuration;
  redis_connections = [];
  maria_connections = [];
  disabled_maria_targets = [];
})

abbrev pub unreachable : String → ConnectionProbeStatus → ConnectionProbeStatus
unreachable why status = record status { reachable = false; status_error = why }

abbrev pub reached : ConnectionProbeStatus → ConnectionProbeStatus
reached status = record status { reachable = true; status_error = "" }

module _ {W : Type 0} (servers : Servers W) where
  -- A new connection to Redis, tried at once.
  unfoldable pub reconnect_redis : Bytes → RedisConnectionState → W → RedisConnectionState × W
  reconnect_redis name state w =
      let (connected, target, why, w') = servers.connect_redis name state.configuration w in
      let shown = record (state.status) { target = target; status_error = why } in
      if connected
      then (let (failed, w'') = servers.ping_redis name w' in
          elim failed [
            | none ↦ (record state { connected = true; status = reached shown }, w'')
            | some err ↦ (
              record state { connected = false; status = unreachable err shown },
              servers.close_redis name w'',
            )
          ])
      else (record state { connected = false; status = unreachable why shown }, w')

  unfoldable pub refresh_redis_connection :
      Bytes → RedisConnectionState → W → RedisConnectionState × W
  unfolding reconnect_redis
  refresh_redis_connection name state w =
      let named = record state { status = record (state.status) { name = name } } in
      if state.connected
      then (let (failed, w') = servers.ping_redis name w in
          elim failed [
            | none ↦ (record named { status = reached named.status }, w')
            | some err ↦ reconnect_redis name named (servers.close_redis name w')
          ])
      else reconnect_redis name named w

  unfoldable pub reconnect_maria : Bytes → MariaConnectionState → W → MariaConnectionState × W
  reconnect_maria name state w =
      let (connected, target, why, w') = servers.connect_maria name state.configuration w in
      let shown = record (state.status) { target = target; status_error = why } in
      if connected
      then (let (failed, w'') = servers.ping_maria name w' in
          elim failed [
            | none ↦ (record state { connected = true; status = reached shown }, w'')
            | some err ↦ (
              record state { connected = false; status = unreachable err shown },
              servers.close_maria name w'',
            )
          ])
      else (record state { connected = false; status = unreachable why shown }, w')

  abbrev pub disabled_text : String
  disabled_text = "disabled by runtime command"

  -- `CloseMaria` of a handle, which may be null.
  abbrev pub close_handle : Bytes → Bool → W → W
  close_handle name connected w = if connected then servers.close_maria name w else w

  unfoldable pub refresh_maria_connection :
      StorageService → Bytes → MariaConnectionState → W → MariaConnectionState × W
  unfolding reconnect_maria
  refresh_maria_connection s name state w =
      let named = record state { status = record (state.status) { name = name } } in
      if contains name s.disabled_maria_targets
      then (
        record named { connected = false; status = unreachable disabled_text named.status },
        close_handle name state.connected w,
      )
      else if state.connected
      then (let (failed, w') = servers.ping_maria name w in
          elim failed [
            | none ↦ (record named { status = reached named.status }, w')
            | some err ↦ reconnect_maria name named (servers.close_maria name w')
          ])
      else reconnect_maria name named w

  unfoldable pub refresh_each_redis :
      Table Bytes RedisConnectionState → W → Table Bytes RedisConnectionState × W
  unfolding refresh_redis_connection
  refresh_each_redis [] w = ([], w)
  refresh_each_redis ((name, state) ∷ rest) w =
      let (state', w') = refresh_redis_connection name state w in
      let (rest', w'') = refresh_each_redis rest w' in ((name, state') ∷ rest', w'')

  unfoldable pub refresh_each_maria :
      StorageService → Table Bytes MariaConnectionState → W → Table Bytes MariaConnectionState × W
  unfolding refresh_maria_connection
  refresh_each_maria s [] w = ([], w)
  refresh_each_maria s ((name, state) ∷ rest) w =
      let (state', w') = refresh_maria_connection s name state w in
      let (rest', w'') = refresh_each_maria s rest w' in ((name, state') ∷ rest', w'')

  unfoldable pub refresh_connections : StorageService → W → StorageService × W
  unfolding refresh_each_redis refresh_each_maria
  refresh_connections s w =
      let (redis, w') = refresh_each_redis s.redis_connections w in
      let (maria, w'') = refresh_each_maria s s.maria_connections w' in
      (record s { redis_connections = redis; maria_connections = maria }, w'')

  unfoldable pub close_each_redis :
      Table Bytes RedisConnectionState → W → Table Bytes RedisConnectionState × W
  close_each_redis [] w = ([], w)
  close_each_redis ((name, state) ∷ rest) w =
      let (rest', w') =
        close_each_redis rest (if state.connected then servers.close_redis name w else w) in
      (
        (
          name,
          record state { connected = false; status = record (state.status) { reachable = false } },
        )
            ∷ rest',
        w',
      )

  unfoldable pub close_each_maria :
      Table Bytes MariaConnectionState → W → Table Bytes MariaConnectionState × W
  close_each_maria [] w = ([], w)
  close_each_maria ((name, state) ∷ rest) w =
      let (rest', w') = close_each_maria rest (close_handle name state.connected w) in
      (
        (
          name,
          record state { connected = false; status = record (state.status) { reachable = false } },
        )
            ∷ rest',
        w',
      )

  unfoldable pub close_connections : StorageService → W → StorageService × W
  unfolding close_each_redis close_each_maria
  close_connections s w =
      let (redis, w') = close_each_redis s.redis_connections w in
      let (maria, w'') = close_each_maria s.maria_connections w' in
      (record s { redis_connections = redis; maria_connections = maria }, w'')

  unfoldable pub disable_maria_target : StorageService → Bytes → W → Bool × StorageService × W
  disable_maria_target s name w = elim (find name s.maria_connections) [
    | none ↦ (false, s, w)
    | some state ↦ (
      true,
      record s {
        disabled_maria_targets = put name tt s.disabled_maria_targets;
        maria_connections =
            put name
              (record state { connected = false; status = unreachable disabled_text state.status })
              s.maria_connections;
      },
      close_handle name state.connected w,
    )
  ]

-- Enabling tells whether the target was disabled. A refresh connects it again.
unfoldable pub enable_maria_target : StorageService → Bytes → Bool × StorageService
enable_maria_target s name =
    if contains name s.maria_connections
    then (
      contains name s.disabled_maria_targets,
      record s { disabled_maria_targets = erase name s.disabled_maria_targets },
    )
    else (false, s)
