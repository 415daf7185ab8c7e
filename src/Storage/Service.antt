-- ===== src/Storage/Service.antt =====
-- src/framework/storage/service: the data sets of a process, which are stored in MariaDB and cached in
-- Redis. The servers are a parameter: what the client libraries do with a command.
pub mod Connections
pub mod Datasets
use some_server.Base.{
  ℕ, zero, suc, ◌+◌, ◌-◌, ◌*◌, ◌/◌, ◌%◌, ◌^◌, ◌≤◌, ◌<◌, ◌≡◌, ◌≢◌, ◌↔◌, ◌⊎◌, inl, inr, refl, sym, ap,
  ◌∙◌, subst, Bool, true, false, not, ◌&&◌, ◌||◌, Option, none, some, List, [], ◌∷◌, ◌++◌, String,
  arith, nat_eq, ltb, leb, if◌then◌else◌, ◌==◌, ◌/=◌, Eq, Eq_ℕ, Eq_String, Eq_Bytes, bytes_eq_iff,
  Bool-cases, Option-cases, is_some, Bytes, length, take, drop, inc64, add64,
}
use some_server.Base.Decimal.{to_string}
use Prim.Native.String.{char_at, ◌++◌ as append, ◌∷◌ as string_cons}
use some_server.Base.Table.{
  Table, find, put, erase, contains, keys, AllEntries, Distinct, find-put, find-erase,
  find-put_same, find-erase_same, find-put_other, find-erase_other, AllEntries-find, AllEntries-put,
  AllEntries-erase, Distinct-put, Distinct-erase,
}
use some_server.Ipc.Types.{Result, success, failure}
use some_server.Game.Redis.{Redis, Reply, no_reply, status_ok, nil, text, integer, error, command}
use some_server.Game.Lease.{error_text}
use some_server.Storage.Configuration.{
  RedisConfiguration, MariaConfiguration, ResolvedDatasetConfiguration,
  ResolvedStorageConfiguration, is_safe_table_prefix,
}

-- The statements that the service writes. A key or a value is escaped and put in quotes, which is the
-- literal of that text.
pub data Statement : Type 0 where
  create_entries : (table : Bytes) → Statement
  entries_to_binary : (table : Bytes) → Statement
  upsert_entry : (table key value : Bytes) → Statement
  select_entry : (table key : Bytes) → Statement
  delete_entry : (table key : Bytes) → Statement

-- What becomes of a statement: `mysql_query` fails, or there is no result set, or there is one, with
-- the first column of its first row where there is a row and the column is not null.
pub data Answer : Type 0 where
  fails : String → Answer
  no_result : String → Answer
  rows : Option Bytes → Answer

-- The servers by the names of their profiles, and how connections to them are made and tried. A
-- connection has a target, which is only shown, and an error text.
pub record Servers (W : Type 0) : Type 0 where
  pub redis : Bytes → Redis W
  pub query : Bytes → Statement → W → Answer × W
  pub connect_redis : Bytes → RedisConfiguration → W → Bool × Bytes × String × W
  pub ping_redis : Bytes → W → Option String × W
  pub close_redis : Bytes → W → W
  pub connect_maria : Bytes → MariaConfiguration → W → Bool × Bytes × String × W
  pub ping_maria : Bytes → W → Option String × W
  pub close_maria : Bytes → W → W

pub record ConnectionProbeStatus : Type 0 where
  pub name : Bytes
  pub target : Bytes
  pub reachable : Bool
  pub status_error : String

pub record RedisConnectionState : Type 0 where
  pub configuration : RedisConfiguration
  -- `context` is not null
  pub connected : Bool
  pub status : ConnectionProbeStatus

pub record MariaConnectionState : Type 0 where
  pub configuration : MariaConfiguration
  -- `handle` is not null
  pub connected : Bool
  pub status : ConnectionProbeStatus

pub record StorageService : Type 0 where
  pub configuration : ResolvedStorageConfiguration
  pub redis_connections : Table Bytes RedisConnectionState
  pub maria_connections : Table Bytes MariaConnectionState
  pub disabled_maria_targets : Table Bytes (Unit {0})

abbrev pub get_dataset : StorageService → Bytes → Option ResolvedDatasetConfiguration
get_dataset s dataset_name = find dataset_name s.configuration

-- The name of the profile, where there is a connection.
unfoldable pub get_redis : StorageService → Bytes → Option Bytes
get_redis s name = elim (find name s.redis_connections) [
  | none ↦ none
  | some state ↦ if state.connected then some name else none
]

unfoldable pub get_maria : StorageService → Bytes → Option Bytes
get_maria s name = elim (find name s.maria_connections) [
  | none ↦ none
  | some state ↦
      if contains name s.disabled_maria_targets
      then none
      else if state.connected
      then some name
      else none
]

unfoldable pub get_redis_for_dataset : StorageService → Bytes → Option Bytes
unfolding get_redis
get_redis_for_dataset s dataset_name = elim (get_dataset s dataset_name) [
  | none ↦ none
  | some dataset ↦ get_redis s dataset.redis_name
]

unfoldable pub get_maria_for_dataset : StorageService → Bytes → Option Bytes
unfolding get_maria
get_maria_for_dataset s dataset_name = elim (get_dataset s dataset_name) [
  | none ↦ none
  | some dataset ↦ get_maria s dataset.maria_name
]

unfoldable pub build_redis_key : StorageService → Bytes → Bytes → Bytes
build_redis_key s dataset_name suffix = elim (get_dataset s dataset_name) [
  | none ↦ []
  | some dataset ↦ dataset.full_redis_prefix ++ suffix
]

unfoldable pub build_maria_entries_table_name : StorageService → Bytes → Bytes
build_maria_entries_table_name s dataset_name = elim (get_dataset s dataset_name) [
  | none ↦ []
  | some dataset ↦
      if is_safe_table_prefix dataset.table_prefix
      then dataset.table_prefix ++ b'e' ∷ b'n' ∷ b't' ∷ b'r' ∷ b'i' ∷ b'e' ∷ b's' ∷ []
      else []
]

abbrev pub entry_suffix : Bytes → Bytes
entry_suffix entry_key = b'e' ∷ b'n' ∷ b't' ∷ b'r' ∷ b'i' ∷ b'e' ∷ b's' ∷ b':' ∷ entry_key

-- The reply to SET, as its result.
abbrev pub set_result : String → Reply → Result
set_result default (no_reply err) = failure (error_text err default)
set_result default status_ok = record { ok = true; message = "OK" }
set_result default (error why) = failure why
set_result default _ = failure default

-- The text of decimal digits.
unfoldable pub decimal_text : Bytes → String
decimal_text [] = ""
decimal_text (c ∷ rest) =
    let text = decimal_text rest in string_cons (char_at "0123456789" (c - b'0')) text

module _ {W : Type 0} (servers : Servers W) where
  -- The connection of a data set with the key, or what is wrong.
  abbrev pub on_redis :
      {A : Type 0} → StorageService → Bytes → Bytes → (String → A) → (Bytes → Bytes → A) → A
  on_redis s dataset_name suffix refuse run = elim (get_redis_for_dataset s dataset_name) [
    | none ↦ refuse "redis connection is unavailable"
    | some target ↦ elim (build_redis_key s dataset_name suffix) [
      | [] ↦ refuse "dataset is unknown"
      | c ∷ key ↦ run target (c ∷ key)
    ]
  ]

  unfoldable pub redis_set : StorageService → Bytes → Bytes → Bytes → W → Result × W
  redis_set s dataset_name suffix value w =
      on_redis s dataset_name suffix (λ why. (failure why, w))
        λ target key.
          let redis = servers.redis target in
          let (reply, w') = command redis (λ v. (status_ok, redis.set v key value)) w in
          (set_result "redis SET failed" reply, w')

  -- SET with NX.
  abbrev pub run_set_nx : Bytes → Bytes → Bytes → W → Reply × W
  run_set_nx target key value w =
      let redis = servers.redis target in
      elim (redis.get w key) [ none ↦ (status_ok, redis.set w key value) | some _ ↦ (nil, w) ]

  abbrev pub set_nx_result : Reply → Result
  set_nx_result nil = failure "exists"
  set_nx_result reply = set_result "redis SET NX failed" reply

  unfoldable pub redis_set_if_absent : StorageService → Bytes → Bytes → Bytes → W → Result × W
  redis_set_if_absent s dataset_name suffix value w =
      on_redis s dataset_name suffix (λ why. (failure why, w))
        λ target key.
          let (reply, w') = command (servers.redis target) (run_set_nx target key value) w in
          (set_nx_result reply, w')

  abbrev pub run_get : Bytes → Bytes → W → Reply × W
  run_get target key w = elim ((servers.redis target).get w key) [
    | none ↦ (nil, w)
    | some v ↦ (text v, w)
  ]

  -- The result of GET with the value, which is that of the caller where there is none.
  abbrev pub get_result : Bytes → Reply → Result × Bytes
  get_result value (no_reply err) = (failure (error_text err "redis GET failed"), value)
  get_result value nil = (failure "nil", value)
  get_result value (text v) = (record { ok = true; message = "OK" }, v)
  get_result value (error why) = (failure why, value)
  get_result value _ = (failure "redis GET returned unexpected reply", value)

  unfoldable pub redis_get : StorageService → Bytes → Bytes → Bytes → W → Result × Bytes × W
  redis_get s dataset_name suffix value w =
      on_redis s dataset_name suffix (λ why. (failure why, value, w))
        λ target key.
          let (reply, w') = command (servers.redis target) (run_get target key) w in
          let (result, v) = get_result value reply in (result, v, w')

  -- The message has the number of the keys that were deleted.
  abbrev pub delete_result : Reply → Result
  delete_result (no_reply err) = failure (error_text err "redis DEL failed")
  delete_result (integer n) = record {
    ok = true;
    message = append "deleted=" (decimal_text (to_string n));
  }
  delete_result (error why) = failure why
  delete_result _ = failure "redis DEL returned unexpected reply"

  unfoldable pub redis_delete : StorageService → Bytes → Bytes → W → Result × W
  redis_delete s dataset_name suffix w =
      on_redis s dataset_name suffix (λ why. (failure why, w))
        λ target key.
          let redis = servers.redis target in
          let (reply, w') =
            command redis (λ v. (integer (redis.del v key).0, (redis.del v key).1)) w in
          (delete_result reply, w')

  -- A statement of which only the success counts.
  abbrev pub execute : Bytes → Statement → W → Result × W
  execute target statement w =
      let (answer, w') = servers.query target statement w in
      elim answer [ fails why ↦ (failure why, w') | _ ↦ (record { ok = true; message = "OK" }, w') ]

  -- The connection and the table, which is made where it is not there.
  unfoldable pub ensure_maria_entries_table : StorageService → Bytes → W → Result × W
  ensure_maria_entries_table s dataset_name w = elim (get_maria_for_dataset s dataset_name) [
    | none ↦ (failure "maria connection is unavailable", w)
    | some target ↦ elim (build_maria_entries_table_name s dataset_name) [
      | [] ↦ (failure "dataset table_prefix is invalid", w)
      | c ∷ table ↦ execute target (create_entries (c ∷ table)) w
    ]
  ]

  -- A statement on the table, once it is there.
  abbrev pub with_table : {A : Type 0} → StorageService → Bytes → W → (Result × W → A) → (W → A) → A
  with_table s dataset_name w refuse run =
      let (ensure, w') = ensure_maria_entries_table s dataset_name w in
      if ensure.ok then run w' else refuse (ensure, w')

  unfoldable pub migrate_maria_entries_table_to_binary : StorageService → Bytes → W → Result × W
  migrate_maria_entries_table_to_binary s dataset_name w =
      elim (get_maria_for_dataset s dataset_name) [
        | none ↦ (failure "maria connection is unavailable", w)
        | some target ↦
            with_table s dataset_name w (λ r. r)
              λ w'. elim (build_maria_entries_table_name s dataset_name) [
                | [] ↦ (failure "dataset table_prefix is invalid", w')
                | c ∷ table ↦ execute target (entries_to_binary (c ∷ table)) w'
              ]
      ]
