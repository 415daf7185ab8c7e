-- ===== src/Storage/Configuration.antt =====
-- src/framework/storage/resolved_configuration: the data sets of the configuration checked against the
-- profiles of Redis and MariaDB. An error text is its kind with the name of the data set.
pub mod Checking
pub mod Resolution
use some_server.Base.{
  ℕ, zero, suc, ◌+◌, ◌-◌, ◌*◌, ◌/◌, ◌%◌, ◌^◌, ◌≤◌, ◌<◌, ◌≡◌, ◌≢◌, ◌↔◌, ◌⊎◌, inl, inr, refl, sym, ap,
  ◌∙◌, subst, Bool, true, false, not, ◌&&◌, ◌||◌, Option, none, some, List, [], ◌∷◌, ◌++◌, String,
  arith, nat_eq, ltb, leb, if◌then◌else◌, ◌==◌, ◌/=◌, Eq, Eq_ℕ, Eq_String, Eq_Bytes, bytes_eq_iff,
  Bool-cases, Option-cases, is_some, Bytes, length, take, drop, inc64, add64,
}
use some_server.Base.Table.{
  Table, find, put, erase, contains, keys, AllEntries, Distinct, find-put, find-erase,
  find-put_same, find-erase_same, find-put_other, find-erase_other, AllEntries-find, AllEntries-put,
  AllEntries-erase, Distinct-put, Distinct-erase,
}
use some_server.Base.Decimal.{all_bytes}

pub record RedisConfiguration : Type 0 where
  pub endpoints : List Bytes
  pub password : Bytes
  pub database : ℕ
  pub key_prefix : Bytes

pub record MariaConfiguration : Type 0 where
  pub host : Bytes
  pub port : ℕ
  pub database : Bytes
  pub username : Bytes
  pub password : Bytes
  pub pool_size : ℕ

pub record CommonConfiguration : Type 0 where
  pub redis : Table Bytes RedisConfiguration
  pub maria : Table Bytes MariaConfiguration

pub record DatasetTimingConfiguration : Type 0 where
  pub alive_time_seconds : ℕ
  pub landing_time_seconds : ℕ
  pub landing_min_time_seconds : ℕ

pub record DatasetConfiguration : Type 0 where
  pub redis : Bytes
  pub maria : Bytes
  pub redis_prefix : Bytes
  pub table_prefix : Bytes
  pub timing : DatasetTimingConfiguration

pub record StorageConfiguration : Type 0 where
  pub defaults : DatasetTimingConfiguration
  pub datasets : Table Bytes DatasetConfiguration

pub record ResolvedDatasetConfiguration : Type 0 where
  pub name : Bytes
  pub redis_name : Bytes
  pub maria_name : Bytes
  pub redis : RedisConfiguration
  pub maria : MariaConfiguration
  pub redis_prefix : Bytes
  pub table_prefix : Bytes
  pub full_redis_prefix : Bytes
  pub timing : DatasetTimingConfiguration

abbrev pub ResolvedStorageConfiguration : Type 0
ResolvedStorageConfiguration = Table Bytes ResolvedDatasetConfiguration

-- The errors, in the order of the checks.
pub data Problem : Type 0 where
  redis_empty maria_empty redis_prefix_empty table_prefix_empty table_prefix_unsafe : Problem
  unknown_redis unknown_maria no_alive_time no_landing_time no_landing_min_time : Problem

pub data Checked : Type 0 where
  problem : Problem → Checked
  resolved : ResolvedDatasetConfiguration → Checked

abbrev pub is_empty : Bytes → Bool
is_empty [] = true
is_empty (_ ∷ _) = false

-- `std::isalnum` of the C locale, or an underscore.
abbrev pub is_identifier_byte : ℕ → Bool
is_identifier_byte c =
    (leb b'0' c && leb c b'9')
    || (leb b'A' c && leb c b'Z')
    || (leb b'a' c && leb c b'z')
    || nat_eq c b'_'

-- `IsSafeTablePrefix`, and `IsSafeSqlIdentifier` of the service.
unfoldable pub is_safe_table_prefix : Bytes → Bool
is_safe_table_prefix text = all_bytes is_identifier_byte text && not (is_empty text)

abbrev pub resolve_timing_value : ℕ → ℕ → ℕ
resolve_timing_value dataset_value default_value =
    if nat_eq dataset_value 0 then default_value else dataset_value

-- The timing of a data set, with the defaults where it has none.
abbrev pub timing_of :
    DatasetTimingConfiguration → DatasetTimingConfiguration → DatasetTimingConfiguration
timing_of timing defaults = record {
  alive_time_seconds = resolve_timing_value timing.alive_time_seconds defaults.alive_time_seconds;
  landing_time_seconds =
      resolve_timing_value timing.landing_time_seconds defaults.landing_time_seconds;
  landing_min_time_seconds =
      resolve_timing_value timing.landing_min_time_seconds defaults.landing_min_time_seconds;
}

-- The checks of the timing, on an item that is otherwise complete.
abbrev pub check_timing : ResolvedDatasetConfiguration → Checked
check_timing item =
    if nat_eq item.timing.alive_time_seconds 0
    then problem no_alive_time
    else if nat_eq item.timing.landing_time_seconds 0
    then problem no_landing_time
    else if nat_eq item.timing.landing_min_time_seconds 0
    then problem no_landing_min_time
    else resolved item

-- The look-ups of the profiles.
unfoldable pub check_profiles :
    CommonConfiguration → DatasetTimingConfiguration → Bytes → DatasetConfiguration → Checked
check_profiles common defaults name dataset = elim (find dataset.redis common.redis) [
  | none ↦ problem unknown_redis
  | some redis ↦ elim (find dataset.maria common.maria) [
    | none ↦ problem unknown_maria
    | some maria ↦ check_timing (record {
      name = name;
      redis_name = dataset.redis;
      maria_name = dataset.maria;
      redis = redis;
      maria = maria;
      redis_prefix = dataset.redis_prefix;
      table_prefix = dataset.table_prefix;
      full_redis_prefix = redis.key_prefix ++ dataset.redis_prefix;
      timing = timing_of dataset.timing defaults;
    })
  ]
]

-- The body of the loop, for one data set.
unfoldable pub check_dataset :
    CommonConfiguration → DatasetTimingConfiguration → Bytes → DatasetConfiguration → Checked
unfolding check_profiles
check_dataset common defaults name dataset =
    if is_empty dataset.redis
    then problem redis_empty
    else if is_empty dataset.maria
    then problem maria_empty
    else if is_empty dataset.redis_prefix
    then problem redis_prefix_empty
    else if is_empty dataset.table_prefix
    then problem table_prefix_empty
    else if not (is_safe_table_prefix dataset.table_prefix)
    then problem table_prefix_unsafe
    else check_profiles common defaults name dataset

-- `AddDataset`: an entry that is there stays.
abbrev pub add_dataset :
    ResolvedDatasetConfiguration → ResolvedStorageConfiguration → ResolvedStorageConfiguration
add_dataset item m = if contains item.name m then m else put item.name item m

-- What `ResolveStorageConfiguration` ends with: the error, or none, and the data sets.
unfoldable pub resolve_each :
    CommonConfiguration
    → DatasetTimingConfiguration
    → Table Bytes DatasetConfiguration
    → ResolvedStorageConfiguration
    → Option (Bytes × Problem) × ResolvedStorageConfiguration
unfolding check_dataset
resolve_each common defaults [] m = (none, m)
resolve_each common defaults ((name, dataset) ∷ rest) m =
    elim (check_dataset common defaults name dataset) [
      | problem p ↦ (some (name, p), [])
      | resolved item ↦ resolve_each common defaults rest (add_dataset item m)
    ]

unfoldable pub resolve_storage_configuration :
    CommonConfiguration
    → StorageConfiguration
    → Option (Bytes × Problem) × ResolvedStorageConfiguration
unfolding resolve_each
resolve_storage_configuration common storage =
    resolve_each common storage.defaults storage.datasets []
