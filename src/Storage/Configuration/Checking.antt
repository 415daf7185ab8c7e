-- ===== src/Storage/Configuration/Checking.antt =====
-- What the check of one data set promises, whether it ends in a data set or in an error.
use some_server.Base.{
  ℕ, ◌≡◌, ◌≢◌, ◌⊎◌, inl, inr, true, false, none, some, ◌++◌, arith, Eq_ℕ, Eq_String, Eq_Bytes,
  Option-cases, Bytes,
}
use some_server.Base.Table.{find}
use some_server.Storage.Configuration.{
  redis_empty, maria_empty, redis_prefix_empty, table_prefix_empty, table_prefix_unsafe,
  unknown_redis, unknown_maria, no_alive_time, no_landing_time, no_landing_min_time,
  CommonConfiguration, DatasetConfiguration, DatasetTimingConfiguration,
  ResolvedDatasetConfiguration, Problem, problem, resolved, is_safe_table_prefix, is_empty,
  check_profiles, check_dataset,
}

-- A time of a data set: its own, or the default one where it has none.
abbrev pub IsChosen : ℕ → ℕ → ℕ → Type 0
IsChosen own default chosen =
    ((own ≢ 0) × (chosen ≡ own)) ⊎ ((own ≡ 0) × (default ≢ 0) × (chosen ≡ default))

module _ (common : CommonConfiguration) (defaults : DatasetTimingConfiguration) where
  -- A data set that is resolved as it was configured, and can be used: it stands under its name with
  -- the profiles that it names; its table prefix is safe to put in SQL; its keys have the prefix of the
  -- Redis profile and then its own, which is not empty; each time is its own, or the default, and not 0.
  pub record IsUsable (name : Bytes) (d : DatasetConfiguration) (r : ResolvedDatasetConfiguration)
      : Type 0 where
    pub named : r.name ≡ name
    pub redis_named : r.redis_name ≡ d.redis
    pub maria_named : r.maria_name ≡ d.maria
    pub redis_known : find d.redis common.redis ≡ some r.redis
    pub maria_known : find d.maria common.maria ≡ some r.maria
    pub tables : r.table_prefix ≡ d.table_prefix
    pub safe : is_safe_table_prefix d.table_prefix ≡ true
    pub own_prefix : r.redis_prefix ≡ d.redis_prefix
    pub prefixed : r.full_redis_prefix ≡ r.redis.key_prefix ++ d.redis_prefix
    pub prefix_filled : is_empty d.redis_prefix ≡ false
    pub alive :
        IsChosen d.timing.alive_time_seconds defaults.alive_time_seconds r.timing.alive_time_seconds
    pub landing :
        IsChosen d.timing.landing_time_seconds defaults.landing_time_seconds
          r.timing.landing_time_seconds
    pub landing_min :
        IsChosen d.timing.landing_min_time_seconds defaults.landing_min_time_seconds
          r.timing.landing_min_time_seconds

  -- What is wrong with a data set, where the check ends with an error.
  abbrev pub Explains : DatasetConfiguration → Problem → Type 0
  Explains d redis_empty = is_empty d.redis ≡ true
  Explains d maria_empty = is_empty d.maria ≡ true
  Explains d redis_prefix_empty = is_empty d.redis_prefix ≡ true
  Explains d table_prefix_empty = is_empty d.table_prefix ≡ true
  Explains d table_prefix_unsafe = is_safe_table_prefix d.table_prefix ≡ false
  Explains d unknown_redis = find d.redis common.redis ≡ none
  Explains d unknown_maria = find d.maria common.maria ≡ none
  Explains d no_alive_time = (d.timing.alive_time_seconds ≡ 0) × (defaults.alive_time_seconds ≡ 0)
  Explains d no_landing_time =
      (d.timing.landing_time_seconds ≡ 0) × (defaults.landing_time_seconds ≡ 0)
  Explains d no_landing_min_time =
      (d.timing.landing_min_time_seconds ≡ 0) × (defaults.landing_min_time_seconds ≡ 0)

  pub check_dataset-IsUsable :
      (name : Bytes) (d : DatasetConfiguration) (item : ResolvedDatasetConfiguration)
      → check_dataset common defaults name d ≡ resolved item
      → IsUsable name d item
  unfolding check_dataset check_profiles
  check_dataset-IsUsable name d item h = elim (Option-cases (find d.redis common.redis)) [
    | inl t ↦ ground arith
    | inr (redis, t) ↦ elim (Option-cases (find d.maria common.maria)) [
      | inl t' ↦ ground arith
      | inr (maria, t') ↦ ground arith
    ]
  ]

  pub check_dataset-Explains :
      (name : Bytes) (d : DatasetConfiguration) (p : Problem)
      → check_dataset common defaults name d ≡ problem p
      → Explains d p
  unfolding check_dataset check_profiles
  check_dataset-Explains name d redis_empty h = ground arith
  check_dataset-Explains name d maria_empty h = ground arith
  check_dataset-Explains name d redis_prefix_empty h = ground arith
  check_dataset-Explains name d table_prefix_empty h = ground arith
  check_dataset-Explains name d table_prefix_unsafe h = ground arith
  check_dataset-Explains name d unknown_redis h = elim (Option-cases (find d.redis common.redis)) [
    | inl t ↦ ground arith
    | inr (redis, t) ↦ elim (Option-cases (find d.maria common.maria)) [
      | inl t' ↦ ground arith
      | inr (maria, t') ↦ ground arith
    ]
  ]
  check_dataset-Explains name d unknown_maria h = elim (Option-cases (find d.redis common.redis)) [
    | inl t ↦ ground arith
    | inr (redis, t) ↦ elim (Option-cases (find d.maria common.maria)) [
      | inl t' ↦ ground arith
      | inr (maria, t') ↦ ground arith
    ]
  ]
  check_dataset-Explains name d no_alive_time h = elim (Option-cases (find d.redis common.redis)) [
    | inl t ↦ ground arith
    | inr (redis, t) ↦ elim (Option-cases (find d.maria common.maria)) [
      | inl t' ↦ ground arith
      | inr (maria, t') ↦ ground arith
    ]
  ]
  check_dataset-Explains name d no_landing_time h =
      elim (Option-cases (find d.redis common.redis)) [
        | inl t ↦ ground arith
        | inr (redis, t) ↦ elim (Option-cases (find d.maria common.maria)) [
          | inl t' ↦ ground arith
          | inr (maria, t') ↦ ground arith
        ]
      ]
  check_dataset-Explains name d no_landing_min_time h =
      elim (Option-cases (find d.redis common.redis)) [
        | inl t ↦ ground arith
        | inr (redis, t) ↦ elim (Option-cases (find d.maria common.maria)) [
          | inl t' ↦ ground arith
          | inr (maria, t') ↦ ground arith
        ]
      ]
