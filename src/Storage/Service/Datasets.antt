-- ===== src/Storage/Service/Datasets.antt =====
-- `DatasetPut`, `DatasetGet` and `DatasetDelete`: MariaDB first, then Redis.
pub mod Reading
use some_server.Base.{
  ℕ, zero, suc, ◌+◌, ◌-◌, ◌*◌, ◌/◌, ◌%◌, ◌^◌, ◌≤◌, ◌<◌, ◌≡◌, ◌≢◌, ◌↔◌, ◌⊎◌, inl, inr, refl, sym, ap,
  ◌∙◌, subst, Bool, true, false, not, ◌&&◌, ◌||◌, Option, none, some, List, [], ◌∷◌, ◌++◌, String,
  arith, nat_eq, ltb, leb, if◌then◌else◌, ◌==◌, ◌/=◌, Eq, Eq_ℕ, Eq_String, Eq_Bytes, bytes_eq_iff,
  Bool-cases, Option-cases, is_some, Bytes, length, take, drop, inc64, add64,
}
use Prim.Native.String.{◌++◌ as append}
use some_server.Base.Table.{
  Table, find, put, erase, contains, keys, AllEntries, Distinct, find-put, find-erase,
  find-put_same, find-erase_same, find-put_other, find-erase_other, AllEntries-find, AllEntries-put,
  AllEntries-erase, Distinct-put, Distinct-erase,
}
use some_server.Ipc.Types.{Result, failure}
use some_server.Storage.Configuration.{is_empty}
use some_server.Storage.Service.{
  Servers, StorageService, Statement, upsert_entry, select_entry, delete_entry, Answer, fails,
  no_result, rows, get_maria_for_dataset, build_maria_entries_table_name, entry_suffix, redis_set,
  redis_get, redis_delete, execute, with_table,
}

-- The result once MariaDB has the change.
abbrev pub stored : Result → Result
stored redis =
    if redis.ok
    then record { ok = true; message = "OK" }
    else record { ok = true; message = append "maria=OK redis=" redis.message }

module _ {W : Type 0} (servers : Servers W) where
  -- A statement that changes an entry, and then the same in Redis.
  abbrev pub change_entry :
      StorageService → Bytes → Bytes → (Bytes → Statement) → (W → Result × W) → W → Result × W
  change_entry s dataset_name entry_key statement cache w =
      elim (get_maria_for_dataset s dataset_name) [
        | none ↦ (failure "maria connection is unavailable", w)
        | some target ↦
            if is_empty entry_key
            then (failure "entry_key must not be empty", w)
            else with_table servers s dataset_name w (λ r. r)
                λ w'.
                  let (done, w'') =
                    execute servers target
                      (statement (build_maria_entries_table_name s dataset_name)) w' in
                  if done.ok
                  then (let (redis, w3) = cache w'' in (stored redis, w3))
                  else (done, w'')
      ]

  unfoldable pub dataset_put : StorageService → Bytes → Bytes → Bytes → W → Result × W
  unfolding redis_set
  dataset_put s dataset_name entry_key value =
      change_entry s dataset_name entry_key (λ table. upsert_entry table entry_key value)
        (redis_set servers s dataset_name (entry_suffix entry_key) value)

  unfoldable pub dataset_delete : StorageService → Bytes → Bytes → W → Result × W
  unfolding redis_delete
  dataset_delete s dataset_name entry_key =
      change_entry s dataset_name entry_key (λ table. delete_entry table entry_key)
        (redis_delete servers s dataset_name (entry_suffix entry_key))

  -- What the row that MariaDB gave does: it is written to Redis, whatever comes of that.
  unfoldable pub read_row : StorageService → Bytes → Bytes → Bytes → Answer × W → Result × Bytes × W
  read_row s dataset_name entry_key value (fails why, w) = (failure why, value, w)
  read_row s dataset_name entry_key value (no_result why, w) = (failure why, value, w)
  read_row s dataset_name entry_key value (rows none, w) = (failure "not found", value, w)
  read_row s dataset_name entry_key value (rows (some v), w) = (
    record { ok = true; message = "maria" },
    v,
    (redis_set servers s dataset_name (entry_suffix entry_key) v w).1,
  )

  -- The entry from MariaDB, for one that Redis does not have.
  unfoldable pub read_through : StorageService → Bytes → Bytes → Bytes → W → Result × Bytes × W
  unfolding read_row
  read_through s dataset_name entry_key value w = elim (get_maria_for_dataset s dataset_name) [
    | none ↦ (failure "maria connection is unavailable", value, w)
    | some target ↦
        with_table servers s dataset_name w (λ r. (r.0, value, r.1))
          λ w'. read_row s dataset_name entry_key value (
            servers.query target
              (select_entry (build_maria_entries_table_name s dataset_name) entry_key) w')
  ]

  unfoldable pub dataset_get : StorageService → Bytes → Bytes → Bytes → W → Result × Bytes × W
  unfolding read_through
  dataset_get s dataset_name entry_key value w =
      if is_empty entry_key
      then (failure "entry_key must not be empty", value, w)
      else let (found, v, w') = redis_get servers s dataset_name (entry_suffix entry_key) value w in
        if found.ok
        then (record { ok = true; message = "redis" }, v, w')
        else if found.message == "nil"
        then read_through s dataset_name entry_key v w'
        else (found, v, w')
