-- ===== src/Storage/Service/Datasets/Reading.antt =====
-- What is read back of what was stored, as long as Redis answers, and where it does not.
use some_server.Base.{
  ℕ, ◌≡◌, ◌≢◌, inl, inr, refl, sym, ap, ◌∙◌, true, false, some, [], ◌∷◌, ◌++◌, String, arith, Eq_ℕ,
  Eq_String, Eq_Bytes, bytes_eq_iff, Option-cases, is_some, Bytes,
}
use some_server.Game.Redis.{RedisLaws, runs, refuses, command}
use some_server.Game.Repository.{Storage}
use some_server.Game.Repository.Durability.{StorageLaws}
use some_server.Storage.Configuration.{is_empty}
use some_server.Storage.Service.{
  Servers, StorageService, Statement, upsert_entry, create_entries, get_dataset,
  get_redis_for_dataset, get_maria_for_dataset, build_redis_key, build_maria_entries_table_name,
  entry_suffix, redis_set, redis_get, execute, ensure_maria_entries_table,
}
use some_server.Storage.Service.Datasets.{dataset_put, dataset_get}

-- What the servers are relied on for: Redis as it is documented, and its keys are changed by commands
-- to it alone.
pub record ServersLaws {W : Type 0} (servers : Servers W) : Type 0 where
  pub redis_laws : (t : Bytes) → RedisLaws (servers.redis t)
  pub get-query :
      (t u k : Bytes) (q : Statement) (w : W)
      → (servers.redis t).get (servers.query u q w).1 k ≡ (servers.redis t).get w k

-- Every command to Redis runs and is answered.
pub record Answers {W : Type 0} (servers : Servers W) : Type 0 where
  pub always : (t : Bytes) (w : W) → ((servers.redis t).outcome w).0 ≡ runs

cons_of : (s t : Bytes) → t ≢ [] → (d : ℕ) × (rest : Bytes) × (s ++ t ≡ d ∷ rest)
cons_of [] [] filled = absurd (filled refl)
cons_of [] (d ∷ t) filled = (d, t, refl)
cons_of (e ∷ s) t filled = (e, s ++ t, refl)

-- A data set with a connection has a key for each of its entries.
filled_key :
    (s : StorageService) (dataset key target : Bytes)
    → get_redis_for_dataset s dataset ≡ some target
    → (c : ℕ) × (rest : Bytes) × (build_redis_key s dataset (entry_suffix key) ≡ c ∷ rest)
unfolding get_redis_for_dataset build_redis_key
filled_key s dataset key target h = elim (Option-cases (get_dataset s dataset)) [
  | inl t ↦ ground arith
  | inr (d, t) ↦
      let same : build_redis_key s dataset (entry_suffix key)
          ≡ d.full_redis_prefix ++ entry_suffix key =
        rw (build_redis_key, t) refl in
      let (c, rest, e) = cons_of d.full_redis_prefix (entry_suffix key) (λ n. ground arith) in
      (c, rest, same ∙ e)
]

module _ {W : Type 0} (servers : Servers W) where
  redis_set_lem :
      (s : StorageService) (dataset suffix value target rest : Bytes) (c : ℕ) (w : W)
      → get_redis_for_dataset s dataset ≡ some target
      → build_redis_key s dataset suffix ≡ c ∷ rest
      → ((servers.redis target).outcome w).0 ≡ runs
      → (redis_set servers s dataset suffix value w).1
        ≡ (servers.redis target).set ((servers.redis target).outcome w).1 (c ∷ rest) value
  unfolding redis_set command
  redis_set_lem s dataset suffix value target rest c w h k run = ground arith

  redis_get_lem :
      (s : StorageService) (dataset suffix other target rest v : Bytes) (c : ℕ) (w : W)
      → get_redis_for_dataset s dataset ≡ some target
      → build_redis_key s dataset suffix ≡ c ∷ rest
      → ((servers.redis target).outcome w).0 ≡ runs
      → (servers.redis target).get ((servers.redis target).outcome w).1 (c ∷ rest) ≡ some v
      → ((redis_get servers s dataset suffix other w).0.ok ≡ true)
        × ((redis_get servers s dataset suffix other w).1 ≡ v)
  unfolding redis_get command
  redis_get_lem s dataset suffix other target rest v c w h k run got = ground arith

  dataset_get-redis_get :
      (s : StorageService) (dataset key other v : Bytes) (w : W)
      → is_empty key ≡ false
      → (redis_get servers s dataset (entry_suffix key) other w).0.ok ≡ true
      → (redis_get servers s dataset (entry_suffix key) other w).1 ≡ v
      → ((dataset_get servers s dataset key other w).0.ok ≡ true)
        × ((dataset_get servers s dataset key other w).1 ≡ v)
  unfolding dataset_get
  dataset_get-redis_get s dataset key other v w filled ok same = ground arith

  -- The world when MariaDB has been given the table and the entry.
  abbrev pub at_cache : StorageService → Bytes → Bytes → Bytes → Bytes → W → W
  at_cache s maria dataset key value w =
      let statement = upsert_entry (build_maria_entries_table_name s dataset) key value in
      (execute servers maria statement (ensure_maria_entries_table servers s dataset w).1).1

  dataset_put_at :
      (s : StorageService) (dataset key value maria : Bytes) (w : W)
      → get_maria_for_dataset s dataset ≡ some maria
      → (dataset_put servers s dataset key value w).0.ok ≡ true
      → (is_empty key ≡ false)
        × ((dataset_put servers s dataset key value w).1
            ≡ (redis_set servers s dataset
                (entry_suffix key)
                value
                (at_cache s maria dataset key value w)).1)
  unfolding dataset_put
  dataset_put_at s dataset key value maria w there ok = (ground arith, ground arith)

  -- A put that succeeds has a key and ends with the write to Redis.
  dataset_put_ends :
      (s : StorageService) (dataset key value : Bytes) (w : W)
      → (dataset_put servers s dataset key value w).0.ok ≡ true
      → (is_empty key ≡ false)
        × ((x : W) × ((dataset_put servers s dataset key value w).1
              ≡ (redis_set servers s dataset (entry_suffix key) value x).1))
  unfolding dataset_put
  dataset_put_ends s dataset key value w ok =
      elim (Option-cases (get_maria_for_dataset s dataset)) [
        | inl t ↦ absurd (ground arith)
        | inr (maria, t) ↦
            let (filled, same) = dataset_put_at s dataset key value maria w t ok in
            (filled, (at_cache s maria dataset key value w, same))
      ]

  -- The storage that the repository of players uses.
  unfoldable pub storage_of : StorageService → Bytes → Storage W
  storage_of s dataset = record {
    has_dataset = λ w. is_some (get_dataset s dataset);
    dataset_get = λ w key. dataset_get servers s dataset key [] w;
    dataset_put = λ w key value. dataset_put servers s dataset key value w;
  }

  module _ (laws : ServersLaws servers) where
    -- An entry that was put with success is read back from Redis, where the data set has a connection
    -- to Redis and every command is answered.
    pub dataset_get-dataset_put :
        (s : StorageService) (dataset key value other target : Bytes) (w : W)
        → Answers servers
        → get_redis_for_dataset s dataset ≡ some target
        → (dataset_put servers s dataset key value w).0.ok ≡ true
        → let w' = (dataset_put servers s dataset key value w).1 in
          ((dataset_get servers s dataset key other w').0.ok ≡ true)
          × ((dataset_get servers s dataset key other w').1 ≡ value)
    dataset_get-dataset_put s dataset key value other target w answers on ok =
        let (filled, (x, same)) = dataset_put_ends s dataset key value w ok in
        let (c, rest, k) = filled_key s dataset key target on in
        let redis = servers.redis target in
        let w' = (dataset_put servers s dataset key value w).1 in
        let written = redis.set (redis.outcome x).1 (c ∷ rest) value in
        let ends : w' ≡ written =
          same
          ∙ redis_set_lem s dataset (entry_suffix key) value target rest c x on k
              (answers.always target x) in
        let got : redis.get (redis.outcome w').1 (c ∷ rest) ≡ some value =
          (laws.redis_laws target).get-outcome w' (c ∷ rest)
          ∙ ap (λ q. redis.get q (c ∷ rest)) ends
          ∙ ground (
            arith,
            (laws.redis_laws target).get-set (redis.outcome x).1 (c ∷ rest) value (c ∷ rest),
            bytes_eq_iff (c ∷ rest) (c ∷ rest),
          ) in
        let (found, read) =
          redis_get_lem s dataset (entry_suffix key) other target rest value c w' on k
            (answers.always target w') got in
        dataset_get-redis_get s dataset key other value w' filled found read

    -- Where its data set has a connection to Redis that answers every command, the storage service
    -- keeps what the repository of players relies on.
    pub storage_of-StorageLaws :
        (s : StorageService) (dataset target : Bytes)
        → Answers servers
        → get_redis_for_dataset s dataset ≡ some target
        → StorageLaws (storage_of s dataset)
    unfolding storage_of
    storage_of-StorageLaws s dataset target answers on = record {
      has-put = λ w k v there. there;
      get-put = λ w k v ok. dataset_get-dataset_put s dataset k v [] target w answers on ok;
    }

    get-at_cache :
        (s : StorageService) (dataset key value maria target k : Bytes) (w : W)
        → (servers.redis target).get (at_cache s maria dataset key value w) k
          ≡ (servers.redis target).get w k
    unfolding ensure_maria_entries_table
    get-at_cache s dataset key value maria target k w =
        let table = build_maria_entries_table_name s dataset in
        let ensured = (ensure_maria_entries_table servers s dataset w).1 in
        let first : (servers.redis target).get ensured k ≡ (servers.redis target).get w k =
          elim (Option-cases (get_maria_for_dataset s dataset)) [
            | inl t ↦ ground arith
            | inr (m, t) ↦ ground (arith, laws.get-query target m k (create_entries table) w)
          ] in
        ground (arith, first, laws.get-query target maria k (upsert_entry table key value) ensured)

    redis_set_refused :
        (s : StorageService) (dataset suffix value target k : Bytes) (err : String) (w : W)
        → get_redis_for_dataset s dataset ≡ some target
        → ((servers.redis target).outcome w).0 ≡ refuses err
        → (servers.redis target).get (redis_set servers s dataset suffix value w).1 k
          ≡ (servers.redis target).get w k
    unfolding redis_set command
    redis_set_refused s dataset suffix value target k err w on refused =
        ground (arith, (laws.redis_laws target).get-outcome w k)

    -- A put whose write to Redis is refused succeeds all the same, and a get that Redis answers then
    -- gives the value that was there before.
    pub dataset_get_stale :
        (s : StorageService) (dataset key value other old maria target : Bytes) (err : String)
        (w : W)
        → get_maria_for_dataset s dataset ≡ some maria
        → get_redis_for_dataset s dataset ≡ some target
        → (servers.redis target).get w (build_redis_key s dataset (entry_suffix key)) ≡ some old
        → (dataset_put servers s dataset key value w).0.ok ≡ true
        → ((servers.redis target).outcome (at_cache s maria dataset key value w)).0 ≡ refuses err
        → ((servers.redis target).outcome (dataset_put servers s dataset key value w).1).0 ≡ runs
        → let w' = (dataset_put servers s dataset key value w).1 in
          ((dataset_get servers s dataset key other w').0.ok ≡ true)
          × ((dataset_get servers s dataset key other w').1 ≡ old)
    dataset_get_stale s dataset key value other old maria target err w there on cached ok refused
          run =
        let (filled, same) = dataset_put_at s dataset key value maria w there ok in
        let (c, rest, k) = filled_key s dataset key target on in
        let redis = servers.redis target in
        let suffix = entry_suffix key in
        let x = at_cache s maria dataset key value w in
        let w' = (dataset_put servers s dataset key value w).1 in
        let got : redis.get (redis.outcome w').1 (c ∷ rest) ≡ some old =
          (laws.redis_laws target).get-outcome w' (c ∷ rest)
          ∙ ap (λ q. redis.get q (c ∷ rest)) same
          ∙ redis_set_refused s dataset suffix value target (c ∷ rest) err x on refused
          ∙ get-at_cache s dataset key value maria target (c ∷ rest) w
          ∙ ap (redis.get w) (sym k)
          ∙ cached in
        let (found, read) =
          redis_get_lem s dataset suffix other target rest old c w' on k run got in
        dataset_get-redis_get s dataset key other old w' filled found read
