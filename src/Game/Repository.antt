-- ===== src/Game/Repository.antt =====
-- src/game/services/player_repository: the player data that this process has in memory. Each
-- method holds the lock of the repository. The clock is read where the source reads it, and the
-- readings come in as arguments.
pub mod Durability
use some_server.Base.{
  ℕ, ◌+◌, ◌≡◌, Bool, true, false, Option, none, some, List, [], ◌∷◌, ◌++◌, String, Bytes, nat_eq,
  if◌then◌else◌, ◌&&◌, ◌==◌, ◌/=◌, inc64, Eq_ℕ, Eq_String,
}
use some_server.Base.Decimal.{to_string}
use some_server.Base.Table.{Table, find, put, erase}
use some_server.Ipc.Types.{Result, success, failure}

-- `pb::PlayerData`, with the fields that the program reads or writes. A display name is the list
-- of its bytes.
pub record PlayerData : Type 0 where
  pub player_id : ℕ
  pub display_name : Bytes
  pub created_at_ms : ℕ
  pub last_login_at_ms : ℕ
  pub level : ℕ
  pub experience : ℕ
  pub login_count : ℕ
  pub extensions : Bytes

abbrev pub no_data : PlayerData
no_data = record {
  player_id = 0;
  display_name = [];
  created_at_ms = 0;
  last_login_at_ms = 0;
  level = 0;
  experience = 0;
  login_count = 0;
  extensions = [];
}

-- The generated code that writes and reads player data: reading says whether it succeeded and
-- what it left in the message; what is written is read back.
pub record DataCodec : Type 0 where
  pub serialize : PlayerData → Option Bytes
  pub parse : Bytes → Bool × PlayerData
  pub parse-serialize : (p : PlayerData) (b : Bytes) → serialize p ≡ some b → parse b ≡ (true, p)

-- src/framework/storage/service.h, as the repository uses it: a data set of texts over a state
-- `D` of the storage. A failed `DatasetGet` comes with no value.
pub record Storage (D : Type 0) : Type 0 where
  -- `GetDataset` finds the data set
  pub has_dataset : D → Bool
  pub dataset_get : D → Bytes → Result × Bytes × D
  pub dataset_put : D → Bytes → Bytes → Result × D

pub record PlayerRepositoryRecord : Type 0 where
  pub loaded : Bool
  pub dirty : Bool
  pub pending_initial_persist : Bool
  pub created_without_maria : Bool
  pub load_count : ℕ
  pub flush_count : ℕ
  pub last_load_ms : ℕ
  pub last_dirty_ms : ℕ
  pub last_flush_ms : ℕ
  pub player_data : PlayerData

-- What `PlayerRepositoryRecord{}` holds.
abbrev pub no_record : PlayerRepositoryRecord
no_record = record {
  loaded = false;
  dirty = false;
  pending_initial_persist = false;
  created_without_maria = false;
  load_count = 0;
  flush_count = 0;
  last_load_ms = 0;
  last_dirty_ms = 0;
  last_flush_ms = 0;
  player_data = no_data;
}

abbrev pub Repository : Type 0
Repository = Table ℕ PlayerRepositoryRecord

abbrev pub record_or_new : Option PlayerRepositoryRecord → PlayerRepositoryRecord
record_or_new none = no_record
record_or_new (some x) = x

-- The readings of the clock in one `LoadPlayer`.
pub record LoadTimes : Type 0 where
  pub created : ℕ
  pub dirtied : ℕ
  pub loaded : ℕ

-- `"player_" + std::to_string(player_id)`
unfoldable pub default_name : ℕ → Bytes
default_name player_id = b'p' ∷ b'l' ∷ b'a' ∷ b'y' ∷ b'e' ∷ b'r' ∷ b'_' ∷ to_string player_id

unfoldable pub initialize_default : ℕ → ℕ → PlayerRepositoryRecord
unfolding default_name
initialize_default now player_id = record no_record {
  player_data = record no_data {
    player_id = player_id;
    display_name = default_name player_id;
    created_at_ms = now;
    level = 1;
  };
}

-- A record that was made up because the storage has none, or could not be asked.
abbrev pub created : LoadTimes → ℕ → Bool → PlayerRepositoryRecord
created times player_id without_maria = record (initialize_default times.created player_id) {
  dirty = true;
  pending_initial_persist = true;
  created_without_maria = without_maria;
  last_dirty_ms = times.dirtied;
}

-- The end of a load that succeeded.
abbrev pub finish_load : LoadTimes → PlayerRepositoryRecord → PlayerRepositoryRecord
finish_load times x = record x {
  loaded = true;
  last_load_ms = times.loaded;
  load_count = inc64 x.load_count;
}

-- The record before the load is the one in the map, or a new one, which stays there even where
-- the load fails.
module _ {D : Type 0} (codec : DataCodec) (storage : Storage D) where
  unfoldable pub load_player : Repository → LoadTimes → ℕ → Bool → D → Result × Repository × D
  unfolding initialize_default
  load_player m times player_id allow_create_without_maria d =
      if storage.has_dataset d
      then (let before = record_or_new (find player_id m) in
          let (result, value, d') = storage.dataset_get d (to_string player_id) in
          if result.ok
          then (let (parsed, content) = codec.parse value in
              let x = record before { player_data = content } in
              if parsed
              then (success, put player_id (finish_load times x) m, d')
              else (failure "stored player data is corrupted", put player_id x m, d'))
          else if result.message == "not found"
          then (success, put player_id (finish_load times (created times player_id false)) m, d')
          else if allow_create_without_maria && result.message == "maria connection is unavailable"
          then (success, put player_id (finish_load times (created times player_id true)) m, d')
          else (failure result.message, put player_id before m, d'))
      else (failure "player dataset is not configured", m, d)

  abbrev pub flushed : ℕ → PlayerRepositoryRecord → PlayerRepositoryRecord
  flushed now x = record x {
    dirty = false;
    pending_initial_persist = false;
    created_without_maria = false;
    flush_count = inc64 x.flush_count;
    last_dirty_ms = 0;
    last_flush_ms = now;
  }

  unfoldable pub flush_player : Repository → ℕ → ℕ → D → Result × Repository × D
  flush_player m now player_id d = elim (find player_id m) [
    | none ↦ (failure "player is not loaded in repository", m, d)
    | some x ↦
        if x.loaded
        then elim (codec.serialize x.player_data) [
          | none ↦ (failure "failed to serialize player data", m, d)
          | some payload ↦
              let (result, d') = storage.dataset_put d (to_string player_id) payload in
              if result.ok
              then (success, put player_id (flushed now x) m, d')
              else (failure result.message, m, d')
        ]
        else (failure "player is not loaded in repository", m, d)
  ]

unfoldable pub release_player : Repository → ℕ → Result × Repository
release_player m player_id = elim (find player_id m) [
  | none ↦ (failure "player is not tracked by repository", m)
  | some _ ↦ (success, erase player_id m)
]

-- A change of the data of a loaded player.
abbrev pub change : Repository → ℕ → ℕ → (PlayerData → PlayerData) → Result × Repository
change m now player_id f = elim (find player_id m) [
  | none ↦ (failure "player is not loaded in repository", m)
  | some x ↦
      if x.loaded
      then (
        success,
        put player_id
            (record x { player_data = f x.player_data; dirty = true; last_dirty_ms = now }) m,
      )
      else (failure "player is not loaded in repository", m)
]

-- The two readings of the clock are those for the login and for the change.
unfoldable pub touch_login : Repository → ℕ → ℕ → ℕ → Result × Repository
touch_login m login now player_id =
    change m now player_id
      (λ d. record d { last_login_at_ms = login; login_count = inc64 d.login_count })

unfoldable pub set_display_name : Repository → ℕ → ℕ → Bytes → Result × Repository
set_display_name m now player_id name =
    change m now player_id (λ d. record d { display_name = name })

unfoldable pub snapshot : Repository → ℕ → Option PlayerRepositoryRecord
snapshot m player_id = find player_id m

abbrev pub loaded_keys : Repository → List ℕ
loaded_keys [] = []
loaded_keys ((player_id, x) ∷ m) =
    let rest = loaded_keys m in if x.loaded then player_id ∷ rest else rest

unfoldable pub loaded_player_ids : Repository → List ℕ
loaded_player_ids m = loaded_keys m
