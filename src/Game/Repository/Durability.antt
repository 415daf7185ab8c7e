-- ===== src/Game/Repository/Durability.antt =====
-- The data that `FlushPlayer` writes is the data that `LoadPlayer` reads.
use some_server.Base.{
  ℕ, ◌≡◌, sym, subst, Bool, true, Option, none, some, arith, if◌then◌else◌, inl, inr, Bool-cases,
  Option-cases, nat_eq_iff, Eq_ℕ, Eq_String, Bytes,
}
use some_server.Base.Decimal.{to_string}
use some_server.Base.Table.{find, find-put}
use some_server.Ipc.Types.{success}
use some_server.Game.Repository.{
  PlayerData, DataCodec, Storage, LoadTimes, PlayerRepositoryRecord, Repository, load_player,
  flush_player, finish_load, record_or_new,
}

-- What the storage promises: what `DatasetPut` wrote with success is what `DatasetGet` answers
-- with then, and the data set stays configured.
pub record StorageLaws {D : Type 0} (storage : Storage D) : Type 0 where
  pub has-put :
      (d : D) (k v : Bytes)
      → storage.has_dataset d ≡ true
      → storage.has_dataset (storage.dataset_put d k v).1 ≡ true
  pub get-put :
      (d : D) (k v : Bytes)
      → (storage.dataset_put d k v).0.ok ≡ true
      → let e = (storage.dataset_put d k v).1 in
        ((storage.dataset_get e k).0.ok ≡ true) × ((storage.dataset_get e k).1 ≡ v)

abbrev pub data_of : Option PlayerRepositoryRecord → Option PlayerData
data_of none = none
data_of (some x) = if x.loaded then some x.player_data else none

module _ {D : Type 0} (codec : DataCodec) (storage : Storage D) (laws : StorageLaws storage) where
  load-stored :
      (n : Repository) (times : LoadTimes) (p : ℕ) (allow : Bool) (d : D) (x : PlayerData)
      (b : Bytes)
      → storage.has_dataset d ≡ true
      → (storage.dataset_get d (to_string p)).0.ok ≡ true
      → (storage.dataset_get d (to_string p)).1 ≡ b
      → codec.parse b ≡ (true, x)
      → let (r, n', _) = load_player codec storage n times p allow d in
        (r ≡ success) × (data_of (find p n') ≡ some x)
  unfolding load_player
  load-stored n times p allow d x b there ok value parsed =
      let y : PlayerRepositoryRecord = record (record_or_new (find p n)) { player_data = x } in
      ground (arith, find-put p p (finish_load times y) n, nat_eq_iff p p)

  -- With a storage that keeps its data set at a put, and where a get after a put that succeeded
  -- succeeds with the value that was put, and that has the data set: a flush that succeeds stores the
  -- player's data, and a load that follows, into any repository, succeeds and holds the same data.
  pub load_player-flush_player :
      (m n : Repository) (now p : ℕ) (times : LoadTimes) (allow : Bool) (d : D)
      (x : PlayerRepositoryRecord)
      → storage.has_dataset d ≡ true
      → find p m ≡ some x
      → (flush_player codec storage m now p d).0.ok ≡ true
      → let e = (flush_player codec storage m now p d).2 in
        let (r, n', _) = load_player codec storage n times p allow e in
        (r ≡ success) × (data_of (find p n') ≡ some x.player_data)
  unfolding flush_player
  load_player-flush_player m n now p times allow d x there found ok = elim (Bool-cases x.loaded) [
    | inr u ↦ absurd (ground arith)
    | inl u ↦ elim (Option-cases (codec.serialize x.player_data)) [
      | inl s ↦ absurd (ground arith)
      | inr (b, s) ↦ elim (Bool-cases (storage.dataset_put d (to_string p) b).0.ok) [
        | inr v ↦ absurd (ground arith)
        | inl v ↦
            subst
              (λ e.
                let (r, n', _) = load_player codec storage n times p allow e in
                (r ≡ success) × (data_of (find p n') ≡ some x.player_data))
              (sym (stored b u s v))
              (load-stored n times p allow (storage.dataset_put d (to_string p) b).1 x.player_data b
                (laws.has-put d (to_string p) b there) (laws.get-put d (to_string p) b v).0
                (laws.get-put d (to_string p) b v).1 (codec.parse-serialize x.player_data b s))
      ]
    ]
  ]
    where
      stored :
          (b : Bytes)
          → x.loaded ≡ true
          → codec.serialize x.player_data ≡ some b
          → (storage.dataset_put d (to_string p) b).0.ok ≡ true
          → (flush_player codec storage m now p d).2 ≡ (storage.dataset_put d (to_string p) b).1
      stored b u s v = ground arith
