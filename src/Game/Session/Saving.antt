-- ===== src/Game/Session/Saving.antt =====
-- Dirty data of a player is stored before the player is released, or it is kept.
use some_server.Base.{ℕ, ◌≡◌, sym, subst, Bool, true, false, some, arith, nat_eq_iff, Eq_ℕ}
use some_server.Base.Table.{find, put, find-put}
use some_server.Ipc.Types.{success, Result}
use some_server.Game.Redis.{Redis}
use some_server.Game.Repository.{
  DataCodec, Storage, LoadTimes, PlayerRepositoryRecord, Repository, load_player, flush_player,
  snapshot,
}
use some_server.Game.Repository.Durability.{StorageLaws, data_of, load_player-flush_player}
use some_server.Game.Session.{
  Game, unloading, PlayerSessionRecord, or_else, unbind_player, release_data, remove_runtime,
  release_lease, flush,
}
use some_server.Game.Session.Ending.{restore, leave, release_session}
use some_server.Game.Session.Releases.{begin_unload, release_session_cases}

module _ {D R : Type 0} (redis : Redis R) where
  -- To leave the service does not touch the storage.
  leave-storage : (p : ℕ) (g : Game D R) → (leave redis p g).1.storage_state ≡ g.storage_state
  unfolding leave or_else unbind_player release_data remove_runtime release_lease
  leave-storage p g = ground arith

module _ {D R : Type 0} (codec : DataCodec) (storage : Storage D) (redis : Redis R)
    (laws : StorageLaws storage) where
  -- With a storage that keeps its data set at a put, and where a get after a put that succeeded
  -- succeeds with the value that was put, and that has the data set: once `ReleasePlayer` succeeds for
  -- a player whose data was dirty, a load from the storage as it is then succeeds, in any repository,
  -- with the data that the player had.
  pub release_session_saves :
      (now flush_ms p : ℕ) (g : Game D R) (x : PlayerRepositoryRecord) (n : Repository)
      (times : LoadTimes) (allow : Bool)
      → storage.has_dataset g.storage_state ≡ true
      → find p g.repository ≡ some x
      → x.dirty ≡ true
      → (release_session codec storage redis now flush_ms p g).0.ok ≡ true
      → let h = (release_session codec storage redis now flush_ms p g).1 in
        let (r, n', _) = load_player codec storage n times p allow h.storage_state in
        (r ≡ success) × (data_of (find p n') ≡ some x.player_data)
  unfolding flush snapshot
  release_session_saves now flush_ms p g x n times allow there found dirty =
      release_session_cases codec storage redis now flush_ms p g P (λ _ ok. absurd (ground arith))
        (λ y _ clean _. absurd (ground arith))
        (λ y _ saved _.
          subst Loads
            (sym
              (leave-storage redis p (flush codec storage flush_ms p (begin_unload now p y g)).1))
            (load_player-flush_player codec storage laws g.repository n flush_ms p times allow
              g.storage_state x there found saved))
        (λ y _ _ ok. absurd (ground arith))
    where
      Loads : D → Type 0
      Loads d =
          let (r, n', _) = load_player codec storage n times p allow d in
          (r ≡ success) × (data_of (find p n') ≡ some x.player_data)

      P : Result × Game D R → Type 0
      P r = r.0.ok ≡ true → Loads r.1.storage_state

module _ {D R : Type 0} (codec : DataCodec) (storage : Storage D) (redis : Redis R) where
  -- Where the storage refuses the data, `ReleasePlayer` fails, and the player keeps the session,
  -- the data, the lease, the receiver and the instance.
  pub release_session_keeps :
      (now flush_ms p : ℕ) (g : Game D R) (x : PlayerRepositoryRecord) (y : PlayerSessionRecord)
      → find p g.players ≡ some y
      → find p g.repository ≡ some x
      → x.dirty ≡ true
      → (flush_player codec storage g.repository flush_ms p g.storage_state).0.ok ≡ false
      → let (r, h) = release_session codec storage redis now flush_ms p g in
        (r.ok ≡ false)
        × (find p h.players ≡ some y)
        × (h.repository ≡ g.repository)
        × (h.lease ≡ g.lease)
        × (h.ipc ≡ g.ipc)
        × (h.runtime ≡ g.runtime)
  unfolding flush snapshot restore flush_player
  release_session_keeps now flush_ms p g x y found_y found dirty refused =
      release_session_cases codec storage redis now flush_ms p g P (λ e. absurd (ground arith))
        (λ z _ clean. absurd (ground arith)) (λ z _ saved. absurd (ground arith))
        (λ z e f.
          let u = record z { state = unloading; last_state_change_ms = now } in
          let (r, m, d) = flush_player codec storage g.repository flush_ms p g.storage_state in
          let kept : m ≡ g.repository = ground arith in
          ground (
            arith,
            kept,
            find-put p p u g.players,
            find-put p p z (put p u g.players),
            nat_eq_iff p p,
          ))
    where
      P : Result × Game D R → Type 0
      P (r, h) =
          (r.ok ≡ false)
          × (find p h.players ≡ some y)
          × (h.repository ≡ g.repository)
          × (h.lease ≡ g.lease)
          × (h.ipc ≡ g.ipc)
          × (h.runtime ≡ g.runtime)
