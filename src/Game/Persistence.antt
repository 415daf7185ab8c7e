-- ===== src/Game/Persistence.antt =====
-- src/game/services/player_persistence_service: the background thread that writes dirty player data
-- to the storage. One round of its loop is `flush_due_players_once`, which runs here without the
-- calls of other threads in between. The dependencies are there, and the thread itself is left out.
pub mod Delay
pub mod Rounds
use some_server.Base.{
  ℕ, zero, suc, ◌+◌, ◌-◌, ◌*◌, ◌/◌, ◌%◌, ◌^◌, ◌≤◌, ◌<◌, ◌≡◌, ◌≢◌, ◌↔◌, ◌⊎◌, inl, inr, refl, sym, ap,
  ◌∙◌, subst, Bool, true, false, not, ◌&&◌, ◌||◌, Option, none, some, List, [], ◌∷◌, ◌++◌, String,
  arith, nat_eq, ltb, leb, if◌then◌else◌, ◌==◌, ◌/=◌, Eq, Eq_ℕ, Eq_String, Eq_Bytes, bytes_eq_iff,
  Bool-cases, Option-cases, is_some, Bytes, inc64, add64,
}
use some_server.Base.Table.{
  Table, find, put, erase, contains, keys, AllEntries, Distinct, find-put, find-erase,
  AllEntries-put, AllEntries-erase, Distinct-put, Distinct-erase,
}
use some_server.Ipc.Types.{Result}
use some_server.Game.Lease.{is_held_locally}
use some_server.Game.Repository.{
  DataCodec, Storage, Repository, PlayerRepositoryRecord, flush_player, loaded_player_ids, snapshot,
}
use some_server.Game.Session.{Game, PlayerSessionRecord, is_detached}

-- src/framework/storage/configuration.h
pub record DatasetTimingConfiguration : Type 0 where
  pub alive_time_seconds : ℕ
  pub landing_time_seconds : ℕ
  pub landing_min_time_seconds : ℕ

pub record PlayerPersistenceSnapshot : Type 0 where
  pub running : Bool
  pub scan_count : ℕ
  pub tracked_player_count : ℕ
  pub pending_initial_persist_count : ℕ
  pub created_without_maria_count : ℕ
  pub flush_attempt_count : ℕ
  pub flush_success_count : ℕ
  pub flush_failure_count : ℕ
  pub last_scan_ms : ℕ
  pub last_flush_player_id : ℕ
  pub last_flush_ms : ℕ
  pub last_error : String

pub record RetryState : Type 0 where
  pub consecutive_failure_count : ℕ
  pub next_retry_ms : ℕ
  pub last_failure_ms : ℕ
  pub last_error : String

-- What `RetryState{}` holds.
abbrev pub no_retry : RetryState
no_retry = record {
  consecutive_failure_count = 0;
  next_retry_ms = 0;
  last_failure_ms = 0;
  last_error = "";
}

abbrev pub retry_or_new : Option RetryState → RetryState
retry_or_new none = no_retry
retry_or_new (some r) = r

-- The timing of the data set of the players, where there is one, does not change.
pub record Persistence : Type 0 where
  pub timing : Option DatasetTimingConfiguration
  pub stats : PlayerPersistenceSnapshot
  pub retry_states : Table ℕ RetryState

abbrev pub max_backoff_multiplier : ℕ
max_backoff_multiplier = 8

-- The loop that doubles the multiplier, in as many rounds as `i` has left.
unfoldable pub backoff : ℕ → ℕ → ℕ
backoff zero multiplier = multiplier
backoff (suc rounds) multiplier =
    let doubled = backoff rounds (multiplier * 2 % 2 ^ 64) in
    if ltb multiplier max_backoff_multiplier then doubled else multiplier

unfoldable pub compute_retry_delay_ms : Option DatasetTimingConfiguration → ℕ → ℕ
unfolding backoff
compute_retry_delay_ms none consecutive_failure_count = 5000
compute_retry_delay_ms (some t) consecutive_failure_count =
    let base_ms = t.landing_min_time_seconds * 1000 % 2 ^ 64 in
    let max_ms = t.landing_time_seconds * 1000 % 2 ^ 64 in
    let delay_ms = base_ms * backoff (consecutive_failure_count - 1) 1 % 2 ^ 64 in
    if ltb delay_ms max_ms then delay_ms else max_ms

-- The retry of a player lies in the future.
abbrev pub waits : Option RetryState → ℕ → Bool
waits none now_ms = false
waits (some retry) now_ms = ltb now_ms retry.next_retry_ms

abbrev pub has_detached : Option PlayerSessionRecord → Bool
has_detached none = false
has_detached (some session) = is_detached session.state

-- `ShouldFlush`, from the retry state of the player.
abbrev pub is_due :
    Option DatasetTimingConfiguration
    → Option RetryState
    → PlayerRepositoryRecord
    → Option PlayerSessionRecord
    → ℕ
    → Bool
is_due timing retry repository session now_ms =
    if not repository.loaded || not repository.dirty
    then false
    else if repository.pending_initial_persist
    then true
    else elim timing [
      | none ↦ false
      | some t ↦
          if waits retry now_ms
          then false
          else if has_detached session
          then true
          else if nat_eq repository.last_dirty_ms 0
          then true
          else leb repository.last_dirty_ms now_ms
            && leb (t.landing_min_time_seconds * 1000 % 2 ^ 64) (now_ms - repository.last_dirty_ms)
    ]

unfoldable pub should_flush :
    Persistence → ℕ → PlayerRepositoryRecord → Option PlayerSessionRecord → ℕ → Bool
should_flush s player_id repository session now_ms =
    is_due s.timing (find player_id s.retry_states) repository session now_ms

-- The retry state after one more failure.
abbrev pub failed_again :
    Option DatasetTimingConfiguration → Option RetryState → ℕ → String → RetryState
failed_again timing before now_ms message =
    let count = inc64 (retry_or_new before).consecutive_failure_count in
    record {
      consecutive_failure_count = count;
      last_failure_ms = now_ms;
      next_retry_ms = add64 now_ms (compute_retry_delay_ms timing count);
      last_error = message;
    }

-- The local variables of one scan, beside the service and what it works on.
pub record Scan (D R : Type 0) : Type 0 where
  pub service : Persistence
  pub game : Game D R
  pub tracked_player_count : ℕ
  pub pending_initial_persist_count : ℕ
  pub created_without_maria_count : ℕ
  pub flushed : ℕ

-- `++count` where `b`, and the guarded `--count` where `b`.
abbrev pub count_if : Bool → ℕ → ℕ
count_if b n = if b then inc64 n else n

abbrev pub uncount_if : Bool → ℕ → ℕ
uncount_if b n = if b then n - 1 else n

abbrev pub attempted : Persistence → ℕ → ℕ → Persistence
attempted p player_id now_ms = record p {
  stats = record p.stats {
    flush_attempt_count = inc64 p.stats.flush_attempt_count;
    last_flush_player_id = player_id;
    last_flush_ms = now_ms;
  };
}

module _ {D R : Type 0} (codec : DataCodec) (storage : Storage D) where
  -- After `FlushPlayer`.
  abbrev pub after_flush : Scan D R → ℕ → PlayerRepositoryRecord → ℕ → Result → Scan D R
  after_flush s player_id repository now_ms flush =
      let p = s.service in
      if flush.ok
      then record s {
        service = record p {
          retry_states = erase player_id p.retry_states;
          stats = record p.stats { flush_success_count = inc64 p.stats.flush_success_count };
        };
        pending_initial_persist_count =
            uncount_if repository.pending_initial_persist s.pending_initial_persist_count;
        created_without_maria_count =
            uncount_if repository.created_without_maria s.created_without_maria_count;
        flushed = inc64 s.flushed;
      }
      else record s {
        service = record p {
          retry_states =
              put player_id
                (failed_again p.timing (find player_id p.retry_states) now_ms flush.message)
                p.retry_states;
          stats = record p.stats {
            flush_failure_count = inc64 p.stats.flush_failure_count;
            last_error = flush.message;
          };
        };
      }

  unfoldable pub flush_due : Scan D R → ℕ → PlayerRepositoryRecord → ℕ → ℕ → Scan D R
  flush_due s player_id repository now_ms flush_ms =
      let g = s.game in
      let (flush, repository', storage') =
        flush_player codec storage g.repository flush_ms player_id g.storage_state in
      after_flush
        (record s {
          service = attempted s.service player_id now_ms;
          game = record g { repository = repository'; storage_state = storage' };
        })
        player_id repository now_ms flush

  -- One player of the scan; `flush_ms` is the clock in `FlushPlayer`.
  unfoldable pub scan_player : Scan D R → ℕ → ℕ → ℕ → Scan D R
  unfolding should_flush flush_due is_held_locally snapshot
  scan_player s player_id now_ms flush_ms = elim (snapshot s.game.repository player_id) [
    | none ↦ s
    | some repository ↦
        let counted = record s {
          tracked_player_count = inc64 s.tracked_player_count;
          pending_initial_persist_count =
              count_if repository.pending_initial_persist s.pending_initial_persist_count;
          created_without_maria_count =
              count_if repository.created_without_maria s.created_without_maria_count;
        } in
        if is_held_locally s.game.lease player_id
          && should_flush s.service player_id repository (find player_id s.game.players) now_ms
        then flush_due counted player_id repository now_ms flush_ms
        else counted
  ]

  -- The players one after the other, with the clock for the flush of each.
  unfoldable pub scan_players : Scan D R → List ℕ → ℕ → (ℕ → ℕ) → Scan D R
  unfolding scan_player
  scan_players s [] now_ms clock = s
  scan_players s (player_id ∷ ids) now_ms clock =
      scan_players (scan_player s player_id now_ms (clock player_id)) ids now_ms clock

  unfoldable pub flush_due_players_once :
      Persistence → Game D R → ℕ → (ℕ → ℕ) → ℕ × Persistence × Game D R
  unfolding scan_players loaded_player_ids
  flush_due_players_once p g now_ms clock =
      let start : Scan D R = record {
        service = record p {
          stats = record p.stats { scan_count = inc64 p.stats.scan_count; last_scan_ms = now_ms };
        };
        game = g;
        tracked_player_count = 0;
        pending_initial_persist_count = 0;
        created_without_maria_count = 0;
        flushed = 0;
      } in
      let s = scan_players start (loaded_player_ids g.repository) now_ms clock in
      let q = s.service in
      (
        s.flushed,
        record q {
          stats = record q.stats {
            tracked_player_count = s.tracked_player_count;
            pending_initial_persist_count = s.pending_initial_persist_count;
            created_without_maria_count = s.created_without_maria_count;
          };
        },
        s.game,
      )

-- `ResetRetryStates` and `ResetRetryState`
abbrev table_size : Table ℕ RetryState → ℕ
table_size [] = 0
table_size (x ∷ m) = suc (table_size m)

unfoldable pub reset_retry_states : Persistence → ℕ × Persistence
reset_retry_states p = (
  table_size p.retry_states,
  record p { retry_states = []; stats = record p.stats { last_error = "" } },
)

unfoldable pub reset_retry_state : Persistence → ℕ → Bool × Persistence
reset_retry_state p player_id =
    (contains player_id p.retry_states, record p { retry_states = erase player_id p.retry_states })
