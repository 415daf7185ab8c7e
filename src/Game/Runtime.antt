-- ===== src/Game/Runtime.antt =====
-- src/game/services/player_runtime_service: the instance of each player that is served here, with
-- the commands that it handles. The repository is there.
use some_server.Base.{
  ℕ, Bool, true, false, Option, none, some, [], ◌∷◌, Bytes, if◌then◌else◌, inc64, Eq_ℕ,
}
use some_server.Base.Table.{Table, find, put, erase, contains}
use some_server.Ipc.Types.{Result, success, failure}
use some_server.Game.Repository.{Repository, PlayerRepositoryRecord, snapshot, set_display_name}

-- The count of commands of each instance.
abbrev pub Runtime : Type 0
Runtime = Table ℕ ℕ

pub record EchoResponse : Type 0 where
  pub player_id : ℕ
  pub text : Bytes
  pub display_name : Bytes
  pub login_count : ℕ

-- The record of a player that is loaded.
abbrev pub loaded_record : Repository → ℕ → Option PlayerRepositoryRecord
loaded_record m player_id = elim (snapshot m player_id) [
  | none ↦ none
  | some x ↦ if x.loaded then some x else none
]

unfoldable pub ensure_player : Repository → Runtime → ℕ → Result × Runtime
unfolding snapshot
ensure_player m t player_id = elim (loaded_record m player_id) [
  | none ↦ (failure "player repository is not loaded", t)
  | some _ ↦ (success, if contains player_id t then t else put player_id 0 t)
]

unfoldable pub remove_player : Runtime → ℕ → Result × Runtime
remove_player t player_id =
    if contains player_id t
    then (success, erase player_id t)
    else (failure "player runtime is not tracked", t)

-- A failure leaves the response of the caller as it was, which is none here.
unfoldable pub handle_echo :
    Repository → Runtime → ℕ → Bytes → Result × Option EchoResponse × Runtime
unfolding snapshot
handle_echo m t player_id request_text = elim (find player_id t) [
  | none ↦ (failure "player runtime is not tracked", none, t)
  | some count ↦ elim (loaded_record m player_id) [
    | none ↦ (failure "player repository is not loaded", none, t)
    | some x ↦ (
      success,
      some (record {
        player_id = player_id;
        text = request_text;
        display_name = x.player_data.display_name;
        login_count = x.player_data.login_count;
      }),
      put player_id (inc64 count) t,
    )
  ]
]

abbrev is_empty : Bytes → Bool
is_empty [] = true
is_empty (c ∷ s) = false

unfoldable pub handle_rename : Repository → Runtime → ℕ → ℕ → Bytes → Result × Repository × Runtime
unfolding set_display_name
handle_rename m t now player_id name = elim (find player_id t) [
  | none ↦ (failure "player runtime is not tracked", m, t)
  | some count ↦
      if is_empty name
      then (failure "display_name must not be empty", m, t)
      else let (result, m') = set_display_name m now player_id name in
        if result.ok then (success, m', put player_id (inc64 count) t) else (result, m', t)
]
