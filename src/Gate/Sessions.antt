-- ===== src/Gate/Sessions.antt =====
-- src/gate/services/session_service: the sessions of the connections of a gate. Each method holds
-- the lock; the clock comes in as an argument.
use some_server.Base.{
  ℕ, ◌≡◌, ◌⊎◌, inl, inr, refl, sym, ap, subst, Bool, true, false, ◌&&◌, Option, none, some, List,
  [], ◌∷◌, Bytes, arith, nat_eq, if◌then◌else◌, ◌==◌, Eq_ℕ, Eq_Bytes, Bool-cases, Option-cases,
  inc64,
}
use some_server.Base.Table.{
  Table, find, put, erase, contains, AllEntries, AllEntries-find, AllEntries-put, AllEntries-erase,
}
use some_server.Ipc.Types.{Result, success, failure}

pub data GateSessionState : Type 0 where
  anonymous logging_in active kicked reconnecting closing : GateSessionState

pub record GateSessionRecord : Type 0 where
  pub state : GateSessionState
  pub gate_session_id : ℕ
  pub connection_id : ℕ
  pub account_id : Bytes
  pub player_id : ℕ
  pub game_service_type : ℕ
  pub game_instance_id : ℕ
  pub login_version : ℕ
  pub session_epoch : ℕ
  pub last_active_time_ms : ℕ

abbrev pub Sessions : Type 0
Sessions = Table ℕ GateSessionRecord

-- A session that has just been opened.
abbrev pub opened : ℕ → ℕ → ℕ → GateSessionRecord
opened now gate_session_id connection_id = record {
  state = anonymous;
  gate_session_id = gate_session_id;
  connection_id = connection_id;
  account_id = [];
  player_id = 0;
  game_service_type = 0;
  game_instance_id = 0;
  login_version = 0;
  session_epoch = 1;
  last_active_time_ms = now;
}

unfoldable pub open_anonymous : Sessions → ℕ → ℕ → ℕ → Result × Sessions
open_anonymous m now gate_session_id connection_id =
    if contains gate_session_id m
    then (failure "session already exists", m)
    else (success, put gate_session_id (opened now gate_session_id connection_id) m)

-- The arguments of `Activate` behind the session.
pub record Login : Type 0 where
  pub account_id : Bytes
  pub player_id : ℕ
  pub game_service_type : ℕ
  pub game_instance_id : ℕ

abbrev pub logged_in : ℕ → ℕ → Login → GateSessionRecord → GateSessionRecord
logged_in now gate_session_id login r = record r {
  state = active;
  gate_session_id = gate_session_id;
  account_id = login.account_id;
  player_id = login.player_id;
  game_service_type = login.game_service_type;
  game_instance_id = login.game_instance_id;
  login_version = inc64 r.login_version;
  session_epoch = inc64 r.session_epoch;
  last_active_time_ms = now;
}

unfoldable pub activate : Sessions → ℕ → ℕ → Login → Result × Sessions
activate m now gate_session_id login = elim (find gate_session_id m) [
  | none ↦ (failure "session does not exist", m)
  | some r ↦ (success, put gate_session_id (logged_in now gate_session_id login r) m)
]

-- The first session of a connection, with its key.
unfoldable pub first_of_connection : ℕ → Sessions → Option (ℕ × GateSessionRecord)
first_of_connection connection_id [] = none
first_of_connection connection_id ((key, r) ∷ m) =
    if nat_eq r.connection_id connection_id
    then some (key, r)
    else first_of_connection connection_id m

unfoldable pub find_by_connection : Sessions → ℕ → Option GateSessionRecord
unfolding first_of_connection
find_by_connection m connection_id = elim (first_of_connection connection_id m) [
  | none ↦ none
  | some (key, r) ↦ some r
]

abbrev pub is_signed_in : GateSessionState → Bool
is_signed_in active = true
is_signed_in logging_in = true
is_signed_in _ = false

unfoldable pub find_by_account : Sessions → Bytes → Option GateSessionRecord
find_by_account [] account_id = none
find_by_account ((key, r) ∷ m) account_id =
    if r.account_id == account_id && is_signed_in r.state
    then some r
    else find_by_account m account_id

-- The session that was removed comes back in `*removed`.
unfoldable pub remove_by_connection : Sessions → ℕ → Result × Option GateSessionRecord × Sessions
unfolding first_of_connection
remove_by_connection m connection_id = elim (first_of_connection connection_id m) [
  | none ↦ (failure "session for connection does not exist", none, m)
  | some (key, r) ↦ (success, some (record r { state = closing }), erase key m)
]

unfoldable pub snapshot : Sessions → ℕ → Option GateSessionRecord
snapshot m gate_session_id = find gate_session_id m

-- A call that changes the sessions.
pub data Call : Type 0 where
  opens : ℕ → ℕ → ℕ → Call
  activates : ℕ → ℕ → Login → Call
  removes : ℕ → Call

abbrev pub step : Sessions → Call → Sessions
step m (opens now id connection) = (open_anonymous m now id connection).1
step m (activates now id login) = (activate m now id login).1
step m (removes connection) = (remove_by_connection m connection).2

abbrev pub run : Sessions → List Call → Sessions
run m [] = m
run m (c ∷ cs) = run (step m c) cs

-- A session stands under its own number, is anonymous before its first login and active after it,
-- and its epoch is one ahead of its logins.
abbrev pub Stands : ℕ → GateSessionRecord → Type 0
Stands key r =
    (r.gate_session_id ≡ key)
    × ((r.state ≡ anonymous) ⊎ (r.state ≡ active))
    × (r.session_epoch ≡ inc64 r.login_version)

step-Stands : (c : Call) (m : Sessions) → AllEntries Stands m → AllEntries Stands (step m c)
unfolding open_anonymous activate remove_by_connection
step-Stands (opens now id connection) m all = elim (Bool-cases (contains id m)) [
  | inl t ↦
      let same : (open_anonymous m now id connection).1 ≡ m = ground arith in
      subst (AllEntries Stands) (sym same) all
  | inr t ↦
      let r = opened now id connection in
      let added : (open_anonymous m now id connection).1 ≡ put id r m = ground arith in
      subst (AllEntries Stands) (sym added)
        (AllEntries-put Stands id r m all (refl, inl refl, refl))
]
step-Stands (activates now id login) m all = elim (Option-cases (find id m)) [
  | inl t ↦
      let same : (activate m now id login).1 ≡ m = rw (activate, t) refl in
      subst (AllEntries Stands) (sym same) all
  | inr (r, t) ↦
      let after = logged_in now id login r in
      let before = AllEntries-find Stands id r m all t in
      let changed : (activate m now id login).1 ≡ put id after m = rw (activate, t) refl in
      subst (AllEntries Stands) (sym changed)
        (AllEntries-put Stands id after m all (refl, inr refl, ap inc64 before.2))
]
step-Stands (removes connection) m all = elim (Option-cases (first_of_connection connection m)) [
  | inl t ↦
      let same : (remove_by_connection m connection).2 ≡ m = rw (remove_by_connection, t) refl in
      subst (AllEntries Stands) (sym same) all
  | inr ((key, r), t) ↦
      let removed : (remove_by_connection m connection).2 ≡ erase key m =
        rw (remove_by_connection, t) refl in
      subst (AllEntries Stands) (sym removed) (AllEntries-erase Stands key m all)
]

run-Stands : (cs : List Call) (m : Sessions) → AllEntries Stands m → AllEntries Stands (run m cs)
run-Stands [] m all = all
run-Stands (c ∷ cs) m all = run-Stands cs (step m c) (step-Stands c m all)

-- After any calls, from no sessions, a session that a snapshot finds has the number that was asked
-- for, is anonymous or active, and has an epoch one ahead of its login version.
pub snapshot-run :
    (cs : List Call) (id : ℕ) (r : GateSessionRecord)
    → snapshot (run [] cs) id ≡ some r
    → Stands id r
unfolding snapshot
snapshot-run cs id r h = AllEntries-find Stands id r (run [] cs) (run-Stands cs [] tt) h
