-- ===== src/Game/IpcClient.antt =====
-- src/game/services/ipc_client_service and player_receiver_host, as far as they bind players to
-- this process. Each method holds the lock of the service.
use some_server.Base.{
  ℕ, Bool, String, not, inc64, Option, none, some, List, [], ◌∷◌, ◌++◌, if◌then◌else◌, ◌/=◌, Eq_ℕ,
}
use some_server.Base.Table.{Table, put, erase, contains}
use some_server.Ipc.Types.{
  Result, success, failure, ProcessRef, ProcessId, ReceiverAddress, player_type, ReceiverLocation,
  ReceiverLocationKind, single_process, Eq_ProcessRef,
}
use some_server.Ipc.Directory
use some_server.Ipc.Directory.{Directory}

-- `pb::ipc::UnbindPlayerSession`, with the process that it is sent to.
pub record UnbindPlayerSession : Type 0 where
  pub to : ProcessId
  pub player_id : ℕ
  pub gate_service_type : ℕ
  pub gate_instance_id : ℕ
  pub gate_session_id : ℕ
  pub reason : ℕ

-- `pb::ipc::DISCONNECT_REASON_KICKED`
abbrev pub disconnect_reason_kicked : ℕ
disconnect_reason_kicked = 3

pub record IpcClient : Type 0 where
  -- the descriptor of this process, once it is set
  pub self : Option ProcessRef
  -- the players that the receiver host holds; a set
  pub receivers : Table ℕ (Unit {0})
  pub receiver_directory : Directory
  -- `mMessenger` is not null, and `IsIpcActiveLocked()`
  pub has_messenger : Bool
  pub is_ipc_active : Bool
  -- what `SendToProcess` of the messenger returns for a message, and what it was given, oldest first
  pub send_to_process : UnbindPlayerSession → Result
  pub sent : List UnbindPlayerSession
  pub send_reject_count : ℕ
  pub last_send_reject_reason : String
  pub last_error : String

abbrev pub player_receiver_address : ℕ → ReceiverAddress
player_receiver_address player_id = record { type = player_type; key_hi = player_id; key_lo = 0 }

unfoldable pub bind_local_player : IpcClient → ℕ → Result × IpcClient
bind_local_player c player_id = elim c.self [
  | none ↦ (failure "self descriptor is not initialized", c)
  | some self ↦
      if contains player_id c.receivers
      then (failure "player is already bound locally", c)
      else let (d, result) =
          Directory.bind c.receiver_directory (player_receiver_address player_id) self in
        (
          result,
          record c {
            receivers =
                if result.ok
                then put player_id tt c.receivers
                else erase player_id (put player_id tt c.receivers);
            receiver_directory = d;
          },
        )
]

-- The only process of a location that names one.
abbrev pub single_owner : ReceiverLocation → Option ProcessRef
single_owner l = owner l.kind l.processes
  where
    owner : ReceiverLocationKind → List ProcessRef → Option ProcessRef
    owner single_process (p ∷ []) = some p
    owner _ _ = none

unfoldable pub unbind_local_player : IpcClient → ℕ → Result × IpcClient
unbind_local_player c player_id = elim c.self [
  | none ↦ (failure "self descriptor is not initialized", c)
  | some self ↦
      if contains player_id c.receivers
      then (let receiver = player_receiver_address player_id in
          let location = Directory.resolve c.receiver_directory receiver in
          elim (single_owner location) [
            | none ↦ (failure "player receiver location is not locally resolvable", c)
            | some owner ↦
                if owner /= self
                then (failure "player receiver owner mismatch", c)
                else let (d, result) =
                    Directory.invalidate c.receiver_directory receiver self location.version in
                  if result.ok
                  then (
                    success,
                    record c { receivers = erase player_id c.receivers; receiver_directory = d },
                  )
                  else (result, record c { receiver_directory = d })
          ])
      else (failure "player is not bound locally", c)
]

-- `RecordSendRejectLocked`
abbrev pub record_send_reject : IpcClient → String → IpcClient
record_send_reject c reason = record c {
  send_reject_count = inc64 c.send_reject_count;
  last_send_reject_reason = reason;
  last_error = reason;
}

unfoldable pub send_process_payload : IpcClient → UnbindPlayerSession → Result × IpcClient
send_process_payload c request =
    if not c.has_messenger
    then (
      failure "messenger is not initialized",
      record_send_reject c "messenger is not initialized",
    )
    else if not c.is_ipc_active
    then (failure "ipc is not active", record_send_reject c "ipc is not active")
    else let result = c.send_to_process request in
      let c' = record c { sent = c.sent ++ request ∷ [] } in
      (result, (if result.ok then c' else record_send_reject c' result.message))
