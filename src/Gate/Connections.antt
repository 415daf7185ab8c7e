-- ===== src/Gate/Connections.antt =====
-- src/gate/services/connection_service: the client connections of a gate and their sockets. A method
-- takes the gate when it calls the handlers that the application has set; the lock is released for
-- such a call, and nothing runs in between.
pub mod Writing
pub mod Worker
use some_server.Base.{
  ℕ, zero, suc, ◌+◌, ◌-◌, ◌*◌, ◌/◌, ◌%◌, ◌^◌, ◌≤◌, ◌<◌, ◌≡◌, ◌≢◌, ◌↔◌, ◌⊎◌, inl, inr, refl, sym, ap,
  ◌∙◌, subst, Bool, true, false, not, ◌&&◌, ◌||◌, Option, none, some, List, [], ◌∷◌, ◌++◌, String,
  arith, nat_eq, ltb, leb, if◌then◌else◌, ◌==◌, ◌/=◌, Eq, Eq_ℕ, Eq_String, Eq_Bytes, bytes_eq_iff,
  Bool-cases, Option-cases, is_some, Bytes, length, take, drop, inc64, add64,
}
use some_server.Base.Table.{
  Table, find, put, erase, contains, keys, AllEntries, Distinct, find-put, find-erase,
  AllEntries-put, AllEntries-erase, Distinct-put, Distinct-erase,
}
use some_server.Ipc.Types.{Result, success, failure}
use some_server.Ipc.Frame.{bytes32, read32}
use some_server.Gate.State.{
  GateConnectionState, GateConnectionRecord, ConnectionService, World, Gate,
}
use some_server.Gate.State.{accepted, anonymous, bound, closed}

-- A connection that came at `now` from an endpoint.
abbrev pub arrived : ℕ → Bytes → GateConnectionRecord
arrived now remote_endpoint = record {
  state = accepted;
  remote_endpoint = remote_endpoint;
  last_recv_time_ms = now;
  last_send_time_ms = now;
  heartbeat_deadline_ms = add64 now 30000;
}

unfoldable pub accept : ConnectionService → ℕ → ℕ → Bytes → Result × ConnectionService
accept s now connection_id remote_endpoint =
    if contains connection_id s.connections then (failure "connection already exists", s) else (
      success,
      record s { connections = put connection_id (arrived now remote_endpoint) s.connections },
    )

-- A new state for a connection that exists.
abbrev pub mark : GateConnectionState → ConnectionService → ℕ → Result × ConnectionService
mark state s connection_id = elim (find connection_id s.connections) [
  | none ↦ (failure "connection does not exist", s)
  | some r ↦ (
    success,
    record s { connections = put connection_id (record r { state = state }) s.connections },
  )
]

unfoldable pub mark_anonymous : ConnectionService → ℕ → Result × ConnectionService
mark_anonymous = mark anonymous

unfoldable pub mark_bound : ConnectionService → ℕ → Result × ConnectionService
mark_bound = mark bound

unfoldable pub snapshot : ConnectionService → ℕ → Option GateConnectionRecord
snapshot s connection_id = find connection_id s.connections

module _ {W : Type 0} (world : World W) where
  -- `WriteExact`, with as many rounds as there are bytes at most.
  unfoldable pub write_loop : ℕ → ℕ → Bytes → W → Bool × W
  write_loop rounds fd [] w = (true, w)
  write_loop zero fd (c ∷ s) w = (false, w)
  write_loop (suc n) fd (c ∷ s) w =
      let (sent, w') = world.send fd (c ∷ s) w in
      if nat_eq sent 0 then (false, w') else write_loop n fd (drop sent (c ∷ s)) w'

  abbrev pub write_exact : ℕ → Bytes → W → Bool × W
  write_exact fd s = write_loop (length s) fd s

  -- `ReadExact`, with as many rounds as bytes are asked for at most.
  unfoldable pub read_loop : ℕ → ℕ → ℕ → W → Option Bytes × W
  read_loop rounds fd zero w = (some [], w)
  read_loop zero fd (suc size) w = (none, w)
  read_loop (suc n) fd (suc size) w =
      let (received, w') = world.recv fd (suc size) w in
      if nat_eq (length received) 0
      then (none, w')
      else let (rest, w'') = read_loop n fd (suc size - length received) w' in
        elim rest [ none ↦ (none, w'') | some bytes ↦ (some (received ++ bytes), w'') ]

  abbrev pub read_exact : ℕ → ℕ → W → Option Bytes × W
  read_exact fd size = read_loop size fd size

  -- `CloseSocketLocked`
  unfoldable pub close_socket : Gate W → ℕ → Gate W
  close_socket g connection_id = elim (find connection_id g.connections.socket_by_connection_id) [
    | none ↦ g
    | some fd ↦ record g {
      connections = record (g.connections) {
        connection_id_by_socket = erase fd g.connections.connection_id_by_socket;
        socket_by_connection_id = erase connection_id g.connections.socket_by_connection_id;
      };
      world = world.close fd g.world;
    }
  ]

  -- What `Send` writes: a header of the message's number and the size of the payload, and the
  -- payload unless it is empty.
  unfoldable pub write_frame : ℕ → ℕ → Bytes → W → Result × W
  unfolding write_loop
  write_frame fd message_id payload w =
      let (header, w') = write_exact fd (bytes32 message_id ++ bytes32 (length payload)) w in
      if header
      then (let (body, w'') = write_exact fd payload w' in
          if body then (success, w'') else (failure "failed to send frame payload", w''))
      else (failure "failed to send frame header", w')

  -- `mConnections[connection_id]` with the time of the last message, where it is there.
  abbrev pub touched : ℕ → ℕ → ConnectionService → ConnectionService
  touched now connection_id s = elim (find connection_id s.connections) [
    | none ↦ s
    | some r ↦ record s {
      connections = put connection_id (record r { last_send_time_ms = now }) s.connections;
    }
  ]

  unfoldable pub send : Gate W → ℕ → ℕ → Bytes → Result × Gate W
  unfolding write_frame
  send g connection_id message_id payload =
      elim (find connection_id g.connections.socket_by_connection_id) [
        | none ↦ (failure "connection socket does not exist", g)
        | some fd ↦
            let (result, w) = write_frame fd message_id payload g.world in
            if result.ok
            then (let (now, w') = world.now_ms w in
                (
                  success,
                  record g { connections = touched now connection_id g.connections; world = w' },
                ))
            else (result, record g { world = w })
      ]

  module _ (disconnected : ℕ → Gate W → Gate W) where
    abbrev pub closed_at : ℕ → ℕ → ConnectionService → ConnectionService
    closed_at now connection_id s = elim (find connection_id s.connections) [
      | none ↦ s
      | some r ↦ record s {
        connections =
            put connection_id (record r { state = closed; last_recv_time_ms = now }) s.connections;
      }
    ]

    -- `FinalizeConnection`; the clock is read only for a connection that is there.
    abbrev pub note_closed : Gate W → ℕ → Gate W
    note_closed g connection_id =
        if contains connection_id g.connections.connections
        then (let (now, w) = world.now_ms g.world in
            record g { connections = closed_at now connection_id g.connections; world = w })
        else g

    unfoldable pub finalize_connection : Gate W → ℕ → Gate W
    unfolding close_socket
    finalize_connection g connection_id =
        disconnected connection_id (close_socket (note_closed g connection_id) connection_id)

    unfoldable pub close : Gate W → ℕ → Result × Gate W
    unfolding finalize_connection
    close g connection_id = elim (find connection_id g.connections.connections) [
      | none ↦ (failure "connection does not exist", g)
      | some r ↦
          let marked = record g {
            connections = record (g.connections) {
              connections =
                  put connection_id (record r { state = closed }) g.connections.connections;
            };
          } in
          (success, finalize_connection (close_socket marked connection_id) connection_id)
    ]

    module _ (handle_message : ℕ → ℕ → Bytes → Gate W → Gate W) where
      -- The times of a connection that has sent a whole message.
      abbrev pub received_at : ℕ → ℕ → ConnectionService → ConnectionService
      received_at now connection_id s = elim (find connection_id s.connections) [
        | none ↦ s
        | some r ↦ record s {
          connections =
              put connection_id
                (record r { last_recv_time_ms = now; heartbeat_deadline_ms = add64 now 30000 })
                s.connections;
        }
      ]

      abbrev pub note_received : Gate W → ℕ → Gate W
      note_received g connection_id =
          if contains connection_id g.connections.connections
          then (let (now, w) = world.now_ms g.world in
              record g { connections = received_at now connection_id g.connections; world = w })
          else g

      unfoldable pub handle_readable : Gate W → ℕ → ℕ → Gate W
      handle_readable g connection_id fd =
          let (header, w) = read_exact fd 8 g.world in
          let g' = record g { world = w } in
          elim header [
            | none ↦ finalize_connection g' connection_id
            | some h ↦
                let (payload, w') = read_exact fd (read32 4 h) w in
                let g'' = record g { world = w' } in
                elim payload [
                  | none ↦ finalize_connection g'' connection_id
                  | some bytes ↦
                      handle_message connection_id (read32 0 h) bytes
                        (note_received g'' connection_id)
                ]
          ]
