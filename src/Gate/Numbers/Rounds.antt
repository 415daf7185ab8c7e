-- ===== src/Gate/Numbers/Rounds.antt =====
-- A round of the worker thread of a gate leaves each session under the number of its connection.
use some_server.Base.{
  ℕ, ◌≡◌, inl, inr, refl, sym, subst, List, [], ◌∷◌, arith, Eq_ℕ, Eq_String, Eq_Bytes, Bool-cases,
  Option-cases, Bytes,
}
use some_server.Base.Table.{Table}
use some_server.Gate.State.{World, Gate}
use some_server.Ipc.Frame.{read32}
use some_server.Gate.Connections.{handle_readable, finalize_connection, read_exact, note_received}
use some_server.Gate.Connections.Worker.{
  accept_ready_socket, handle_ready, worker_round, listed, watch, serve, watched, accept_if_ready,
}
use some_server.Gate.Login.Disconnect.{disconnected}
use some_server.Gate.Messages.{
  handle_client_player_message, dispatch_client_message, handle_message, gate_round, ClientHandler,
  call_handler, handler_of, login, heartbeat, player_message, unsupported,
}
use some_server.Gate.Protocol.{handle_heartbeat}
use some_server.Gate.Numbers.{IsNumbered, moved, finalize_connection-IsNumbered}
use some_server.Gate.Numbers.Handlers.{
  handle_client_login-IsNumbered, handle_client_player_message-sessions, handle_heartbeat-sessions,
}

module _ {W : Type 0} (world : World W) where
  call_handler-IsNumbered :
      (h : ClientHandler) (g : Gate W) (c : ℕ) (payload : Bytes)
      → IsNumbered world g
      → IsNumbered world (call_handler world h g c payload).1
  unfolding call_handler
  call_handler-IsNumbered login g c payload all =
      elim (Option-cases (world.parse_login_request payload)) [
        | inl t ↦ ground arith
        | inr (request, t) ↦ ground (arith, handle_client_login-IsNumbered world g c request all)
      ]
  call_handler-IsNumbered heartbeat g c payload all =
      let g' = (handle_heartbeat world g c).1 in
      ground (arith, moved world g g' (handle_heartbeat-sessions world g c) all)
  call_handler-IsNumbered player_message g c payload all =
      elim (Option-cases (world.parse_player_message_request payload)) [
        | inl t ↦ ground arith
        | inr (request, t) ↦
            let g' = (handle_client_player_message world g c request).1 in
            ground (
              arith,
              moved world g g' (handle_client_player_message-sessions world g c request) all,
            )
      ]
  call_handler-IsNumbered unsupported g c payload all = all

  handle_message-IsNumbered :
      (c id : ℕ) (payload : Bytes) (g : Gate W)
      → IsNumbered world g
      → IsNumbered world (handle_message world c id payload g)
  unfolding dispatch_client_message
  handle_message-IsNumbered c id payload g all =
      call_handler-IsNumbered (handler_of id) g c payload all

  handle_readable-IsNumbered :
      (g : Gate W) (c fd : ℕ)
      → IsNumbered world g
      → IsNumbered world (handle_readable world (disconnected world) (handle_message world) g c fd)
  unfolding handle_readable
  handle_readable-IsNumbered g c fd all =
      let (header, w) = read_exact world fd 8 g.world in
      let g' = record g { world = w } in
      elim (Option-cases (read_exact world fd 8 g.world).0) [
        | inl t ↦ ground (arith, finalize_connection-IsNumbered world c g' all)
        | inr (h, t) ↦
            let (payload, w') = read_exact world fd (read32 4 h) w in
            let g'' = record g { world = w' } in
            elim (Option-cases (read_exact world fd (read32 4 h) w).0) [
              | inl t' ↦
                  let same : handle_readable world (disconnected world) (handle_message world) g c
                        fd
                      ≡ finalize_connection world (disconnected world) g'' c =
                    rw (handle_readable, t, t') refl in
                  subst (IsNumbered world) (sym same)
                    (finalize_connection-IsNumbered world c g'' all)
              | inr (bytes, t') ↦
                  let noted =
                    note_received world (disconnected world) (handle_message world) g'' c in
                  let same : handle_readable world (disconnected world) (handle_message world) g c
                        fd
                      ≡ handle_message world c (read32 0 h) bytes noted =
                    rw (handle_readable, t, t') refl in
                  let kept : noted.sessions ≡ g.sessions = ground arith in
                  subst (IsNumbered world) (sym same) (
                    handle_message-IsNumbered c (read32 0 h) bytes noted
                      (moved world g noted kept all))
            ]
      ]

  handle_ready-IsNumbered :
      (ready : List ℕ) (sockets : Table ℕ ℕ) (g : Gate W)
      → IsNumbered world g
      → IsNumbered world
          (handle_ready world (disconnected world) (handle_message world) ready sockets g)
  unfolding handle_ready
  handle_ready-IsNumbered ready [] g all = all
  handle_ready-IsNumbered ready ((c, fd) ∷ rest) g all = elim (Bool-cases (listed fd ready)) [
    | inl t ↦
        let read = handle_readable world (disconnected world) (handle_message world) g c fd in
        let same : handle_ready world (disconnected world) (handle_message world) ready
              ((c, fd) ∷ rest) g
            ≡ handle_ready world (disconnected world) (handle_message world) ready rest read =
          rw (handle_ready, t) refl in
        subst (IsNumbered world) (sym same)
          (handle_ready-IsNumbered ready rest read (handle_readable-IsNumbered g c fd all))
    | inr t ↦
        let same : handle_ready world (disconnected world) (handle_message world) ready
              ((c, fd) ∷ rest) g
            ≡ handle_ready world (disconnected world) (handle_message world) ready rest g =
          rw (handle_ready, t) refl in
        subst (IsNumbered world) (sym same) (handle_ready-IsNumbered ready rest g all)
  ]

  accept_ready_socket-sessions : (g : Gate W) → (accept_ready_socket world g).sessions ≡ g.sessions
  unfolding accept_ready_socket
  accept_ready_socket-sessions g = ground arith

  accept_if_ready-IsNumbered :
      (ready : List ℕ) (g : Gate W)
      → IsNumbered world g
      → IsNumbered world (accept_if_ready world (disconnected world) (handle_message world) ready g)
  accept_if_ready-IsNumbered ready g all =
      ground
        (arith, moved world g (accept_ready_socket world g) (accept_ready_socket-sessions g) all)

  serve-IsNumbered :
      (ready : List ℕ) (g : Gate W)
      → IsNumbered world g
      → IsNumbered world (serve world (disconnected world) (handle_message world) ready g)
  unfolding serve
  serve-IsNumbered [] g all = all
  serve-IsNumbered (r ∷ rs) g all =
      handle_ready-IsNumbered (r ∷ rs) g.connections.socket_by_connection_id _
        (accept_if_ready-IsNumbered (r ∷ rs) g all)

  watch-IsNumbered :
      (fds : List ℕ) (g : Gate W)
      → IsNumbered world g
      → IsNumbered world (watch world (disconnected world) (handle_message world) fds g).1
  unfolding watch
  watch-IsNumbered [] g all = all
  watch-IsNumbered (fd ∷ fds) g all =
      let (ready, w) = world.select (fd ∷ fds) g.world in
      serve-IsNumbered ready (record g { world = w }) all

  pub gate_round-IsNumbered :
      (g : Gate W) → IsNumbered world g → IsNumbered world (gate_round world g).1
  unfolding worker_round
  gate_round-IsNumbered g all = ground (arith, watch-IsNumbered (watched g.connections) g all)
