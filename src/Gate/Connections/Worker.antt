-- ===== src/Gate/Connections/Worker.antt =====
-- `Start`, `Stop` and `WorkerLoop` of the connection service: the thread that accepts the
-- connections of the clients and reads from them.
use some_server.Base.{
  ℕ, Bool, true, false, ◌||◌, Option, none, some, List, [], ◌∷◌, nat_eq, if◌then◌else◌, Eq_ℕ,
  Eq_String, Eq_Bytes, Bytes, inc64,
}
use some_server.Base.Table.{Table, put}
use some_server.Gate.State.{ConnectionService, World, Gate}
use some_server.Gate.Connections.{arrived, handle_readable}

-- `FD_ISSET`
abbrev pub listed : ℕ → List ℕ → Bool
listed fd [] = false
listed fd (r ∷ rs) = nat_eq r fd || listed fd rs

abbrev sockets_of : Table ℕ ℕ → List ℕ
sockets_of [] = []
sockets_of ((connection_id, fd) ∷ rest) = fd ∷ sockets_of rest

abbrev pub watched : ConnectionService → List ℕ
watched s = elim (s.listen_socket_fd) [
  | none ↦ sockets_of s.socket_by_connection_id
  | some fd ↦ fd ∷ sockets_of s.socket_by_connection_id
]

module _ {W : Type 0} (world : World W) where
  -- The listening socket, unless it cannot be had.
  abbrev open_listen : W → Option ℕ × W
  open_listen w =
      let (socket, w') = world.set_up w in
      elim socket [
        | none ↦ (none, w')
        | some fd ↦
            let (listens, w'') = world.bind_listen fd w' in
            if listens then (some fd, w'') else (none, world.close fd w'')
      ]

  unfoldable pub start : Gate W → Gate W
  start g =
      if g.connections.has_worker
      then g
      else let (socket, w) = open_listen g.world in
        elim socket [
          | none ↦ record g {
            connections = record (g.connections) { listen_socket_fd = none };
            world = w;
          }
          | some fd ↦ record g {
            connections = record (g.connections) {
              listen_socket_fd = some fd;
              stopping = false;
              has_worker = true;
            };
            world = w;
          }
        ]

  unfoldable pub close_each : Table ℕ ℕ → W → W
  close_each [] w = w
  close_each ((connection_id, fd) ∷ rest) w = close_each rest (world.close fd w)

  abbrev close_listen : Option ℕ → W → W
  close_listen none w = w
  close_listen (some fd) w = world.close fd w

  -- The thread is waited for: it has ended when this returns.
  unfoldable pub stop : Gate W → Gate W
  unfolding close_each
  stop g = record g {
    connections = record (g.connections) {
      stopping = true;
      listen_socket_fd = none;
      socket_by_connection_id = [];
      connection_id_by_socket = [];
      has_worker = false;
    };
    world =
        close_each g.connections.socket_by_connection_id
          (close_listen g.connections.listen_socket_fd g.world);
  }

  -- `AcceptReadySocket`; the number of the connections is a 64-bit counter.
  unfoldable pub accept_ready_socket : Gate W → Gate W
  accept_ready_socket g = elim (g.connections.listen_socket_fd) [
    | none ↦ g
    | some listen_fd ↦
        let (taken, w) = world.accept listen_fd g.world in
        elim taken [
          | none ↦ record g { world = w }
          | some (fd, remote_endpoint) ↦
              let (now, w') = world.now_ms w in
              let s = g.connections in
              let id = s.next_connection_id in
              record g {
                connections = record s {
                  next_connection_id = inc64 id;
                  connections = put id (arrived now remote_endpoint) s.connections;
                  socket_by_connection_id = put id fd s.socket_by_connection_id;
                  connection_id_by_socket = put fd id s.connection_id_by_socket;
                };
                world = w';
              }
        ]
  ]

  module _ (disconnected : ℕ → Gate W → Gate W)
      (handle_message : ℕ → ℕ → Bytes → Gate W → Gate W) where
    -- The ready ones among the sockets that were listed before `select`, in their order.
    unfoldable pub handle_ready : List ℕ → Table ℕ ℕ → Gate W → Gate W
    handle_ready ready [] g = g
    handle_ready ready ((connection_id, fd) ∷ rest) g = handle_ready ready rest (
        if listed fd ready
        then handle_readable world disconnected handle_message g connection_id fd
        else g)

    abbrev pub accept_if_ready : List ℕ → Gate W → Gate W
    accept_if_ready ready g = elim (g.connections.listen_socket_fd) [
      | none ↦ g
      | some fd ↦ if listed fd ready then accept_ready_socket g else g
    ]

    -- What the round does with the sockets that are ready.
    unfoldable pub serve : List ℕ → Gate W → Gate W
    unfolding handle_ready
    serve [] g = g
    serve (r ∷ rs) g =
        handle_ready (r ∷ rs) g.connections.socket_by_connection_id (accept_if_ready (r ∷ rs) g)

    -- The round behind the list of what is watched.
    unfoldable pub watch : List ℕ → Gate W → Bool × Gate W
    unfolding serve
    watch [] g = (false, g)
    watch (fd ∷ fds) g =
        let (ready, w) = world.select (fd ∷ fds) g.world in
        (true, serve ready (record g { world = w }))

    -- One round of `WorkerLoop`; whether the thread goes on.
    unfoldable pub worker_round : Gate W → Bool × Gate W
    unfolding watch
    worker_round g = if g.connections.stopping then (false, g) else watch (watched g.connections) g
