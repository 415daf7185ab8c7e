-- ===== src/Gate/Connections/Writing.antt =====
-- What writing to a client leaves alone: all but the clock of the connection, the counters of the
-- protocol and the socket.
use some_server.Base.{
  ℕ, zero, suc, ◌≡◌, inl, inr, refl, sym, ◌∙◌, subst, Option, none, some, [], ◌∷◌, ◌++◌, arith,
  Eq_ℕ, Eq_String, Eq_Bytes, Bool-cases, Option-cases, Bytes, length, drop,
}
use some_server.Base.Table.{find, keys, find-put}
use some_server.Gate.State.{
  GateConnectionState, GateConnectionRecord, ConnectionService, World, WorldLaws, Gate,
  ClientMessage, GateClientProtocolSnapshot,
}
use some_server.Base.{nat_eq_iff}
use some_server.Ipc.Frame.{bytes32}
use some_server.Gate.Connections.{write_loop, write_frame, send, touched}
use some_server.Gate.Protocol.{send_message, count_bytes, frame_message_id}

abbrev pub state_of_record : Option GateConnectionRecord → Option GateConnectionState
state_of_record none = none
state_of_record (some r) = some r.state

-- The state that a connection is in.
abbrev pub state_of : ConnectionService → ℕ → Option GateConnectionState
state_of s connection_id = state_of_record (find connection_id s.connections)

module _ {W : Type 0} (world : World W) (laws : WorldLaws world) where
  -- What writing keeps.
  pub record Keeps (g g' : Gate W) : Type 0 where
    pub sessions : g'.sessions ≡ g.sessions
    pub routes : g'.routes ≡ g.routes
    pub accounts : g'.accounts ≡ g.accounts
    pub login : g'.login ≡ g.login
    pub messages : g'.messages ≡ g.messages
    pub socket_by_connection_id :
        g'.connections.socket_by_connection_id ≡ g.connections.socket_by_connection_id
    pub connection_id_by_socket :
        g'.connections.connection_id_by_socket ≡ g.connections.connection_id_by_socket
    pub states : (c : ℕ) → state_of g'.connections c ≡ state_of g.connections c
    pub keys : (k : Bytes) → world.redis.get g'.world k ≡ world.redis.get g.world k

  get-write_loop :
      (n fd : ℕ) (s k : Bytes) (w : W)
      → world.redis.get (write_loop world n fd s w).1 k ≡ world.redis.get w k
  unfolding write_loop
  get-write_loop n fd [] k w = refl
  get-write_loop zero fd (c ∷ s) k w = refl
  get-write_loop (suc n) fd (c ∷ s) k w =
      let (sent, w') = world.send fd (c ∷ s) w in
      ground (arith, laws.get-send fd (c ∷ s) k w, get-write_loop n fd (drop sent (c ∷ s)) k w')

  get-write_frame :
      (fd id : ℕ) (s k : Bytes) (w : W)
      → world.redis.get (write_frame world fd id s w).1 k ≡ world.redis.get w k
  unfolding write_frame
  get-write_frame fd id s k w =
      let header = bytes32 id ++ bytes32 (length s) in
      let (sent, w') = write_loop world (length header) fd header w in
      ground
        (arith, get-write_loop (length header) fd header k w, get-write_loop (length s) fd s k w')

  touched-state_of :
      (now c d : ℕ) (s : ConnectionService) → state_of (touched world now c s) d ≡ state_of s d
  touched-state_of now c d s = elim (Option-cases (find c s.connections)) [
    | inl t ↦ rw (touched, t) refl
    | inr (r, t) ↦
        rw (touched, t)
          (ground (
            arith,
            find-put c d (record r { last_send_time_ms = now }) s.connections,
            nat_eq_iff c d,
          ))
  ]

  Keeps-same :
      (g : Gate W) (p : GateClientProtocolSnapshot) (w : W)
      → ((k : Bytes) → world.redis.get w k ≡ world.redis.get g.world k)
      → Keeps g (record g { protocol = p; world = w })
  Keeps-same g p w keys = record {
    sessions = refl;
    routes = refl;
    accounts = refl;
    login = refl;
    messages = refl;
    socket_by_connection_id = refl;
    connection_id_by_socket = refl;
    states = λ c. refl;
    keys = keys;
  }

  Keeps-touched :
      (g : Gate W) (now c : ℕ) (w : W)
      → ((k : Bytes) → world.redis.get w k ≡ world.redis.get g.world k)
      → Keeps g (record g { connections = touched world now c g.connections; world = w })
  Keeps-touched g now c w keys = record {
    sessions = refl;
    routes = refl;
    accounts = refl;
    login = refl;
    messages = refl;
    socket_by_connection_id = ground arith;
    connection_id_by_socket = ground arith;
    states = λ d. touched-state_of now c d g.connections;
    keys = keys;
  }

  pub send-Keeps : (g : Gate W) (c id : ℕ) (s : Bytes) → Keeps g (send world g c id s).1
  unfolding send
  send-Keeps g c id s = elim (Option-cases (find c g.connections.socket_by_connection_id)) [
    | inl t ↦
        let same : (send world g c id s).1 ≡ g = rw (send, t) refl in
        subst (Keeps g) (sym same) (Keeps-same g g.protocol g.world λ k. refl)
    | inr (fd, t) ↦
        let (result, w) = write_frame world fd id s g.world in
        let (now, w') = world.now_ms w in
        elim (Bool-cases (write_frame world fd id s g.world).0.ok) [
          | inl ok ↦
              let same : (send world g c id s).1
                  ≡ record g { connections = touched world now c g.connections; world = w' } =
                rw (send, t, ok) refl in
              subst (Keeps g) (sym same) (
                Keeps-touched g now c w'
                  λ k. ground (arith, laws.get-now_ms k w, get-write_frame fd id s k g.world))
          | inr failed ↦
              let same : (send world g c id s).1 ≡ record g { world = w } =
                rw (send, t, failed) refl in
              subst (Keeps g) (sym same)
                (Keeps-same g g.protocol w λ k. get-write_frame fd id s k g.world)
        ]
  ]

  pub Keeps-trans : (g h i : Gate W) → Keeps g h → Keeps h i → Keeps g i
  Keeps-trans g h i k l = record {
    sessions = l.sessions ∙ k.sessions;
    routes = l.routes ∙ k.routes;
    accounts = l.accounts ∙ k.accounts;
    login = l.login ∙ k.login;
    messages = l.messages ∙ k.messages;
    socket_by_connection_id = l.socket_by_connection_id ∙ k.socket_by_connection_id;
    connection_id_by_socket = l.connection_id_by_socket ∙ k.connection_id_by_socket;
    states = λ c. l.states c ∙ k.states c;
    keys = λ b. l.keys b ∙ k.keys b;
  }

  pub send_message-Keeps :
      (g : Gate W) (c : ℕ) (m : ClientMessage) → Keeps g (send_message world g c m).1
  unfolding send_message
  send_message-Keeps g c m = elim (Option-cases (world.serialize m)) [
    | inl t ↦
        let same : (send_message world g c m).1 ≡ g = rw (send_message, t) refl in
        subst (Keeps g) (sym same) (Keeps-same g g.protocol g.world λ k. refl)
    | inr (payload, t) ↦
        let counted = record g { protocol = count_bytes m (length payload) g.protocol } in
        let same : (send_message world g c m).1
            ≡ (send world counted c (frame_message_id m) payload).1 =
          rw (send_message, t) refl in
        subst (Keeps g) (sym same) (
          Keeps-trans g counted _ (Keeps-same g counted.protocol g.world λ k. refl)
            (send-Keeps counted c (frame_message_id m) payload))
  ]
