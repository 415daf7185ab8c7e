-- ===== src/Gate/Login/Closing.antt =====
-- What closing a connection takes down, and what it leaves.
use some_server.Base.{
  ℕ, ◌≡◌, ◌⊎◌, inl, inr, refl, sym, ap, ◌∙◌, subst, Option, none, some, [], ◌∷◌, arith, nat_eq,
  if◌then◌else◌, ◌==◌, Eq_ℕ, Eq_String, Eq_Bytes, Bool-cases, Option-cases,
}
use some_server.Base.Table.{find, put, erase, AllEntries, find-put, find-erase}
use some_server.Base.{nat_eq_iff}
use some_server.Ipc.Types.{success, failure}
use some_server.Gate.State.{World, Gate, GateConnectionState, closed}
use some_server.Gate.Sessions.{
  Sessions, GateSessionRecord, remove_by_connection, first_of_connection,
}
use some_server.Gate.Connections.{close, close_socket, finalize_connection, note_closed}
use some_server.Gate.Connections.Writing.{state_of, state_of_record}
use some_server.Gate.Login.Disconnect.{disconnected, handle_session_disconnected}
use some_server.Gate.Login.Kicks.{close_connection}

-- The sessions of a gate, of which each has its connection's number and stands under it.
abbrev pub Numbered : ℕ → GateSessionRecord → Type 0
Numbered key r = r.connection_id ≡ key

-- The first session of a connection is one of it.
first_of_connection_lem :
    (c key : ℕ) (r : GateSessionRecord) (m : Sessions)
    → first_of_connection c m ≡ some (key, r)
    → r.connection_id ≡ c
unfolding first_of_connection
first_of_connection_lem c key r [] h = cc
first_of_connection_lem c key r ((k, q) ∷ m) h = elim (Bool-cases (nat_eq q.connection_id c)) [
  | inl t ↦ ground (arith)
  | inr t ↦ first_of_connection_lem c key r m (ground arith)
]

-- With such sessions, a connection without a session under its number has none.
first-none :
    (c : ℕ) (m : Sessions)
    → AllEntries Numbered m
    → find c m ≡ none
    → first_of_connection c m ≡ none
unfolding first_of_connection find
first-none c [] all h = refl
first-none c ((k, q) ∷ m) all h = ground (arith, first-none c m, nat_eq_iff k c)

first-some :
    (c : ℕ) (r : GateSessionRecord) (m : Sessions)
    → AllEntries Numbered m
    → find c m ≡ some r
    → (q : GateSessionRecord) × (first_of_connection c m ≡ some (c, q))
unfolding first_of_connection find
first-some c r [] all h = cc
first-some c r ((k, q) ∷ m) all h = elim (Bool-cases (nat_eq k c)) [
  | inl t ↦ (q, ground arith)
  | inr t ↦ let (p, rest) = first-some c r m all.1 (ground arith) in (p, ground arith)
]

-- Removing the session of a connection is erasing its number.
pub remove_by_connection-erase :
    (m : Sessions) (c : ℕ)
    → AllEntries Numbered m
    → ((find c m ≡ none) × ((remove_by_connection m c).2 ≡ m))
      ⊎ ((remove_by_connection m c).2 ≡ erase c m)
unfolding remove_by_connection
remove_by_connection-erase m c all = elim (Option-cases (find c m)) [
  | inl t ↦ inl (t, rw (remove_by_connection, first-none c m all t) refl)
  | inr (r, t) ↦
      let (q, first) = first-some c r m all t in inr (rw (remove_by_connection, first) refl)
]

pub find-removed :
    (m : Sessions) (c d : ℕ)
    → AllEntries Numbered m
    → find d (remove_by_connection m c).2 ≡ (if c == d then none else find d m)
find-removed m c d all = elim (remove_by_connection-erase m c all) [
  | inl (t, same) ↦ ap (find d) same ∙ ground (arith, nat_eq_iff c d)
  | inr erased ↦ ap (find d) erased ∙ find-erase c d m
]

-- The state of a connection after `c` was noted as closed.
abbrev pub closed_state : ℕ → ℕ → Option GateConnectionState → Option GateConnectionState
closed_state c d none = none
closed_state c d (some s) = if c == d then some closed else some s

module _ {W : Type 0} (world : World W) where
  pub disconnected-sessions :
      (c : ℕ) (g : Gate W)
      → (disconnected world c g).sessions ≡ (remove_by_connection g.sessions c).2
  unfolding disconnected remove_by_connection handle_session_disconnected
  disconnected-sessions c g = ground arith

  disconnected-connections :
      (c : ℕ) (g : Gate W) → (disconnected world c g).connections ≡ g.connections
  unfolding disconnected handle_session_disconnected
  disconnected-connections c g = ground arith

  pub close_socket-sessions : (c : ℕ) (g : Gate W) → (close_socket world g c).sessions ≡ g.sessions
  unfolding close_socket
  close_socket-sessions c g = ground arith

  close_socket-connections :
      (c : ℕ) (g : Gate W)
      → (close_socket world g c).connections.connections ≡ g.connections.connections
  unfolding close_socket
  close_socket-connections c g = ground arith

  find-close_socket :
      (c d : ℕ) (g : Gate W)
      → find d (close_socket world g c).connections.socket_by_connection_id
        ≡ (if c == d then none else find d g.connections.socket_by_connection_id)
  unfolding close_socket
  find-close_socket c d g =
      ground (arith, nat_eq_iff c d, find-erase c d g.connections.socket_by_connection_id)

  pub note_closed-sessions :
      (c : ℕ) (g : Gate W) → (note_closed world (disconnected world) g c).sessions ≡ g.sessions
  note_closed-sessions c g = ground arith

  note_closed-sockets :
      (c : ℕ) (g : Gate W)
      → (note_closed world (disconnected world) g c).connections.socket_by_connection_id
        ≡ g.connections.socket_by_connection_id
  note_closed-sockets c g = ground arith

  note_closed-state_of :
      (c d : ℕ) (g : Gate W)
      → state_of (note_closed world (disconnected world) g c).connections d
        ≡ closed_state c d (state_of g.connections d)
  note_closed-state_of c d g = elim (Option-cases (find c g.connections.connections)) [
    | inl t ↦ ground (arith, nat_eq_iff c d)
    | inr (r, t) ↦
        let (now, w) = world.now_ms g.world in
        let last = record r { state = closed; last_recv_time_ms = now } in
        ground (arith, nat_eq_iff c d, find-put c d last g.connections.connections)
  ]

  -- What the end of a connection comes to: it is closed if it was there, and its socket and its
  -- session are gone; the others are as they were.
  pub record Ended (c : ℕ) (g g' : Gate W) : Type 0 where
    pub states : (d : ℕ) → state_of g'.connections d ≡ closed_state c d (state_of g.connections d)
    pub sockets :
        (d : ℕ)
        → find d g'.connections.socket_by_connection_id
          ≡ (if c == d then none else find d g.connections.socket_by_connection_id)
    pub sessions : (d : ℕ) → find d g'.sessions ≡ (if c == d then none else find d g.sessions)

  finalize_connection-Ended :
      (c : ℕ) (g : Gate W)
      → AllEntries Numbered g.sessions
      → Ended c g (finalize_connection world (disconnected world) g c)
  unfolding finalize_connection
  finalize_connection-Ended c g all =
      let noted = note_closed world (disconnected world) g c in
      let shut = close_socket world noted c in
      let sessions : shut.sessions ≡ g.sessions =
        close_socket-sessions c noted ∙ note_closed-sessions c g in
      record {
        states = λ d.
            ap (λ s. state_of s d) (disconnected-connections c shut)
            ∙ ap (λ t. state_of_record (find d t)) (close_socket-connections c noted)
            ∙ note_closed-state_of c d g;
        sockets = λ d.
            ap (λ s. find d s.socket_by_connection_id) (disconnected-connections c shut)
            ∙ find-close_socket c d noted
            ∙ ap (λ t. if c == d then none else find d t) (note_closed-sockets c g);
        sessions = λ d.
            ap (find d) (disconnected-sessions c shut)
            ∙ ap (λ m. find d (remove_by_connection m c).2) sessions
            ∙ find-removed g.sessions c d all;
      }

  closed_state_twice :
      (c d : ℕ) (s : Option GateConnectionState)
      → closed_state c d (closed_state c d s) ≡ closed_state c d s
  closed_state_twice c d none = refl
  closed_state_twice c d (some s) = ground arith

  -- Closing a connection that the gate has succeeds, and it has no session any more; closing one that
  -- it does not have fails and changes nothing. Each session has the number of its connection.
  pub close_connection_lem :
      (c : ℕ) (g : Gate W)
      → AllEntries Numbered g.sessions
      → let (result, g') = close_connection world g c in
        ((result ≡ success) × Ended c g g')
        ⊎ ((find c g.connections.connections ≡ none)
            × (result ≡ failure "connection does not exist")
            × (g' ≡ g))
  unfolding close
  close_connection_lem c g all = elim (Option-cases (find c g.connections.connections)) [
    | inl t ↦
        let same : close_connection world g c ≡ (failure "connection does not exist", g) =
          rw (close, t) refl in
        inr (t, ap (λ q. q.0) same, ap (λ q. q.1) same)
    | inr (r, t) ↦
        let shut = record r { state = closed } in
        let marked = record g {
          connections = record (g.connections) {
            connections = put c shut g.connections.connections;
          };
        } in
        let socketless = close_socket world marked c in
        let same : close_connection world g c
            ≡ (success, finalize_connection world (disconnected world) socketless c) =
          rw (close, t) refl in
        let numbered : AllEntries Numbered socketless.sessions =
          subst (AllEntries Numbered) (sym (close_socket-sessions c marked)) all in
        let ended = finalize_connection-Ended c socketless numbered in
        let marked_state : (d : ℕ)
            → state_of marked.connections d ≡ closed_state c d (state_of g.connections d) =
          λ d. ground (arith, nat_eq_iff c d, find-put c d shut g.connections.connections) in
        inl (
          ap (λ q. q.0) same,
          subst (Ended c g) (sym (ap (λ q. q.1) same)) (record {
            states = λ d.
                ended.states d
                ∙ ap (λ t. closed_state c d (state_of_record (find d t)))
                    (close_socket-connections c marked)
                ∙ ap (closed_state c d) (marked_state d)
                ∙ closed_state_twice c d (state_of g.connections d);
            sockets = λ d. ended.sockets d ∙ ground (arith, find-close_socket c d marked);
            sessions = λ d.
                ended.sessions d
                ∙ ap (λ m. if c == d then none else find d m) (close_socket-sessions c marked);
          }),
        )
  ]
