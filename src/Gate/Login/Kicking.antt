-- ===== src/Gate/Login/Kicking.antt =====
-- Whom a kick reaches: the connection that it names, and no other.
use some_server.Base.{
  ℕ, ◌≡◌, ◌≢◌, inl, inr, refl, sym, ap, ◌∙◌, subst, true, false, Option, none, some, String, arith,
  nat_eq, ◌==◌, Eq_ℕ, Eq_String, Eq_Bytes, Bool-cases, Option-cases, is_some, Bytes,
}
use some_server.Base.Table.{find, contains, AllEntries, AllEntries-find}
use some_server.Base.{nat_eq_iff}
use some_server.Ipc.Types.{success}
use some_server.Gate.State.{World, WorldLaws, Gate, ConnectionService, GateConnectionState, closed}
use some_server.Gate.Accounts.{GateAccountOwner, lookup_account}
use some_server.Gate.Sessions.{GateSessionRecord, find_by_account, snapshot}
use some_server.Gate.Connections.Writing.{state_of, Keeps, send_message-Keeps}
use some_server.Gate.Protocol.{send_kick_notification}
use some_server.Gate.State.{kick_notification}
use some_server.Gate.Login.Kicks.{
  close_connection, kick_connection, kick_session, kick_elsewhere, kick_existing_account_session,
  replaced,
}
use some_server.Gate.Login.Closing.{Numbered, Ended, close_connection_lem, closed_state}

known_state :
    (c : ℕ) (s : ConnectionService)
    → contains c s.connections ≡ true
    → is_some (state_of s c) ≡ true
known_state c s h = elim (Option-cases (find c s.connections)) [
  | inl t ↦ ground arith
  | inr (r, t) ↦ rw t refl
]

unknown_state :
    (c : ℕ) (s : ConnectionService) → find c s.connections ≡ none → is_some (state_of s c) ≢ true
unknown_state c s t h = ground arith

closed_self :
    (c : ℕ) (s : Option GateConnectionState) → is_some s ≡ true → closed_state c c s ≡ some closed
closed_self c none h = ground arith
closed_self c (some s) h = ground (arith, nat_eq_iff c c)

module _ {W : Type 0} (world : World W) where
  -- The gate when Redis has answered for an account.
  abbrev pub after_lookup : Gate W → Bytes → Gate W
  after_lookup g account = record g {
    world = (lookup_account world.redis g.accounts account g.world).1;
  }

  -- The state, the socket and the session of a connection.
  pub record Same (d : ℕ) (g g' : Gate W) : Type 0 where
    pub state : state_of g'.connections d ≡ state_of g.connections d
    pub socket :
        find d g'.connections.socket_by_connection_id ≡ find d g.connections.socket_by_connection_id
    pub session : find d g'.sessions ≡ find d g.sessions

  Same-refl : (d : ℕ) (g : Gate W) → Same d g g
  Same-refl d g = record { state = refl; socket = refl; session = refl }

  Same-trans : (d : ℕ) (g h i : Gate W) → Same d g h → Same d h i → Same d g i
  Same-trans d g h i s t = record {
    state = t.state ∙ s.state;
    socket = t.socket ∙ s.socket;
    session = t.session ∙ s.session;
  }

  other_state :
      (c d : ℕ) (s : Option GateConnectionState) → (c == d) ≡ false → closed_state c d s ≡ s
  other_state c d none h = refl
  other_state c d (some s) h = ground arith

  Ended-Same : (c d : ℕ) (g g' : Gate W) → (c == d) ≡ false → Ended world c g g' → Same d g g'
  Ended-Same c d g g' h e = record {
    state = e.states d ∙ other_state c d (state_of g.connections d) h;
    socket = e.sockets d ∙ ground arith;
    session = e.sessions d ∙ ground arith;
  }

  module _ (laws : WorldLaws world) where
    Keeps-Same : (d : ℕ) (g g' : Gate W) → Keeps world laws g g' → Same d g g'
    Keeps-Same d g g' k = record {
      state = k.states d;
      socket = ap (find d) k.socket_by_connection_id;
      session = ap (find d) k.sessions;
    }

    -- A kick leaves every connection but the one that it names.
    pub kick_connection-Same :
        (c d : ℕ) (g : Gate W) (reason : String)
        → AllEntries Numbered g.sessions
        → (c == d) ≡ false
        → Same d g (kick_connection world g c reason).1
    unfolding kick_connection
    kick_connection-Same c d g reason all h =
        let (sent, g') = send_kick_notification world g c reason in
        let keeps : Keeps world laws g g' =
          send_message-Keeps world laws g c (kick_notification reason) in
        let numbered : AllEntries Numbered g'.sessions =
          subst (AllEntries Numbered) (sym keeps.sessions) all in
        elim (Bool-cases (send_kick_notification world g c reason).0.ok) [
          | inl t ↦
              let same : (kick_connection world g c reason).1 ≡ (close_connection world g' c).1 =
                rw (kick_connection, t) refl in
              subst (Same d g) (sym same) (
                Same-trans d g g' _ (Keeps-Same d g g' keeps)
                  (elim (close_connection_lem world c g' numbered) [
                    | inl (ok, ended) ↦ Ended-Same c d g' _ h ended
                    | inr (gone, failed, same') ↦ subst (Same d g') (sym same') (Same-refl d g')
                  ]))
          | inr t ↦
              let same : (kick_connection world g c reason).1 ≡ g' = rw (kick_connection, t) refl in
              subst (Same d g) (sym same) (Keeps-Same d g g' keeps)
        ]

    kick_session-Same :
        (d : ℕ) (g : Gate W) (existing : Option GateSessionRecord)
        → AllEntries Numbered g.sessions
        → Same d g (kick_session world g existing d).1
    unfolding kick_session
    kick_session-Same d g none all = Same-refl d g
    kick_session-Same d g (some r) all = elim (Bool-cases (nat_eq r.connection_id d)) [
      | inl t ↦
          let same : (kick_session world g (some r) d).1 ≡ g = rw (kick_session, t) refl in
          subst (Same d g) (sym same) (Same-refl d g)
      | inr t ↦
          let same : (kick_session world g (some r) d).1
              ≡ (kick_connection world g r.connection_id replaced).1 =
            rw (kick_session, t) refl in
          subst (Same d g) (sym same) (kick_connection-Same r.connection_id d g replaced all t)
    ]

    -- In a gate where each session stands under the number of its connection, a sign-in does not end
    -- its own connection, however it kicks: the state, the socket and the session of that connection
    -- are as before.
    pub kick_existing_account_session-Same :
        (d : ℕ) (g : Gate W) (account : Bytes)
        → AllEntries Numbered g.sessions
        → Same d g (kick_existing_account_session world g account d).1
    unfolding kick_existing_account_session kick_elsewhere
    kick_existing_account_session-Same d g account all =
        let (found, w) = lookup_account world.redis g.accounts account g.world in
        let asked = record g { world = w } in
        elim (Option-cases (lookup_account world.redis g.accounts account g.world).0) [
          | inl t ↦
              let existing = find_by_account g.sessions account in
              let same : (kick_existing_account_session world g account d).1
                  ≡ (kick_session world asked existing d).1 =
                rw (kick_existing_account_session, t) refl in
              subst (Same d g) (sym same) (
                Same-trans d g asked _ (record { state = refl; socket = refl; session = refl })
                  (kick_session-Same d asked existing all))
          | inr (owner, t) ↦
              elim (Bool-cases (nat_eq owner.gate_instance_id g.login.gate_instance_id)) [
                | inl here ↦
                    let existing = snapshot g.sessions owner.gate_session_id in
                    let same : (kick_existing_account_session world g account d).1
                        ≡ (kick_session world asked existing d).1 =
                      rw (kick_existing_account_session, t, here) refl in
                    subst (Same d g) (sym same) (
                      Same-trans d g asked _
                        (record { state = refl; socket = refl; session = refl })
                        (kick_session-Same d asked existing all))
                | inr there ↦
                    let same : (kick_existing_account_session world g account d).1
                        ≡ (kick_elsewhere world asked account owner).1 =
                      rw (kick_existing_account_session, t, there) refl in
                    subst (Same d g) (sym same)
                      (record { state = refl; socket = refl; session = refl })
              ]
        ]

    -- In a gate where each session stands under the number of its connection: where Redis names a session
    -- of this gate as the owner of the account, and the session is there
    -- with another connection than the one that signs in, which the gate has and can write to, that
    -- connection is closed and its session is gone. The account of that session is not looked at.
    pub kicks_named_session :
        (d : ℕ) (g : Gate W) (account : Bytes) (owner : GateAccountOwner) (r : GateSessionRecord)
        → AllEntries Numbered g.sessions
        → (lookup_account world.redis g.accounts account g.world).0 ≡ some owner
        → nat_eq owner.gate_instance_id g.login.gate_instance_id ≡ true
        → find owner.gate_session_id g.sessions ≡ some r
        → nat_eq r.connection_id d ≡ false
        → contains r.connection_id g.connections.connections ≡ true
        → (send_kick_notification world (after_lookup g account) r.connection_id replaced).0.ok
          ≡ true
        → let (result, g') = kick_existing_account_session world g account d in
          (result ≡ success)
          × (state_of g'.connections r.connection_id ≡ some closed)
          × (find owner.gate_session_id g'.sessions ≡ none)
    unfolding kick_existing_account_session kick_session kick_connection snapshot
    kicks_named_session d g account owner r all found here there other known sent =
        let asked = after_lookup g account in
        let c = r.connection_id in
        let (_, told) = send_kick_notification world asked c replaced in
        let keeps : Keeps world laws asked told =
          send_message-Keeps world laws asked c (kick_notification replaced) in
        let numbered : AllEntries Numbered told.sessions =
          subst (AllEntries Numbered) (sym keeps.sessions) all in
        let same : kick_existing_account_session world g account d ≡ close_connection world told c =
          rw
            (
              kick_existing_account_session, found, here, there, kick_session, other,
              kick_connection, sent,
            )
            refl in
        let number : c ≡ owner.gate_session_id =
          AllEntries-find Numbered owner.gate_session_id r g.sessions all there in
        let present : is_some (state_of told.connections c) ≡ true =
          ap is_some (keeps.states c) ∙ known_state c asked.connections known in
        subst
          (λ q.
            (q.0 ≡ success)
            × (state_of (q.1.connections) c ≡ some closed)
            × (find owner.gate_session_id q.1.sessions ≡ none))
          (sym same)
          (elim (close_connection_lem world c told numbered) [
            | inl (ok, ended) ↦ (
              ok,
              ended.states c ∙ closed_self c (state_of told.connections c) present,
              ap (λ k. find k (close_connection world told c).1.sessions) (sym number)
                  ∙ ended.sessions c
                  ∙ ground (arith, nat_eq_iff c c),
            )
            | inr (gone, failed, same') ↦ absurd (unknown_state c told.connections gone present)
          ])
