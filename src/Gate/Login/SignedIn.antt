-- ===== src/Gate/Login/SignedIn.antt =====
-- What stands after the answer of the game process, and that an answer is taken once.
use some_server.Base.{
  ℕ, ◌≡◌, inl, inr, refl, sym, ap, ◌∙◌, subst, true, none, some, arith, nat_eq, Eq_ℕ, Eq_String,
  Eq_Bytes, Option-cases,
}
use some_server.Base.Table.{find, put, erase, contains, find-put_same, find-erase_same}
use some_server.Game.Redis.{runs}
use some_server.Gate.State.{
  World, WorldLaws, Gate, ConnectionService, PendingLogin, GatePlayerRoute, bound, ClientMessage,
  login_response,
}
use some_server.Gate.Accounts.{account_key, build_value}
use some_server.Gate.Accounts.Entries.{bind_account-runs}
use some_server.Gate.Sessions.{GateSessionRecord, Login, logged_in, activate}
use some_server.Gate.Routing.{bind_player}
use some_server.Gate.Connections.{mark_bound, mark}
use some_server.Gate.Connections.Writing.{state_of, state_of_record, Keeps, send_message-Keeps}
use some_server.Gate.Protocol.{send_message}
use some_server.Gate.Login.Disconnect.{own_session}
use some_server.Gate.Login.Answers.{
  LoginPlayerResponse, result_code_ok, sign_in, handle_login_response, noted, answer_code,
}

-- The arguments of `Activate` for an answer.
abbrev pub login_of : PendingLogin → LoginPlayerResponse → Login
login_of pending response = record {
  account_id = pending.account_id;
  player_id = response.player_id;
  game_service_type = response.game_service_type;
  game_instance_id = response.game_instance_id;
}

abbrev pub route_of : ℕ → PendingLogin → LoginPlayerResponse → GatePlayerRoute
route_of now pending response = record {
  game_service_type = response.game_service_type;
  game_instance_id = response.game_instance_id;
  gate_session_id = pending.gate_session_id;
  last_update_ms = now;
}

mark_bound-state_of :
    (c : ℕ) (s : ConnectionService)
    → contains c s.connections ≡ true
    → state_of (mark_bound s c).1 c ≡ some bound
unfolding mark_bound
mark_bound-state_of c s h = elim (Option-cases (find c s.connections)) [
  | inl t ↦ ground arith
  | inr (r, t) ↦
      let here = record r { state = bound } in
      let same : (mark_bound s c).1 ≡ record s { connections = put c here s.connections } =
        rw (mark_bound, mark, t) refl in
      subst (λ q. state_of q c ≡ some bound) (sym same)
        (ap state_of_record (find-put_same c here s.connections))
]

module _ {W : Type 0} (world : World W) where
  -- The two readings of the clock, and the world behind them.
  abbrev pub first_now : Gate W → ℕ
  first_now g = (world.now_ms g.world).0

  abbrev pub second_now : Gate W → ℕ
  second_now g = (world.now_ms (world.now_ms g.world).1).0

  abbrev pub clocked : Gate W → W
  clocked g = (world.now_ms (world.now_ms g.world).1).1

  -- The pending request taken out, the answer noted.
  abbrev taken : Gate W → LoginPlayerResponse → Gate W
  taken g response = record g {
    login = record (g.login) {
      snapshot = noted response;
      pending_logins = erase response.request_id g.login.pending_logins;
    };
  }

  abbrev answer : PendingLogin → LoginPlayerResponse → ClientMessage
  answer pending response =
      login_response (answer_code response) response.error_message response.player_id
        response.is_reconnect

  handled :
      (g : Gate W) (response : LoginPlayerResponse) (pending : PendingLogin)
      → find response.request_id g.login.pending_logins ≡ some pending
      → nat_eq response.result_code result_code_ok ≡ true
      → handle_login_response world g response
        ≡ send_message world
            (sign_in world (taken g response) pending response)
            pending.connection_id
            (answer pending response)
  unfolding handle_login_response
  handled g response pending h ok = rw (handle_login_response, h, ok) refl

  module _ (laws : WorldLaws world) (g : Gate W) (response : LoginPlayerResponse)
      (pending : PendingLogin)
      (asked : find response.request_id g.login.pending_logins ≡ some pending)
      (ok : response.result_code ≡ result_code_ok) where
    signed : Gate W
    signed = sign_in world (taken g response) pending response

    -- Sending the answer keeps what the sign-in has made.
    kept : Keeps world laws signed (handle_login_response world g response).1
    unfolding signed
    kept =
        subst (λ q. Keeps world laws signed q.1)
          (sym (handled g response pending asked (ground arith)))
          (send_message-Keeps world laws signed pending.connection_id (answer pending response))

    -- An answer OK to a pending request, for a session and a connection that the gate has, where Redis
    -- runs the command: the session is active for the player at the game process that answered, the
    -- route leads there, the connection is bound, Redis has this gate's session for the account, and
    -- the request is no longer pending. This holds whether or not the client can be told.
    pub handle_login_response_lem :
        (r : GateSessionRecord)
        → find pending.gate_session_id g.sessions ≡ some r
        → contains pending.connection_id g.connections.connections ≡ true
        → g.accounts.connected ≡ true
        → (world.redis.outcome (clocked g)).0 ≡ runs
        → let g' = (handle_login_response world g response).1 in
          let session = pending.gate_session_id in
          (find session g'.sessions
            ≡ some (logged_in (first_now g) session (login_of pending response) r))
          × (find response.player_id g'.routes ≡ some (route_of (second_now g) pending response))
          × (state_of g'.connections pending.connection_id ≡ some bound)
          × (world.redis.get g'.world (account_key g.accounts pending.account_id)
              ≡ some (build_value (own_session world g session)))
          × (find response.request_id g'.login.pending_logins ≡ none)
    unfolding signed sign_in activate bind_player mark_bound
    handle_login_response_lem r h c on run =
        let session = pending.gate_session_id in
        let account = account_key g.accounts pending.account_id in
        (
          ap (find session) kept.sessions
              ∙ rw (activate, h)
                  (find-put_same session
                    (logged_in (first_now g) session (login_of pending response) r) g.sessions),
          ap (find response.player_id) kept.routes
              ∙ find-put_same response.player_id (route_of (second_now g) pending response)
                  g.routes,
          kept.states pending.connection_id
              ∙ mark_bound-state_of pending.connection_id g.connections c,
          kept.keys account
              ∙ (bind_account-runs world.redis laws.redis_laws g.accounts pending.account_id
                  (own_session world g session) (clocked g) on run).1,
          ap (λ l. find response.request_id l.pending_logins) kept.login
              ∙ find-erase_same response.request_id g.login.pending_logins,
        )

    -- An answer OK for a session that has gone in the meantime, as the connection was closed: no
    -- session comes back, but the route leads to the lost session, and the connection, which stays in
    -- the table when it is closed, is bound.
    pub handle_login_response_gone :
        find pending.gate_session_id g.sessions ≡ none
        → contains pending.connection_id g.connections.connections ≡ true
        → let g' = (handle_login_response world g response).1 in
          (g'.sessions ≡ g.sessions)
          × (find response.player_id g'.routes ≡ some (route_of (second_now g) pending response))
          × (state_of g'.connections pending.connection_id ≡ some bound)
    unfolding signed sign_in activate bind_player
    handle_login_response_gone h c = (
      kept.sessions ∙ rw (activate, h) refl,
      ap (find response.player_id) kept.routes
          ∙ find-put_same response.player_id (route_of (second_now g) pending response) g.routes,
      kept.states pending.connection_id ∙ mark_bound-state_of pending.connection_id g.connections c,
    )
