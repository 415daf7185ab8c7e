-- ===== src/Gate/Run.antt =====
-- A gate over time: rounds of its worker thread, messages from other processes, and commands of the
-- console, one after the other.
use some_server.Base.{
  ℕ, ◌≡◌, sym, subst, some, List, [], ◌∷◌, arith, Eq_ℕ, Eq_String, Eq_Bytes, Bytes,
}
use some_server.Base.Table.{AllEntries, AllEntries-find, AllEntries-put}
use some_server.Gate.State.{World, Gate}
use some_server.Gate.Sessions.{GateSessionRecord, Login, opened, open_anonymous, snapshot}
use some_server.Gate.Console.{
  connection_accept, connection_close, session_open, session_activate, route_bind, login_request,
}
use some_server.Gate.Login.Requests.{request_login}
use some_server.Gate.Login.Closing.{Numbered}
use some_server.Gate.Login.Kicks.{
  handle_kick_account_session, handle_unbind_player_session, KickRequest, UnbindRequest,
}
use some_server.Gate.Login.Answers.{LoginPlayerResponse, handle_login_response}
use some_server.Gate.Messages.{
  handle_forward_player_message_response, handle_push_player_message, gate_round,
  ForwardPlayerMessageResponse, PushPlayerMessage,
}
use some_server.Gate.Numbers.{IsNumbered, moved, activate-Numbered, close_connection-IsNumbered}
use some_server.Gate.Numbers.Handlers.{
  handle_login_response-IsNumbered, handle_kick_account_session-IsNumbered,
  handle_unbind_player_session-IsNumbered, handle_forward_player_message_response-sessions,
  handle_push_player_message-sessions,
}
use some_server.Gate.Numbers.Rounds.{gate_round-IsNumbered}

-- What can happen to a gate.
pub data Event : Type 0 where
  round : Event
  answers : LoginPlayerResponse → Event
  kicks : KickRequest → Event
  unbinds : UnbindRequest → Event
  forwards : ForwardPlayerMessageResponse → Event
  pushes : PushPlayerMessage → Event
  closes : ℕ → Event
  accepts : ℕ → Bytes → Event
  opens : (gate_session_id connection_id : ℕ) → Event
  activates : ℕ → Login → Event
  binds_route : (player_id game_service_type game_instance_id gate_session_id : ℕ) → Event
  requests_login :
      (game_instance_id gate_session_id : ℕ) (platform account_id : Bytes) (area_id : ℕ) → Event

-- Where the console opens a session, it gives it the number of its connection, as a sign-in does.
abbrev pub OpensNumbered : List Event → Type 0
OpensNumbered [] = Unit {0}
OpensNumbered (opens session connection ∷ es) = (connection ≡ session) × OpensNumbered es
OpensNumbered (_ ∷ es) = OpensNumbered es

module _ {W : Type 0} (world : World W) where
  abbrev pub step : Gate W → Event → Gate W
  step g round = (gate_round world g).1
  step g (answers a) = (handle_login_response world g a).1
  step g (kicks k) = (handle_kick_account_session world g k).1
  step g (unbinds u) = (handle_unbind_player_session world g u).1
  step g (forwards a) = (handle_forward_player_message_response world g a).1
  step g (pushes p) = (handle_push_player_message world g p).1
  step g (closes c) = connection_close world g c
  step g (accepts c endpoint) = connection_accept world g c endpoint
  step g (opens session c) = session_open world g session c
  step g (activates session l) = session_activate world g session l
  step g (binds_route p t i session) = route_bind world g p t i session
  step g (requests_login i session platform account area) =
      login_request world g i session platform account area

  abbrev pub run : Gate W → List Event → Gate W
  run g [] = g
  run g (e ∷ es) = run (step g e) es

  session_open-IsNumbered :
      (g : Gate W) (session c : ℕ)
      → c ≡ session
      → IsNumbered world g
      → IsNumbered world (session_open world g session c)
  unfolding session_open open_anonymous
  session_open-IsNumbered g session c same all =
      let now = (world.now_ms g.world).0 in
      ground (arith, AllEntries-put Numbered session (opened now session c) g.sessions all same)

  session_activate-IsNumbered :
      (g : Gate W) (session : ℕ) (l : Login)
      → IsNumbered world g
      → IsNumbered world (session_activate world g session l)
  unfolding session_activate
  session_activate-IsNumbered g session l all =
      ground (arith, activate-Numbered g.sessions (world.now_ms g.world).0 session l all)

  connection_accept-sessions :
      (g : Gate W) (c : ℕ) (endpoint : Bytes)
      → (connection_accept world g c endpoint).sessions ≡ g.sessions
  unfolding connection_accept
  connection_accept-sessions g c endpoint = ground arith

  login_request-sessions :
      (g : Gate W) (i session : ℕ) (platform account : Bytes) (area : ℕ)
      → (login_request world g i session platform account area).sessions ≡ g.sessions
  unfolding login_request request_login
  login_request-sessions g i session platform account area = ground arith

  step-IsNumbered :
      (e : Event) (es : List Event) (g : Gate W)
      → OpensNumbered (e ∷ es)
      → IsNumbered world g
      → OpensNumbered es × IsNumbered world (step g e)
  unfolding connection_close route_bind
  step-IsNumbered round es g fits all = (fits, gate_round-IsNumbered world g all)
  step-IsNumbered (answers a) es g fits all = (fits, handle_login_response-IsNumbered world g a all)
  step-IsNumbered (kicks k) es g fits all =
      (fits, handle_kick_account_session-IsNumbered world g k all)
  step-IsNumbered (unbinds u) es g fits all =
      (fits, handle_unbind_player_session-IsNumbered world g u all)
  step-IsNumbered (forwards a) es g fits all = (
    fits,
    moved world g (step g (forwards a)) (handle_forward_player_message_response-sessions world g a)
        all,
  )
  step-IsNumbered (pushes p) es g fits all =
      (fits, moved world g (step g (pushes p)) (handle_push_player_message-sessions world g p) all)
  step-IsNumbered (closes c) es g fits all = (fits, close_connection-IsNumbered world c g all)
  step-IsNumbered (accepts c endpoint) es g fits all = (
    fits,
    moved world g (step g (accepts c endpoint)) (connection_accept-sessions g c endpoint) all,
  )
  step-IsNumbered (opens session c) es g (same, fits) all =
      (fits, session_open-IsNumbered g session c same all)
  step-IsNumbered (activates session l) es g fits all =
      (fits, session_activate-IsNumbered g session l all)
  step-IsNumbered (binds_route p t i session) es g fits all = (fits, all)
  step-IsNumbered (requests_login i session platform account area) es g fits all = (
    fits,
    moved world g (step g (requests_login i session platform account area))
        (login_request-sessions g i session platform account area) all,
  )

  pub run-IsNumbered :
      (es : List Event) (g : Gate W)
      → OpensNumbered es
      → IsNumbered world g
      → IsNumbered world (run g es)
  run-IsNumbered [] g fits all = all
  run-IsNumbered (e ∷ es) g fits all =
      let (later, next) = step-IsNumbered e es g fits all in run-IsNumbered es (step g e) later next

  -- A gate that starts without sessions runs any sequence of rounds of its worker thread, messages of
  -- other processes, and console commands, where each session that the console opens gets the number
  -- of its connection. Then a session that stands under a number belongs to the connection of that
  -- number.
  pub snapshot-run_gate :
      (es : List Event) (g : Gate W) (id : ℕ) (r : GateSessionRecord)
      → OpensNumbered es
      → g.sessions ≡ []
      → snapshot (run g es).sessions id ≡ some r
      → r.connection_id ≡ id
  unfolding snapshot
  snapshot-run_gate es g id r fits none_yet h =
      AllEntries-find Numbered id r (run g es).sessions
        (run-IsNumbered es g fits (subst (AllEntries Numbered) (sym none_yet) tt)) h
