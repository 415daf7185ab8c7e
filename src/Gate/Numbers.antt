-- ===== src/Gate/Numbers.antt =====
-- What the changes of a gate leave: each session stands under the number of its connection.
pub mod Handlers
pub mod Rounds
use some_server.Base.{
  ℕ, ◌≡◌, inl, inr, refl, sym, ◌∙◌, subst, false, Option, none, some, String, arith, nat_eq,
  if◌then◌else◌, ◌==◌, Eq_ℕ, Eq_String, Eq_Bytes, Option-cases, Bytes,
}
use some_server.Base.Table.{
  find, put, erase, AllEntries, AllEntries-find, AllEntries-put, AllEntries-erase,
}
use some_server.Ipc.Types.{success, failure}
use some_server.Gate.State.{login_response}
use some_server.Gate.Protocol.{error_code_unauthorized}
use some_server.Gate.Login.Auth.{validate}
use some_server.Gate.Login.Answers.{noted, answer_code, result_code_ok}
use some_server.Gate.State.{
  World, Gate, ClientMessage, PendingLogin, LoginRequest, PlayerMessageRequest, kick_notification,
  closed,
}
use some_server.Gate.Accounts.{lookup_account}
use some_server.Gate.Sessions.{
  Sessions, GateSessionRecord, Login, opened, logged_in, open_anonymous, activate, snapshot,
  find_by_account, remove_by_connection,
}
use some_server.Gate.Connections.{send, close, close_socket, finalize_connection, note_closed}
use some_server.Gate.Protocol.{send_message, send_kick_notification, handle_heartbeat}
use some_server.Gate.Login.Disconnect.{disconnected}
use some_server.Gate.Login.Closing.{
  Numbered, remove_by_connection-erase, disconnected-sessions, close_socket-sessions,
  note_closed-sessions,
}
use some_server.Gate.Login.Kicks.{
  close_connection, kick_connection, kick_session, kick_elsewhere, kick_existing_account_session,
  handle_kick_account_session, handle_unbind_player_session, replaced, KickRequest, UnbindRequest,
}
use some_server.Gate.Login.Requests.{open_session, request_login, begin_login, handle_client_login}
use some_server.Gate.Login.Answers.{LoginPlayerResponse, sign_in, handle_login_response}
use some_server.Gate.Messages.{
  handle_client_player_message, handle_forward_player_message_response, handle_push_player_message,
  forward, ForwardPlayerMessageResponse, PushPlayerMessage,
}

removed-Numbered :
    (m : Sessions) (c : ℕ)
    → AllEntries Numbered m
    → AllEntries Numbered (remove_by_connection m c).2
removed-Numbered m c all = elim (remove_by_connection-erase m c all) [
  | inl (t, same) ↦ subst (AllEntries Numbered) (sym same) all
  | inr erased ↦ subst (AllEntries Numbered) (sym erased) (AllEntries-erase Numbered c m all)
]

pub activate-Numbered :
    (m : Sessions) (now id : ℕ) (login : Login)
    → AllEntries Numbered m
    → AllEntries Numbered (activate m now id login).1
unfolding activate
activate-Numbered m now id login all = elim (Option-cases (find id m)) [
  | inl t ↦
      let same : (activate m now id login).1 ≡ m = rw (activate, t) refl in
      subst (AllEntries Numbered) (sym same) all
  | inr (r, t) ↦
      let after = logged_in now id login r in
      let changed : (activate m now id login).1 ≡ put id after m = rw (activate, t) refl in
      subst (AllEntries Numbered) (sym changed)
        (AllEntries-put Numbered id after m all (AllEntries-find Numbered id r m all t))
]

module _ {W : Type 0} (world : World W) where
  abbrev pub IsNumbered : Gate W → Type 0
  IsNumbered g = AllEntries Numbered g.sessions

  -- A change that leaves the sessions.
  pub moved : (g g' : Gate W) → g'.sessions ≡ g.sessions → IsNumbered g → IsNumbered g'
  moved g g' same all = subst (AllEntries Numbered) (sym same) all

  pub send_message-sessions :
      (g : Gate W) (c : ℕ) (m : ClientMessage) → (send_message world g c m).1.sessions ≡ g.sessions
  unfolding send_message send
  send_message-sessions g c m = ground arith

  pub finalize_connection-IsNumbered :
      (c : ℕ) (g : Gate W)
      → IsNumbered g
      → IsNumbered (finalize_connection world (disconnected world) g c)
  unfolding finalize_connection
  finalize_connection-IsNumbered c g all =
      let noted = note_closed world (disconnected world) g c in
      let shut = close_socket world noted c in
      subst (AllEntries Numbered) (sym (disconnected-sessions world c shut)) (
        removed-Numbered shut.sessions c
          (moved g shut (close_socket-sessions world c noted ∙ note_closed-sessions world c g) all))

  pub close_connection-IsNumbered :
      (c : ℕ) (g : Gate W) → IsNumbered g → IsNumbered (close_connection world g c).1
  unfolding close
  close_connection-IsNumbered c g all = elim (Option-cases (find c g.connections.connections)) [
    | inl t ↦
        let same : close_connection world g c ≡ (failure "connection does not exist", g) =
          rw (close, t) refl in
        subst (λ q. IsNumbered q.1) (sym same) all
    | inr (r, t) ↦
        let marked = record g {
          connections = record (g.connections) {
            connections = put c (record r { state = closed }) g.connections.connections;
          };
        } in
        let shut = close_socket world marked c in
        let same : close_connection world g c
            ≡ (success, finalize_connection world (disconnected world) shut c) =
          rw (close, t) refl in
        subst (λ q. IsNumbered q.1) (sym same)
          (finalize_connection-IsNumbered c shut
            (moved g shut (close_socket-sessions world c marked) all))
  ]

  pub kick_connection-IsNumbered :
      (g : Gate W) (c : ℕ) (reason : String)
      → IsNumbered g
      → IsNumbered (kick_connection world g c reason).1
  unfolding kick_connection
  kick_connection-IsNumbered g c reason all =
      let (sent, g') = send_kick_notification world g c reason in
      let told = moved g g' (send_message-sessions g c (kick_notification reason)) all in
      ground (arith, told, close_connection-IsNumbered c g' told)

  pub kick_session-IsNumbered :
      (g : Gate W) (existing : Option GateSessionRecord) (d : ℕ)
      → IsNumbered g
      → IsNumbered (kick_session world g existing d).1
  unfolding kick_session
  kick_session-IsNumbered g none d all = all
  kick_session-IsNumbered g (some r) d all =
      ground (arith, kick_connection-IsNumbered g r.connection_id replaced all)
