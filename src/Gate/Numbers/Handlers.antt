-- ===== src/Gate/Numbers/Handlers.antt =====
-- The handlers of the gate keep the sessions under the numbers of their connections.
use some_server.Base.{
  ℕ, ◌≡◌, inl, inr, refl, sym, subst, false, String, arith, nat_eq, if◌then◌else◌, ◌==◌, Eq_ℕ,
  Eq_String, Eq_Bytes, Option-cases, Bytes,
}
use some_server.Base.Table.{find, erase, AllEntries-put}
use some_server.Gate.State.{login_response}
use some_server.Gate.Protocol.{error_code_unauthorized}
use some_server.Gate.Login.Auth.{validate}
use some_server.Gate.Login.Answers.{noted, answer_code, result_code_ok}
use some_server.Gate.State.{
  World, Gate, PendingLogin, LoginRequest, PlayerMessageRequest, kick_notification,
}
use some_server.Gate.Accounts.{lookup_account}
use some_server.Gate.Sessions.{opened, open_anonymous, snapshot, find_by_account}
use some_server.Gate.Connections.{send}
use some_server.Gate.Protocol.{send_message, send_kick_notification, handle_heartbeat}
use some_server.Gate.Login.Closing.{Numbered}
use some_server.Gate.Login.Kicks.{
  kick_elsewhere, kick_existing_account_session, handle_kick_account_session,
  handle_unbind_player_session, replaced, KickRequest, UnbindRequest,
}
use some_server.Gate.Login.Requests.{open_session, request_login, begin_login, handle_client_login}
use some_server.Gate.Login.Answers.{LoginPlayerResponse, sign_in, handle_login_response}
use some_server.Gate.Messages.{
  handle_client_player_message, handle_forward_player_message_response, handle_push_player_message,
  forward, ForwardPlayerMessageResponse, PushPlayerMessage,
}
use some_server.Gate.Numbers.{
  activate-Numbered, IsNumbered, moved, send_message-sessions, close_connection-IsNumbered,
  kick_connection-IsNumbered, kick_session-IsNumbered,
}

module _ {W : Type 0} (world : World W) where
  kick_existing_account_session-IsNumbered :
      (g : Gate W) (account : Bytes) (d : ℕ)
      → IsNumbered world g
      → IsNumbered world (kick_existing_account_session world g account d).1
  unfolding kick_existing_account_session kick_elsewhere
  kick_existing_account_session-IsNumbered g account d all =
      let (found, w) = lookup_account world.redis g.accounts account g.world in
      let asked = record g { world = w } in
      elim (Option-cases (lookup_account world.redis g.accounts account g.world).0) [
        | inl t ↦
            ground (
              arith,
              kick_session-IsNumbered world asked (find_by_account g.sessions account) d all,
            )
        | inr (owner, t) ↦ ground (
          arith,
          kick_session-IsNumbered world asked (snapshot g.sessions owner.gate_session_id) d all,
        )
      ]

  open_session-IsNumbered :
      (g : Gate W) (c : ℕ) → IsNumbered world g → IsNumbered world (open_session world g c).1
  unfolding open_session open_anonymous
  open_session-IsNumbered g c all =
      let now = (world.now_ms g.world).0 in
      ground (arith, AllEntries-put Numbered c (opened now c c) g.sessions all refl)

  begin_login-sessions :
      (g : Gate W) (c : ℕ) (platform account : Bytes)
      → (begin_login world g c platform account).1.sessions ≡ (open_session world g c).1.sessions
  unfolding begin_login request_login
  begin_login-sessions g c platform account = ground arith

  pub handle_client_login-IsNumbered :
      (g : Gate W) (c : ℕ) (request : LoginRequest)
      → IsNumbered world g
      → IsNumbered world (handle_client_login world g c request).1
  unfolding handle_client_login
  handle_client_login-IsNumbered g c request all =
      let auth = validate request.platform request.account_id request.credential in
      let kicked = (kick_existing_account_session world g auth.account_id c).1 in
      let kick_all = kick_existing_account_session-IsNumbered g auth.account_id c all in
      let begun = (begin_login world kicked c request.platform auth.account_id).1 in
      let refused = login_response error_code_unauthorized auth.message 0 false in
      ground (
        arith,
        kick_all,
        moved world (open_session world kicked c).1 begun
            (begin_login-sessions kicked c request.platform auth.account_id)
            (open_session-IsNumbered kicked c kick_all),
        moved world g (send_message world g c refused).1 (send_message-sessions world g c refused)
            all,
      )

  sign_in-IsNumbered :
      (g : Gate W) (pending : PendingLogin) (a : LoginPlayerResponse)
      → IsNumbered world g
      → IsNumbered world (sign_in world g pending a)
  unfolding sign_in
  sign_in-IsNumbered g pending a all =
      activate-Numbered g.sessions (world.now_ms g.world).0 pending.gate_session_id _ all

  pub handle_login_response-IsNumbered :
      (g : Gate W) (a : LoginPlayerResponse)
      → IsNumbered world g
      → IsNumbered world (handle_login_response world g a).1
  unfolding handle_login_response
  handle_login_response-IsNumbered g a all =
      elim (Option-cases (find a.request_id g.login.pending_logins)) [
        | inl t ↦ ground arith
        | inr (pending, t) ↦
            let taken = record g {
              login = record (g.login) {
                snapshot = noted a;
                pending_logins = erase a.request_id g.login.pending_logins;
              };
            } in
            let signed =
              if nat_eq a.result_code result_code_ok
              then sign_in world taken pending a
              else taken in
            let numbered : IsNumbered world signed =
              ground (arith, sign_in-IsNumbered taken pending a all) in
            let m = login_response (answer_code a) a.error_message a.player_id a.is_reconnect in
            let same : handle_login_response world g a
                ≡ send_message world signed pending.connection_id m =
              rw (handle_login_response, t) refl in
            subst (λ q. IsNumbered world q.1) (sym same)
              (moved world signed (send_message world signed pending.connection_id m).1
                (send_message-sessions world signed pending.connection_id m) numbered)
      ]

  pub handle_kick_account_session-IsNumbered :
      (g : Gate W) (request : KickRequest)
      → IsNumbered world g
      → IsNumbered world (handle_kick_account_session world g request).1
  unfolding handle_kick_account_session
  handle_kick_account_session-IsNumbered g request all =
      elim (Option-cases (snapshot g.sessions request.old_gate_session_id)) [
        | inl t ↦ ground arith
        | inr (r, t) ↦ ground (
          arith,
          kick_connection-IsNumbered world g r.connection_id
              (if request.reason == "" then replaced else request.reason) all,
        )
      ]

  pub handle_unbind_player_session-IsNumbered :
      (g : Gate W) (request : UnbindRequest)
      → IsNumbered world g
      → IsNumbered world (handle_unbind_player_session world g request).1
  unfolding handle_unbind_player_session
  handle_unbind_player_session-IsNumbered g request all =
      elim (Option-cases (snapshot g.sessions request.gate_session_id)) [
        | inl t ↦ ground arith
        | inr (r, t) ↦
            let c = r.connection_id in
            let moved_message : String = "player session ownership moved" in
            let g' = (send_kick_notification world g c moved_message).1 in
            let told =
              moved world g g' (send_message-sessions world g c (kick_notification moved_message))
                all in
            ground (arith, told, close_connection-IsNumbered world c g' told)
      ]

  pub handle_client_player_message-sessions :
      (g : Gate W) (c : ℕ) (request : PlayerMessageRequest)
      → (handle_client_player_message world g c request).1.sessions ≡ g.sessions
  unfolding handle_client_player_message forward
  handle_client_player_message-sessions g c request = ground arith

  pub handle_forward_player_message_response-sessions :
      (g : Gate W) (a : ForwardPlayerMessageResponse)
      → (handle_forward_player_message_response world g a).1.sessions ≡ g.sessions
  unfolding handle_forward_player_message_response send_message send
  handle_forward_player_message_response-sessions g a = ground arith

  pub handle_push_player_message-sessions :
      (g : Gate W) (p : PushPlayerMessage)
      → (handle_push_player_message world g p).1.sessions ≡ g.sessions
  unfolding handle_push_player_message send_message send
  handle_push_player_message-sessions g p = ground arith

  pub handle_heartbeat-sessions :
      (g : Gate W) (c : ℕ) → (handle_heartbeat world g c).1.sessions ≡ g.sessions
  unfolding handle_heartbeat send_message send
  handle_heartbeat-sessions g c = ground arith
