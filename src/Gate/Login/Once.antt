-- ===== src/Gate/Login/Once.antt =====
-- An answer of the game process is taken once.
use some_server.Base.{
  ◌≡◌, inl, inr, refl, sym, ap, ◌∙◌, subst, none, some, arith, nat_eq, if◌then◌else◌, Eq_ℕ,
  Eq_String, Eq_Bytes, Option-cases,
}
use some_server.Base.Table.{find, erase, find-erase_same}
use some_server.Ipc.Types.{failure}
use some_server.Gate.State.{World, WorldLaws, Gate, PendingLogin, login_response}
use some_server.Gate.Connections.Writing.{send_message-Keeps}
use some_server.Gate.Protocol.{send_message}
use some_server.Gate.Login.Answers.{
  LoginPlayerResponse, result_code_ok, sign_in, handle_login_response, noted, answer_code,
}

module _ {W : Type 0} (world : World W) where
  -- The answer noted, and for a pending request that request taken out.
  abbrev pub noted_in : Gate W → LoginPlayerResponse → Gate W
  noted_in g a = record g { login = record (g.login) { snapshot = noted a } }

  abbrev taken_out : Gate W → LoginPlayerResponse → Gate W
  taken_out g a = record g {
    login = record (g.login) {
      snapshot = noted a;
      pending_logins = erase a.request_id g.login.pending_logins;
    };
  }

  missing :
      (g : Gate W) (a : LoginPlayerResponse)
      → find a.request_id g.login.pending_logins ≡ none
      → handle_login_response world g a ≡ (failure "missing pending login", noted_in g a)
  unfolding handle_login_response
  missing g a h = rw (handle_login_response, h) refl

  module _ (laws : WorldLaws world) where
    login-handled :
        (g : Gate W) (a : LoginPlayerResponse) (pending : PendingLogin)
        → find a.request_id g.login.pending_logins ≡ some pending
        → (handle_login_response world g a).1.login ≡ (taken_out g a).login
    unfolding handle_login_response sign_in
    login-handled g a pending h =
        let signed =
          if nat_eq a.result_code result_code_ok
          then sign_in world (taken_out g a) pending a
          else taken_out g a in
        let m = login_response (answer_code a) a.error_message a.player_id a.is_reconnect in
        let same : handle_login_response world g a
            ≡ send_message world signed pending.connection_id m =
          rw (handle_login_response, h) refl in
        let logged : signed.login ≡ (taken_out g a).login = ground arith in
        ap (λ q. q.1.login) same
        ∙ (send_message-Keeps world laws signed pending.connection_id m).login
        ∙ logged

    pending-handled :
        (g : Gate W) (a : LoginPlayerResponse)
        → find a.request_id (handle_login_response world g a).1.login.pending_logins ≡ none
    pending-handled g a = elim (Option-cases (find a.request_id g.login.pending_logins)) [
      | inl t ↦ ap (λ q. find a.request_id q.1.login.pending_logins) (missing g a t) ∙ t
      | inr (pending, t) ↦
          ap (λ l. find a.request_id l.pending_logins) (login-handled g a pending t)
          ∙ find-erase_same a.request_id g.login.pending_logins
    ]

    -- After an answer, whatever it said, a second answer to the same request fails, and changes no
    -- more than what is noted of the last answer.
    pub handle_login_response_once :
        (g : Gate W) (a b : LoginPlayerResponse)
        → b.request_id ≡ a.request_id
        → let g' = (handle_login_response world g a).1 in
          handle_login_response world g' b ≡ (failure "missing pending login", noted_in g' b)
    handle_login_response_once g a b same =
        let g' = (handle_login_response world g a).1 in
        missing g' b
          (subst (λ q. find q g'.login.pending_logins ≡ none) (sym same) (pending-handled g a))
