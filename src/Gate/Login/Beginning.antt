-- ===== src/Gate/Login/Beginning.antt =====
-- What stands after the message of a client that signs in was taken.
use some_server.Base.{
  ℕ, ◌≡◌, ◌≢◌, ◌⊎◌, inl, inr, refl, sym, ap, ◌∙◌, subst, true, false, some, arith, Eq_ℕ, Eq_String,
  Eq_Bytes, Bool-cases, Option-cases, is_some, Bytes,
}
use some_server.Base.Table.{find, put, find-put_same}
use some_server.Gate.State.{World, Gate, ConnectionService, LoginRequest, PendingLogin, anonymous}
use some_server.Gate.Sessions.{opened, open_anonymous, snapshot}
use some_server.Gate.Connections.{mark_anonymous, mark}
use some_server.Gate.Connections.Writing.{state_of, state_of_record}
use some_server.Gate.Login.Auth.{validate}
use some_server.Gate.Login.Kicks.{kick_existing_account_session}
use some_server.Gate.Login.Requests.{request_login, open_session, begin_login, handle_client_login}

true_ne_false : true ≢ false
true_ne_false h = ground arith

mark_anonymous_lem :
    (s : ConnectionService) (c : ℕ)
    → (mark_anonymous s c).0.ok ≡ true
    → state_of (mark_anonymous s c).1 c ≡ some anonymous
unfolding mark_anonymous
mark_anonymous_lem s c ok = elim (Option-cases (find c s.connections)) [
  | inl t ↦ ground arith
  | inr (r, t) ↦
      let here = record r { state = anonymous } in
      let same : (mark_anonymous s c).1 ≡ record s { connections = put c here s.connections } =
        rw (mark_anonymous, mark, t) refl in
      subst (λ q. state_of q c ≡ some anonymous) (sym same)
        (ap state_of_record (find-put_same c here s.connections))
]

valid_account :
    (platform account credential : Bytes)
    → (validate platform account credential).ok ≡ true
    → (validate platform account credential).account_id ≡ account
unfolding validate
valid_account platform account credential h = ground arith

module _ {W : Type 0} (world : World W) where
  abbrev pub pending_of : ℕ → Bytes → PendingLogin
  pending_of c account = record { connection_id = c; gate_session_id = c; account_id = account }

  open_session_lem :
      (g : Gate W) (c : ℕ)
      → (is_some (find c (open_session world g c).1.sessions) ≡ true)
        × ((open_session world g c).1.login ≡ g.login)
  unfolding open_session open_anonymous snapshot
  open_session_lem g c =
      ground (arith, find-put_same c (opened (world.now_ms g.world).0 c c) g.sessions)

  request_login_lem :
      (g : Gate W) (c : ℕ) (platform account : Bytes)
      → let (result, g') = request_login world g 1 c c platform account 1 in
        (g'.sessions ≡ g.sessions)
        × (g'.connections ≡ g.connections)
        × ((result.ok ≡ false)
            ⊎ (find g.login.next_request_id g'.login.pending_logins ≡ some (pending_of c account)))
  unfolding request_login
  request_login_lem g c platform account =
      ground
        (arith, find-put_same g.login.next_request_id (pending_of c account) g.login.pending_logins)

  -- The facts that a sign-in has begun.
  pub record Begun (c : ℕ) (account : Bytes) (id : ℕ) (g : Gate W) : Type 0 where
    pub anonymous_now : state_of g.connections c ≡ some anonymous
    pub has_session : is_some (find c g.sessions) ≡ true
    pub asked : find id g.login.pending_logins ≡ some (pending_of c account)

  begin_login_lem :
      (g : Gate W) (c : ℕ) (platform account : Bytes)
      → (begin_login world g c platform account).0.ok ≡ true
      → Begun c account g.login.next_request_id (begin_login world g c platform account).1
  unfolding begin_login
  begin_login_lem g c platform account ok =
      let (opened_ok, g') = open_session world g c in
      let (marked, connections) = mark_anonymous g'.connections c in
      let g'' = record g' { connections = connections } in
      elim (Bool-cases (open_session world g c).0.ok) [
        | inr t ↦
            let same : (begin_login world g c platform account).0 ≡ opened_ok =
              rw (begin_login, t) refl in
            absurd (true_ne_false (sym ok ∙ ap (λ q. q.ok) same ∙ t))
        | inl t ↦ elim (Bool-cases (mark_anonymous (open_session world g c).1.connections c).0.ok) [
          | inr t' ↦
              let same : (begin_login world g c platform account).0 ≡ marked =
                rw (begin_login, t, t') refl in
              absurd (true_ne_false (sym ok ∙ ap (λ q. q.ok) same ∙ t'))
          | inl t' ↦
              let same : begin_login world g c platform account
                  ≡ request_login world g'' 1 c c platform account 1 =
                rw (begin_login, t, t') refl in
              let asked = request_login_lem g'' c platform account in
              let same_id : g''.login.next_request_id ≡ g.login.next_request_id =
                ap (λ l. l.next_request_id) (open_session_lem g c).1 in
              record {
                anonymous_now =
                    ap (λ q. state_of (q.1.connections) c) same
                    ∙ ap (λ s. state_of s c) asked.1
                    ∙ mark_anonymous_lem g'.connections c t';
                has_session =
                    ap (λ q. is_some (find c q.1.sessions)) same
                    ∙ ap (λ m. is_some (find c m)) asked.0
                    ∙ (open_session_lem g c).0;
                asked = elim asked.2 [
                  | inl failed ↦ absurd (true_ne_false (sym ok ∙ ap (λ q. q.0.ok) same ∙ failed))
                  | inr e ↦
                      ap (λ q. find g.login.next_request_id q.1.login.pending_logins) same
                      ∙ subst
                          (λ i.
                            find i
                              (request_login world g'' 1 c c platform account
                                1).1.login.pending_logins
                            ≡ some (pending_of c account))
                          same_id e
                ];
              }
        ]
      ]

  -- A sign-in that succeeds, of a client that named a platform, an account and a credential: the
  -- connection is anonymous, it has a session, and a request for it and for the account is pending,
  -- under the number that was next when the kick was over.
  pub handle_client_login-Begun :
      (g : Gate W) (c : ℕ) (request : LoginRequest)
      → (validate request.platform request.account_id request.credential).ok ≡ true
      → (handle_client_login world g c request).0.ok ≡ true
      → let kicked = (kick_existing_account_session world g request.account_id c).1 in
        Begun c request.account_id kicked.login.next_request_id
          (handle_client_login world g c request).1
  unfolding handle_client_login
  handle_client_login-Begun g c request valid ok =
      let account = request.account_id in
      let (kick, kicked) = kick_existing_account_session world g account c in
      let who : (validate request.platform account request.credential).account_id ≡ account =
        valid_account request.platform account request.credential valid in
      elim (Bool-cases (kick_existing_account_session world g account c).0.ok) [
        | inr t ↦
            let same : (handle_client_login world g c request).0 ≡ kick =
              rw (handle_client_login, valid, who, t) refl in
            absurd (true_ne_false (sym ok ∙ ap (λ q. q.ok) same ∙ t))
        | inl t ↦
            let same : handle_client_login world g c request
                ≡ begin_login world kicked c request.platform account =
              rw (handle_client_login, valid, who, t) refl in
            subst (λ q. Begun c account kicked.login.next_request_id q.1) (sym same)
              (begin_login_lem kicked c request.platform account (sym (ap (λ q. q.0.ok) same) ∙ ok))
      ]
