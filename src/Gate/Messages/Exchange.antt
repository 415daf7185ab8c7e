-- ===== src/Gate/Messages/Exchange.antt =====
-- The message of a client and the answer to it: the answer reaches the connection that asked, once.
use some_server.Base.{
  ℕ, ◌≡◌, ◌≢◌, inl, inr, refl, sym, ap, ◌∙◌, subst, true, false, none, some, arith, nat_eq,
  if◌then◌else◌, Eq_ℕ, Eq_String, Eq_Bytes, Bool-cases, Option-cases,
}
use some_server.Base.Table.{find, erase, find-put_same, find-erase_same}
use some_server.Ipc.Types.{failure}
use some_server.Gate.State.{
  World, WorldLaws, Gate, PendingMessage, PlayerMessageRequest, ClientMessage,
  ForwardPlayerMessageRequest, forward_player_message_request, player_message_response,
}
use some_server.Gate.Sessions.{GateSessionRecord, find_by_connection}
use some_server.Gate.Connections.Writing.{send_message-Keeps}
use some_server.Gate.Protocol.{send_message, error_code_ok, error_code_internal}
use some_server.Gate.Login.Answers.{result_code_ok}
use some_server.Gate.Messages.{
  forward, forward_request, plays, handle_client_player_message,
  handle_forward_player_message_response, ForwardPlayerMessageResponse,
}

true_ne_false : true ≢ false
true_ne_false h = ground arith

abbrev pub client_answer : ForwardPlayerMessageResponse → ClientMessage
client_answer a =
    player_message_response a.message_id
      (if nat_eq a.result_code result_code_ok then error_code_ok else error_code_internal)
      a.error_message a.response_payload_bytes

module _ {W : Type 0} (world : World W) where
  -- The pending message of an answer taken out.
  abbrev pub settled : Gate W → ForwardPlayerMessageResponse → Gate W
  settled g a = record g {
    messages = record (g.messages) {
      pending_messages = erase a.request_id g.messages.pending_messages;
    };
  }

  abbrev pub pending_for : ℕ → GateSessionRecord → PlayerMessageRequest → PendingMessage
  pending_for c session request = record {
    connection_id = c;
    gate_session_id = session.gate_session_id;
    player_id = session.player_id;
    client_message_id = request.message_id;
  }

  forward_lem :
      (g : Gate W) (c : ℕ) (session : GateSessionRecord) (request : PlayerMessageRequest)
      → (forward world g c session request).0.ok ≡ true
      → find g.messages.next_request_id
          (forward world g c session request).1.messages.pending_messages
        ≡ some (pending_for c session request)
  unfolding forward
  forward_lem g c session request ok =
      let id = g.messages.next_request_id in
      ground (arith, find-put_same id (pending_for c session request) g.messages.pending_messages)

  answered :
      (g : Gate W) (a : ForwardPlayerMessageResponse) (pending : PendingMessage)
      → find a.request_id g.messages.pending_messages ≡ some pending
      → handle_forward_player_message_response world g a
        ≡ send_message world (settled g a) pending.connection_id (client_answer a)
  unfolding handle_forward_player_message_response
  answered g a pending h = rw (handle_forward_player_message_response, h) refl

  -- What the game process of a session is sent for a message of its client.
  pub record IsSent (g g' : Gate W) (session : GateSessionRecord) (request : PlayerMessageRequest)
      (sent : ForwardPlayerMessageRequest) : Type 0 where
    pub to_game :
        g'.world
        ≡ (world.send_process_payload
            (record {
              service_type = session.game_service_type;
              instance_id = session.game_instance_id;
            })
            (forward_player_message_request sent)
            g.world).1
    pub for_session : sent.gate_session_id ≡ session.gate_session_id
    pub for_player : sent.player_id ≡ session.player_id
    pub same_message : sent.message_id ≡ request.message_id
    pub same_payload : sent.payload_bytes ≡ request.payload
    pub same_sequence : sent.client_sequence ≡ request.sequence

  forward-IsSent :
      (g : Gate W) (c : ℕ) (session : GateSessionRecord) (request : PlayerMessageRequest)
      → IsSent g
          (forward world g c session request).1
          session
          request
          (forward_request g.messages.next_request_id session request)
  unfolding forward
  forward-IsSent g c session request = record {
    to_game = ground arith;
    for_session = refl;
    for_player = refl;
    same_message = refl;
    same_payload = refl;
    same_sequence = refl;
  }

  -- A message of a client that is taken comes from the connection of an active session with a player.
  -- The game process of that session is sent the message for the session and the player, with the
  -- number that was next; and an answer with the number that was sent goes to that connection.
  pub answer_reaches_client :
      (g : Gate W) (c : ℕ) (request : PlayerMessageRequest) (a : ForwardPlayerMessageResponse)
      → (handle_client_player_message world g c request).0.ok ≡ true
      → a.request_id ≡ g.messages.next_request_id
      → let g' = (handle_client_player_message world g c request).1 in
        ((session : GateSessionRecord) × (sent : ForwardPlayerMessageRequest) × (find_by_connection
              g.sessions c
            ≡ some session)
          × (plays session ≡ true)
          × IsSent g g' session request sent
          × (sent.request_id ≡ a.request_id))
        × (handle_forward_player_message_response world g' a
            ≡ send_message world (settled g' a) c (client_answer a))
  unfolding handle_client_player_message
  answer_reaches_client g c request a ok number =
      elim (Option-cases (find_by_connection g.sessions c)) [
        | inl t ↦
            let same : (handle_client_player_message world g c request).0.ok ≡ false =
              rw (handle_client_player_message, t) refl in
            absurd (true_ne_false (sym ok ∙ same))
        | inr (session, t) ↦ elim (Bool-cases (plays session)) [
          | inr idle ↦
              let same : (handle_client_player_message world g c request).0.ok ≡ false =
                rw (handle_client_player_message, t, idle) refl in
              absurd (true_ne_false (sym ok ∙ same))
          | inl active_now ↦
              let g' = (handle_client_player_message world g c request).1 in
              let same : handle_client_player_message world g c request
                  ≡ forward world g c session request =
                rw (handle_client_player_message, t, active_now) refl in
              let pending : find a.request_id g'.messages.pending_messages
                  ≡ some (pending_for c session request) =
                ap (λ i. find i g'.messages.pending_messages) number
                ∙ ap (λ q. find g.messages.next_request_id q.1.messages.pending_messages) same
                ∙ forward_lem g c session request (sym (ap (λ q. q.0.ok) same) ∙ ok) in
              let sent = forward_request g.messages.next_request_id session request in
              let told : IsSent g g' session request sent =
                subst (λ q. IsSent g q.1 session request sent) (sym same)
                  (forward-IsSent g c session request) in
              (
                (session, sent, t, active_now, told, sym number),
                answered g' a (pending_for c session request) pending,
              )
        ]
      ]

  module _ (laws : WorldLaws world) where
    settled-once :
        (g : Gate W) (a : ForwardPlayerMessageResponse)
        → find a.request_id
            (handle_forward_player_message_response world g a).1.messages.pending_messages
          ≡ none
    unfolding handle_forward_player_message_response
    settled-once g a = elim (Option-cases (find a.request_id g.messages.pending_messages)) [
      | inl t ↦
          let same : (handle_forward_player_message_response world g a).1 ≡ g =
            rw (handle_forward_player_message_response, t) refl in
          ap (λ q. find a.request_id q.messages.pending_messages) same ∙ t
      | inr (pending, t) ↦
          ap (λ q. find a.request_id q.1.messages.pending_messages) (answered g a pending t)
          ∙ ap (λ m. find a.request_id m.pending_messages)
              (send_message-Keeps world laws (settled g a) pending.connection_id
                (client_answer a)).messages
          ∙ find-erase_same a.request_id g.messages.pending_messages
    ]

    -- After an answer to a message a second one with its number fails and changes nothing.
    pub answer_once :
        (g : Gate W) (a b : ForwardPlayerMessageResponse)
        → b.request_id ≡ a.request_id
        → let g' = (handle_forward_player_message_response world g a).1 in
          handle_forward_player_message_response world g' b
          ≡ (failure "missing pending player message", g')
    unfolding handle_forward_player_message_response
    answer_once g a b same =
        let g' = (handle_forward_player_message_response world g a).1 in
        let gone : find b.request_id g'.messages.pending_messages ≡ none =
          subst (λ i. find i g'.messages.pending_messages ≡ none) (sym same) (settled-once g a) in
        rw (handle_forward_player_message_response, gone) refl
