-- ===== src/Ipc/Link/Identity.antt =====
-- Which process a link is taken to lead to, whatever arrives over its connection.
use some_server.Base.{
  length, ◌%◌, ◌^◌, ℕ, ◌≡◌, ◌≢◌, refl, false, Option, none, some, List, [], ◌∷◌, arith, nat_eq,
  Option-cases, inl, inr, ◌⊎◌, nat_eq_iff, Bool-cases, subst, Eq_ℕ,
}
use some_server.Base.Table.{
  Table, find, put, find-put, AllEntries, AllEntries-find, AllEntries-put, AllEntries-erase,
}
use some_server.Ipc.Types.{ProcessRef, success, failure, process_ref_eq_iff}
use some_server.Ipc.Control
use some_server.Ipc.Control.{
  ControlCodec, ControlMessage, HelloInfo, ack_ok, ack_incompatible_version, encode_hello,
  encode_hello_ack, got, refused,
}
use some_server.Ipc.Frame.{RawFrame, control_kind, default_header}
use some_server.Ipc.Link.{
  ConnectionEventType, first_connection, is_healthy_to, find_connection, LinkManager, Link, active,
  closed, handshaking, connected, disconnected, is_protocol_compatible, on_frame,
  on_connection_event, handle_hello, answer_hello, handle_hello_ack, handle_control, new_manager,
  Input, event, frame, run, step,
}

module _ (codec : ControlCodec) where
  -- The hello with an identity that a frame carries.
  abbrev pub announced : RawFrame → Option ProcessRef
  announced f = elim (codec.parse f.payload) [
    | none ↦ none
    | some m ↦ elim (Control.extract_hello_info m) [ refused _ ↦ none | got h ↦ some h.process_ref ]
  ]

  -- A control frame that brings a message over a connection.
  abbrev pub control : ℕ → ControlMessage → RawFrame
  control c msg = record {
    connection_id = c;
    header = record default_header { length = length (codec.serialize msg) % 2 ^ 32 };
    payload = codec.serialize msg;
  }

  -- `P c p`: process `p` has announced itself over connection `c`. Every link that is active or
  -- closed leads to such a process; a link that still waits for the hello is handshaking.
  module _ (P : ℕ → ProcessRef → Type 0) where
    abbrev pub KnownLink : ℕ → Link → Type 0
    KnownLink c l = (l.state ≡ handshaking) ⊎ P c l.remote_process

    pub record IsKnown (m : LinkManager) : Type 0 where
      pub known : AllEntries KnownLink m.links

    -- What the input may be: a hello stands for a process that `P` knows, and an answer to a
    -- hello does not come before the hello of the other side.
    abbrev pub Allowed : LinkManager → Input → Type 0
    Allowed m (event t c) = Unit
    Allowed m (frame f) =
        ((p : ProcessRef) → announced f ≡ some p → P f.connection_id p)
        × ((l : Link) (r v : ℕ) (p : Option ProcessRef)
            → codec.parse f.payload ≡ some (ControlMessage.hello_ack r p v)
            → find f.connection_id m.links ≡ some l
            → l.state ≢ handshaking)

    event-IsKnown :
        (m : LinkManager) (t : ConnectionEventType) (c : ℕ)
        → IsKnown m
        → IsKnown (on_connection_event codec m t c)
    unfolding on_connection_event
    event-IsKnown m connected c k = record {
      known = AllEntries-put KnownLink c _ m.links k.known (inl refl);
    }
    event-IsKnown m disconnected c k = record {
      known = AllEntries-erase KnownLink c m.links k.known;
    }

    hello-IsKnown :
        (m : LinkManager) (c : ℕ) (h : HelloInfo)
        → IsKnown m
        → P c h.process_ref
        → IsKnown (answer_hello codec m c h).0
    unfolding answer_hello
    hello-IsKnown m c h k p = elim (Bool-cases (is_protocol_compatible m.protocol_version h)) [
      | inl e ↦
          rw (e, answer_hello)
            (record { known = AllEntries-put KnownLink c _ m.links k.known (inr p) })
      | inr e ↦
          rw (e, answer_hello)
            (record { known = AllEntries-put KnownLink c _ m.links k.known (inr p) })
    ]

    ack-IsKnown :
        (m : LinkManager) (c r v : ℕ) (p : Option ProcessRef)
        → IsKnown m
        → ((l : Link) → find c m.links ≡ some l → l.state ≢ handshaking)
        → IsKnown (handle_hello_ack codec m c (ControlMessage.hello_ack r p v)).0
    unfolding handle_hello_ack Control.extract_hello_ack_result
    ack-IsKnown m c r v p k late = elim (Option-cases (find c m.links)) [
      | inl e ↦ rw (e, handle_hello_ack) k
      | inr (l, e) ↦
          rw (e, handle_hello_ack)
            (elim (Bool-cases (nat_eq r ack_ok)) [
              | inl t ↦ rw t (record {
                known = AllEntries-put KnownLink c _ m.links k.known (inr (reached l e));
              })
              | inr t ↦ rw t (record {
                known = AllEntries-put KnownLink c _ m.links k.known (inr (reached l e));
              })
            ])
    ]
      where
        reached : (l : Link) → find c m.links ≡ some l → P c l.remote_process
        reached l e = elim (AllEntries-find KnownLink c l m.links k.known e) [
          | inl h ↦ absurd (late l e h)
          | inr q ↦ q
        ]

    control-IsKnown :
        (m : LinkManager) (f : RawFrame) (msg : ControlMessage)
        → codec.parse f.payload ≡ some msg
        → IsKnown m
        → Allowed m (frame f)
        → IsKnown (handle_control codec m f msg (Control.get_control_message_type msg)).0
    unfolding handle_control handle_hello Control.get_control_message_type
        Control.extract_hello_info Control.decode_control_message
    control-IsKnown m f (ControlMessage.hello (some p) v min) e k ok =
        rw (e, handle_hello)
          (hello-IsKnown m f.connection_id
            (record { process_ref = p; protocol_version = v; min_supported_protocol_version = min })
            k (ok.0 p (rw (e, announced))))
    control-IsKnown m f (ControlMessage.hello none v min) e k ok = rw (e, handle_hello) k
    control-IsKnown m f (ControlMessage.hello_ack r p v) e k ok =
        ack-IsKnown m f.connection_id r v p k (λ l. ok.1 l r v p e)
    control-IsKnown m f ControlMessage.ping e k ok = record { known = k.known }
    control-IsKnown m f ControlMessage.pong e k ok = k
    control-IsKnown m f ControlMessage.close e k ok = k
    control-IsKnown m f ControlMessage.body_not_set e k ok = k

    frame-IsKnown :
        (m : LinkManager) (f : RawFrame)
        → IsKnown m
        → Allowed m (frame f)
        → IsKnown (on_frame codec m f).0
    unfolding on_frame Control.decode_control_message
    frame-IsKnown m f k ok = elim (Bool-cases (nat_eq f.header.kind control_kind)) [
      | inr e ↦ rw (e, on_frame) k
      | inl e ↦ elim (Option-cases (codec.parse f.payload)) [
        | inl bad ↦ rw (e, bad, on_frame) k
        | inr (msg, parsed) ↦ rw (e, on_frame) (rw parsed (control-IsKnown m f msg parsed k ok))
      ]
    ]

    -- One input keeps every link with a process that announced itself over its connection.
    pub step-IsKnown :
        (m : LinkManager) (i : Input) → IsKnown m → Allowed m i → IsKnown (step codec m i)
    unfolding step
    step-IsKnown m (event t c) k ok = event-IsKnown m t c k
    step-IsKnown m (frame f) k ok = frame-IsKnown m f k ok

    abbrev pub AllAllowed : LinkManager → List Input → Type 0
    AllAllowed m [] = Unit
    AllAllowed m (i ∷ is) = Allowed m i × AllAllowed (step codec m i) is

    run-IsKnown :
        (m : LinkManager) (is : List Input) → IsKnown m → AllAllowed m is → IsKnown (run codec m is)
    unfolding run
    run-IsKnown m [] k ok = k
    run-IsKnown m (i ∷ is) k ok = run-IsKnown (step codec m i) is (step-IsKnown m i k ok.0) ok.1

    chosen-known :
        (target : ProcessRef) (c : ℕ) (ls : Table ℕ Link)
        → AllEntries KnownLink ls
        → first_connection target ls ≡ some c
        → P c target
    chosen-known target c [] k e = cc
    chosen-known target c ((d, l) ∷ ls) k e = elim (Bool-cases (is_healthy_to target l)) [
      | inr no_match ↦ chosen-known target c ls k.1 (ground arith)
      | inl chosen ↦ elim k.0 [
        | inl h ↦ absurd (ground arith)
        | inr p ↦
            subst (λ q. P q target) (ground arith)
              (subst (P d) ((process_ref_eq_iff l.remote_process target).0 (ground arith)) p)
      ]
    ]

    -- After any inputs in which no answer to a hello comes before the hello of the other side, which the
    -- code does not check: whatever holds of each connection with the process that a hello over it names
    -- holds of a connection with the process that it is chosen for. So the process has announced itself
    -- over the connection.
    pub find_connection-run :
        (self target : ProcessRef) (version c : ℕ) (is : List Input)
        → AllAllowed (new_manager self version) is
        → find_connection (run codec (new_manager self version) is) target ≡ some c
        → P c target
    unfolding find_connection new_manager
    find_connection-run self target version c is ok e =
        chosen-known target c (run codec (new_manager self version) is).links
          (run-IsKnown (new_manager self version) is (record { known = tt }) ok).known e

  -- A link that was closed because its version is not supported is healthy again after an
  -- accepting answer to a hello: the version is not checked again.
  pub closed_link_revives :
      (m : LinkManager) (c : ℕ) (p : ProcessRef) (v min : ℕ) (other : Option ProcessRef)
      → is_protocol_compatible m.protocol_version
          (record { process_ref = p; protocol_version = v; min_supported_protocol_version = min })
        ≡ false
      → let refused = on_frame codec m (control c (ControlMessage.hello (some p) v min)) in
        let revived =
          on_frame codec refused.0 (control c (ControlMessage.hello_ack ack_ok other v)) in
        (refused.1 ≡ failure "incompatible protocol version")
        × (revived.1 ≡ success)
        × (find c revived.0.links
            ≡ some (record { connection_id = c; remote_process = p; state = active }))
  unfolding on_frame handle_control answer_hello handle_hello handle_hello_ack
      Control.decode_control_message Control.get_control_message_type Control.extract_hello_info
      Control.extract_hello_ack_result
  closed_link_revives m c p v min other bad =
      let l : Link = record { connection_id = c; remote_process = p; state = closed } in
      ground (
        arith,
        codec.parse-serialize (ControlMessage.hello (some p) v min),
        codec.parse-serialize (ControlMessage.hello_ack ack_ok other v),
        find-put c c l m.links,
        find-put c c (record l { state = active }) (put c l m.links),
        nat_eq_iff c c,
      )
