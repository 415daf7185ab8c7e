-- ===== src/Ipc/Link/Handshake.antt =====
-- The handshake of two processes over one connection.
use some_server.Base.{ℕ, ◌≡◌, true, some, List, [], ◌∷◌, arith, nat_eq, ◌&&◌, not, ◌↔◌, ◌≢◌, Eq_ℕ}
use some_server.Base.Table.{find, put}
use some_server.Ipc.Types.{ProcessRef}
use some_server.Ipc.Control
use some_server.Ipc.Control.{
  ControlCodec, ControlMessage, HelloInfo, ack_ok, ack_incompatible_version, encode_hello,
  encode_hello_ack,
}
use some_server.Ipc.Frame.{RawFrame}
use some_server.Ipc.Link.{
  LinkManager, connected, is_protocol_compatible, on_frame, on_connection_event, new_manager, Input,
  frame, run, step, has_healthy_direct_link, drain_outbound_frames,
}

abbrev hello_info : ProcessRef → ℕ → HelloInfo
hello_info p v = record {
  process_ref = p;
  protocol_version = v;
  min_supported_protocol_version = v;
}

-- A process accepts the hello that `EncodeHello` makes exactly when both speak the same version,
-- and that is not 0.
pub compatible_iff_same_version :
    (p : ProcessRef) (own theirs : ℕ)
    → (is_protocol_compatible own (hello_info p theirs) ≡ true) ↔ ((own ≡ theirs) × (theirs ≢ 0))
unfolding is_protocol_compatible
compatible_iff_same_version p own theirs = (λ h. ground arith, λ h. ground arith)

-- Frames of the other side that arrive over connection `c`.
abbrev deliveries : ℕ → List RawFrame → List Input
deliveries c [] = []
deliveries c (f ∷ fs) = frame (record f { connection_id = c }) ∷ deliveries c fs

-- Two processes, `a` over its connection `ca` and `b` over its connection `cb`: both see the
-- connection open, and then each gets in turn what the other had queued, twice.
module _ (codec : ControlCodec) (a b : ProcessRef) (va vb ca cb : ℕ) where
  unfoldable pub opened : LinkManager × LinkManager
  opened = (
    on_connection_event codec (new_manager a va) connected ca,
    on_connection_event codec (new_manager b vb) connected cb,
  )

  unfoldable pub exchange : LinkManager × LinkManager → LinkManager × LinkManager
  exchange (m, n) =
      let (fm, m') = drain_outbound_frames m in
      let (fn, n') = drain_outbound_frames n in
      (run codec m' (deliveries ca fn), run codec n' (deliveries cb fm))

  unfoldable pub met : LinkManager × LinkManager
  met = exchange (exchange opened)

  -- After two exchanges each side has a healthy link to the other exactly when both speak the
  -- same version and that is not 0.
  pub met_healthy :
      (has_healthy_direct_link met.0 b ≡ (nat_eq va vb && not (nat_eq va 0)))
      × (has_healthy_direct_link met.1 a ≡ (nat_eq va vb && not (nat_eq va 0)))
  unfolding met exchange opened drain_outbound_frames is_protocol_compatible run step on_frame
      on_connection_event encode_hello encode_hello_ack new_manager find put
      Control.decode_control_message Control.get_control_message_type Control.extract_hello_info
      Control.extract_hello_ack_result has_healthy_direct_link
  met_healthy = ground (
    arith,
    codec.parse-serialize (ControlMessage.hello (some a) va va),
    codec.parse-serialize (ControlMessage.hello (some b) vb vb),
    codec.parse-serialize (ControlMessage.hello_ack ack_ok (some a) va),
    codec.parse-serialize (ControlMessage.hello_ack ack_ok (some b) vb),
    codec.parse-serialize (ControlMessage.hello_ack ack_incompatible_version (some a) va),
    codec.parse-serialize (ControlMessage.hello_ack ack_incompatible_version (some b) vb),
  )
