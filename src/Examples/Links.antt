-- ===== src/Examples/Links.antt =====
-- The theorems on frames, links and their handshake at concrete inputs.
use some_server.Base.{
  ℕ, ◌≡◌, refl, some, List, [], ◌∷◌, ◌++◌, Bytes, arith, nat_eq, not, ◌&&◌, is_some, Eq_ℕ,
}
use some_server.Base.Table.{find, put}
use some_server.Ipc.Types.{ProcessRef, success, failure}
use some_server.Ipc.Frame.{FrameHeader, RawFrame, frame_magic}
use some_server.Ipc.Frame.RoundTrip.{IsWire}
use some_server.Ipc.Transport.{reader_loop}
use some_server.Ipc.Transport.Stream.{IsSent, stream, reader_loop-stream}
use some_server.Ipc.Control
use some_server.Ipc.Control.{ControlMessage, encode_hello, encode_hello_ack, ack_ok, HelloInfo}
use some_server.Ipc.Link.{
  active, Input, event, frame, connected, new_manager, run, on_frame, find_connection,
  has_healthy_direct_link, get_healthy_links, is_protocol_compatible, step, on_connection_event,
  handle_control, handle_hello, answer_hello,
}
use some_server.Ipc.Link.Handshake.{met, met_healthy}
use some_server.Ipc.Link.Identity.{control, find_connection-run, closed_link_revives}
use some_server.Ipc.Link.Queries.{holds, queries_agree}
use some_server.Examples.Instances.{message_codec}

abbrev game_one : ProcessRef
game_one = record { process_id = record { service_type = 1; instance_id = 1 }; incarnation_id = 41 }

abbrev relay_two : ProcessRef
relay_two = record {
  process_id = record { service_type = 2; instance_id = 2 };
  incarnation_id = 42;
}

abbrev header_three : FrameHeader
header_three = record { magic = frame_magic; version = 1; kind = 2; length = 3 }

header_three-IsWire : IsWire header_three
header_three-IsWire = record {
  magic = omega arith;
  version = omega arith;
  kind = omega arith;
  length = omega arith;
}

abbrev frame_three : RawFrame
frame_three = record { connection_id = 5; header = header_three; payload = 7 ∷ 8 ∷ 9 ∷ [] }

frame_three-IsSent : IsSent 5 frame_three
frame_three-IsSent = record {
  wire = header_three-IsWire;
  magic = refl;
  sized = refl;
  connection = refl;
}

abbrev twelve_bytes : Bytes
twelve_bytes = 1 ∷ 2 ∷ 3 ∷ 4 ∷ 5 ∷ 6 ∷ 7 ∷ 8 ∷ 9 ∷ 10 ∷ 11 ∷ 12 ∷ []

reader_loop-stream_example :
    reader_loop 2 5 (stream (frame_three ∷ []) ++ 1 ∷ []) ≡ some (frame_three ∷ [])
reader_loop-stream_example =
    reader_loop-stream 5 2 (frame_three ∷ []) (1 ∷ []) (frame_three-IsSent, tt) (omega arith)
      (omega arith)

met_healthy_example :
    (has_healthy_direct_link (met message_codec game_one relay_two 3 3 10 20).0 relay_two
      ≡ (nat_eq 3 3 && not (nat_eq 3 0)))
    × (has_healthy_direct_link (met message_codec game_one relay_two 3 3 10 20).1 game_one
        ≡ (nat_eq 3 3 && not (nat_eq 3 0)))
met_healthy_example = met_healthy message_codec game_one relay_two 3 3 10 20

-- A connection opens, and the relay greets over it.
abbrev greeting : List Input
greeting =
    event connected 10
    ∷ frame (control message_codec 10 (ControlMessage.hello (some relay_two) 3 3))
    ∷ []

-- Connection 10 is the relay's.
abbrev Announces : ℕ → ProcessRef → Type 0
Announces c p = (c ≡ 10) × (p ≡ relay_two)

find_connection-run_example : Announces 10 relay_two
unfolding message_codec find_connection run step on_frame on_connection_event handle_control
    handle_hello answer_hello is_protocol_compatible new_manager find put
    Control.get_control_message_type Control.extract_hello_info Control.decode_control_message
    encode_hello encode_hello_ack
find_connection-run_example =
    find_connection-run message_codec Announces game_one relay_two 3 10 greeting
      (tt, ((λ p e. (refl, ground arith), λ l r v p e f. absurd (ground arith)), tt)) refl

closed_link_revives_example :
    let refused =
      on_frame message_codec
        (new_manager game_one 3)
        (control message_codec 10 (ControlMessage.hello (some relay_two) 4 4)) in
    let revived =
      on_frame message_codec refused.0
        (control message_codec 10 (ControlMessage.hello_ack ack_ok (some relay_two) 4)) in
    (refused.1 ≡ failure "incompatible protocol version")
    × (revived.1 ≡ success)
    × (find 10 revived.0.links
        ≡ some (record { connection_id = 10; remote_process = relay_two; state = active }))
unfolding is_protocol_compatible new_manager
closed_link_revives_example =
    closed_link_revives message_codec (new_manager game_one 3) 10 relay_two 4 4 (some relay_two)
      refl

queries_agree_example :
    let m = run message_codec (new_manager game_one 3) greeting in
    (has_healthy_direct_link m relay_two ≡ is_some (find_connection m relay_two))
    × (holds relay_two (get_healthy_links m) ≡ has_healthy_direct_link m relay_two)
queries_agree_example =
    queries_agree (run message_codec (new_manager game_one 3) greeting) relay_two
