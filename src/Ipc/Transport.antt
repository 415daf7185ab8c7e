-- ===== src/Ipc/Transport.antt =====
-- src/framework/ipc/transport/tcp_transport.cpp: how frames are written to a socket and read back
-- from one. A socket is the sequence of bytes that it will still deliver before the peer closes it.
pub mod Stream
use some_server.Base.{
  ℕ, zero, suc, ◌+◌, ◌≡◌, refl, Bool, true, false, Option, none, some, List, [], ◌∷◌, ◌++◌, Bytes,
  length, take, drop, ltb, nat_eq, if◌then◌else◌, leb,
}
use some_server.Ipc.Frame.{
  FrameHeader, RawFrame, default_header, frame_header_size, serialize_frame_header,
  deserialize_frame_header,
}

-- `Send`: the header, and the payload unless it is empty.
unfoldable pub frame_bytes : RawFrame → Bytes
frame_bytes f = serialize_frame_header f.header ++ f.payload

-- `ReadExact`: `size` bytes and what is left, or nothing when the stream ends before them.
unfoldable pub read_exact : ℕ → Bytes → Option (Bytes × Bytes)
read_exact size s = if leb size (length s) then some (take size s, drop size s) else none

-- The payload of a frame; nothing is read for an empty one.
unfoldable pub read_payload : ℕ → Bytes → Option (Bytes × Bytes)
read_payload zero s = some ([], s)
read_payload (suc n) s = read_exact (suc n) s

-- The header of the next frame, when it is complete and has the magic.
unfoldable pub read_header : Bytes → Option (FrameHeader × Bytes)
read_header s = elim (read_exact frame_header_size s) [
  | none ↦ none
  | some (bytes, rest) ↦
      let (ok, header) = deserialize_frame_header (some bytes) default_header in
      if ok then some (header, rest) else none
]

-- One round of `ReaderLoop`: the frame that is handed to the handler, or the end of the loop.
unfoldable pub read_frame : ℕ → Bytes → Option (RawFrame × Bytes)
read_frame connection_id s = elim (read_header s) [
  | none ↦ none
  | some (header, rest) ↦ elim (read_payload header.length rest) [
    | none ↦ none
    | some (payload, tail) ↦
        some (record { connection_id = connection_id; header = header; payload = payload }, tail)
  ]
]

-- `ReaderLoop`: the frames that are handed to the handler before the loop ends and the connection
-- is closed; `none` when the fuel runs out first.
unfoldable pub reader_loop : ℕ → ℕ → Bytes → Option (List RawFrame)
reader_loop zero connection_id s = none
reader_loop (suc fuel) connection_id s = elim (read_frame connection_id s) [
  | none ↦ some []
  | some (frame, rest) ↦ elim (reader_loop fuel connection_id rest) [
    | none ↦ none
    | some frames ↦ some (frame ∷ frames)
  ]
]
