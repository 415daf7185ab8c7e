-- ===== src/Ipc/Transport/Stream.antt =====
-- What is written by `Send` is read back by the reader loop of the peer, frame by frame.
use mathlib.Core.List.{append_assoc}
use some_server.Base.{
  All, Option-cases, is_some, true, inl, inr, ℕ, zero, suc, ◌+◌, ◌≡◌, ◌≤◌, ◌<◌, refl, none, some,
  List, [], ◌∷◌, ◌++◌, Bytes, length, take, drop, arith,
}
use some_server.Ipc.Frame.{
  FrameHeader, RawFrame, default_header, serialize_frame_header, frame_magic,
}
use some_server.Ipc.Frame.RoundTrip.{IsWire, deserialize-serialize}
use some_server.Ipc.Transport.{
  frame_bytes, read_exact, read_payload, read_header, read_frame, reader_loop,
}

-- A frame that the program sends on connection `c`: its header fits the wire, has the magic and
-- carries the size of the payload.
pub record IsSent (c : ℕ) (f : RawFrame) : Type 0 where
  pub wire : IsWire f.header
  pub magic : f.header.magic ≡ frame_magic
  pub sized : length f.payload ≡ f.header.length
  pub connection : f.connection_id ≡ c

take-append : (s rest : Bytes) → take (length s) (s ++ rest) ≡ s
take-append [] rest = refl
take-append (c ∷ s) rest = ground (arith, take-append s rest)

drop-append : (s rest : Bytes) → drop (length s) (s ++ rest) ≡ rest
drop-append [] rest = refl
drop-append (c ∷ s) rest = drop-append s rest

length-le-append : (s rest : Bytes) → length s ≤ length (s ++ rest)
length-le-append [] rest = omega arith
length-le-append (c ∷ s) rest = omega (arith, length-le-append s rest)

read_exact-append : (s rest : Bytes) → read_exact (length s) (s ++ rest) ≡ some (s, rest)
unfolding read_exact
read_exact-append s rest =
    ground (arith, take-append s rest, drop-append s rest, length-le-append s rest)

read_header-append :
    (h : FrameHeader) (rest : Bytes)
    → IsWire h
    → h.magic ≡ frame_magic
    → read_header (serialize_frame_header h ++ rest) ≡ some (h, rest)
unfolding read_header serialize_frame_header
read_header-append h rest w m = ground (
  arith,
  read_exact-append (serialize_frame_header h) rest,
  deserialize-serialize h default_header [] w,
)

read_payload-append : (s rest : Bytes) → read_payload (length s) (s ++ rest) ≡ some (s, rest)
unfolding read_payload
read_payload-append [] rest = refl
read_payload-append (c ∷ s) rest = read_exact-append (c ∷ s) rest

read_frame-append :
    (c : ℕ) (f : RawFrame) (rest : Bytes)
    → IsSent c f
    → read_frame c (frame_bytes f ++ rest) ≡ some (f, rest)
unfolding read_frame frame_bytes
read_frame-append c f rest h = ground (
  arith,
  append_assoc (serialize_frame_header f.header) f.payload rest,
  read_header-append f.header (f.payload ++ rest) h.wire h.magic,
  read_payload-append f.payload rest,
)

-- No frame is read from less than a header.
read_frame_short : (c : ℕ) (s : Bytes) → length s < 12 → read_frame c s ≡ none
unfolding read_frame read_header read_exact
read_frame_short c s h = ground arith

-- The bytes of several frames, one after the other.
abbrev pub stream : List RawFrame → Bytes
stream [] = []
stream (f ∷ fs) = frame_bytes f ++ stream fs

-- Every frame that is written on a connection is read from it, in order and unchanged, when the
-- stream ends after the last one or within the header of another.
pub reader_loop-stream :
    (c fuel : ℕ) (fs : List RawFrame) (rest : Bytes)
    → All (IsSent c) fs
    → length rest < 12
    → length fs < fuel
    → reader_loop fuel c (stream fs ++ rest) ≡ some fs
unfolding reader_loop
reader_loop-stream c zero fs rest h k enough = absurd (omega arith)
reader_loop-stream c (suc fuel) [] rest h k enough = ground (arith, read_frame_short c rest k)
reader_loop-stream c (suc fuel) (f ∷ fs) rest h k enough = rw append_assoc (
    ground (
      arith,
      read_frame-append c f (stream fs ++ rest) h.0,
      reader_loop-stream c fuel fs rest h.1 k,
    ))

length-drop : (n : ℕ) (s : Bytes) → n ≤ length s → length (drop n s) + n ≡ length s
length-drop zero s h = omega arith
length-drop (suc n) [] h = absurd (omega arith)
length-drop (suc n) (c ∷ s) h = omega (arith, length-drop n s)

read_header-shorter :
    (s : Bytes) (h : FrameHeader) (rest : Bytes)
    → read_header s ≡ some (h, rest)
    → length rest + 12 ≤ length s
unfolding read_header read_exact
read_header-shorter s h rest e = ground (arith, length-drop 12 s)

read_payload-shorter :
    (n : ℕ) (s p rest : Bytes) → read_payload n s ≡ some (p, rest) → length rest ≤ length s
unfolding read_payload read_exact
read_payload-shorter zero s p rest e = ground arith
read_payload-shorter (suc n) s p rest e = ground (arith, length-drop (suc n) s)

read_frame-shorter :
    (c : ℕ) (s : Bytes) (f : RawFrame) (rest : Bytes)
    → read_frame c s ≡ some (f, rest)
    → length rest + 12 ≤ length s
unfolding read_frame
read_frame-shorter c s f rest h = elim (Option-cases (read_header s)) [
  | inl e ↦ ground arith
  | inr (x, e) ↦
      ground
        (arith, read_header-shorter s x.0 x.1, read_payload-shorter x.0.length x.1 f.payload rest)
]

-- Fuel beyond the length of the stream is enough for the loop to end.
pub reader_loop_ends :
    (fuel c : ℕ) (s : Bytes) → length s < fuel → is_some (reader_loop fuel c s) ≡ true
unfolding reader_loop
reader_loop_ends zero c s h = absurd (omega arith)
reader_loop_ends (suc fuel) c s h = elim (Option-cases (read_frame c s)) [
  | inl e ↦ ground arith
  | inr (x, e) ↦
      let rest = reader_loop_ends fuel c x.1 (omega (arith, read_frame-shorter c s x.0 x.1 e)) in
      ground arith
]
