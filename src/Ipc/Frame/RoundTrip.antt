-- ===== src/Ipc/Frame/RoundTrip.antt =====
-- Writing a frame header and reading it back, both ways.
use some_server.Base.{
  ◌^◌, ◌<◌, ◌≡◌, some, ◌++◌, Bytes, All, arith, nat_eq, ℕ, take, ◌≤◌, length, ◌∷◌,
}
use some_server.Ipc.Frame.{
  FrameHeader, frame_magic, serialize_frame_header, deserialize_frame_header,
}

-- The fields fit the widths of the struct.
pub record IsWire (h : FrameHeader) : Type 0 where
  pub magic : h.magic < 2 ^ 32
  pub version : h.version < 2 ^ 16
  pub kind : h.kind < 2 ^ 16
  pub length : h.length < 2 ^ 32

-- Reading a written header, whatever follows it, gives the header back, and accepts it exactly
-- when its magic is the frame magic.
pub deserialize-serialize :
    (h old : FrameHeader) (rest : Bytes)
    → IsWire h
    → deserialize_frame_header (some (serialize_frame_header h ++ rest)) old
      ≡ (nat_eq h.magic frame_magic, h)
unfolding serialize_frame_header deserialize_frame_header
deserialize-serialize h old rest w = ground arith

abbrev AreBytes : Bytes → Type 0
AreBytes s = All (λ c. c < 256) s

-- Twelve bytes that are accepted are the header that is written for what was read.
serialize-deserialize_twelve :
    (c0 c1 c2 c3 c4 c5 c6 c7 c8 c9 c10 c11 : ℕ) (rest : Bytes) (old : FrameHeader)
    → let s = c0 ∷ c1 ∷ c2 ∷ c3 ∷ c4 ∷ c5 ∷ c6 ∷ c7 ∷ c8 ∷ c9 ∷ c10 ∷ c11 ∷ rest in
      AreBytes (take 12 s)
      → serialize_frame_header (deserialize_frame_header (some s) old).1 ≡ take 12 s
unfolding serialize_frame_header deserialize_frame_header
serialize-deserialize_twelve c0 c1 c2 c3 c4 c5 c6 c7 c8 c9 c10 c11 rest old h = ground arith

-- A text of at least twelve bytes is the header that is written for what was read of it, then the rest.
pub serialize-deserialize :
    (s : Bytes) (old : FrameHeader)
    → AreBytes (take 12 s)
    → 12 ≤ length s
    → serialize_frame_header (deserialize_frame_header (some s) old).1 ≡ take 12 s
serialize-deserialize (a ∷ b ∷ c ∷ d ∷ e ∷ f ∷ g ∷ i ∷ j ∷ l ∷ m ∷ n ∷ rest) old h k =
    serialize-deserialize_twelve a b c d e f g i j l m n rest old h
serialize-deserialize _ old h k = absurd (omega arith)
