-- ===== src/Ipc/Frame.antt =====
-- src/framework/ipc/transport/frame.h: the twelve bytes in front of every frame.
-- The header is copied field by field in the byte order of the host, which is little-endian on
-- the platforms that the program is built for.
pub mod RoundTrip
use some_server.Base.{
  ℕ, ◌+◌, ◌*◌, ◌/◌, ◌%◌, ◌≡◌, refl, Bool, true, false, Option, none, some, List, [], ◌∷◌, ◌++◌,
  Bytes, length, drop, ltb, nat_eq, if◌then◌else◌,
}

abbrev pub control_kind : ℕ
control_kind = 1

abbrev pub data_kind : ℕ
data_kind = 2

abbrev pub frame_magic : ℕ
frame_magic = 0x53495043

abbrev pub frame_version : ℕ
frame_version = 1

abbrev pub frame_header_size : ℕ
frame_header_size = 12

pub record FrameHeader : Type 0 where
  pub magic : ℕ
  pub version : ℕ
  pub kind : ℕ
  pub length : ℕ

-- What `FrameHeader{}` holds.
abbrev pub default_header : FrameHeader
default_header = record {
  magic = frame_magic;
  version = frame_version;
  kind = control_kind;
  length = 0;
}

pub record RawFrame : Type 0 where
  pub connection_id : ℕ
  pub header : FrameHeader
  pub payload : Bytes

-- `std::memcpy` of a 16-bit and of a 32-bit field.
abbrev pub bytes16 : ℕ → Bytes
bytes16 n = (n % 256) ∷ (n / 256 % 256) ∷ []

abbrev pub bytes32 : ℕ → Bytes
bytes32 n = (n % 256) ∷ (n / 256 % 256) ∷ (n / 65536 % 256) ∷ (n / 16777216 % 256) ∷ []

abbrev pub byte_at : ℕ → Bytes → ℕ
byte_at i s = elim (drop i s) [ [] ↦ 0 | c ∷ _ ↦ c ]

abbrev pub read16 : ℕ → Bytes → ℕ
read16 i s = byte_at i s + byte_at (i + 1) s * 256

abbrev pub read32 : ℕ → Bytes → ℕ
read32 i s =
    byte_at i s + byte_at (i + 1) s * 256 + byte_at (i + 2) s * 65536 + byte_at (i + 3) s * 16777216

unfoldable pub serialize_frame_header : FrameHeader → Bytes
serialize_frame_header h =
    bytes32 h.magic ++ bytes16 h.version ++ bytes16 h.kind ++ bytes32 h.length

-- The data may be null; the size is that of the data. The header that comes back is the one that
-- the caller passed by reference, with what was read written over it.
unfoldable pub deserialize_frame_header : Option Bytes → FrameHeader → Bool × FrameHeader
deserialize_frame_header none header = (false, header)
deserialize_frame_header (some s) header =
    if ltb (length s) frame_header_size then (false, header) else (
      nat_eq (read32 0 s) frame_magic,
      record { magic = read32 0 s; version = read16 4 s; kind = read16 6 s; length = read32 8 s },
    )
