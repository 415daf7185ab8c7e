-- ===== src/Ipc/Discovery/Base64.antt =====
-- src/framework/ipc/discovery/etcd_discovery.cpp: `Base64Decode`. The source's `int val` wraps
-- around at 32 bits, of which the bits that are pushed are the low ones, so the model has it
-- without a sign; `bits` is its `valb + 8`.
use some_server.Base.{
  ℕ, ◌+◌, ◌-◌, ◌*◌, ◌/◌, ◌%◌, ◌^◌, ◌&&◌, Option, none, some, [], ◌∷◌, nat_eq, leb, if◌then◌else◌,
  Eq_ℕ, Eq_String, Eq_Bytes, Bytes,
}

-- The decode table: nothing for the -1 of a character outside the alphabet.
unfoldable pub decode_char : ℕ → Option ℕ
decode_char c =
    if leb b'A' c && leb c b'Z'
    then some (c - b'A')
    else if leb b'a' c && leb c b'z'
    then some (c - b'a' + 26)
    else if leb b'0' c && leb c b'9'
    then some (c - b'0' + 52)
    else if nat_eq c b'+'
    then some 62
    else if nat_eq c b'/'
    then some 63
    else none

unfoldable pub decode_loop : ℕ → ℕ → Bytes → Bytes
unfolding decode_char
decode_loop val bits [] = []
decode_loop val bits (ch ∷ encoded) =
    let skipped = decode_loop val bits encoded in
    if nat_eq ch b'=' then [] else elim (decode_char ch) [
      | none ↦ skipped
      | some d ↦
          let val' = (val * 64 + d) % 2 ^ 32 in
          let pushed = decode_loop val' (bits + 6 - 8) encoded in
          let kept = decode_loop val' (bits + 6) encoded in
          if leb 8 (bits + 6) then val' / 2 ^ (bits + 6 - 8) % 256 ∷ pushed else kept
    ]

unfoldable pub base64_decode : Bytes → Bytes
unfolding decode_loop
base64_decode encoded = decode_loop 0 0 encoded
