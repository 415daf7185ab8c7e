-- ===== src/Ipc/Discovery/Encoding.antt =====
-- src/framework/ipc/discovery/etcd_discovery.cpp: `Base64Decode` reads what RFC 4648 writes.
use some_server.Base.{
  ℕ, ◌+◌, ◌-◌, ◌*◌, ◌/◌, ◌%◌, ◌^◌, ◌<◌, ◌≡◌, refl, ap, ◌∙◌, false, some, [], ◌∷◌, arith, nat_eq,
  ltb, leb, if◌then◌else◌, Eq_ℕ, Eq_String, Eq_Bytes, Bytes,
}
use some_server.Ipc.Discovery.Base64.{decode_char, decode_loop, base64_decode}

-- The alphabet, and the encoding with its padding.
abbrev pub encode_char : ℕ → ℕ
encode_char n =
    if ltb n 26
    then b'A' + n
    else if ltb n 52
    then b'a' + (n - 26)
    else if ltb n 62
    then b'0' + (n - 52)
    else if nat_eq n 62
    then b'+'
    else b'/'

abbrev pub encode : Bytes → Bytes
encode [] = []
encode (a ∷ []) = encode_char (a / 4) ∷ encode_char (a % 4 * 16) ∷ b'=' ∷ b'=' ∷ []
encode (a ∷ b ∷ []) =
    encode_char (a / 4) ∷ encode_char (a % 4 * 16 + b / 16) ∷ encode_char (b % 16 * 4) ∷ b'=' ∷ []
encode (a ∷ b ∷ c ∷ s) =
    encode_char (a / 4)
    ∷ encode_char (a % 4 * 16 + b / 16)
    ∷ encode_char (b % 16 * 4 + c / 64)
    ∷ encode_char (c % 64)
    ∷ encode s

abbrev pub IsBytes : Bytes → Type 0
IsBytes [] = Unit
IsBytes (a ∷ s) = (a < 256) × IsBytes s

decode_char-encode_char : (n : ℕ) → n < 64 → decode_char (encode_char n) ≡ some n
unfolding decode_char
decode_char-encode_char n h = ground arith

encode_char_is_not_padding : (n : ℕ) → n < 64 → nat_eq (encode_char n) b'=' ≡ false
encode_char_is_not_padding n h = ground arith

-- One round of the loop, on a character that stands for `n`.
decode_loop-encode_char :
    (val bits n : ℕ) (s : Bytes)
    → n < 64
    → decode_loop val bits (encode_char n ∷ s) ≡ (
        if leb 8 (bits + 6)
        then (val * 64 + n) % 2 ^ 32 / 2 ^ (bits + 6 - 8) % 256
          ∷ decode_loop ((val * 64 + n) % 2 ^ 32) (bits + 6 - 8) s
        else decode_loop ((val * 64 + n) % 2 ^ 32) (bits + 6) s)
unfolding decode_loop
decode_loop-encode_char val bits n s h =
    rw (decode_loop, decode_char-encode_char n h, encode_char_is_not_padding n h) refl

low_first :
    (val a x : ℕ)
    → a < 256
    → x < 16
    → ((val * 64 + a / 4) % 2 ^ 32 * 64 + (a % 4 * 16 + x)) % 2 ^ 32 / 2 ^ 4 % 256 ≡ a
low_first val a x h k = omega arith

low_second :
    (val p b x : ℕ)
    → b < 256
    → x < 4
    → ((val * 64 + (p * 16 + b / 16)) % 2 ^ 32 * 64 + (b % 16 * 4 + x)) % 2 ^ 32 / 2 ^ 2 % 256 ≡ b
low_second val p b x h k = omega arith

low_third :
    (val p c : ℕ)
    → c < 256
    → ((val * 64 + (p * 4 + c / 64)) % 2 ^ 32 * 64 + c % 64) % 2 ^ 32 / 2 ^ 0 % 256 ≡ c
low_third val p c h = omega arith

-- The first two characters of a group give its first byte.
decode_first :
    (val a x : ℕ) (s : Bytes)
    → a < 256
    → x < 16
    → decode_loop val 0 (encode_char (a / 4) ∷ encode_char (a % 4 * 16 + x) ∷ s)
      ≡ a ∷ decode_loop (((val * 64 + a / 4) % 2 ^ 32 * 64 + (a % 4 * 16 + x)) % 2 ^ 32) 4 s
decode_first val a x s h k =
    decode_loop-encode_char val 0 (a / 4) (encode_char (a % 4 * 16 + x) ∷ s) (omega arith)
    ∙ decode_loop-encode_char ((val * 64 + a / 4) % 2 ^ 32) 6 (a % 4 * 16 + x) s (omega arith)
    ∙ ap (λ y. y ∷ decode_loop (((val * 64 + a / 4) % 2 ^ 32 * 64 + (a % 4 * 16 + x)) % 2 ^ 32) 4 s)
        (low_first val a x h k)

decode_second :
    (val p b x : ℕ) (s : Bytes)
    → b < 256
    → x < 4
    → decode_loop ((val * 64 + (p * 16 + b / 16)) % 2 ^ 32) 4 (encode_char (b % 16 * 4 + x) ∷ s)
      ≡ b
        ∷ decode_loop
            (((val * 64 + (p * 16 + b / 16)) % 2 ^ 32 * 64 + (b % 16 * 4 + x)) % 2 ^ 32)
            2
            s
decode_second val p b x s h k =
    decode_loop-encode_char ((val * 64 + (p * 16 + b / 16)) % 2 ^ 32) 4 (b % 16 * 4 + x) s
      (omega arith)
    ∙ ap
        (λ y.
          y
          ∷ decode_loop (((val * 64 + (p * 16 + b / 16)) % 2 ^ 32 * 64 + (b % 16 * 4 + x)) % 2 ^ 32)
              2 s)
        (low_second val p b x h k)

decode_third :
    (val p c : ℕ) (s : Bytes)
    → c < 256
    → decode_loop ((val * 64 + (p * 4 + c / 64)) % 2 ^ 32) 2 (encode_char (c % 64) ∷ s)
      ≡ c ∷ decode_loop (((val * 64 + (p * 4 + c / 64)) % 2 ^ 32 * 64 + c % 64) % 2 ^ 32) 0 s
decode_third val p c s h =
    decode_loop-encode_char ((val * 64 + (p * 4 + c / 64)) % 2 ^ 32) 2 (c % 64) s (omega arith)
    ∙ ap
        (λ y. y ∷ decode_loop (((val * 64 + (p * 4 + c / 64)) % 2 ^ 32 * 64 + c % 64) % 2 ^ 32) 0 s)
        (low_third val p c h)

padding_ends : (val bits : ℕ) (s : Bytes) → decode_loop val bits (b'=' ∷ s) ≡ []
unfolding decode_loop
padding_ends val bits s = refl

decode_loop-encode : (val : ℕ) (s : Bytes) → IsBytes s → decode_loop val 0 (encode s) ≡ s
unfolding decode_loop
decode_loop-encode val [] h = refl
decode_loop-encode val (a ∷ []) h =
    let no_more : a % 4 * 16 ≡ a % 4 * 16 + 0 = omega arith in
    let after = ((val * 64 + a / 4) % 2 ^ 32 * 64 + (a % 4 * 16 + 0)) % 2 ^ 32 in
    ap (λ y. decode_loop val 0 (encode_char (a / 4) ∷ encode_char y ∷ b'=' ∷ b'=' ∷ [])) no_more
    ∙ decode_first val a 0 (b'=' ∷ b'=' ∷ []) h.0 (omega arith)
    ∙ ap (λ y. a ∷ y) (padding_ends after 4 (b'=' ∷ []))
decode_loop-encode val (a ∷ b ∷ []) h =
    let no_more : b % 16 * 4 ≡ b % 16 * 4 + 0 = omega arith in
    let first = (val * 64 + a / 4) % 2 ^ 32 in
    let second = (first * 64 + (a % 4 * 16 + b / 16)) % 2 ^ 32 in
    decode_first val a (b / 16) (encode_char (b % 16 * 4) ∷ b'=' ∷ []) h.0 (omega arith)
    ∙ ap (λ y. a ∷ decode_loop second 4 (encode_char y ∷ b'=' ∷ [])) no_more
    ∙ ap (λ y. a ∷ y) (decode_second first (a % 4) b 0 (b'=' ∷ []) h.1.0 (omega arith))
    ∙ ap (λ y. a ∷ b ∷ y) (padding_ends ((second * 64 + (b % 16 * 4 + 0)) % 2 ^ 32) 2 [])
decode_loop-encode val (a ∷ b ∷ c ∷ s) h =
    let first = (val * 64 + a / 4) % 2 ^ 32 in
    let second = (first * 64 + (a % 4 * 16 + b / 16)) % 2 ^ 32 in
    let third = (second * 64 + (b % 16 * 4 + c / 64)) % 2 ^ 32 in
    let last = encode_char (c % 64) ∷ encode s in
    decode_first val a (b / 16) (encode_char (b % 16 * 4 + c / 64) ∷ last) h.0 (omega arith)
    ∙ ap (λ y. a ∷ y) (decode_second first (a % 4) b (c / 64) last h.1.0 (omega arith))
    ∙ ap (λ y. a ∷ b ∷ y) (decode_third second (b % 16) c (encode s) h.1.1.0)
    ∙ ap (λ y. a ∷ b ∷ c ∷ y) (decode_loop-encode ((third * 64 + c % 64) % 2 ^ 32) s h.1.1.1)

-- What RFC 4648 writes for any bytes is read as these bytes.
pub base64_decode-encode : (s : Bytes) → IsBytes s → base64_decode (encode s) ≡ s
unfolding base64_decode
base64_decode-encode s h = decode_loop-encode 0 s h
