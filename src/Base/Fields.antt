-- ===== src/Base/Fields.antt =====
-- The fields of a text with colons between them: `std::getline(stream, field, ':')`, and the
-- 32-bit numbers that are read from them.
use some_server.Base.{
  ℕ, ◌%◌, ◌^◌, ◌≡◌, ◌≢◌, refl, ap, Bool, true, false, Option, none, some, [], ◌∷◌, ◌++◌, arith,
  nat_eq, if◌then◌else◌, Eq_ℕ, Eq_String, Eq_Bytes, Bytes,
}
use some_server.Base.Decimal.{to_string, stoul, all_bytes, all_digits-to_string, is_digit}

-- `std::getline(stream, field, ':')`: the bytes up to the next colon or the end, and what is
-- left. It fails at the end of the stream.
unfoldable pub read_field : Bytes → Bytes × Bytes
read_field [] = ([], [])
read_field (c ∷ s) =
    let (f, rest) = read_field s in if nat_eq c b':' then ([], s) else (c ∷ f, rest)

unfoldable pub getline : Bytes → Option (Bytes × Bytes)
unfolding read_field
getline [] = none
getline (c ∷ s) = some (read_field (c ∷ s))

-- `static_cast<std::uint32_t>(std::stoul(text))`
abbrev pub stou32 : Bytes → Option ℕ
stou32 s = elim (stoul s) [ none ↦ none | some n ↦ some (n % 2 ^ 32) ]

-- No byte is a colon.
abbrev pub no_colon : Bytes → Bool
no_colon s = all_bytes (λ c. if nat_eq c b':' then false else true) s

digits-no_colon : (s : Bytes) → all_bytes is_digit s ≡ true → no_colon s ≡ true
digits-no_colon [] h = refl
digits-no_colon (c ∷ s) h = ground (arith, digits-no_colon s)

pub to_string-no_colon : (n : ℕ) → no_colon (to_string n) ≡ true
to_string-no_colon n = digits-no_colon (to_string n) (all_digits-to_string n)

pub no_colon-append :
    (s t : Bytes) → no_colon s ≡ true → no_colon t ≡ true → no_colon (s ++ t) ≡ true
no_colon-append [] t h k = k
no_colon-append (c ∷ s) t h k = ground (arith, no_colon-append s t)

read_field-append : (s t : Bytes) → no_colon s ≡ true → read_field (s ++ b':' ∷ t) ≡ (s, t)
unfolding read_field
read_field-append [] t h = refl
read_field-append (c ∷ s) t h = ground (arith, read_field-append s t)

read_field-last : (s : Bytes) → no_colon s ≡ true → read_field s ≡ (s, [])
unfolding read_field
read_field-last [] h = refl
read_field-last (c ∷ s) h = ground (arith, read_field-last s)

pub getline-append : (s t : Bytes) → no_colon s ≡ true → getline (s ++ b':' ∷ t) ≡ some (s, t)
unfolding getline
getline-append [] t h = refl
getline-append (c ∷ s) t h = ap some (read_field-append (c ∷ s) t h)

pub getline-last : (s : Bytes) → s ≢ [] → no_colon s ≡ true → getline s ≡ some (s, [])
unfolding getline
getline-last [] n h = absurd (n refl)
getline-last (c ∷ s) n h = ap some (read_field-last (c ∷ s) h)
