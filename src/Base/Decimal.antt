-- ===== src/Base/Decimal.antt =====
-- `std::to_string` of an unsigned number, and the stream insertion that prints the same digits.
use mathlib.Core.WellFounded.{Acc, WellFounded, Acc-prop, induction}
use mathlib.Core.Logic.{ite, dite, ◌≢◌}
use native.Mathlib.Decide.{dec_lt}
use Prim.Native.Nat.{ℕ, zero, suc, ◌+◌, ◌/◌, ◌%◌, ◌<◌, ◌*◌, ◌≤◌, ◌-◌, ◌^◌}
use mathlib.Core.Option.{Option, none, some}
use mathlib.Core.Path.{refl, ◌≡◌, ap}
use mathlib.Core.Bool.{Bool, ◌&&◌, true, false, ◌||◌}
use mathlib.Core.List.{[], ◌∷◌, ◌++◌}
use native.Mathlib.Omega.{arith}
use some_server.Base.Tests.{Bytes, leb, if◌then◌else◌, nat_eq, ltb}

Acc-below : (k n : ℕ) → n < k → Acc ◌<◌ n
Acc-below zero n h = absurd (omega arith)
Acc-below (suc k) n h = Acc.intro n λ m lt. Acc-below k m (omega arith)

pub lt_wf : WellFounded ◌<◌
unfolding Acc-below
lt_wf = record { apply = λ n. Acc-below (suc n) n (omega arith) }

-- The digits of `n`, put before `out`; the last digit first.
emit : (n : ℕ) → Acc ◌<◌ n → Bytes → Bytes
emit n (Acc.intro _ smaller) out =
    dite (dec_lt 9 n) (λ h. emit (n / 10) (smaller (n / 10) (omega arith)) ((b'0' + n % 10) ∷ out))
      (λ _. (b'0' + n) ∷ out)

unfoldable pub print_before : ℕ → Bytes → Bytes
unfolding emit lt_wf dec_lt
print_before n = emit n (lt_wf.apply n)

unfoldable pub to_string : ℕ → Bytes
unfolding print_before
to_string n = print_before n []

emit_step :
    (n : ℕ) (w : Acc ◌<◌ n) (w' : Acc ◌<◌ (n / 10)) (out : Bytes)
    → emit n w out ≡ ite (dec_lt 9 n) (emit (n / 10) w' ((b'0' + n % 10) ∷ out)) ((b'0' + n) ∷ out)
unfolding emit
emit_step n (Acc.intro _ smaller) w' out = λ i.
    dite (dec_lt 9 n)
      (λ h. emit (n / 10) (Acc-prop (smaller (n / 10) (omega arith)) w' i) ((b'0' + n % 10) ∷ out))
      (λ _. (b'0' + n) ∷ out)

-- One round of the loop.
pub print_before_step :
    (n : ℕ) (out : Bytes)
    → print_before n out
      ≡ ite (dec_lt 9 n) (print_before (n / 10) ((b'0' + n % 10) ∷ out)) ((b'0' + n) ∷ out)
unfolding print_before
print_before_step n = emit_step n (lt_wf.apply n) (lt_wf.apply (n / 10))

abbrev pub is_digit : ℕ → Bool
is_digit c = leb b'0' c && leb c b'9'

-- The loop that reads digits: the number read so far, then the number and the rest.
unfoldable pub scan : ℕ → Bytes → ℕ × Bytes
scan n [] = (n, [])
scan n (c ∷ s) = let rest = scan (n * 10 + (c - b'0')) s in if is_digit c then rest else (n, c ∷ s)

scan_last : (n : ℕ) (out : Bytes) → scan (n / 10) ((b'0' + n % 10) ∷ out) ≡ scan n out
unfolding scan
scan_last n out = ground arith

scan_single : (n : ℕ) (out : Bytes) → n ≤ 9 → scan 0 ((b'0' + n) ∷ out) ≡ scan n out
unfolding scan
scan_single n out h = ground arith

-- Reading what was printed gives the number back, and goes on with what follows.
pub scan-print_before : (n : ℕ) (out : Bytes) → scan 0 (print_before n out) ≡ scan n out
scan-print_before n =
    induction lt_wf {C = λ m. (out : Bytes) → scan 0 (print_before m out) ≡ scan m out} n
      λ m ih out.
        grind (arith, print_before_step m out, scan_last m out, scan_single m out, ih (m / 10))

-- Printing before a text prints, and then goes on with the text.
pub print_before-append :
    (n : ℕ) (out rest : Bytes) → print_before n out ++ rest ≡ print_before n (out ++ rest)
print_before-append n =
    induction lt_wf
      {C = λ m. (out rest : Bytes) → print_before m out ++ rest ≡ print_before m (out ++ rest)} n
      λ m ih out rest.
        grind (arith, print_before_step m out, print_before_step m (out ++ rest), ih (m / 10))

-- Every byte of the text satisfies `p`.
abbrev pub all_bytes : (ℕ → Bool) → Bytes → Bool
all_bytes p [] = true
all_bytes p (c ∷ s) = p c && all_bytes p s

pub all_digits-print_before :
    (n : ℕ) (out : Bytes)
    → all_bytes is_digit out ≡ true
    → all_bytes is_digit (print_before n out) ≡ true
all_digits-print_before n =
    induction lt_wf
      {C = λ m.
        (out : Bytes)
        → all_bytes is_digit out ≡ true
        → all_bytes is_digit (print_before m out) ≡ true}
      n λ m ih out h. grind (arith, print_before_step m out, ih (m / 10))

pub all_digits-to_string : (n : ℕ) → all_bytes is_digit (to_string n) ≡ true
unfolding to_string
all_digits-to_string n = all_digits-print_before n [] refl

pub scan-to_string : (n : ℕ) → scan 0 (to_string n) ≡ (n, [])
unfolding to_string scan
scan-to_string n = scan-print_before n []

-- Two numbers that print alike are the same.
pub to_string-injective : (m n : ℕ) → to_string m ≡ to_string n → m ≡ n
to_string-injective m n h = ground (arith, scan-to_string m, scan-to_string n, ap (scan 0) h)

-- What follows a printed number is left over when it does not begin with a digit.
pub scan-to_string-append :
    (n c : ℕ) (rest : Bytes) → is_digit c ≡ false → scan 0 (to_string n ++ c ∷ rest) ≡ (n, c ∷ rest)
unfolding to_string scan
scan-to_string-append n c rest h =
    ground (arith, print_before-append n [] (c ∷ rest), scan-print_before n (c ∷ rest))

print_before-ne-nil : (n : ℕ) (out : Bytes) → print_before n out ≢ []
print_before-ne-nil n =
    induction lt_wf {C = λ m. (out : Bytes) → print_before m out ≢ []} n
      λ m ih out. grind (arith, print_before_step m out, ih (m / 10))

pub to_string-ne-nil : (n : ℕ) → to_string n ≢ []
unfolding to_string
to_string-ne-nil n = print_before-ne-nil n []

-- `std::stoul` and `std::stoull`, base ten: leading white space, a sign, then digits. Nothing
-- stands for the exceptions, thrown where there is no digit or the number passes 64 bits. What
-- follows the digits is ignored, and a minus sign negates modulo 2^64.
abbrev is_space : ℕ → Bool
is_space c = nat_eq c 32 || (leb 9 c && leb c 13)

unfoldable pub skip_space : Bytes → Bytes
skip_space [] = []
skip_space (c ∷ s) = let rest = skip_space s in if is_space c then rest else c ∷ s

unfoldable pub read_magnitude : Bytes → Option ℕ
unfolding scan
read_magnitude [] = none
read_magnitude (c ∷ s) =
    if is_digit c
    then (if ltb (scan 0 (c ∷ s)).0 (2 ^ 64) then some (scan 0 (c ∷ s)).0 else none)
    else none

abbrev negated : Option ℕ → Option ℕ
negated none = none
negated (some n) = some ((2 ^ 64 - n) % 2 ^ 64)

unfoldable pub read_signed : Bytes → Option ℕ
unfolding read_magnitude
read_signed [] = none
read_signed (c ∷ s) =
    if nat_eq c b'-'
    then negated (read_magnitude s)
    else if nat_eq c b'+'
    then read_magnitude s
    else read_magnitude (c ∷ s)

unfoldable pub stoul : Bytes → Option ℕ
unfolding skip_space read_signed
stoul s = read_signed (skip_space s)

stoul_digits :
    (s : Bytes)
    → s ≢ []
    → all_bytes is_digit s ≡ true
    → stoul s ≡ (if ltb (scan 0 s).0 (2 ^ 64) then some (scan 0 s).0 else none)
unfolding stoul
stoul_digits [] h d = absurd (h refl)
stoul_digits (c ∷ s) h d = ground arith

-- A 64-bit number is read back from its print.
pub stoul-to_string : (n : ℕ) → n < 2 ^ 64 → stoul (to_string n) ≡ some n
stoul-to_string n h = ground (
  arith,
  stoul_digits (to_string n) (to_string-ne-nil n) (all_digits-to_string n),
  scan-to_string n,
)

-- The number before a colon and what stands behind it are read from the text.
pub split_colon :
    (m n : ℕ) (s t : Bytes) → to_string m ++ b':' ∷ s ≡ to_string n ++ b':' ∷ t → (m ≡ n) × (s ≡ t)
split_colon m n s t h =
    ground (
      arith,
      ap (scan 0) h,
      scan-to_string-append m b':' s refl,
      scan-to_string-append n b':' t refl,
    )
