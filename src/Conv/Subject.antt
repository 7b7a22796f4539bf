-- ===== src/Conv/Subject.antt =====
-- What `parse_unsigned_magnitude` (src/stdlib/conv.rs) reads: the subject sequence of the C standard,
-- described by how the string is put together.
use rlibc.Common.{
  ℕ, ◌+◌, ◌≤◌, ◌≡◌, ◌≢◌, ◌⊎◌, inl, inr, refl, Bool, true, false, ◌||◌, ◌&&◌, some, List, [], ◌∷◌,
  ◌++◌, ◌==◌, arith, length, drop, All, ap, ◌∙◌,
}
use rlibc.Common.Bytes.{Bytes, read_byte}
use rlibc.Common.Int.{ℤ, pos}
use rlibc.Conv.{
  is_ascii_space, is_valid_digit_for_base, skip_spaces, read_sign, resolve_base, at, scan_digits,
  scan_start, finish_scan, parse_unsigned_magnitude, parse_digits,
}
use rlibc.Conv.Digits.{Digits, EndsDigits, denotes, scanned, any_digit, scan_digits_lem}

pub data Sign : Type 0 where
  unsigned plus dash : Sign

abbrev pub sign_bytes : Sign → Bytes
sign_bytes unsigned = []
sign_bytes plus = b'+' ∷ []
sign_bytes dash = b'-' ∷ []

abbrev pub is_dash : Sign → Bool
is_dash dash = true
is_dash _ = false

abbrev pub IsSpaces : Bytes → Type 0
IsSpaces ws = All (λ c. is_ascii_space c ≡ true) ws

-- What may follow the sign. If there is none, it is no space and no sign.
abbrev pub Follows : Sign → Bytes → Type 0
Follows unsigned body =
    (is_ascii_space (read_byte body) ≡ false) × (read_byte body ≢ b'+') × (read_byte body ≢ b'-')
Follows _ body = Unit

-- "0x" or "0X" and a hexadecimal digit.
abbrev pub has_hex_prefix : Bytes → Bool
has_hex_prefix s =
    read_byte s == b'0'
    && (read_byte (drop 1 s) == b'x' || read_byte (drop 1 s) == b'X')
    && is_valid_digit_for_base (read_byte (drop 2 s)) 16

-- The base in which `body` is read, and the length of its prefix.
pub data Resolves (base : ℤ) (body : Bytes) : ℕ → ℕ → Type 0 where
  explicit :
      (b : ℕ)
      → base ≡ pos b
      → 2 ≤ b
      → b ≤ 36
      → (b ≢ 16) ⊎ (has_hex_prefix body ≡ false)
      → Resolves base body b 0
  hex : (base ≡ pos 0) ⊎ (base ≡ pos 16) → has_hex_prefix body ≡ true → Resolves base body 16 2
  octal :
      base ≡ pos 0 → read_byte body ≡ b'0' → has_hex_prefix body ≡ false → Resolves base body 8 0
  decimal : base ≡ pos 0 → read_byte body ≢ b'0' → Resolves base body 10 0

-- `nptr` is spaces, a sign, a prefix, digits `digits` of base `radix`, and a rest that does not begin
-- with a digit. `end` is the offset of that rest.
pub record Subject (base : ℤ) (nptr : Bytes) : Type 0 where
  pub spaces : Bytes
  pub sign : Sign
  pub body : Bytes
  pub radix : ℕ
  pub prefix : ℕ
  pub number : Bytes
  pub digits : List ℕ
  pub rest : Bytes
  pub is_text : nptr ≡ spaces ++ (sign_bytes sign ++ body)
  pub is_body : drop prefix body ≡ number ++ rest
  pub are_spaces : IsSpaces spaces
  pub follows : Follows sign body
  pub resolves : Resolves base body radix prefix
  pub are_digits : Digits radix number digits
  pub ends : EndsDigits radix rest

abbrev pub end_of : {base : ℤ} {nptr : Bytes} → Subject base nptr → ℕ
end_of t = length t.spaces + length (sign_bytes t.sign) + t.prefix + length t.number

-- The number that the digits denote.
abbrev pub magnitude : {base : ℤ} {nptr : Bytes} → Subject base nptr → ℕ
magnitude t = denotes t.radix 0 t.digits

abbrev pub negative_of : {base : ℤ} {nptr : Bytes} → Subject base nptr → Bool
negative_of t = is_dash t.sign

skip_spaces_stop :
    (k : ℕ) (s : Bytes) → is_ascii_space (read_byte s) ≡ false → skip_spaces k s ≡ at k s
unfolding skip_spaces
skip_spaces_stop k [] h = refl
skip_spaces_stop k (c ∷ s) h = rw h

skip_spaces_lem :
    (k : ℕ) (ws s : Bytes)
    → IsSpaces ws
    → is_ascii_space (read_byte s) ≡ false
    → skip_spaces k (ws ++ s) ≡ at (k + length ws) s
unfolding skip_spaces
skip_spaces_lem k [] s a h = skip_spaces_stop k s h ∙ ap (λ j. at j s) (omega arith)
skip_spaces_lem k (c ∷ ws) s a h =
    rw a.0 (skip_spaces_lem (k + 1) ws s a.1 h ∙ ap (λ j. at j s) (omega arith))

read_sign_lem :
    (k : ℕ) (sg : Sign) (body : Bytes)
    → Follows sg body
    → read_sign (at k (sign_bytes sg ++ body)) ≡ (is_dash sg, at (k + length (sign_bytes sg)) body)
unfolding read_sign
read_sign_lem k unsigned body f = ground arith
read_sign_lem k plus body f = refl
read_sign_lem k dash body f = refl

sign_no_space :
    (sg : Sign) (body : Bytes)
    → Follows sg body
    → is_ascii_space (read_byte (sign_bytes sg ++ body)) ≡ false
unfolding is_ascii_space
sign_no_space unsigned body f = f.0
sign_no_space plus body f = refl
sign_no_space dash body f = refl

resolve_base_lem :
    {base : ℤ} {radix p : ℕ} (k : ℕ) (body : Bytes)
    → Resolves base body radix p
    → resolve_base base (at k body) ≡ some (radix, at (k + p) (drop p body))
unfolding resolve_base
resolve_base_lem k body (explicit b e lo hi h) = ground arith
resolve_base_lem k body (hex (inl e) h) = ground arith
resolve_base_lem k body (hex (inr e) h) = ground arith
resolve_base_lem k body (octal e z h) = ground arith
resolve_base_lem k body (decimal e z) = ground arith

Resolves-radix : {base : ℤ} {body : Bytes} {radix p : ℕ} → Resolves base body radix p → radix ≤ 36
Resolves-radix (explicit b e lo hi h) = hi
Resolves-radix (hex e h) = omega arith
Resolves-radix (octal e z h) = omega arith
Resolves-radix (decimal e z) = omega arith

-- The places that the parse goes through.
skip_lem :
    {base : ℤ} {nptr : Bytes} (t : Subject base nptr)
    → skip_spaces 0 nptr ≡ at (0 + length t.spaces) (sign_bytes t.sign ++ t.body)
skip_lem t =
    rw t.is_text (skip_spaces_lem 0 t.spaces _ t.are_spaces (sign_no_space t.sign t.body t.follows))

scan_lem :
    {base : ℤ} {nptr : Bytes} (limit k : ℕ) (t : Subject base nptr)
    → 36 ≤ limit
    → scan_digits limit t.radix k (drop t.prefix t.body) scan_start
      ≡ (scanned limit (magnitude t) (any_digit t.digits false), k + length t.number)
scan_lem limit k t h = rw t.is_body (
    ap (scan_digits limit t.radix k (t.number ++ t.rest)) (ground arith)
    ∙ scan_digits_lem limit t.radix k 0 false t.rest (omega (arith, Resolves-radix t.resolves))
        t.are_digits t.ends)

-- Whatever the limit (at least the largest base), the parse ends where the subject ends, with the
-- number of the digits cut off at the limit.
pub parse_lem :
    {base : ℤ} {nptr : Bytes} (limit : ℕ) (t : Subject base nptr)
    → 36 ≤ limit
    → parse_unsigned_magnitude nptr base limit
      ≡ finish_scan
          (negative_of t)
          (scanned limit (magnitude t) (any_digit t.digits false), end_of t)
unfolding parse_unsigned_magnitude parse_digits
parse_lem {base} {nptr} limit t h =
    rw
      (
        skip_lem t,
        read_sign_lem _ t.sign t.body t.follows,
        resolve_base_lem _ t.body t.resolves,
        scan_lem limit _ t h,
      )
      (ap
        (λ k.
          finish_scan (negative_of t) (scanned limit (magnitude t) (any_digit t.digits false), k))
        (omega arith))
