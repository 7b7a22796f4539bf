-- ===== src/Conv/Atoi.antt =====
-- src/stdlib/atoi.rs: `atoi`, `atol` and `atoll`. A null `nptr` is `none`.
use rlibc.Common.{
  ℕ, ◌+◌, ◌*◌, ◌/◌, ◌%◌, ◌-◌, ◌^◌, ◌<◌, ◌≡◌, refl, Bool, true, false, Option, none, some, List, leb,
  ◌==◌, if◌then◌else◌, arith, ◌∙◌, length,
}
use rlibc.Common.Bytes.{Bytes}
use rlibc.Common.Int.{rem_euclid, ℤ, pos, negsuc, pos_part, neg_part, minus, ◌≤ℤ◌, sub_ℕ}
use rlibc.Errno.{einval}
use rlibc.Conv.{Slot, strtol, strtoll, write_endptr}
use rlibc.Conv.Digits.{Digits, none_left, digit, any_digit}
use rlibc.Conv.Subject.{Subject, end_of, magnitude, negative_of}
use rlibc.Conv.Entry.{strtol-subject, strtol_promise, strtol_result}

abbrev pub decimal_base : ℤ
decimal_base = pos 10

-- What a call leaves: its value and `errno`.
pub record Parsed : Type 0 where
  pub value : ℤ
  pub errno : ℕ

abbrev pub parsed : ℤ → ℕ → Parsed
parsed v e = record { value = v; errno = e }

-- The pointer in `endptr` is that of the string's start.
abbrev is_start : Slot → Bool
is_start (some (some k)) = k == 0
is_start _ = false

unfoldable pub restore_errno_if_no_conversion : Slot → ℕ → ℕ → ℕ
restore_errno_if_no_conversion endptr saved_errno errno =
    if is_start endptr then saved_errno else errno

unfoldable pub parse_decimal_long : Option Bytes → ℕ → Parsed
unfolding restore_errno_if_no_conversion
parse_decimal_long none errno = parsed (pos 0) einval
parse_decimal_long (some nptr) errno =
    let r = strtol nptr (some none) decimal_base errno in
    parsed r.value (restore_errno_if_no_conversion r.endptr errno r.errno)

unfoldable pub parse_decimal_long_long : Option Bytes → ℕ → Parsed
unfolding restore_errno_if_no_conversion
parse_decimal_long_long none errno = parsed (pos 0) einval
parse_decimal_long_long (some nptr) errno =
    let r = strtoll nptr (some none) decimal_base errno in
    parsed r.value (restore_errno_if_no_conversion r.endptr errno r.errno)

unfoldable pub c_long_to_c_int_wrapping : ℤ → ℤ
unfolding rem_euclid
c_long_to_c_int_wrapping value =
    let wrapped = rem_euclid value (2 ^ 32) in
    if leb (2 ^ 31) wrapped then sub_ℕ wrapped (2 ^ 32) else pos wrapped

unfoldable pub atoi : Option Bytes → ℕ → Parsed
atoi nptr errno =
    let r = parse_decimal_long nptr errno in parsed (c_long_to_c_int_wrapping r.value) r.errno

unfoldable pub atol : Option Bytes → ℕ → Parsed
atol nptr errno = parse_decimal_long nptr errno

unfoldable pub atoll : Option Bytes → ℕ → Parsed
atoll nptr errno = parse_decimal_long_long nptr errno

-- `w` fits an `int` and differs from `v` by a multiple of 2 ^ 32.
pub record IsNarrowed (v w : ℤ) : Type 0 where
  pub down : ℕ
  pub up : ℕ
  pub at_least : minus (2 ^ 31) ≤ℤ w
  pub at_most : w ≤ℤ pos (2 ^ 31 - 1)
  pub congruent : pos_part v + neg_part w + up * 2 ^ 32 ≡ neg_part v + pos_part w + down * 2 ^ 32

pub c_long_to_c_int_wrapping_lem : (v : ℤ) → IsNarrowed v (c_long_to_c_int_wrapping v)
unfolding c_long_to_c_int_wrapping rem_euclid
c_long_to_c_int_wrapping_lem (pos n) = record {
  down = if leb (2 ^ 31) (n % 2 ^ 32) then n / 2 ^ 32 + 1 else n / 2 ^ 32;
  up = 0;
  at_least = ground arith;
  at_most = ground arith;
  congruent = ground arith;
}
c_long_to_c_int_wrapping_lem (negsuc n) = record {
  down = 0;
  up = if leb (2 ^ 31) (2 ^ 32 - 1 - n % 2 ^ 32) then n / 2 ^ 32 else n / 2 ^ 32 + 1;
  at_least = ground arith;
  at_most = ground arith;
  congruent = ground arith;
}

-- `atol` and `atoll` by the subject of the string in base 10: its number, or the nearest end of the
-- range of the type with `ERANGE`; 0 with no digits. `errno` is kept unless there is a range error.
abbrev pub atol_promise : {nptr : Bytes} → Subject decimal_base nptr → ℕ → Parsed
atol_promise t errno = let r = strtol_promise t none errno in parsed r.value r.errno

length-number_pos :
    {radix : ℕ} {s : Bytes} {ds : List ℕ}
    → Digits radix s ds
    → any_digit ds false ≡ true
    → 0 < length s
length-number_pos none_left h = cc
length-number_pos (digit q h t) a = omega arith

-- Restoring `errno` changes nothing: with no digits `strtol` has kept it.
restore_lem :
    (negative any : Bool) (n end errno : ℕ)
    → (any ≡ true → 0 < end)
    → parsed (strtol_result negative any n end (some none) errno).value (
        restore_errno_if_no_conversion
          (strtol_result negative any n end (some none) errno).endptr
          errno
          (strtol_result negative any n end (some none) errno).errno)
      ≡ parsed
          (strtol_result negative any n end none errno).value
          (strtol_result negative any n end none errno).errno
unfolding restore_errno_if_no_conversion write_endptr
restore_lem negative false n end errno h = refl
restore_lem true true n end errno h = ground (arith, h refl)
restore_lem false true n end errno h = ground (arith, h refl)

has_end :
    {base : ℤ} {nptr : Bytes} (t : Subject base nptr)
    → any_digit t.digits false ≡ true
    → 0 < end_of t
has_end t h = omega (arith, length-number_pos t.are_digits h)

parse_decimal_long_lem :
    {nptr : Bytes} (t : Subject decimal_base nptr) (errno : ℕ)
    → parse_decimal_long (some nptr) errno ≡ atol_promise t errno
unfolding parse_decimal_long
parse_decimal_long_lem t errno = rw (strtol-subject t (some none) errno) (
    restore_lem (negative_of t) (any_digit t.digits false) (magnitude t) (end_of t) errno
      (has_end t))

long_long_same : (p : Option Bytes) (e : ℕ) → parse_decimal_long_long p e ≡ parse_decimal_long p e
unfolding parse_decimal_long_long parse_decimal_long strtol strtoll
long_long_same none e = refl
long_long_same (some s) e = refl

ato_family_null :
    (errno : ℕ)
    → (atoi none errno ≡ parsed (pos 0) einval)
      × (atol none errno ≡ parsed (pos 0) einval)
      × (atoll none errno ≡ parsed (pos 0) einval)
unfolding atoi atol atoll parse_decimal_long parse_decimal_long_long c_long_to_c_int_wrapping
ato_family_null errno = (refl, refl, refl)

-- A null pointer gives 0 with `EINVAL`. On a string, `atol` and `atoll` return the promised
-- value, and `atoi` the `int` that differs from it by a multiple of 2^32; all three leave the
-- promised `errno`.
pub ato_family :
    {nptr : Bytes} (t : Subject decimal_base nptr) (errno : ℕ)
    → (atol (some nptr) errno ≡ atol_promise t errno)
      × (atoll (some nptr) errno ≡ atol_promise t errno)
      × IsNarrowed (atol_promise t errno).value (atoi (some nptr) errno).value
      × ((atoi (some nptr) errno).errno ≡ (atol_promise t errno).errno)
      × (atoi none errno ≡ parsed (pos 0) einval)
      × (atol none errno ≡ parsed (pos 0) einval)
      × (atoll none errno ≡ parsed (pos 0) einval)
unfolding atol atoll atoi
ato_family {nptr} t errno =
    let l = parse_decimal_long_lem t errno in
    (
      l,
      long_long_same (some nptr) errno ∙ l,
      rw l (c_long_to_c_int_wrapping_lem (atol_promise t errno).value),
      rw l,
      (ato_family_null errno).0,
      (ato_family_null errno).1,
      (ato_family_null errno).2,
    )
