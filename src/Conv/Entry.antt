-- ===== src/Conv/Entry.antt =====
-- `strtol`, `strtoll`, `strtoul` and `strtoull` (src/stdlib/conv.rs): what they return, and what they
-- leave in `*endptr` and `errno`, on every string.
use rlibc.Common.{
  ℕ, zero, suc, ◌+◌, ◌-◌, ◌^◌, ◌≡◌, ◌⊎◌, Bool, true, false, not, ◌&&◌, leb, ◌==◌, if◌then◌else◌,
  arith,
}
use rlibc.Common.Bytes.{Bytes}
use rlibc.Common.Int.{ℤ, pos, minus, ◌≤ℤ◌, within_ℤ, eqb_ℤ}
use rlibc.Errno.{einval, erange}
use rlibc.Conv.{
  finish_scan, Slot, write_endptr, Returned, returned, long_max, ulong_max, signed_result,
  unsigned_result, strtol, strtoll, strtoul, strtoull, parse_unsigned_magnitude, parse_digits,
  resolve_base, min_base, max_base,
}
use rlibc.Conv.Digits.{scanned, any_digit}
use rlibc.Conv.Subject.{Subject, end_of, magnitude, negative_of, parse_lem}
use rlibc.Conv.Total.{IsBase, subject}

-- The number that a subject stands for.
abbrev pub signed_of : Bool → ℕ → ℤ
signed_of true n = minus n
signed_of false n = pos n

-- `strtol` by the C standard: with no digits 0, and `*endptr` is the start of the string; otherwise
-- the number, or the nearest end of the range of the type with `ERANGE`.
abbrev pub strtol_result : Bool → Bool → ℕ → ℕ → Slot → ℕ → Returned
strtol_result negative any n end slot errno =
    if any
    then (if within_ℤ (minus (2 ^ 63)) (pos (2 ^ 63 - 1)) (signed_of negative n)
        then returned (signed_of negative n) (write_endptr slot end) errno
        else if negative
        then returned (minus (2 ^ 63)) (write_endptr slot end) erange
        else returned (pos (2 ^ 63 - 1)) (write_endptr slot end) erange)
    else returned (pos 0) (write_endptr slot 0) errno

abbrev pub strtol_promise : {base : ℤ} {nptr : Bytes} → Subject base nptr → Slot → ℕ → Returned
strtol_promise t = strtol_result (negative_of t) (any_digit t.digits false) (magnitude t) (end_of t)

signed_result_lem :
    (negative any : Bool) (n end : ℕ) (slot : Slot) (errno : ℕ)
    → signed_result long_max (finish_scan negative (scanned (long_max + 1) n any, end)) slot errno
      ≡ strtol_result negative any n end slot errno
unfolding signed_result finish_scan
signed_result_lem negative false n end slot errno = ground arith
signed_result_lem true true zero end slot errno = ground arith
signed_result_lem true true (suc n) end slot errno = ground arith
signed_result_lem false true n end slot errno = ground arith

-- `strtol` on any string and any subject of it returns what the C standard promises.
pub strtol-subject :
    {base : ℤ} {nptr : Bytes} (t : Subject base nptr) (slot : Slot) (errno : ℕ)
    → strtol nptr slot base errno ≡ strtol_promise t slot errno
unfolding strtol
strtol-subject t slot errno = rw (parse_lem (long_max + 1) t (omega arith)) (
    signed_result_lem (negative_of t) (any_digit t.digits false) (magnitude t) (end_of t) slot
      errno)

-- `strtoul` by the C standard: a minus sign negates in the unsigned type.
abbrev pub strtoul_promise : {base : ℤ} {nptr : Bytes} → Subject base nptr → Slot → ℕ → Returned
strtoul_promise t slot errno =
    let n = magnitude t in
    let end = end_of t in
    if any_digit t.digits false
    then (if leb (2 ^ 64) n
        then returned (pos (2 ^ 64 - 1)) (write_endptr slot end) erange
        else if negative_of t && not (n == 0)
        then returned (pos (2 ^ 64 - n)) (write_endptr slot end) errno
        else returned (pos n) (write_endptr slot end) errno)
    else returned (pos 0) (write_endptr slot 0) errno

unsigned_result_lem :
    (negative any : Bool) (n end : ℕ) (slot : Slot) (errno : ℕ)
    → unsigned_result (finish_scan negative (scanned ulong_max n any, end)) slot errno ≡ (
        if any
        then (if leb (2 ^ 64) n
            then returned (pos (2 ^ 64 - 1)) (write_endptr slot end) erange
            else if negative && not (n == 0)
            then returned (pos (2 ^ 64 - n)) (write_endptr slot end) errno
            else returned (pos n) (write_endptr slot end) errno)
        else returned (pos 0) (write_endptr slot 0) errno)
unfolding unsigned_result finish_scan
unsigned_result_lem negative false n end slot errno = ground arith
unsigned_result_lem true true n end slot errno = ground arith
unsigned_result_lem false true n end slot errno = ground arith

-- `strtoul` on any string and any subject of it returns what the C standard promises.
strtoul-subject :
    {base : ℤ} {nptr : Bytes} (t : Subject base nptr) (slot : Slot) (errno : ℕ)
    → strtoul nptr slot base errno ≡ strtoul_promise t slot errno
unfolding strtoul
strtoul-subject t slot errno = rw (parse_lem ulong_max t (omega arith)) (
    unsigned_result_lem (negative_of t) (any_digit t.digits false) (magnitude t) (end_of t) slot
      errno)

-- On a string with the subject `t` in base `base`, `strtol` and `strtoll` return what the C
-- standard promises of a 64-bit signed type, and `strtoul` and `strtoull` what it promises of a
-- 64-bit unsigned one, with `*endptr` and `errno`.
pub strto_family :
    {base : ℤ} {nptr : Bytes} (t : Subject base nptr) (slot : Slot) (errno : ℕ)
    → (strtol nptr slot base errno ≡ strtol_promise t slot errno)
      × (strtoll nptr slot base errno ≡ strtol_promise t slot errno)
      × (strtoul nptr slot base errno ≡ strtoul_promise t slot errno)
      × (strtoull nptr slot base errno ≡ strtoul_promise t slot errno)
unfolding strtol strtoll strtoul strtoull
strto_family t slot errno = (
  strtol-subject t slot errno,
  strtol-subject t slot errno,
  strtoul-subject t slot errno,
  strtoul-subject t slot errno,
)

-- Neither 0 nor 2 to 36.
abbrev pub IsBadBase : ℤ → Type 0
IsBadBase base = (eqb_ℤ base (pos 0) ≡ false) × (within_ℤ min_base max_base base ≡ false)

-- With a bad base the four functions return 0 with `EINVAL`, and leave `*endptr` as it was.
pub bad_base_rejected :
    (nptr : Bytes) (base : ℤ) (slot : Slot) (errno : ℕ)
    → IsBadBase base
    → (strtol nptr slot base errno ≡ returned (pos 0) slot einval)
      × (strtoll nptr slot base errno ≡ returned (pos 0) slot einval)
      × (strtoul nptr slot base errno ≡ returned (pos 0) slot einval)
      × (strtoull nptr slot base errno ≡ returned (pos 0) slot einval)
unfolding strtol strtoll strtoul strtoull signed_result unsigned_result parse_unsigned_magnitude
    parse_digits resolve_base
bad_base_rejected nptr base slot errno (not_zero, outside) =
    (rw (not_zero, outside), rw (not_zero, outside), rw (not_zero, outside), rw (not_zero, outside))

-- On every string in every valid base, `strtol` leaves `errno` or sets it to `ERANGE`, and its
-- value fits a 64-bit `long`.
pub strtol_range :
    (base : ℤ) (nptr : Bytes) (slot : Slot) (errno : ℕ)
    → IsBase base
    → (minus (2 ^ 63) ≤ℤ (strtol nptr slot base errno).value)
      × ((strtol nptr slot base errno).value ≤ℤ pos (2 ^ 63 - 1))
      × (((strtol nptr slot base errno).errno ≡ errno)
          ⊎ ((strtol nptr slot base errno).errno ≡ erange))
strtol_range base nptr slot errno valid =
    rw (strtol-subject (subject base nptr valid) slot errno) (ground arith)
