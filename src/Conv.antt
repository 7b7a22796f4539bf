-- ===== src/Conv.antt =====
-- src/stdlib/conv.rs: the `strto*` family. A pointer into the string at `nptr` is its offset with the
-- bytes from there on. A `u128` never overflows here: `limit` is at most 2 ^ 64.
pub mod Digits
pub mod Subject
pub mod Total
pub mod Entry
pub mod Atoi
use rlibc.Common.{
  ℕ, zero, suc, ◌+◌, ◌-◌, ◌*◌, ◌/◌, ◌%◌, ◌^◌, ◌≡◌, Bool, true, false, not, ◌&&◌, ◌||◌, Option, none,
  some, List, [], ◌∷◌, ltb, leb, ◌==◌, if◌then◌else◌, drop,
}
use rlibc.Common.Int.{ℤ, pos, negsuc, minus, pos_part, eqb_ℤ, within_ℤ}
use rlibc.Common.Bytes.{Bytes, read_byte}
use rlibc.Errno.{einval, erange}

abbrev pub min_base : ℤ
min_base = pos 2

abbrev pub max_base : ℤ
max_base = pos 36

pub data ParseStatus : Type 0 where
  invalid_base no_conversion converted : ParseStatus

-- `end` is the offset from `nptr`.
pub record ParseResult : Type 0 where
  pub value : ℕ
  pub end : ℕ
  pub status : ParseStatus
  pub overflow : Bool
  pub negative : Bool

unfoldable pub is_ascii_space : ℕ → Bool
is_ascii_space c = c == 32 || c == 9 || c == 10 || c == 13 || c == 0x0b || c == 0x0c

unfoldable pub digit_value : ℕ → Option ℕ
digit_value c =
    if leb b'0' c && leb c b'9'
    then some (c - b'0')
    else if leb b'a' c && leb c b'z'
    then some (c - b'a' + 10)
    else if leb b'A' c && leb c b'Z'
    then some (c - b'A' + 10)
    else none

unfoldable pub is_valid_digit_for_base : ℕ → ℕ → Bool
is_valid_digit_for_base c base = elim (digit_value c) [ some v ↦ ltb v base | none ↦ false ]

pub record Cursor : Type 0 where
  pub offset : ℕ
  pub rest : Bytes

abbrev pub at : ℕ → Bytes → Cursor
at k s = record { offset = k; rest = s }

-- `cursor.add(k)`
abbrev pub add : Cursor → ℕ → Cursor
add c k = at (c.offset + k) (drop k c.rest)

-- the first loop
unfoldable pub skip_spaces : ℕ → Bytes → Cursor
skip_spaces k [] = at k []
skip_spaces k (c ∷ s) = if is_ascii_space c then skip_spaces (k + 1) s else at k (c ∷ s)

unfoldable pub read_sign : Cursor → Bool × Cursor
read_sign c =
    if read_byte c.rest == b'+'
    then (false, add c 1)
    else if read_byte c.rest == b'-'
    then (true, add c 1)
    else (false, c)

-- The base and the place of the first digit; `none` for an invalid base.
unfoldable pub resolve_base : ℤ → Cursor → Option (ℕ × Cursor)
resolve_base base c =
    let first = read_byte c.rest in
    let second = read_byte (drop 1 c.rest) in
    let third = read_byte (drop 2 c.rest) in
    if eqb_ℤ base (pos 0)
    then (if first == b'0'
        then (if second == b'x' || second == b'X'
            then (if is_valid_digit_for_base third 16 then some (16, add c 2) else some (8, c))
            else some (8, c))
        else some (10, c))
    else if within_ℤ min_base max_base base
    then (if pos_part base == 16
        then (if first == b'0'
            then (if second == b'x' || second == b'X'
                then (if is_valid_digit_for_base third 16 then some (16, add c 2) else some (16, c))
                else some (16, c))
            else some (16, c))
        else some (pos_part base, c))
    else none

pub record Scan : Type 0 where
  pub value : ℕ
  pub overflow : Bool
  pub converted : Bool

-- What the loop body does with a digit.
unfoldable pub take_digit : ℕ → ℕ → ℕ → Scan → Scan
take_digit limit radix digit st =
    if st.overflow
    then record st { converted = true }
    else if ltb ((limit - digit) / radix) st.value
    then record { value = limit; overflow = true; converted = true }
    else record st { value = st.value * radix + digit; converted = true }

-- The loop over the digits: the result and the offset at which it stops.
unfoldable pub scan_digits : ℕ → ℕ → ℕ → Bytes → Scan → Scan × ℕ
scan_digits limit radix k [] st = (st, k)
scan_digits limit radix k (c ∷ s) st = elim (digit_value c) [
  | none ↦ (st, k)
  | some digit ↦
      (let rest = scan_digits limit radix (k + 1) s (take_digit limit radix digit st) in
        if leb radix digit then (st, k) else rest)
]

abbrev pub scan_start : Scan
scan_start = record { value = 0; overflow = false; converted = false }

-- The end of `parse_unsigned_magnitude`.
unfoldable pub finish_scan : Bool → Scan × ℕ → ParseResult
finish_scan negative (st, k) =
    if not st.converted
    then record {
      value = 0;
      end = 0;
      status = no_conversion;
      overflow = false;
      negative = negative;
    }
    else record {
      value = st.value;
      end = k;
      status = converted;
      overflow = st.overflow;
      negative = negative;
    }

-- The part of `parse_unsigned_magnitude` after the base is resolved.
unfoldable pub parse_digits : ℕ → Bool → Option (ℕ × Cursor) → ParseResult
parse_digits limit negative none = record {
  value = 0;
  end = 0;
  status = invalid_base;
  overflow = false;
  negative = negative;
}
parse_digits limit negative (some (radix, c)) =
    finish_scan negative (scan_digits limit radix c.offset c.rest scan_start)

unfoldable pub parse_unsigned_magnitude : Bytes → ℤ → ℕ → ParseResult
parse_unsigned_magnitude nptr base limit =
    let (negative, c) = read_sign (skip_spaces 0 nptr) in
    parse_digits limit negative (resolve_base base c)

-- What a pointer holds: null, or an offset from `nptr`. A slot is the argument `endptr`: null, or a
-- place that holds a pointer.
abbrev pub Pointer : Type 0
Pointer = Option ℕ

abbrev pub Slot : Type 0
Slot = Option Pointer

unfoldable pub write_endptr : Slot → ℕ → Slot
write_endptr none v = none
write_endptr (some _) v = some (some v)

-- What a call leaves: its value, the slot and `errno`.
pub record Returned : Type 0 where
  pub value : ℤ
  pub endptr : Slot
  pub errno : ℕ

abbrev pub returned : ℤ → Slot → ℕ → Returned
returned v p e = record { value = v; endptr = p; errno = e }

-- `c_long::MAX` and `c_longlong::MAX`
abbrev pub long_max : ℕ
long_max = 2 ^ 63 - 1

abbrev pub ulong_max : ℕ
ulong_max = 2 ^ 64 - 1

-- `matches!(parsed.status, ..)`
abbrev is_invalid_base : ParseStatus → Bool
is_invalid_base invalid_base = true
is_invalid_base _ = false

abbrev is_converted : ParseStatus → Bool
is_converted converted = true
is_converted _ = false

-- The body of `strtol` and of `strtoll` after the parse, for the type with the given maximum.
unfoldable pub signed_result : ℕ → ParseResult → Slot → ℕ → Returned
unfolding write_endptr
signed_result signed_max parsed endptr errno =
    let slot = write_endptr endptr parsed.end in
    if is_invalid_base parsed.status
    then returned (pos 0) endptr einval
    else if parsed.overflow || not parsed.negative && ltb signed_max parsed.value
    then returned (if parsed.negative then minus (signed_max + 1) else pos signed_max) slot erange
    else if not (is_converted parsed.status)
    then returned (pos 0) slot errno
    else if parsed.negative
    then (if parsed.value == signed_max + 1
        then returned (minus (signed_max + 1)) slot errno
        else returned (minus parsed.value) slot errno)
    else returned (pos parsed.value) slot errno

-- The body of `strtoul` and of `strtoull` after the parse; the value is below 2 ^ 64.
unfoldable pub unsigned_result : ParseResult → Slot → ℕ → Returned
unfolding write_endptr
unsigned_result parsed endptr errno =
    let slot = write_endptr endptr parsed.end in
    if is_invalid_base parsed.status
    then returned (pos 0) endptr einval
    else if parsed.overflow
    then returned (pos ulong_max) slot erange
    else if not (is_converted parsed.status)
    then returned (pos 0) slot errno
    else if parsed.negative
    then returned (pos ((2 ^ 64 - parsed.value) % 2 ^ 64)) slot errno
    else returned (pos parsed.value) slot errno

unfoldable pub strtol : Bytes → Slot → ℤ → ℕ → Returned
strtol nptr endptr base errno =
    signed_result long_max (parse_unsigned_magnitude nptr base (long_max + 1)) endptr errno

unfoldable pub strtoll : Bytes → Slot → ℤ → ℕ → Returned
strtoll nptr endptr base errno =
    signed_result long_max (parse_unsigned_magnitude nptr base (long_max + 1)) endptr errno

unfoldable pub strtoul : Bytes → Slot → ℤ → ℕ → Returned
strtoul nptr endptr base errno =
    unsigned_result (parse_unsigned_magnitude nptr base ulong_max) endptr errno

unfoldable pub strtoull : Bytes → Slot → ℤ → ℕ → Returned
strtoull nptr endptr base errno =
    unsigned_result (parse_unsigned_magnitude nptr base ulong_max) endptr errno
