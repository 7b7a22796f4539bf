-- ===== src/Wchar.antt =====
-- src/wchar/mod.rs: the UTF-8 codec of one scalar value. A byte is a number below 256. `x & 0x3F` is
-- `x % 64`, `x >> 6` is `x / 64`, and an `|` of parts without a common bit is a sum.
pub mod Codec
pub mod Restart
pub mod Sound
pub mod Resume
pub mod Calls
pub mod Strings
pub mod Roundtrip
pub mod Inverse
pub mod Restartable
use rlibc.Common.{
  ℕ, ◌+◌, ◌*◌, ◌/◌, ◌%◌, Bool, true, false, not, ◌&&◌, ◌||◌, Option, none, some, ltb, leb, ◌==◌,
  if◌then◌else◌,
}
use rlibc.Common.Int.{ℤ, pos, negsuc}

-- `[u8; MAX_UTF8_BYTES]`
pub record Units : Type 0 where
  pub b0 : ℕ
  pub b1 : ℕ
  pub b2 : ℕ
  pub b3 : ℕ

-- Rust's `(lo..=hi).contains(&x)`.
abbrev pub between : ℕ → ℕ → ℕ → Bool
between lo hi x = leb lo x && leb x hi

unfoldable pub is_continuation_byte : ℕ → Bool
is_continuation_byte byte = byte / 64 == 2

unfoldable pub expected_len_from_lead_byte : ℕ → Option ℕ
expected_len_from_lead_byte byte =
    if ltb byte 128
    then some 1
    else if between 0xC2 0xDF byte
    then some 2
    else if between 0xE0 0xEF byte
    then some 3
    else if between 0xF0 0xF4 byte
    then some 4
    else none

abbrev decode_2 : Units → Option ℕ
decode_2 u =
    if not (between 0xC2 0xDF u.b0) || not (is_continuation_byte u.b1)
    then none
    else some (u.b0 % 32 * 64 + u.b1 % 64)

abbrev decode_3 : Units → Option ℕ
decode_3 u =
    if not (between 0xE0 0xEF u.b0)
      || not (is_continuation_byte u.b1)
      || not (is_continuation_byte u.b2)
    then none
    else if (u.b0 == 0xE0 && ltb u.b1 0xA0) || (u.b0 == 0xED && ltb 0x9F u.b1)
    then none
    else some (u.b0 % 16 * 4096 + u.b1 % 64 * 64 + u.b2 % 64)

abbrev decode_4 : Units → Option ℕ
decode_4 u =
    let scalar = u.b0 % 8 * 262144 + u.b1 % 64 * 4096 + u.b2 % 64 * 64 + u.b3 % 64 in
    if not (between 0xF0 0xF4 u.b0)
      || not (is_continuation_byte u.b1)
      || not (is_continuation_byte u.b2)
      || not (is_continuation_byte u.b3)
    then none
    else if (u.b0 == 0xF0 && ltb u.b1 0x90) || (u.b0 == 0xF4 && ltb 0x8F u.b1)
    then none
    else if ltb 0x10FFFF scalar
    then none
    else some scalar

unfoldable pub decode_utf8_scalar : Units → ℕ → Option ℕ
unfolding is_continuation_byte
decode_utf8_scalar u len =
    if len == 1
    then (if ltb u.b0 128 then some u.b0 else none)
    else if len == 2
    then decode_2 u
    else if len == 3
    then decode_3 u
    else if len == 4
    then decode_4 u
    else none

abbrev encode_positive : ℕ → Option (Units × ℕ)
encode_positive scalar =
    if between 0xD800 0xDFFF scalar || ltb 0x10FFFF scalar
    then none
    else if leb scalar 0x7F
    then some (record { b0 = scalar; b1 = 0; b2 = 0; b3 = 0 }, 1)
    else if leb scalar 0x7FF
    then some (record { b0 = 0xC0 + scalar / 64 % 32; b1 = 0x80 + scalar % 64; b2 = 0; b3 = 0 }, 2)
    else if leb scalar 0xFFFF
    then some (
      record {
        b0 = 0xE0 + scalar / 4096 % 16;
        b1 = 0x80 + scalar / 64 % 64;
        b2 = 0x80 + scalar % 64;
        b3 = 0;
      },
      3,
    )
    else some (
      record {
        b0 = 0xF0 + scalar / 262144 % 8;
        b1 = 0x80 + scalar / 4096 % 64;
        b2 = 0x80 + scalar / 64 % 64;
        b3 = 0x80 + scalar % 64;
      },
      4,
    )

-- A negative `wchar_t` is refused by `u32::try_from`.
unfoldable pub encode_utf8_scalar : ℤ → Option (Units × ℕ)
encode_utf8_scalar (pos scalar) = encode_positive scalar
encode_utf8_scalar (negsuc _) = none
