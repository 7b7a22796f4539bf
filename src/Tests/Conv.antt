-- ===== src/Tests/Conv.antt =====
-- src/stdlib/conv.rs and src/stdlib/atoi.rs on concrete strings.
use rlibc.Common.{ℕ, ◌^◌, ◌-◌, ◌≡◌, ◌≢◌, refl, some, none, [], ◌∷◌, arith, inl}
use rlibc.Common.Bytes.{Bytes, codes}
use rlibc.Common.Int.{pos, negsuc}
use rlibc.Errno.{erange, einval}
use rlibc.Conv.{
  digit_value, is_ascii_space, is_valid_digit_for_base, skip_spaces, read_sign, resolve_base,
  take_digit, scan_digits, finish_scan, parse_digits, parse_unsigned_magnitude, write_endptr,
  returned, signed_result, strtol, strtoll, strtoul, strtoull,
}
use rlibc.Conv.Digits.{Digits, none_left, digit, EndsDigits}
use rlibc.Conv.Subject.{Subject, IsSpaces, dash, explicit}
use rlibc.Conv.Total.{IsBase, given}
use rlibc.Conv.Entry.{strto_family}
use rlibc.Conv.Atoi.{atoi, atol, atoll, parsed, IsNarrowed, ato_family}

abbrev text : Bytes
text = codes "  -42x"

two-IsSpaces : IsSpaces (32 ∷ 32 ∷ [])
unfolding is_ascii_space
two-IsSpaces = (refl, (refl, tt))

four_two : Digits 10 (codes "42") (4 ∷ 2 ∷ [])
unfolding digit_value
four_two = digit refl (omega arith) (digit refl (omega arith) none_left)

x_ends : EndsDigits 10 (codes "x")
unfolding digit_value
x_ends d e = ground arith

ten_not_16 : ◌≢◌ {A = ℕ} 10 16
ten_not_16 = ground arith

abbrev minus_42 : Subject (pos 10) text
minus_42 = record {
  spaces = 32 ∷ 32 ∷ [];
  sign = dash;
  body = codes "42x";
  radix = 10;
  prefix = 0;
  number = codes "42";
  digits = 4 ∷ 2 ∷ [];
  rest = codes "x";
  is_text = refl;
  is_body = refl;
  are_spaces = two-IsSpaces;
  follows = tt;
  resolves = explicit 10 refl (omega arith) (omega arith) (inl ten_not_16);
  are_digits = four_two;
  ends = x_ends;
}

strto_family_example :
    (strtol text (some none) (pos 10) 0 ≡ returned (negsuc 41) (some (some 5)) 0)
    × (strtoll text (some none) (pos 10) 0 ≡ returned (negsuc 41) (some (some 5)) 0)
    × (strtoul text (some none) (pos 10) 0 ≡ returned (pos (2 ^ 64 - 42)) (some (some 5)) 0)
    × (strtoull text (some none) (pos 10) 0 ≡ returned (pos (2 ^ 64 - 42)) (some (some 5)) 0)
unfolding write_endptr
strto_family_example = strto_family minus_42 (some none) 0

ten-IsBase : IsBase (pos 10)
ten-IsBase = given 10 (omega arith) (omega arith)

ato_family_example :
    (atol (some text) 0 ≡ parsed (negsuc 41) 0)
    × (atoll (some text) 0 ≡ parsed (negsuc 41) 0)
    × IsNarrowed (negsuc 41) (atoi (some text) 0).value
    × ((atoi (some text) 0).errno ≡ 0)
    × (atoi none 0 ≡ parsed (pos 0) einval)
    × (atol none 0 ≡ parsed (pos 0) einval)
    × (atoll none 0 ≡ parsed (pos 0) einval)
ato_family_example = ato_family minus_42 0

-- Octal and hexadecimal prefixes, and a range error that consumes all digits.
prefixes :
    (strtol (codes "0x1Fg") (some none) (pos 0) 0 ≡ returned (pos 31) (some (some 4)) 0)
    × (strtol (codes "0xg") (some none) (pos 0) 0 ≡ returned (pos 0) (some (some 1)) 0)
    × (strtol (codes "099999999999999999999z") none (pos 10) 7
        ≡ returned (pos (2 ^ 63 - 1)) none erange)
unfolding strtol signed_result parse_unsigned_magnitude parse_digits finish_scan scan_digits
    take_digit resolve_base read_sign skip_spaces is_valid_digit_for_base digit_value is_ascii_space
    write_endptr
prefixes = (refl, refl, refl)
