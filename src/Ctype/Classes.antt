-- ===== src/Ctype/Classes.antt =====
-- src/ctype.rs: how the character classes and the case mapping fit together.
use rlibc.Common.{◌⊎◌, ◌≡◌, arith}
use rlibc.Common.Int.{ℤ, pos, negsuc, ◌+ℤ◌}
use rlibc.Ctype.{
  classify_ascii, map_ascii, as_ascii_byte, isalpha, isdigit, isalnum, islower, isupper, iscntrl,
  isprint, isgraph, ispunct, isascii, tolower, toupper,
}

-- For every `c`, an `unsigned char`, EOF or not: `isalpha` is the sum of `islower` and `isupper`,
-- `isalnum` that of `isalpha` and `isdigit`, `isgraph` that of `isalnum` and `ispunct`, and
-- `isascii` that of `iscntrl` and `isprint`. As each answers 0 or 1, the summands exclude each
-- other.
pub classes_divide :
    (c : ℤ)
    → (isalpha c ≡ islower c +ℤ isupper c)
      × (isalnum c ≡ isalpha c +ℤ isdigit c)
      × (isgraph c ≡ isalnum c +ℤ ispunct c)
      × (isascii c ≡ iscntrl c +ℤ isprint c)
unfolding isalpha isdigit isalnum islower isupper iscntrl isprint isgraph ispunct isascii
    classify_ascii as_ascii_byte ◌+ℤ◌
classes_divide (pos n) = (ground arith, ground arith, ground arith, ground arith)
classes_divide (negsuc n) = (ground arith, ground arith, ground arith, ground arith)

-- For every `c`, EOF and values out of range included: `tolower` makes of the letters, and of
-- nothing else, lower case letters, and `toupper` upper case letters; `toupper` after `tolower`
-- is `toupper`, and conversely; `tolower` changes upper case letters only, and `toupper` lower
-- case letters only.
pub case_mapping :
    (c : ℤ)
    → (islower (tolower c) ≡ isalpha c)
      × (isupper (toupper c) ≡ isalpha c)
      × (toupper (tolower c) ≡ toupper c)
      × (tolower (toupper c) ≡ tolower c)
      × ((isupper c ≡ pos 1) ⊎ (tolower c ≡ c))
      × ((islower c ≡ pos 1) ⊎ (toupper c ≡ c))
unfolding islower isupper isalpha tolower toupper classify_ascii map_ascii as_ascii_byte
case_mapping (pos n) =
    (ground arith, ground arith, ground arith, ground arith, ground arith, ground arith)
case_mapping (negsuc n) =
    (ground arith, ground arith, ground arith, ground arith, ground arith, ground arith)
