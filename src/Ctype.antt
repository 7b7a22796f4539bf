-- ===== src/Ctype.antt =====
-- src/ctype.rs: the character classes and the case mapping of the C locale.
pub mod Classes
use rlibc.Common.{ℕ, ◌+◌, ◌-◌, Bool, ◌&&◌, ◌||◌, Option, none, some, ltb, leb, ◌==◌, if◌then◌else◌}
use rlibc.Common.Int.{ℤ, pos, negsuc, leb_ℤ, rem_euclid}

-- `u8::try_from`
unfoldable pub as_ascii_byte : ℤ → Option ℕ
as_ascii_byte (pos n) = if ltb n 256 then some n else none
as_ascii_byte (negsuc _) = none

abbrev pub from_bool : Bool → ℤ
from_bool b = pos (if b then 1 else 0)

unfoldable pub classify_ascii : ℤ → (ℕ → Bool) → ℤ
unfolding as_ascii_byte
classify_ascii c predicate = elim (as_ascii_byte c) [
  | none ↦ pos 0
  | some byte ↦ from_bool (predicate byte)
]

unfoldable pub map_ascii : ℤ → (ℕ → ℕ) → ℤ
unfolding as_ascii_byte
map_ascii c map = elim (as_ascii_byte c) [ none ↦ c | some byte ↦ pos (map byte) ]

abbrev pub is_in_ascii_range : ℕ → ℕ → ℕ → Bool
is_in_ascii_range byte start end = leb start byte && leb byte end

abbrev pub is_c_locale_space : ℕ → Bool
is_c_locale_space byte =
    (byte == 0x20)
    || (byte == 0x09)
    || (byte == 0x0A)
    || (byte == 0x0B)
    || (byte == 0x0C)
    || (byte == 0x0D)

abbrev pub is_c_locale_blank : ℕ → Bool
is_c_locale_blank byte = (byte == 0x20) || (byte == 0x09)

abbrev pub is_c_locale_print : ℕ → Bool
is_c_locale_print byte = is_in_ascii_range byte 0x20 0x7E

abbrev pub is_c_locale_graph : ℕ → Bool
is_c_locale_graph byte = is_in_ascii_range byte 0x21 0x7E

abbrev pub is_c_locale_cntrl : ℕ → Bool
is_c_locale_cntrl byte = leb byte 0x1F || (byte == 0x7F)

abbrev pub is_c_locale_digit : ℕ → Bool
is_c_locale_digit byte = is_in_ascii_range byte 0x30 0x39

abbrev pub is_c_locale_lower : ℕ → Bool
is_c_locale_lower byte = is_in_ascii_range byte 0x61 0x7A

abbrev pub is_c_locale_upper : ℕ → Bool
is_c_locale_upper byte = is_in_ascii_range byte 0x41 0x5A

abbrev pub is_c_locale_alpha : ℕ → Bool
is_c_locale_alpha byte = is_c_locale_lower byte || is_c_locale_upper byte

abbrev pub is_c_locale_alnum : ℕ → Bool
is_c_locale_alnum byte = is_c_locale_alpha byte || is_c_locale_digit byte

abbrev pub is_c_locale_hex_upper : ℕ → Bool
is_c_locale_hex_upper byte = is_in_ascii_range byte 0x41 0x46

abbrev pub is_c_locale_hex_lower : ℕ → Bool
is_c_locale_hex_lower byte = is_in_ascii_range byte 0x61 0x66

abbrev pub is_c_locale_xdigit : ℕ → Bool
is_c_locale_xdigit byte =
    is_c_locale_digit byte || is_c_locale_hex_upper byte || is_c_locale_hex_lower byte

abbrev pub is_c_locale_punct : ℕ → Bool
is_c_locale_punct byte =
    is_in_ascii_range byte 0x21 0x2F
    || is_in_ascii_range byte 0x3A 0x40
    || is_in_ascii_range byte 0x5B 0x60
    || is_in_ascii_range byte 0x7B 0x7E

-- `u8::to_ascii_lowercase` and `u8::to_ascii_uppercase` move the letters only.
abbrev pub to_c_locale_lower : ℕ → ℕ
to_c_locale_lower byte = if is_c_locale_upper byte then byte + 32 else byte

abbrev pub to_c_locale_upper : ℕ → ℕ
to_c_locale_upper byte = if is_c_locale_lower byte then byte - 32 else byte

unfoldable pub isalpha : ℤ → ℤ
isalpha c = classify_ascii c is_c_locale_alpha

unfoldable pub isdigit : ℤ → ℤ
isdigit c = classify_ascii c is_c_locale_digit

unfoldable pub isalnum : ℤ → ℤ
isalnum c = classify_ascii c is_c_locale_alnum

unfoldable pub islower : ℤ → ℤ
islower c = classify_ascii c is_c_locale_lower

unfoldable pub isupper : ℤ → ℤ
isupper c = classify_ascii c is_c_locale_upper

unfoldable pub isxdigit : ℤ → ℤ
isxdigit c = classify_ascii c is_c_locale_xdigit

unfoldable pub isblank : ℤ → ℤ
isblank c = classify_ascii c is_c_locale_blank

unfoldable pub isspace : ℤ → ℤ
isspace c = classify_ascii c is_c_locale_space

unfoldable pub iscntrl : ℤ → ℤ
iscntrl c = classify_ascii c is_c_locale_cntrl

unfoldable pub isprint : ℤ → ℤ
isprint c = classify_ascii c is_c_locale_print

unfoldable pub isgraph : ℤ → ℤ
isgraph c = classify_ascii c is_c_locale_graph

unfoldable pub ispunct : ℤ → ℤ
ispunct c = classify_ascii c is_c_locale_punct

unfoldable pub isascii : ℤ → ℤ
isascii c = if leb_ℤ (pos 0) c && leb_ℤ c (pos 0x7F) then pos 1 else pos 0

-- `c & 0x7F`
unfoldable pub toascii : ℤ → ℤ
toascii c = pos (rem_euclid c 128)

unfoldable pub tolower : ℤ → ℤ
tolower c = map_ascii c to_c_locale_lower

unfoldable pub toupper : ℤ → ℤ
toupper c = map_ascii c to_c_locale_upper
