-- ===== src/Tests/Memory.antt =====
-- src/memory/mod.rs, src/string/mod.rs, src/wchar/mod.rs and src/ctype.rs on concrete inputs.
use rlibc.Common.{◌⊎◌, ℕ, ◌%◌, ◌≡◌, inl, refl, some, arith, if◌then◌else◌, ◌==◌}
use rlibc.Common.Int.{pos, negsuc, rem_euclid, ◌+ℤ◌}
use rlibc.Memory.{Memory, memmove, memcpy, memset, memcmp}
use rlibc.Memory.Copy.{memmove_copies, memset_fills}
use rlibc.Memory.Compare.{Compared, memcmp_compares}
use rlibc.Str.{strlen, strnlen}
use rlibc.Str.Length.{HasLength, IsBounded, strlen-strnlen, strnlen-IsBounded}
use rlibc.Wchar.{Units, is_continuation_byte, decode_utf8_scalar, encode_utf8_scalar}
use rlibc.Wchar.Codec.{Encodes, encode-decode, decode-encode}
use rlibc.Common.{[], ◌∷◌}
use rlibc.Wchar.{expected_len_from_lead_byte}
use rlibc.Wchar.Restart.{
  MbState, new, complete, incomplete, partial_prefix_is_valid, take_byte, buffer_bytes,
  finish_decode, is_usable, decode_utf8,
}
use rlibc.Wchar.Resume.{decode_utf8_resumes}
use rlibc.Ctype.{
  isalpha, isdigit, isalnum, islower, isupper, iscntrl, isprint, isgraph, ispunct, isascii, tolower,
  toupper,
}
use rlibc.Ctype.Classes.{classes_divide, case_mapping}

-- Every address holds its own number, and 5 holds the NUL.
abbrev ramp : Memory
ramp a = if a == 5 then 0 else a % 256

-- An overlapping move by one.
memmove_copies_example :
    ((memmove ramp 11 10 4).pointer ≡ 11)
    × ((memmove ramp 11 10 4).memory 14 ≡ 13)
    × ((memcpy ramp 11 10 4).pointer ≡ 11)
    × ((memcpy ramp 11 10 4).memory 14 ≡ 13)
memmove_copies_example = memmove_copies ramp 11 10 4 14

memset_fills_example :
    ((memset ramp 10 (negsuc 0) 4).pointer ≡ 10) × ((memset ramp 10 (negsuc 0) 4).memory 13 ≡ 255)
unfolding rem_euclid
memset_fills_example = memset_fills ramp 10 (negsuc 0) 4 13

memcmp_compares_example : Compared ramp 10 20 3 (memcmp ramp 10 20 3)
memcmp_compares_example = memcmp_compares ramp 10 20 3

ramp-HasLength : HasLength ramp 2 3
ramp-HasLength = (refl, λ i lt. ground arith)

strlen-strnlen_example : (strlen 4 ramp 2 ≡ some 3) × (strnlen ramp 2 2 ≡ 2)
strlen-strnlen_example = strlen-strnlen 4 ramp 2 3 2 ramp-HasLength (omega arith)

strnlen-IsBounded_example : IsBounded ramp 2 9 (strnlen ramp 2 9)
strnlen-IsBounded_example = strnlen-IsBounded ramp 2 9

-- The euro sign.
encode-decode_example : (u : Units) × (len : ℕ) × Encodes 0x20AC u len
encode-decode_example = encode-decode 0x20AC (inl (omega arith))

abbrev euro : Units
euro = record { b0 = 0xE2; b1 = 0x82; b2 = 0xAC; b3 = 0 }

euro_decodes : decode_utf8_scalar euro 3 ≡ some 0x20AC
unfolding decode_utf8_scalar is_continuation_byte
euro_decodes = refl

decode-encode_example : encode_utf8_scalar (pos 0x20AC) ≡ some (euro, 3)
decode-encode_example =
    decode-encode euro 3 0x20AC (λ h. absurd (omega arith), λ h. absurd (omega arith), λ h. refl)
      euro_decodes

-- 'A'
classes_divide_example :
    (isalpha (pos 65) ≡ islower (pos 65) +ℤ isupper (pos 65))
    × (isalnum (pos 65) ≡ isalpha (pos 65) +ℤ isdigit (pos 65))
    × (isgraph (pos 65) ≡ isalnum (pos 65) +ℤ ispunct (pos 65))
    × (isascii (pos 65) ≡ iscntrl (pos 65) +ℤ isprint (pos 65))
classes_divide_example = classes_divide (pos 65)

case_mapping_example :
    (islower (tolower (pos 65)) ≡ isalpha (pos 65))
    × (isupper (toupper (pos 65)) ≡ isalpha (pos 65))
    × (toupper (tolower (pos 65)) ≡ toupper (pos 65))
    × (tolower (toupper (pos 65)) ≡ tolower (pos 65))
    × ((isupper (pos 65) ≡ pos 1) ⊎ (tolower (pos 65) ≡ pos 65))
    × ((islower (pos 65) ≡ pos 1) ⊎ (toupper (pos 65) ≡ pos 65))
case_mapping_example = case_mapping (pos 65)

-- The euro sign in two pieces.
abbrev after_one : MbState
after_one = record {
  bytes = record { b0 = 0xE2; b1 = 0; b2 = 0; b3 = 0 };
  pending_len = 1;
  expected_len = 3;
  reserved = (0, 0);
}

first_byte : decode_utf8 new (0xE2 ∷ []) ≡ (incomplete 1, after_one)
unfolding decode_utf8 is_usable buffer_bytes take_byte finish_decode partial_prefix_is_valid
    expected_len_from_lead_byte is_continuation_byte
first_byte = refl

decode_utf8_resumes_example : decode_utf8 new (0xE2 ∷ 0x82 ∷ 0xAC ∷ []) ≡ (complete 0x20AC 3, new)
unfolding decode_utf8 is_usable buffer_bytes take_byte finish_decode partial_prefix_is_valid
    expected_len_from_lead_byte is_continuation_byte decode_utf8_scalar
decode_utf8_resumes_example =
    decode_utf8_resumes new after_one (0xE2 ∷ []) (0x82 ∷ 0xAC ∷ []) 1 first_byte
