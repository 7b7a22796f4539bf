-- ===== src/Tests/Wchar.antt =====
-- The theorems on the exported multibyte functions.
use rlibc.Common.{
  ℕ, ◌≡◌, ◌<◌, refl, true, some, List, [], ◌∷◌, ◌++◌, inl, inr, length, take, map, arith,
}
use rlibc.Common.Int.{pos}
use rlibc.Common.Bytes.{Bytes}
use rlibc.Wchar.{expected_len_from_lead_byte, decode_utf8_scalar, encode_utf8_scalar}
use rlibc.Wchar.Restart.{new, decode_utf8}
use rlibc.Wchar.Calls.{scan_bytes, scan_byte, mbrtowc_with_state}
use rlibc.Wchar.Strings.{full, read_loop, wcstombs, mbstowcs}
use rlibc.Wchar.Roundtrip.{as_converted, mbrtowc-decode_utf8}
use rlibc.Wchar.Inverse.{utf8, IsWide, mbstowcs-wcstombs}
use rlibc.Wchar.Restartable.{read_loop_resumes}

-- The first two bytes of the euro sign, and one that does not belong there.
abbrev broken : Bytes
broken = 0xE2 ∷ 0x82 ∷ 0x41 ∷ []

mbrtowc-decode_utf8_example :
    mbrtowc_with_state true (some broken) 2 new 0
    ≡ as_converted true 0 (decode_utf8 new (take 2 broken))
mbrtowc-decode_utf8_example = mbrtowc-decode_utf8 true broken 2 new 0 (omega arith)

-- An A, the euro sign, and a character beyond 16 bits.
abbrev three : List ℕ
three = 0x41 ∷ 0x20AC ∷ 0x1F600 ∷ []

three-IsWide : IsWide three
three-IsWide = (
  (inl (omega arith), omega arith),
  ((inl (omega arith), omega arith), ((inr (omega arith, omega arith), omega arith), tt)),
)

three_bytes : length (utf8 three) < 9
unfolding utf8 encode_utf8_scalar
three_bytes = omega arith

mbstowcs-wcstombs_example :
    (wcstombs true (some (map pos three)) 9 0
      ≡ record { result = length (utf8 three); bytes = utf8 three ++ (0 ∷ []); errno = 0 })
    × (mbstowcs true (some (utf8 three)) 4 0
        ≡ record { result = length three; wides = three ++ (0 ∷ []); errno = 0 })
mbstowcs-wcstombs_example = mbstowcs-wcstombs three 9 4 0 three-IsWide three_bytes (omega arith)

abbrev two_letters : Bytes
two_letters = 0x41 ∷ 0x42 ∷ []

one_is_full : (read_loop true 1 0 two_letters 0 [] new).ending ≡ full
unfolding read_loop mbrtowc_with_state scan_bytes scan_byte expected_len_from_lead_byte
    decode_utf8_scalar
one_is_full = refl

read_loop_resumes_example :
    (let r = read_loop true 1 0 two_letters 0 [] new in
      read_loop true 3 0 two_letters 0 [] new ≡ read_loop true 3 0 r.cursor r.count r.wides r.state)
read_loop_resumes_example =
    read_loop_resumes 1 3 0 two_letters 0 [] new (omega arith) (omega arith) one_is_full
