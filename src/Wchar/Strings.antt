-- ===== src/Wchar/Strings.antt =====
-- src/wchar/mod.rs: the exported functions on strings. A string is the list of what stands before its
-- zero; a pointer into it is the rest of the list.
use rlibc.Common.{
  ℕ, zero, suc, ◌+◌, ◌-◌, ◌^◌, Bool, true, ◌&&◌, ◌||◌, Option, none, some, List, [], ◌∷◌, ◌++◌, ltb,
  ◌==◌, if◌then◌else◌, length,
}
use rlibc.Common.Int.{ℤ}
use rlibc.Common.Bytes.{Bytes}
use rlibc.Errno.{eilseq}
use rlibc.Wchar.{encode_utf8_scalar}
use rlibc.Wchar.Restart.{MbState, new}
use rlibc.Wchar.Calls.{
  mbr_err_invalid, mbr_err_incomplete, Converted, mbrtowc_with_state, encoded_bytes,
}

-- `size_t_error_with_eilseq` returns `size_t::MAX`.
abbrev pub size_t_max : ℕ
size_t_max = 2 ^ 64 - 1

-- Why a loop has ended: the destination is full, the string is at its end, or a character is invalid.
pub data Ending : Type 0 where
  full : Ending
  at_end : Ending
  failed : Ending

-- Where the loop has ended: what it has counted and stored, the rest of the string, and the state.
pub record Reading : Type 0 where
  pub ending : Ending
  pub count : ℕ
  pub wides : List ℕ
  pub cursor : Bytes
  pub state : MbState

-- One round: the character at the cursor, with the NUL behind the string in reach.
abbrev pub read_wide : Bytes → MbState → Converted
read_wide cursor state =
    mbrtowc_with_state true (some (cursor ++ (0 ∷ []))) (length cursor + 1) state 0

abbrev pub is_error : ℕ → Bool
is_error result = (result == mbr_err_invalid) || (result == mbr_err_incomplete)

abbrev pub wide_of : Converted → ℕ
wide_of c = elim c.wide [ none ↦ 0 | some wide ↦ wide ]

abbrev pub stopped : Ending → ℕ → List ℕ → Bytes → MbState → Reading
stopped ending count wides cursor state = record {
  ending = ending;
  count = count;
  wides = wides;
  cursor = cursor;
  state = state;
}

-- The loop of `mbsrtowcs` and `mbstowcs`, which is bounded when there is a destination. The bytes of
-- the last character are skipped one by one; at the NUL a round answers 0 or fails.
unfoldable pub read_loop : Bool → ℕ → ℕ → Bytes → ℕ → List ℕ → MbState → Reading
read_loop bounded limit (suc skip) (c ∷ cursor) count wides state =
    read_loop bounded limit skip cursor count wides state
read_loop bounded limit skip [] count wides state =
    let c = read_wide [] state in
    if bounded && (count == limit)
    then stopped full count wides [] state
    else if is_error c.result
    then stopped failed count wides [] c.state
    else stopped at_end count wides [] c.state
read_loop bounded limit zero (b ∷ cursor) count wides state =
    let c = read_wide (b ∷ cursor) state in
    let rest =
      read_loop bounded limit (c.result - 1) cursor (count + 1) (wides ++ (wide_of c ∷ []))
        c.state in
    if bounded && (count == limit)
    then stopped full count wides (b ∷ cursor) state
    else if is_error c.result
    then stopped failed count wides (b ∷ cursor) c.state
    else if c.result == 0
    then stopped at_end count wides (b ∷ cursor) c.state
    else rest

-- What is stored: the characters, and a zero when the string is at its end.
abbrev pub stored_wides : Bool → Reading → List ℕ
stored_wides dst r =
    if dst then elim r.ending [ at_end ↦ r.wides ++ (0 ∷ []) | _ ↦ r.wides ] else []

pub record WideString : Type 0 where
  pub result : ℕ
  pub wides : List ℕ
  pub errno : ℕ

abbrev pub finish_mbstowcs : Bool → ℕ → Reading → WideString
finish_mbstowcs dst errno r = elim r.ending [
  | failed ↦ record { result = size_t_max; wides = stored_wides dst r; errno = eilseq }
  | _ ↦ record { result = r.count; wides = stored_wides dst r; errno = errno }
]

unfoldable pub mbstowcs : Bool → Option Bytes → ℕ → ℕ → WideString
unfolding read_loop
mbstowcs dst none len errno = record { result = size_t_max; wides = []; errno = eilseq }
mbstowcs dst (some src) len errno =
    if dst && (len == 0)
    then record { result = 0; wides = []; errno = errno }
    else finish_mbstowcs dst errno (read_loop dst len 0 src 0 [] new)

-- The loop of `wcstombs`: the bytes counted and stored, and whether a character was not encoded.
pub record Writing : Type 0 where
  pub ending : Ending
  pub count : ℕ
  pub bytes : Bytes

abbrev pub ends : Ending → ℕ → Bytes → Writing
ends ending count bytes = record { ending = ending; count = count; bytes = bytes }

unfoldable pub write_loop : Bool → ℕ → List ℤ → ℕ → Bytes → Writing
write_loop dst limit [] count bytes =
    if dst && (count == limit) then ends full count bytes else ends at_end count bytes
write_loop dst limit (wide ∷ src) count bytes =
    if dst && (count == limit) then ends full count bytes else elim (encode_utf8_scalar wide) [
      | none ↦ ends failed count bytes
      | some (u, len) ↦
          let rest = write_loop dst limit src (count + len) (bytes ++ encoded_bytes (u, len)) in
          if dst && ltb limit (count + len) then ends full count bytes else rest
    ]

pub record ByteString : Type 0 where
  pub result : ℕ
  pub bytes : Bytes
  pub errno : ℕ

abbrev pub stored_bytes : Bool → Writing → Bytes
stored_bytes dst w =
    if dst then elim w.ending [ at_end ↦ w.bytes ++ (0 ∷ []) | _ ↦ w.bytes ] else []

abbrev pub finish_wcstombs : Bool → ℕ → Writing → ByteString
finish_wcstombs dst errno w = elim w.ending [
  | failed ↦ record { result = size_t_max; bytes = stored_bytes dst w; errno = eilseq }
  | _ ↦ record { result = w.count; bytes = stored_bytes dst w; errno = errno }
]

unfoldable pub wcstombs : Bool → Option (List ℤ) → ℕ → ℕ → ByteString
unfolding write_loop
wcstombs dst none len errno = record { result = size_t_max; bytes = []; errno = eilseq }
wcstombs dst (some src) len errno =
    if dst && (len == 0)
    then record { result = 0; bytes = []; errno = errno }
    else finish_wcstombs dst errno (write_loop dst len src 0 [])
