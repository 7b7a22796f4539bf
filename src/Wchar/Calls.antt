-- ===== src/Wchar/Calls.antt =====
-- src/wchar/mod.rs: the exported functions on one character. What memory holds from `s` on is a list of
-- bytes; a `wchar_t` or bytes written through a pointer are part of the result, and so is `errno`.
use rlibc.Common.{
  ℕ, ◌+◌, ◌-◌, ◌^◌, Bool, true, false, not, ◌&&◌, ◌||◌, Option, none, some, [], ◌∷◌, ltb, leb, ◌==◌,
  if◌then◌else◌, take,
}
use rlibc.Common.Int.{ℤ, pos, negsuc}
use rlibc.Common.Bytes.{Bytes}
use rlibc.Errno.{eilseq}
use rlibc.Wchar.{
  Units, between, is_continuation_byte, expected_len_from_lead_byte, decode_utf8_scalar,
  encode_utf8_scalar,
}
use rlibc.Wchar.Restart.{
  MbState, new, bytes_are_zero, short_bytes_are_zero, partial_prefix_is_valid, set_unit,
}

abbrev pub mbr_err_invalid : ℕ
mbr_err_invalid = 2 ^ 64 - 1

abbrev pub mbr_err_incomplete : ℕ
mbr_err_incomplete = 2 ^ 64 - 2

-- What a conversion to a wide character leaves.
pub record Converted : Type 0 where
  pub result : ℕ
  pub wide : Option ℕ
  pub state : MbState
  pub errno : ℕ

abbrev pub reset_state_and_fail : Converted
reset_state_and_fail = record { result = mbr_err_invalid; wide = none; state = new; errno = eilseq }

-- What is written through `pwc`, which may be null.
abbrev pub written : Bool → ℕ → Option ℕ
written pwc wide = if pwc then some wide else none

abbrev pub finish_wide : Bool → ℕ → ℕ → Option ℕ → Converted
finish_wide pwc errno consumed none = reset_state_and_fail
finish_wide pwc errno consumed (some scalar) = record {
  result = if scalar == 0 then 0 else consumed;
  wide = written pwc scalar;
  state = new;
  errno = errno;
}

-- Where the loop stands, or that the call has failed in it.
pub data Buffering : Type 0 where
  failed : Buffering
  scanned : (bytes : Units) (buffered_len expected_len consumed : ℕ) → Buffering

abbrev store_byte : ℕ → Units → ℕ → ℕ → ℕ → Buffering
store_byte byte u buffered_len expected_len consumed =
    let bytes = set_unit u buffered_len byte in
    let len = buffered_len + 1 in
    if ltb len expected_len && not (partial_prefix_is_valid bytes len expected_len)
    then failed
    else scanned bytes len expected_len (consumed + 1)

abbrev store_lead : Option ℕ → ℕ → Units → ℕ → Buffering
store_lead none byte u consumed = failed
store_lead (some next_expected_len) byte u consumed = store_byte byte u 0 next_expected_len consumed

-- The body of the loop, on the byte that it has read.
unfoldable pub scan_byte : ℕ → Units → ℕ → ℕ → ℕ → Buffering
scan_byte byte u buffered_len expected_len consumed =
    if buffered_len == 0
    then store_lead (expected_len_from_lead_byte byte) byte u consumed
    else if not (is_continuation_byte byte)
    then failed
    else store_byte byte u buffered_len expected_len consumed

-- The loop; what memory holds from the next byte on is a list.
unfoldable pub scan_bytes : ℕ → Bytes → Buffering → Buffering
scan_bytes max_input input failed = failed
scan_bytes max_input [] (scanned u buffered_len expected_len consumed) =
    scanned u buffered_len expected_len consumed
scan_bytes max_input (byte ∷ input) (scanned u buffered_len expected_len consumed) =
    let rest = scan_bytes max_input input (scan_byte byte u buffered_len expected_len consumed) in
    if leb 4 buffered_len
    then scanned u buffered_len expected_len consumed
    else if not (expected_len == 0) && (buffered_len == expected_len)
    then scanned u buffered_len expected_len consumed
    else if consumed == max_input
    then scanned u buffered_len expected_len consumed
    else rest

-- What follows the loop.
unfoldable pub finish_mbrtowc : Bool → ℕ → Buffering → Converted
finish_mbrtowc pwc errno failed = reset_state_and_fail
finish_mbrtowc pwc errno (scanned u buffered_len expected_len consumed) =
    if (expected_len == 0) || ltb buffered_len expected_len
    then record {
      result = mbr_err_incomplete;
      wide = none;
      state = record {
        bytes = u;
        pending_len = buffered_len;
        expected_len = expected_len;
        reserved = (0, 0);
      };
      errno = errno;
    }
    else finish_wide pwc errno consumed (decode_utf8_scalar u expected_len)

-- The tests of the state, each of which fails the call.
unfoldable pub is_corrupted : MbState → Bool
is_corrupted state =
    if not (short_bytes_are_zero state.reserved)
    then true
    else if state.pending_len == 0
    then not (state.expected_len == 0) || not (bytes_are_zero state.bytes)
    else not (between 2 4 state.expected_len)
      || leb state.expected_len state.pending_len
      || not (partial_prefix_is_valid state.bytes state.pending_len state.expected_len)

unfoldable pub mbrtowc_with_state : Bool → Option Bytes → ℕ → MbState → ℕ → Converted
unfolding finish_mbrtowc is_corrupted scan_bytes
mbrtowc_with_state pwc none n state errno = record {
  result = 0;
  wide = written pwc 0;
  state = new;
  errno = errno;
}
mbrtowc_with_state pwc (some s) n state errno =
    if is_corrupted state
    then reset_state_and_fail
    else if n == 0
    then record { result = mbr_err_incomplete; wide = none; state = state; errno = errno }
    else finish_mbrtowc pwc errno
        (scan_bytes n s (scanned state.bytes state.pending_len state.expected_len 0))

-- The state at `ps`, if it is not null, and the thread's own.
pub record States : Type 0 where
  pub internal : MbState
  pub given : Option MbState

-- `resolve_state_ptr`
abbrev pub resolve_state : States → MbState
resolve_state st = elim st.given [ none ↦ st.internal | some state ↦ state ]

abbrev pub store_state : MbState → States → States
store_state state st = elim st.given [
  | none ↦ record st { internal = state }
  | some _ ↦ record st { given = some state }
]

pub record Called : Type 0 where
  pub result : ℕ
  pub wide : Option ℕ
  pub states : States
  pub errno : ℕ

unfoldable pub mbrtowc : Bool → Option Bytes → ℕ → States → ℕ → Called
mbrtowc pwc s n st errno =
    let c = mbrtowc_with_state pwc s n (resolve_state st) errno in
    record { result = c.result; wide = c.wide; states = store_state c.state st; errno = c.errno }

unfoldable pub mbrlen : Option Bytes → ℕ → States → ℕ → Called
mbrlen s n st errno = mbrtowc false s n st errno

abbrev pub is_initial : MbState → Bool
is_initial state =
    bytes_are_zero state.bytes
    && (state.pending_len == 0)
    && (state.expected_len == 0)
    && short_bytes_are_zero state.reserved

unfoldable pub mbsinit : Option MbState → ℕ
mbsinit none = 1
mbsinit (some state) = if is_initial state then 1 else 0

-- The first `len` bytes of an encoding.
abbrev pub encoded_bytes : Units × ℕ → Bytes
encoded_bytes (u, len) = take len (u.b0 ∷ u.b1 ∷ u.b2 ∷ u.b3 ∷ [])

-- What a conversion from a wide character leaves; what it writes starts at `s`.
pub record Encoded : Type 0 where
  pub result : ℕ
  pub bytes : Bytes
  pub states : States
  pub errno : ℕ

abbrev encode_failed : States → Encoded
encode_failed st = record {
  result = mbr_err_invalid;
  bytes = [];
  states = store_state new st;
  errno = eilseq;
}

-- `s` may be null.
unfoldable pub wcrtomb : Bool → ℤ → States → ℕ → Encoded
wcrtomb false wc st errno = record {
  result = 1;
  bytes = [];
  states = store_state new st;
  errno = errno;
}
wcrtomb true wc st errno =
    if not (is_initial (resolve_state st)) then encode_failed st else elim (encode_utf8_scalar wc) [
      | none ↦ encode_failed st
      | some (u, len) ↦ record {
        result = len;
        bytes = encoded_bytes (u, len);
        states = store_state new st;
        errno = errno;
      }
    ]

abbrev pub mbr_result_to_int : ℕ → ℕ → ℤ × ℕ
mbr_result_to_int result errno =
    if (result == mbr_err_invalid) || (result == mbr_err_incomplete)
    then (negsuc 0, if result == mbr_err_incomplete then eilseq else errno)
    else (pos result, errno)

-- The thread's own state; `mblen`, `mbtowc` and `wctomb` use no other.
unfoldable pub reset_internal_multibyte_state : MbState → ℕ → MbState
unfolding mbrtowc_with_state
reset_internal_multibyte_state internal errno =
    (mbrtowc_with_state false none 0 internal errno).state

unfoldable pub mbtowc : Bool → Option Bytes → ℕ → MbState → ℕ → ℤ × Option ℕ × MbState × ℕ
unfolding mbrtowc reset_internal_multibyte_state
mbtowc pwc none n internal errno =
    (pos 0, none, reset_internal_multibyte_state internal errno, errno)
mbtowc pwc (some s) n internal errno =
    let c = mbrtowc pwc (some s) n (record { internal = internal; given = none }) errno in
    let (result, errno_after) = mbr_result_to_int c.result c.errno in
    (result, c.wide, c.states.internal, errno_after)

unfoldable pub mblen : Option Bytes → ℕ → MbState → ℕ → ℤ × MbState × ℕ
unfolding mbrlen reset_internal_multibyte_state
mblen none n internal errno = (pos 0, reset_internal_multibyte_state internal errno, errno)
mblen (some s) n internal errno =
    let c = mbrlen (some s) n (record { internal = internal; given = none }) errno in
    let (result, errno_after) = mbr_result_to_int c.result c.errno in
    (result, c.states.internal, errno_after)

unfoldable pub wctomb : Bool → ℤ → MbState → ℕ → ℤ × Bytes × MbState × ℕ
unfolding reset_internal_multibyte_state
wctomb false wc internal errno = (pos 0, [], reset_internal_multibyte_state internal errno, errno)
wctomb true wc internal errno = elim (encode_utf8_scalar wc) [
  | none ↦ (negsuc 0, [], internal, eilseq)
  | some (u, len) ↦ (pos len, encoded_bytes (u, len), internal, errno)
]
