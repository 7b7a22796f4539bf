-- ===== src/Wchar/Restart.antt =====
-- src/wchar/mod.rs: `decode_utf8`, which keeps an incomplete character in an `mbstate_t`.
use rlibc.Common.{
  ℕ, ◌+◌, Bool, false, not, ◌&&◌, ◌||◌, Option, none, some, [], ◌∷◌, ltb, leb, ◌==◌, if◌then◌else◌,
}
use rlibc.Common.Bytes.{Bytes}
use rlibc.Wchar.{
  Units, between, is_continuation_byte, expected_len_from_lead_byte, decode_utf8_scalar,
}

-- `mbstate_t`
pub record MbState : Type 0 where
  pub bytes : Units
  pub pending_len : ℕ
  pub expected_len : ℕ
  pub reserved : ℕ × ℕ

abbrev pub no_units : Units
no_units = record { b0 = 0; b1 = 0; b2 = 0; b3 = 0 }

-- `mbstate_t::new`
abbrev pub new : MbState
new = record { bytes = no_units; pending_len = 0; expected_len = 0; reserved = (0, 0) }

pub data Utf8DecodeResult : Type 0 where
  complete : (code_point consumed : ℕ) → Utf8DecodeResult
  incomplete : (consumed : ℕ) → Utf8DecodeResult
  invalid : (consumed : ℕ) → Utf8DecodeResult

abbrev pub bytes_are_zero : Units → Bool
bytes_are_zero u = (u.b0 == 0) && (u.b1 == 0) && (u.b2 == 0) && (u.b3 == 0)

abbrev pub short_bytes_are_zero : ℕ × ℕ → Bool
short_bytes_are_zero (r0, r1) = (r0 == 0) && (r1 == 0)

abbrev has_length : Option ℕ → ℕ → Bool
has_length none n = false
has_length (some m) n = m == n

unfoldable pub partial_prefix_is_valid : Units → ℕ → ℕ → Bool
unfolding is_continuation_byte
partial_prefix_is_valid u pending_len expected_len =
    not (pending_len == 0 || leb expected_len pending_len)
    && between 2 4 expected_len
    && has_length (expected_len_from_lead_byte u.b0) expected_len
    && (leb pending_len 1 || is_continuation_byte u.b1)
    && (leb pending_len 2 || is_continuation_byte u.b2)
    && (leb pending_len 3 || is_continuation_byte u.b3)
    && (ltb 1 pending_len || (u.b1 == 0))
    && (ltb 2 pending_len || (u.b2 == 0))
    && (ltb 3 pending_len || (u.b3 == 0))
    && not (
        leb 2 pending_len
        && ((expected_len == 3)
              && (((u.b0 == 0xE0) && ltb u.b1 0xA0) || ((u.b0 == 0xED) && ltb 0x9F u.b1))
            || (expected_len == 4)
              && (((u.b0 == 0xF0) && ltb u.b1 0x90) || ((u.b0 == 0xF4) && ltb 0x8F u.b1))))

-- `bytes[index] = byte`
abbrev pub set_unit : Units → ℕ → ℕ → Units
set_unit u index byte = record {
  b0 = if index == 0 then byte else u.b0;
  b1 = if index == 1 then byte else u.b1;
  b2 = if index == 2 then byte else u.b2;
  b3 = if index == 3 then byte else u.b3;
}

-- Where the loop stands: what it has buffered, or that it has found the input invalid.
pub data Buffered : Type 0 where
  rejected : (consumed : ℕ) → Buffered
  buffered : (bytes : Units) (buffered_len expected_len consumed : ℕ) → Buffered

-- The end of the loop body, once `expected_len` is known.
abbrev pub push_byte : ℕ → Units → ℕ → ℕ → ℕ → Buffered
push_byte byte u buffered_len expected_len consumed =
    if ltb (buffered_len + 1) expected_len
      && not
          (partial_prefix_is_valid (set_unit u buffered_len byte) (buffered_len + 1) expected_len)
    then rejected (consumed + 1)
    else buffered (set_unit u buffered_len byte) (buffered_len + 1) expected_len (consumed + 1)

abbrev pub push_lead : Option ℕ → ℕ → Units → ℕ → Buffered
push_lead none byte u consumed = rejected consumed
push_lead (some expected_len) byte u consumed = push_byte byte u 0 expected_len consumed

-- The loop body on one byte.
unfoldable pub take_byte : ℕ → Units → ℕ → ℕ → ℕ → Buffered
unfolding is_continuation_byte
take_byte byte u buffered_len expected_len consumed =
    if buffered_len == 0
    then push_lead (expected_len_from_lead_byte byte) byte u consumed
    else if not (is_continuation_byte byte)
    then rejected consumed
    else push_byte byte u buffered_len expected_len consumed

-- Whether the loop ends with what is buffered.
abbrev pub stops : ℕ → ℕ → Bool
stops buffered_len expected_len =
    leb 4 buffered_len || (not (expected_len == 0) && (buffered_len == expected_len))

-- The loop.
unfoldable pub buffer_bytes : Bytes → Buffered → Buffered
buffer_bytes input (rejected consumed) = rejected consumed
buffer_bytes [] (buffered u buffered_len expected_len consumed) =
    buffered u buffered_len expected_len consumed
buffer_bytes (byte ∷ input) (buffered u buffered_len expected_len consumed) =
    let rest = buffer_bytes input (take_byte byte u buffered_len expected_len consumed) in
    if stops buffered_len expected_len then buffered u buffered_len expected_len consumed else rest

abbrev pub finish_scalar : Option ℕ → ℕ → Utf8DecodeResult × MbState
finish_scalar none consumed = (invalid consumed, new)
finish_scalar (some code_point) consumed = (complete code_point consumed, new)

-- What follows the loop.
unfoldable pub finish_decode : Buffered → Utf8DecodeResult × MbState
finish_decode (rejected consumed) = (invalid consumed, new)
finish_decode (buffered u buffered_len expected_len consumed) =
    if (expected_len == 0) || ltb buffered_len expected_len
    then (
      incomplete consumed,
      record {
        bytes = u;
        pending_len = buffered_len;
        expected_len = expected_len;
        reserved = (0, 0);
      },
    )
    else finish_scalar (decode_utf8_scalar u expected_len) consumed

-- The checks of the state, before the loop.
unfoldable pub is_usable : MbState → Bool
is_usable state =
    short_bytes_are_zero state.reserved
    && (if state.pending_len == 0
        then (state.expected_len == 0) && bytes_are_zero state.bytes
        else between 2 4 state.expected_len
          && ltb state.pending_len state.expected_len
          && partial_prefix_is_valid state.bytes state.pending_len state.expected_len)

unfoldable pub decode_utf8 : MbState → Bytes → Utf8DecodeResult × MbState
decode_utf8 state input =
    if is_usable state
    then finish_decode
        (buffer_bytes input (buffered state.bytes state.pending_len state.expected_len 0))
    else (invalid 0, new)
