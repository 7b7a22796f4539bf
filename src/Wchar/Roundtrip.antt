-- ===== src/Wchar/Roundtrip.antt =====
-- src/wchar/mod.rs: what `wcstombs` writes, `mbstowcs` reads.
use rlibc.Common.{
  ℕ, zero, suc, ◌+◌, ◌<◌, ◌≡◌, refl, sym, Bool, true, false, not, ◌&&◌, none, some, [], ◌∷◌, ◌++◌,
  ltb, ◌==◌, if◌then◌else◌, take, arith, inl, inr, ◌⊎◌, subst,
}
use rlibc.Common.Bytes.{Bytes}
use rlibc.Errno.{eilseq}
use rlibc.Wchar.{Units, decode_utf8_scalar, expected_len_from_lead_byte, is_continuation_byte}
use rlibc.Wchar.Codec.{Encodes}
use rlibc.Wchar.Restart.{
  MbState, new, Utf8DecodeResult, complete, incomplete, invalid, Buffered, rejected, buffered,
  buffer_bytes, is_usable, finish_decode, decode_utf8, take_byte, partial_prefix_is_valid, no_units,
}
use rlibc.Wchar.Calls.{
  mbr_err_invalid, mbr_err_incomplete, Converted, written, Buffering, failed, scanned, scan_byte,
  scan_bytes, finish_mbrtowc, is_corrupted, mbrtowc_with_state, encoded_bytes,
}

-- What `mbrtowc` makes of an answer of `decode_utf8`.
abbrev pub as_converted : Bool → ℕ → Utf8DecodeResult × MbState → Converted
as_converted pwc errno (complete scalar consumed, state) = record {
  result = if scalar == 0 then 0 else consumed;
  wide = written pwc scalar;
  state = state;
  errno = errno;
}
as_converted pwc errno (incomplete consumed, state) = record {
  result = mbr_err_incomplete;
  wide = none;
  state = state;
  errno = errno;
}
as_converted pwc errno (invalid consumed, state) = record {
  result = mbr_err_invalid;
  wide = none;
  state = state;
  errno = eilseq;
}

-- Where the loop of `mbrtowc` stands, for where that of `decode_utf8` does.
abbrev as_scan : Buffered → Buffering
as_scan (rejected consumed) = failed
as_scan (buffered u buffered_len expected_len consumed) =
    scanned u buffered_len expected_len consumed

finish_lem :
    (pwc : Bool) (errno : ℕ) (b : Buffered)
    → finish_mbrtowc pwc errno (as_scan b) ≡ as_converted pwc errno (finish_decode b)
unfolding finish_mbrtowc finish_decode
finish_lem pwc errno (rejected consumed) = refl
finish_lem pwc errno (buffered u buffered_len expected_len consumed) = ground arith

corrupted_lem : (state : MbState) → is_corrupted state ≡ not (is_usable state)
unfolding is_corrupted is_usable
corrupted_lem state = ground arith

scan_byte_lem :
    (byte : ℕ) (u : Units) (buffered_len expected_len consumed : ℕ)
    → scan_byte byte u buffered_len expected_len consumed
      ≡ as_scan (take_byte byte u buffered_len expected_len consumed)
unfolding scan_byte take_byte
scan_byte_lem byte u buffered_len expected_len consumed = ground arith

-- `m` bytes are left to read.
abbrev Left : Buffered → ℕ → ℕ → Type 0
Left (rejected consumed) m max_input = Unit
Left (buffered u buffered_len expected_len consumed) m max_input = consumed + m ≡ max_input

take_byte-Left :
    (byte : ℕ) (u : Units) (buffered_len expected_len consumed m max_input : ℕ)
    → consumed + suc m ≡ max_input
    → Left (take_byte byte u buffered_len expected_len consumed) m max_input
unfolding take_byte
take_byte-Left byte u buffered_len expected_len consumed m max_input h = ground arith

scan_lem :
    (max_input m : ℕ) (input : Bytes) (b : Buffered)
    → Left b m max_input
    → scan_bytes max_input input (as_scan b) ≡ as_scan (buffer_bytes (take m input) b)
unfolding scan_bytes buffer_bytes
scan_lem max_input m input (rejected consumed) h = refl
scan_lem max_input zero [] (buffered u len expected consumed) h = refl
scan_lem max_input (suc m) [] (buffered u len expected consumed) h = refl
scan_lem max_input zero (c ∷ input) (buffered u len expected consumed) h = ground arith
scan_lem max_input (suc m) (c ∷ input) (buffered u len expected consumed) h =
    let next = take_byte c u len expected consumed in
    let rest =
      scan_lem max_input m input next (take_byte-Left c u len expected consumed m max_input h) in
    ground (arith, rest, scan_byte_lem c u len expected consumed)

-- For `n` above 0, `mbrtowc` from any state, with tests of the state and a loop of its own,
-- answers, stores and leaves what `decode_utf8` of the first `n` bytes says.
pub mbrtowc-decode_utf8 :
    (pwc : Bool) (s : Bytes) (n : ℕ) (state : MbState) (errno : ℕ)
    → 0 < n
    → mbrtowc_with_state pwc (some s) n state errno
      ≡ as_converted pwc errno (decode_utf8 state (take n s))
unfolding mbrtowc_with_state decode_utf8
mbrtowc-decode_utf8 pwc s n state errno h = ground (
  arith,
  corrupted_lem state,
  scan_lem n n s (buffered state.bytes state.pending_len state.expected_len 0) (omega arith),
  finish_lem pwc errno
      (buffer_bytes (take n s) (buffered state.bytes state.pending_len state.expected_len 0)),
)

-- The loop leaves what is complete.
buffer_done :
    (rest : Bytes) (u : Units) (len consumed : ℕ)
    → 0 < len
    → buffer_bytes rest (buffered u len len consumed) ≡ buffered u len len consumed
unfolding buffer_bytes
buffer_done [] u len consumed h = refl
buffer_done (c ∷ rest) u len consumed h = ground arith

abbrev one : ℕ → Units
one b = record { b0 = b; b1 = 0; b2 = 0; b3 = 0 }

abbrev two : ℕ → ℕ → Units
two b c = record { b0 = b; b1 = c; b2 = 0; b3 = 0 }

abbrev three : ℕ → ℕ → ℕ → Units
three b c d = record { b0 = b; b1 = c; b2 = d; b3 = 0 }

-- One round of the loop.
buffer_one :
    (c : ℕ) (rest : Bytes) (u : Units) (buffered_len expected_len consumed : ℕ)
    → buffered_len < 4
    → (expected_len ≡ 0) ⊎ (buffered_len < expected_len)
    → buffer_bytes (c ∷ rest) (buffered u buffered_len expected_len consumed)
      ≡ buffer_bytes rest (take_byte c u buffered_len expected_len consumed)
unfolding buffer_bytes
buffer_one c rest u buffered_len expected_len consumed h k = ground arith

-- The first byte tells the length.
lead_lem :
    (b len : ℕ)
    → expected_len_from_lead_byte b ≡ some len
    → take_byte b no_units 0 0 0 ≡ buffered (one b) 1 len 1
unfolding take_byte expected_len_from_lead_byte partial_prefix_is_valid
lead_lem b len h = ground arith

second_lem :
    (b c len : ℕ)
    → expected_len_from_lead_byte b ≡ some len
    → is_continuation_byte c ≡ true
    → ((len ≡ 2) ⊎ (len ≡ 3) ⊎ (len ≡ 4))
    → ((b == 0xE0) && ltb c 0xA0) ≡ false
    → ((b == 0xED) && ltb 0x9F c) ≡ false
    → ((b == 0xF0) && ltb c 0x90) ≡ false
    → ((b == 0xF4) && ltb 0x8F c) ≡ false
    → take_byte c (one b) 1 len 1 ≡ buffered (two b c) 2 len 2
unfolding take_byte partial_prefix_is_valid
second_lem b c len h k l o p q r = ground arith

third_lem :
    (b c d len : ℕ)
    → expected_len_from_lead_byte b ≡ some len
    → is_continuation_byte c ≡ true
    → is_continuation_byte d ≡ true
    → ((len ≡ 3) ⊎ (len ≡ 4))
    → ((b == 0xF0) && ltb c 0x90) ≡ false
    → ((b == 0xF4) && ltb 0x8F c) ≡ false
    → take_byte d (two b c) 2 len 2 ≡ buffered (three b c d) 3 len 3
unfolding take_byte partial_prefix_is_valid
third_lem b c d len h k l m q r = ground arith

fourth_lem :
    (u : Units) (e : ℕ)
    → is_continuation_byte e ≡ true
    → take_byte e u 3 4 3 ≡ buffered (record u { b3 = e }) 4 4 4
unfolding take_byte partial_prefix_is_valid
fourth_lem u e h = ground arith

finish_complete :
    (u : Units) (len c : ℕ)
    → 0 < len
    → decode_utf8_scalar u len ≡ some c
    → finish_decode (buffered u len len len) ≡ (complete c len, new)
unfolding finish_decode
finish_complete u len c h d = ground arith

start_lem :
    (s : Bytes) → decode_utf8 new s ≡ finish_decode (buffer_bytes s (buffered no_units 0 0 0))
unfolding decode_utf8 is_usable
start_lem s = refl

reads_1 :
    (c : ℕ) (u : Units) (rest : Bytes)
    → Encodes c u 1
    → decode_utf8 new (u.b0 ∷ rest) ≡ (complete c 1, new)
unfolding decode_utf8_scalar
reads_1 c u rest (_, d, e) = ground (
  arith,
  start_lem (u.b0 ∷ rest),
  buffer_one u.b0 rest no_units 0 0 0,
  lead_lem u.b0 1 e,
  buffer_done rest (one u.b0) 1 1,
  finish_complete (one u.b0) 1 c,
)

reads_2 :
    (c : ℕ) (u : Units) (rest : Bytes)
    → Encodes c u 2
    → decode_utf8 new (u.b0 ∷ u.b1 ∷ rest) ≡ (complete c 2, new)
unfolding decode_utf8_scalar
reads_2 c u rest (_, d, e) = ground (
  arith,
  start_lem (u.b0 ∷ u.b1 ∷ rest),
  buffer_one u.b0 (u.b1 ∷ rest) no_units 0 0 0,
  lead_lem u.b0 2 e,
  buffer_one u.b1 rest (one u.b0) 1 2 1,
  second_lem u.b0 u.b1 2 e,
  buffer_done rest (two u.b0 u.b1) 2 2,
  finish_complete (two u.b0 u.b1) 2 c,
)

-- The second byte of a character that decodes.
second_of_3 :
    (u : Units) (c : ℕ)
    → decode_utf8_scalar u 3 ≡ some c
    → expected_len_from_lead_byte u.b0 ≡ some 3
    → take_byte u.b1 (one u.b0) 1 3 1 ≡ buffered (two u.b0 u.b1) 2 3 2
unfolding decode_utf8_scalar
second_of_3 u c d e =
    second_lem u.b0 u.b1 3 e (ground arith) (inr (inl refl)) (ground arith) (ground arith)
      (ground arith) (ground arith)

second_of_4 :
    (u : Units) (c : ℕ)
    → decode_utf8_scalar u 4 ≡ some c
    → expected_len_from_lead_byte u.b0 ≡ some 4
    → take_byte u.b1 (one u.b0) 1 4 1 ≡ buffered (two u.b0 u.b1) 2 4 2
unfolding decode_utf8_scalar
second_of_4 u c d e =
    second_lem u.b0 u.b1 4 e (ground arith) (inr (inr refl)) (ground arith) (ground arith)
      (ground arith) (ground arith)

reads_3 :
    (c : ℕ) (u : Units) (rest : Bytes)
    → Encodes c u 3
    → decode_utf8 new (u.b0 ∷ u.b1 ∷ u.b2 ∷ rest) ≡ (complete c 3, new)
unfolding decode_utf8_scalar
reads_3 c u rest (_, d, e) = ground (
  arith,
  start_lem (u.b0 ∷ u.b1 ∷ u.b2 ∷ rest),
  buffer_one u.b0 (u.b1 ∷ u.b2 ∷ rest) no_units 0 0 0,
  lead_lem u.b0 3 e,
  buffer_one u.b1 (u.b2 ∷ rest) (one u.b0) 1 3 1,
  second_of_3 u c d e,
  buffer_one u.b2 rest (two u.b0 u.b1) 2 3 2,
  third_lem u.b0 u.b1 u.b2 3 e,
  buffer_done rest (three u.b0 u.b1 u.b2) 3 3,
  finish_complete (three u.b0 u.b1 u.b2) 3 c,
)

reads_4 :
    (c : ℕ) (u : Units) (rest : Bytes)
    → Encodes c u 4
    → decode_utf8 new (u.b0 ∷ u.b1 ∷ u.b2 ∷ u.b3 ∷ rest) ≡ (complete c 4, new)
unfolding decode_utf8_scalar
reads_4 c u rest (_, d, e) = ground (
  arith,
  start_lem (u.b0 ∷ u.b1 ∷ u.b2 ∷ u.b3 ∷ rest),
  buffer_one u.b0 (u.b1 ∷ u.b2 ∷ u.b3 ∷ rest) no_units 0 0 0,
  lead_lem u.b0 4 e,
  buffer_one u.b1 (u.b2 ∷ u.b3 ∷ rest) (one u.b0) 1 4 1,
  second_of_4 u c d e,
  buffer_one u.b2 (u.b3 ∷ rest) (two u.b0 u.b1) 2 4 2,
  third_lem u.b0 u.b1 u.b2 4 e,
  buffer_one u.b3 rest (three u.b0 u.b1 u.b2) 3 4 3,
  fourth_lem (three u.b0 u.b1 u.b2) u.b3,
  buffer_done rest u 4 4,
  finish_complete u 4 c,
)

pub len_lem :
    (c : ℕ) (u : Units) (len : ℕ) → Encodes c u len → (len ≡ 1) ⊎ (len ≡ 2) ⊎ (len ≡ 3) ⊎ (len ≡ 4)
unfolding decode_utf8_scalar
len_lem c u len (_, d, _) = ground arith

pub reads_lem :
    (c : ℕ) (u : Units) (len : ℕ) (rest : Bytes)
    → Encodes c u len
    → decode_utf8 new (encoded_bytes (u, len) ++ rest) ≡ (complete c len, new)
reads_lem c u len rest h =
    let reads = λ (k : ℕ).
      Encodes c u k → decode_utf8 new (encoded_bytes (u, k) ++ rest) ≡ (complete c k, new) in
    elim (len_lem c u len h) [
      | inl e ↦ subst reads (sym e) (reads_1 c u rest) h
      | inr (inl e) ↦ subst reads (sym e) (reads_2 c u rest) h
      | inr (inr (inl e)) ↦ subst reads (sym e) (reads_3 c u rest) h
      | inr (inr (inr e)) ↦ subst reads (sym e) (reads_4 c u rest) h
    ]
