-- ===== src/Wchar/Restartable.antt =====
-- src/wchar/mod.rs: `mbsrtowcs` and `wcsrtombs`, which leave in `*src` where they have stopped, and
-- `encode_utf8`. A pointer is the string from there on, or null.
use rlibc.Common.{
  ℕ, zero, suc, ◌+◌, ◌-◌, ◌^◌, ◌≤◌, ◌≡◌, Bool, true, not, ◌&&◌, Option, none, some, List, [], ◌∷◌,
  ◌++◌, ltb, leb, ◌==◌, if◌then◌else◌, arith,
}
use rlibc.Common.Int.{ℤ, pos}
use rlibc.Common.Bytes.{Bytes}
use rlibc.Errno.{eilseq}
use rlibc.Wchar.{Units, encode_utf8_scalar}
use rlibc.Wchar.Restart.{MbState, new}
use rlibc.Wchar.Calls.{
  mbr_err_invalid, States, resolve_state, store_state, is_initial, encoded_bytes,
}
use rlibc.Wchar.Strings.{
  size_t_max, Ending, full, at_end, failed, Reading, read_loop, stored_wides, read_wide, wide_of,
}

pub record WideRun : Type 0 where
  pub result : ℕ
  pub wides : List ℕ
  pub src : Option (Option Bytes)
  pub states : States
  pub errno : ℕ

-- Where `*src` is left, when there is a destination.
abbrev pub source_after : Reading → Option Bytes
source_after r = elim r.ending [ at_end ↦ none | _ ↦ some r.cursor ]

abbrev finish_mbsrtowcs : Bool → Bytes → States → ℕ → Reading → WideRun
finish_mbsrtowcs dst cursor st errno r =
    let src : Option (Option Bytes) = some (if dst then source_after r else some cursor) in
    elim r.ending [
      | failed ↦ record {
        result = mbr_err_invalid;
        wides = stored_wides dst r;
        src = src;
        states = store_state new st;
        errno = eilseq;
      }
      | _ ↦ record {
        result = r.count;
        wides = stored_wides dst r;
        src = src;
        states = store_state r.state st;
        errno = errno;
      }
    ]

unfoldable pub mbsrtowcs : Bool → Option (Option Bytes) → ℕ → States → ℕ → WideRun
unfolding read_loop
mbsrtowcs dst none len st errno = record {
  result = size_t_max;
  wides = [];
  src = none;
  states = st;
  errno = eilseq;
}
mbsrtowcs dst (some none) len st errno = record {
  result = 0;
  wides = [];
  src = some none;
  states = store_state new st;
  errno = errno;
}
mbsrtowcs dst (some (some cursor)) len st errno =
    if dst && (len == 0)
    then record { result = 0; wides = []; src = some (some cursor); states = st; errno = errno }
    else finish_mbsrtowcs dst cursor st errno (read_loop dst len 0 cursor 0 [] (resolve_state st))

-- The loops of `wcsrtombs`; the one with a destination is bounded.
pub record WritingRun : Type 0 where
  pub ending : Ending
  pub count : ℕ
  pub bytes : Bytes
  pub cursor : List ℤ

abbrev wrote : Ending → ℕ → Bytes → List ℤ → WritingRun
wrote ending count bytes cursor = record {
  ending = ending;
  count = count;
  bytes = bytes;
  cursor = cursor;
}

unfoldable pub write_run : Bool → ℕ → List ℤ → ℕ → Bytes → WritingRun
write_run dst capacity [] count bytes =
    if dst && not (ltb count capacity)
    then wrote full count bytes []
    else wrote at_end count bytes []
write_run dst capacity (wide ∷ cursor) count bytes = elim (encode_utf8_scalar wide) [
  | none ↦ wrote failed count bytes (wide ∷ cursor)
  | some (u, len) ↦
      let rest = write_run dst capacity cursor (count + len) (bytes ++ encoded_bytes (u, len)) in
      if dst && ltb capacity (count + len) then wrote full count bytes (wide ∷ cursor) else rest
]

pub record ByteRun : Type 0 where
  pub result : ℕ
  pub bytes : Bytes
  pub src : Option (Option (List ℤ))
  pub states : States
  pub errno : ℕ

abbrev finish_wcsrtombs : Bool → List ℤ → States → ℕ → WritingRun → ByteRun
finish_wcsrtombs dst cursor st errno w = elim w.ending [
  | failed ↦ record {
    result = mbr_err_invalid;
    bytes = if dst then w.bytes else [];
    src = some (some (if dst then w.cursor else cursor));
    states = store_state new st;
    errno = eilseq;
  }
  | at_end ↦ record {
    result = w.count;
    bytes = if dst then w.bytes ++ (0 ∷ []) else [];
    src = some (if dst then none else some cursor);
    states = store_state new st;
    errno = errno;
  }
  | full ↦ record {
    result = w.count;
    bytes = w.bytes;
    src = some (some w.cursor);
    states = st;
    errno = errno;
  }
]

unfoldable pub wcsrtombs : Bool → Option (Option (List ℤ)) → ℕ → States → ℕ → ByteRun
unfolding write_run
wcsrtombs dst none len st errno = record {
  result = size_t_max;
  bytes = [];
  src = none;
  states = st;
  errno = eilseq;
}
wcsrtombs dst (some none) len st errno = record {
  result = 0;
  bytes = [];
  src = some none;
  states = store_state new st;
  errno = errno;
}
wcsrtombs dst (some (some cursor)) len st errno =
    if dst && (len == 0)
    then record { result = 0; bytes = []; src = some (some cursor); states = st; errno = errno }
    else if not (is_initial (resolve_state st))
    then record {
      result = mbr_err_invalid;
      bytes = [];
      src = some (some cursor);
      states = store_state new st;
      errno = eilseq;
    }
    else finish_wcsrtombs dst cursor st errno (write_run dst len cursor 0 [])

-- `copy_from_slice` of the first `len` bytes.
abbrev copy_first : ℕ → Units → Units → Units
copy_first len encoded output = record {
  b0 = if ltb 0 len then encoded.b0 else output.b0;
  b1 = if ltb 1 len then encoded.b1 else output.b1;
  b2 = if ltb 2 len then encoded.b2 else output.b2;
  b3 = if ltb 3 len then encoded.b3 else output.b3;
}

-- The length, or nothing for `InvalidScalarValue`; and the output.
unfoldable pub encode_utf8 : ℕ → Units → Option ℕ × Units
encode_utf8 code_point output =
    if leb (2 ^ 31) code_point then (none, output) else elim (encode_utf8_scalar (pos code_point)) [
      | none ↦ (none, output)
      | some (encoded, len) ↦ (some len, copy_first len encoded output)
    ]

-- The loop of `mbsrtowcs` may stop when its destination is full and go on from the cursor and the
-- state where it has stopped: with room for at least as many characters it ends as if it had not
-- stopped. This holds from every state.
pub read_loop_resumes :
    (first second skip : ℕ) (cursor : Bytes) (count : ℕ) (wides : List ℕ) (state : MbState)
    → first ≤ second
    → count ≤ first
    → (read_loop true first skip cursor count wides state).ending ≡ full
    → (let r = read_loop true first skip cursor count wides state in
        read_loop true second skip cursor count wides state
        ≡ read_loop true second 0 r.cursor r.count r.wides r.state)
unfolding read_loop
read_loop_resumes first second zero [] count wides state h k e = ground arith
read_loop_resumes first second (suc skip) [] count wides state h k e = ground arith
read_loop_resumes first second (suc skip) (c ∷ cursor) count wides state h k e =
    read_loop_resumes first second skip cursor count wides state h k e
read_loop_resumes first second zero (b ∷ cursor) count wides state h k e =
    let c = read_wide (b ∷ cursor) state in
    ground (
      arith,
      read_loop_resumes first second (c.result - 1) cursor (count + 1) (wides ++ (wide_of c ∷ []))
          c.state h,
    )
