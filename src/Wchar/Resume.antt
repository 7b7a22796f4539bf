-- ===== src/Wchar/Resume.antt =====
-- src/wchar/mod.rs: `decode_utf8` on an input that comes in pieces.
use rlibc.Common.{
  ℕ, ◌+◌, ◌≡◌, inl, inr, ◌≢◌, true, false, ◌||◌, Option, none, some, [], ◌∷◌, ◌++◌, ltb, ◌==◌,
  arith, refl, sym, ap, ◌∙◌, Bool-cases, subst,
}
use rlibc.Common.Bytes.{Bytes}
use rlibc.Wchar.{Units, decode_utf8_scalar}
use rlibc.Wchar.Restart.{
  MbState, new, Utf8DecodeResult, complete, incomplete, invalid, Buffered, rejected, buffered,
  take_byte, buffer_bytes, stops, finish_decode, finish_scalar, is_usable, decode_utf8,
}
use rlibc.Wchar.Sound.{Sound, buffer_bytes-Sound, kept, kept-is_usable, is_usable-Sound}

stopped :
    (t : Bytes) (u : Units) (n e c : ℕ)
    → stops n e ≡ true
    → buffer_bytes t (buffered u n e c) ≡ buffered u n e c
unfolding buffer_bytes
stopped [] u n e c h = refl
stopped (x ∷ t) u n e c h = rw h refl

-- The loop on an input in two pieces is the loop on the first and then, where that stopped for want of
-- input, on the second.
buffer_bytes-append :
    (s t : Bytes) (b : Buffered) → buffer_bytes (s ++ t) b ≡ buffer_bytes t (buffer_bytes s b)
unfolding buffer_bytes
buffer_bytes-append [] t (rejected c) = refl
buffer_bytes-append (x ∷ s) t (rejected c) = refl
buffer_bytes-append [] t (buffered u n e c) = refl
buffer_bytes-append (x ∷ s) t (buffered u n e c) = elim (Bool-cases (stops n e)) [
  | inl h ↦ rw h (sym (stopped t u n e c h))
  | inr h ↦ rw h (buffer_bytes-append s t (take_byte x u n e c))
]

-- Bytes that an earlier call has consumed count once more.
abbrev shift : ℕ → Buffered → Buffered
shift k (rejected c) = rejected (c + k)
shift k (buffered u n e c) = buffered u n e (c + k)

abbrev pub shift_result : ℕ → Utf8DecodeResult → Utf8DecodeResult
shift_result k (complete v c) = complete v (c + k)
shift_result k (incomplete c) = incomplete (c + k)
shift_result k (invalid c) = invalid (c + k)

take_byte-shift :
    (k x : ℕ) (u : Units) (n e c : ℕ) → take_byte x u n e (c + k) ≡ shift k (take_byte x u n e c)
unfolding take_byte
take_byte-shift k x u n e c = ground arith

buffer_bytes-shift :
    (k : ℕ) (s : Bytes) (b : Buffered) → buffer_bytes s (shift k b) ≡ shift k (buffer_bytes s b)
unfolding buffer_bytes
buffer_bytes-shift k [] (rejected c) = refl
buffer_bytes-shift k (x ∷ s) (rejected c) = refl
buffer_bytes-shift k [] (buffered u n e c) = refl
buffer_bytes-shift k (x ∷ s) (buffered u n e c) = elim (Bool-cases (stops n e)) [
  | inl h ↦ rw h refl
  | inr h ↦ rw (h, take_byte-shift k x u n e c) (buffer_bytes-shift k s (take_byte x u n e c))
]

finish_decode-shift :
    (k : ℕ) (b : Buffered)
    → finish_decode (shift k b) ≡ (shift_result k (finish_decode b).0, (finish_decode b).1)
unfolding finish_decode
finish_decode-shift k (rejected c) = refl
finish_decode-shift k (buffered u n e c) = ground arith

-- The bytes that an incomplete result counts.
abbrev consumed_by : Utf8DecodeResult → ℕ
consumed_by (complete v c) = c
consumed_by (incomplete c) = c
consumed_by (invalid c) = c

abbrev Resumes : Bytes → Buffered → Utf8DecodeResult × MbState → Type 0
Resumes t b r =
    finish_decode (buffer_bytes t b)
    ≡ (shift_result (consumed_by r.0) (decode_utf8 r.1 t).0, (decode_utf8 r.1 t).1)

Resumes-kept :
    (t : Bytes) (u : Units) (n e c : ℕ)
    → Sound (buffered u n e c)
    → ((e == 0) || ltb n e) ≡ true
    → Resumes t (buffered u n e c) (incomplete c, kept u n e)
unfolding decode_utf8
Resumes-kept t u n e c sound more = rw (kept-is_usable u n e c sound more) (
    ap (λ j. finish_decode (buffer_bytes t (buffered u n e j))) (omega arith)
    ∙ ap finish_decode (buffer_bytes-shift c t (buffered u n e 0))
    ∙ finish_decode-shift c (buffer_bytes t (buffered u n e 0)))

finish_more :
    (u : Units) (n e c : ℕ)
    → ((e == 0) || ltb n e) ≡ true
    → finish_decode (buffered u n e c) ≡ (incomplete c, kept u n e)
unfolding finish_decode
finish_more u n e c q = rw q refl

never_incomplete :
    (o : Option ℕ) (c k : ℕ) (st : MbState)
    → ◌≢◌ {A = Utf8DecodeResult × MbState} (finish_scalar o c) (incomplete k, st)
never_incomplete none c k st h = ground arith
never_incomplete (some v) c k st h = ground arith

finish_done :
    (u : Units) (n e c k : ℕ) (st : MbState)
    → ((e == 0) || ltb n e) ≡ false
    → finish_decode (buffered u n e c) ≢ (incomplete k, st)
unfolding finish_decode
finish_done u n e c k st q = rw q (never_incomplete (decode_utf8_scalar u e) c k st)

resumes :
    (t : Bytes) (b : Buffered) (k : ℕ) (st : MbState)
    → Sound b
    → finish_decode b ≡ (incomplete k, st)
    → Resumes t b (incomplete k, st)
unfolding finish_decode
resumes t (rejected c) k st sound h = absurd (never_incomplete none c k st h)
resumes t (buffered u n e c) k st sound h = elim (Bool-cases ((e == 0) || ltb n e)) [
  | inl q ↦
      subst (Resumes t (buffered u n e c)) (sym (finish_more u n e c q) ∙ h)
        (Resumes-kept t u n e c sound q)
  | inr q ↦ absurd (finish_done u n e c k st q h)
]

decode_usable :
    (st : MbState) (s : Bytes)
    → is_usable st ≡ true
    → decode_utf8 st s
      ≡ finish_decode (buffer_bytes s (buffered st.bytes st.pending_len st.expected_len 0))
unfolding decode_utf8
decode_usable st s q = rw q refl

decode_unusable :
    (st : MbState) (s : Bytes) → is_usable st ≡ false → decode_utf8 st s ≡ (invalid 0, new)
unfolding decode_utf8
decode_unusable st s q = rw q refl

-- An input may come in pieces: when `decode_utf8` has answered that the bytes `s` are incomplete,
-- `k` of them consumed, its answer to the bytes `t` from the state that it left, with `k` more
-- bytes consumed, is its answer to `s` and `t` at once from the state before; and it leaves the
-- same state. This holds from every state, a corrupted one included.
pub decode_utf8_resumes :
    (before after : MbState) (s t : Bytes) (k : ℕ)
    → decode_utf8 before s ≡ (incomplete k, after)
    → decode_utf8 before (s ++ t)
      ≡ (shift_result k (decode_utf8 after t).0, (decode_utf8 after t).1)
decode_utf8_resumes before after s t k h = elim (Bool-cases (is_usable before)) [
  | inl q ↦
      rw
        (
          decode_usable before (s ++ t) q,
          buffer_bytes-append s t (buffered before.bytes before.pending_len before.expected_len 0),
        )
        (resumes t (buffer_bytes s (buffered before.bytes before.pending_len before.expected_len 0))
          k after (buffer_bytes-Sound s _ (is_usable-Sound before q))
          (sym (decode_usable before s q) ∙ h))
  | inr q ↦ absurd (never_incomplete none 0 k after (sym (decode_unusable before s q) ∙ h))
]
