-- ===== src/Wchar/Sound.antt =====
-- src/wchar/mod.rs: `decode_utf8` keeps only prefixes that it accepts itself.
use rlibc.Common.{
  ℕ, ◌+◌, ◌≡◌, ◌<◌, ◌⊎◌, inl, inr, Bool, true, false, not, ◌&&◌, ◌||◌, some, [], ◌∷◌, ltb, ◌==◌,
  if◌then◌else◌, arith, refl, Bool-cases, Option-cases,
}
use rlibc.Common.Bytes.{Bytes}
use rlibc.Wchar.{Units, between, is_continuation_byte, expected_len_from_lead_byte}
use rlibc.Wchar.Restart.{
  MbState, partial_prefix_is_valid, set_unit, Buffered, rejected, buffered, take_byte, buffer_bytes,
  stops, push_byte, push_lead, is_usable, no_units,
}

-- What the loop keeps: nothing is buffered, or a prefix that some character has.
abbrev pub Sound : Buffered → Type 0
Sound (rejected c) = Unit
Sound (buffered u n e c) =
    ((n ≡ 0) × (e ≡ 0) × (u ≡ no_units))
    ⊎ ((0 < n) × (0 < e) × (n < e → partial_prefix_is_valid u n e ≡ true))

pending_pos : (u : Units) (n e c : ℕ) → Sound (buffered u n e c) → 0 < n → 0 < e
pending_pos u n e c (inl (n0, e0, u0)) lt = absurd (omega arith)
pending_pos u n e c (inr (n1, e1, v)) lt = e1

push_byte-Sound : (x : ℕ) (u : Units) (n e c : ℕ) → 0 < e → Sound (push_byte x u n e c)
push_byte-Sound x u n e c h =
    elim (Bool-cases (ltb (n + 1) e && not (partial_prefix_is_valid (set_unit u n x) (n + 1) e))) [
      | inl q ↦ rw q tt
      | inr q ↦ rw q (inr (omega arith, h, λ lt. ground arith))
    ]

lead_pos : (x e : ℕ) → expected_len_from_lead_byte x ≡ some e → 0 < e
unfolding expected_len_from_lead_byte
lead_pos x e h = ground arith

push_lead-Sound :
    (x : ℕ) (u : Units) (c : ℕ) → Sound (push_lead (expected_len_from_lead_byte x) x u c)
push_lead-Sound x u c = elim (Option-cases (expected_len_from_lead_byte x)) [
  | inl q ↦ rw q tt
  | inr (e, q) ↦ rw q (push_byte-Sound x u 0 e c (lead_pos x e q))
]

take_byte-Sound :
    (x : ℕ) (u : Units) (n e c : ℕ) → Sound (buffered u n e c) → Sound (take_byte x u n e c)
unfolding take_byte
take_byte-Sound x u n e c h =
    choose (n == 0) (is_continuation_byte x) _ _ _ (push_lead-Sound x u c) tt
      (λ z. push_byte-Sound x u n e c (pending_pos u n e c h (ground arith)))
  where
    choose :
        (b d : Bool) (p q r : Buffered)
        → Sound p
        → Sound q
        → (b ≡ false → Sound r)
        → Sound (if b then p else if not d then q else r)
    choose true d p q r hp hq hr = hp
    choose false true p q r hp hq hr = hr refl
    choose false false p q r hp hq hr = hq

pub buffer_bytes-Sound : (s : Bytes) (b : Buffered) → Sound b → Sound (buffer_bytes s b)
unfolding buffer_bytes
buffer_bytes-Sound [] (rejected c) h = tt
buffer_bytes-Sound (x ∷ s) (rejected c) h = tt
buffer_bytes-Sound [] (buffered u n e c) h = h
buffer_bytes-Sound (x ∷ s) (buffered u n e c) h = elim (Bool-cases (stops n e)) [
  | inl q ↦ rw q h
  | inr q ↦ rw q (buffer_bytes-Sound s (take_byte x u n e c) (take_byte-Sound x u n e c h))
]

abbrev pub kept : Units → ℕ → ℕ → MbState
kept u n e = record { bytes = u; pending_len = n; expected_len = e; reserved = (0, 0) }

prefix_lengths :
    (u : Units) (n e : ℕ) → partial_prefix_is_valid u n e ≡ true → (between 2 4 e ≡ true) × (n < e)
unfolding partial_prefix_is_valid
prefix_lengths u n e h = ground arith

pub kept-is_usable :
    (u : Units) (n e c : ℕ)
    → Sound (buffered u n e c)
    → ((e == 0) || ltb n e) ≡ true
    → is_usable (kept u n e) ≡ true
unfolding is_usable
kept-is_usable u n e c (inl (n0, e0, u0)) h = rw (n0, e0, u0) refl
kept-is_usable u n e c (inr (n1, e1, v)) h =
    let valid = v (ground arith) in ground (arith, prefix_lengths u n e valid)

pub is_usable-Sound :
    (st : MbState)
    → is_usable st ≡ true
    → Sound (buffered st.bytes st.pending_len st.expected_len 0)
unfolding is_usable
is_usable-Sound st h = elim (Bool-cases (st.pending_len == 0)) [
  | inl z ↦ inl (ground arith, ground arith, ground arith)
  | inr z ↦ inr (ground arith, ground arith, λ lt. ground arith)
]
