-- ===== src/Wchar/Codec.antt =====
-- src/wchar/mod.rs: encoding and decoding of one scalar value are inverse to each other.
use rlibc.Common.{
  ℕ, ◌+◌, ◌*◌, ◌/◌, ◌%◌, ◌≡◌, ◌≤◌, ◌<◌, ◌⊎◌, ◌≢◌, Option, none, some, leb, arith, refl, Bool-cases,
  inl, inr, ◌∙◌, sym, zero, suc,
}
use rlibc.Common.Int.{ℤ, pos, negsuc}
use rlibc.Wchar.{
  Units, is_continuation_byte, expected_len_from_lead_byte, decode_utf8_scalar, encode_utf8_scalar,
}

-- A Unicode scalar value.
abbrev pub IsScalar : ℕ → Type 0
IsScalar c = (c < 0xD800) ⊎ ((0xDFFF < c) × (c ≤ 0x10FFFF))

-- `u` and `len` encode `c`.
abbrev pub Encodes : ℕ → Units → ℕ → Type 0
Encodes c u len =
    (encode_utf8_scalar (pos c) ≡ some (u, len))
    × (decode_utf8_scalar u len ≡ some c)
    × (expected_len_from_lead_byte u.b0 ≡ some len)

Encodes-1 : (c : ℕ) → c ≤ 0x7F → Encodes c (record { b0 = c; b1 = 0; b2 = 0; b3 = 0 }) 1
unfolding encode_utf8_scalar decode_utf8_scalar expected_len_from_lead_byte is_continuation_byte
Encodes-1 c h = (ground arith, ground arith, ground arith)

Encodes-2 :
    (c : ℕ)
    → 0x7F < c
    → c ≤ 0x7FF
    → Encodes c (record { b0 = 0xC0 + c / 64 % 32; b1 = 0x80 + c % 64; b2 = 0; b3 = 0 }) 2
unfolding encode_utf8_scalar decode_utf8_scalar expected_len_from_lead_byte is_continuation_byte
Encodes-2 c lo hi = (ground arith, ground arith, ground arith)

Encodes-3 :
    (c : ℕ)
    → 0x7FF < c
    → c ≤ 0xFFFF
    → IsScalar c
    → Encodes c
        (record { b0 = 0xE0 + c / 4096 % 16; b1 = 0x80 + c / 64 % 64; b2 = 0x80 + c % 64; b3 = 0 })
        3
unfolding encode_utf8_scalar decode_utf8_scalar expected_len_from_lead_byte is_continuation_byte
Encodes-3 c lo hi v = (ground arith, ground arith, ground arith)

Encodes-4 :
    (c : ℕ)
    → 0xFFFF < c
    → c ≤ 0x10FFFF
    → Encodes c
        (record {
          b0 = 0xF0 + c / 262144 % 8;
          b1 = 0x80 + c / 4096 % 64;
          b2 = 0x80 + c / 64 % 64;
          b3 = 0x80 + c % 64;
        })
        4
unfolding encode_utf8_scalar decode_utf8_scalar expected_len_from_lead_byte is_continuation_byte
Encodes-4 c lo hi = (ground arith, ground arith, ground arith)

-- Every Unicode scalar value is encoded, and what encodes it decodes to it; its first byte tells
-- the length of the encoding.
pub encode-decode : (c : ℕ) → IsScalar c → (u : Units) × (len : ℕ) × Encodes c u len
encode-decode c h = elim (Bool-cases (leb c 0x7F)) [
  | inl e ↦ (_, _, Encodes-1 c (ground arith))
  | inr e ↦ elim (Bool-cases (leb c 0x7FF)) [
    | inl f ↦ (_, _, Encodes-2 c (ground arith) (ground arith))
    | inr f ↦ elim (Bool-cases (leb c 0xFFFF)) [
      | inl g ↦ (_, _, Encodes-3 c (ground arith) (ground arith) h)
      | inr g ↦ (_, _, Encodes-4 c (ground arith) (ground arith))
    ]
  ]
]

-- Nothing else is encoded: no negative number, no surrogate, nothing above 0x10FFFF.
pub encode_refuses : (c : ℤ) → encode_utf8_scalar c ≢ none → (n : ℕ) × (c ≡ pos n) × IsScalar n
unfolding encode_utf8_scalar
encode_refuses (pos n) h = (n, refl, ground arith)
encode_refuses (negsuc n) h = absurd (h refl)

abbrev pub TailZero : Units → ℕ → Type 0
TailZero u len = (len ≤ 1 → u.b1 ≡ 0) × (len ≤ 2 → u.b2 ≡ 0) × (len ≤ 3 → u.b3 ≡ 0)

-- A continuation byte.
abbrev IsTail : ℕ → Type 0
IsTail b = (128 ≤ b) × (b < 192)

opened_1 : (u : Units) (c : ℕ) → decode_utf8_scalar u 1 ≡ some c → (u.b0 ≡ c) × (c ≤ 0x7F)
unfolding decode_utf8_scalar
opened_1 u c h = (ground arith, ground arith)

opened_2 :
    (u : Units) (c : ℕ)
    → decode_utf8_scalar u 2 ≡ some c
    → (0xC2 ≤ u.b0) × (u.b0 ≤ 0xDF) × IsTail u.b1 × (c ≡ u.b0 % 32 * 64 + u.b1 % 64)
unfolding decode_utf8_scalar is_continuation_byte
opened_2 u c h = (ground arith, ground arith, (ground arith, ground arith), ground arith)

opened_3 :
    (u : Units) (c : ℕ)
    → decode_utf8_scalar u 3 ≡ some c
    → (0xE0 ≤ u.b0)
      × (u.b0 ≤ 0xEF)
      × ((0xE0 < u.b0) ⊎ (0xA0 ≤ u.b1))
      × ((u.b0 < 0xED) ⊎ ((0xED < u.b0) ⊎ (u.b1 ≤ 0x9F)))
      × IsTail u.b1
      × IsTail u.b2
      × (c ≡ u.b0 % 16 * 4096 + u.b1 % 64 * 64 + u.b2 % 64)
unfolding decode_utf8_scalar is_continuation_byte
opened_3 u c h = (
  ground arith,
  ground arith,
  ground arith,
  ground arith,
  (ground arith, ground arith),
  (ground arith, ground arith),
  ground arith,
)

opened_4 :
    (u : Units) (c : ℕ)
    → decode_utf8_scalar u 4 ≡ some c
    → (0xF0 ≤ u.b0)
      × (u.b0 ≤ 0xF4)
      × ((0xF0 < u.b0) ⊎ (0x90 ≤ u.b1))
      × (c ≤ 0x10FFFF)
      × IsTail u.b1
      × IsTail u.b2
      × IsTail u.b3
      × (c ≡ u.b0 % 8 * 262144 + u.b1 % 64 * 4096 + u.b2 % 64 * 64 + u.b3 % 64)
unfolding decode_utf8_scalar is_continuation_byte
opened_4 u c h = (
  ground arith,
  ground arith,
  ground arith,
  ground arith,
  (ground arith, ground arith),
  (ground arith, ground arith),
  (ground arith, ground arith),
  ground arith,
)

abbrev pub units : ℕ → ℕ → ℕ → ℕ → Units
units b0 b1 b2 b3 = record { b0 = b0; b1 = b1; b2 = b2; b3 = b3 }

same_units :
    (u : Units) (len a0 a1 a2 a3 : ℕ)
    → a0 ≡ u.b0
    → a1 ≡ u.b1
    → a2 ≡ u.b2
    → a3 ≡ u.b3
    → Path (Option (Units × ℕ)) (some (units a0 a1 a2 a3, len)) (some (u, len))
same_units u len a0 a1 a2 a3 e0 e1 e2 e3 = λ i. some (units (e0 i) (e1 i) (e2 i) (e3 i), len)

closed_1 :
    (u : Units) (c : ℕ)
    → TailZero u 1
    → decode_utf8_scalar u 1 ≡ some c
    → encode_utf8_scalar (pos c) ≡ some (u, 1)
closed_1 u c z h =
    let (first, small) = opened_1 u c h in
    (Encodes-1 c small).0
    ∙ same_units u 1 _ _ _ _ (omega arith) (omega arith) (omega arith) (omega arith)

closed_2 :
    (u : Units) (c : ℕ)
    → TailZero u 2
    → decode_utf8_scalar u 2 ≡ some c
    → encode_utf8_scalar (pos c) ≡ some (u, 2)
closed_2 u c z h =
    let (lo, hi, t1, is) = opened_2 u c h in
    (Encodes-2 c (omega arith) (omega arith)).0
    ∙ same_units u 2 _ _ _ _ (omega arith) (omega arith) (omega arith) (omega arith)

closed_3 :
    (u : Units) (c : ℕ)
    → TailZero u 3
    → decode_utf8_scalar u 3 ≡ some c
    → encode_utf8_scalar (pos c) ≡ some (u, 3)
closed_3 u c z h =
    let (lo, hi, low, high, t1, t2, is) = opened_3 u c h in
    (Encodes-3 c (omega arith) (omega arith) (ground arith)).0
    ∙ same_units u 3 _ _ _ _ (omega arith) (omega arith) (omega arith) (omega arith)

closed_4 :
    (u : Units) (c : ℕ) → decode_utf8_scalar u 4 ≡ some c → encode_utf8_scalar (pos c) ≡ some (u, 4)
closed_4 u c h =
    let (lo, hi, low, max, t1, t2, t3, is) = opened_4 u c h in
    (Encodes-4 c (omega arith) max).0
    ∙ same_units u 4 _ _ _ _ (omega arith) (omega arith) (omega arith) (omega arith)

no_length : (u : Units) (len : ℕ) → (len ≡ 0) ⊎ (4 < len) → decode_utf8_scalar u len ≡ none
unfolding decode_utf8_scalar
no_length u len h = ground arith

none-some : {c : ℕ} → Path (Option ℕ) none (some c) → ⊥
none-some h = ground arith

-- What decodes, when the bytes behind the length are 0, is the encoding of the number that it
-- decodes to: no value has two encodings.
pub decode-encode :
    (u : Units) (len c : ℕ)
    → TailZero u len
    → decode_utf8_scalar u len ≡ some c
    → encode_utf8_scalar (pos c) ≡ some (u, len)
decode-encode u zero c z h = absurd (none-some (sym (no_length u 0 (inl refl)) ∙ h))
decode-encode u (suc zero) c z h = closed_1 u c z h
decode-encode u (suc (suc zero)) c z h = closed_2 u c z h
decode-encode u (suc (suc (suc zero))) c z h = closed_3 u c z h
decode-encode u (suc (suc (suc (suc zero)))) c z h = closed_4 u c h
decode-encode u (suc (suc (suc (suc (suc len))))) c z h =
    absurd (none-some (sym (no_length u _ (inr (omega arith))) ∙ h))
