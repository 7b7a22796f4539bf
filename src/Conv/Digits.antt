-- ===== src/Conv/Digits.antt =====
-- The digit loop of `parse_unsigned_magnitude` (src/stdlib/conv.rs): it computes the exact number
-- that the digits denote, cut off at the limit.
use rlibc.Common.{
  ℕ, suc, ◌+◌, ◌-◌, ◌*◌, ◌/◌, ◌≤◌, ◌<◌, ◌≡◌, refl, Bool, true, some, List, [], ◌∷◌, ◌++◌, ltb,
  arith, length, min, Option-cases, ap, ap₂, ◌∙◌, ◌≡⟨◌⟩◌, ◌∎, inl, inr,
}
use rlibc.Common.Bytes.{Bytes}
use rlibc.Conv.{digit_value, Scan, take_digit, scan_digits}

-- The bytes that are digits of the base, with their values.
pub data Digits (radix : ℕ) : Bytes → List ℕ → Type 0 where
  none_left : Digits radix [] []
  digit :
      {c d : ℕ} {s : Bytes} {ds : List ℕ}
      → digit_value c ≡ some d
      → d < radix
      → Digits radix s ds
      → Digits radix (c ∷ s) (d ∷ ds)

-- The text goes on with no digit of the base.
abbrev pub EndsDigits : ℕ → Bytes → Type 0
EndsDigits radix [] = Unit
EndsDigits radix (c ∷ s) = (d : ℕ) → digit_value c ≡ some d → radix ≤ d

-- The number that digits denote, most significant first, after those that make up `n`.
abbrev pub denotes : ℕ → ℕ → List ℕ → ℕ
denotes radix n [] = n
denotes radix n (d ∷ ds) = denotes radix (n * radix + d) ds

pub le-denotes : (radix n : ℕ) (ds : List ℕ) → 0 < radix → n ≤ denotes radix n ds
le-denotes radix n [] h = omega arith
le-denotes radix n (d ∷ ds) h = grind (arith, le-denotes radix (n * radix + d) ds h)

-- The state of the loop when the digits so far denote `n`.
abbrev pub scanned : ℕ → ℕ → Bool → Scan
scanned limit n any = record { value = min n limit; overflow = ltb limit n; converted = any }

-- The test by division decides whether one more digit exceeds the limit.
cutoff_lem :
    (limit radix d v : ℕ)
    → d < radix
    → radix ≤ limit
    → ltb ((limit - d) / radix) v ≡ ltb limit (v * radix + d)
cutoff_lem limit radix d v h r = grind arith

-- Once past the limit, a number stays past it.
stays_past : (limit radix d n : ℕ) → 0 < radix → limit < n → limit < n * radix + d
stays_past limit radix d n r h = grind arith

take_digit_lem :
    (limit radix d n : ℕ) (any : Bool)
    → d < radix
    → radix ≤ limit
    → take_digit limit radix d (scanned limit n any) ≡ scanned limit (n * radix + d) true
unfolding take_digit
take_digit_lem limit radix d n any h r =
    ground (arith, cutoff_lem limit radix d n h r, stays_past limit radix d n)

scan_end :
    (limit radix k : ℕ) (rest : Bytes) (st : Scan)
    → EndsDigits radix rest
    → scan_digits limit radix k rest st ≡ (st, k)
unfolding scan_digits
scan_end limit radix k [] st e = refl
scan_end limit radix k (c ∷ s) st e = elim (Option-cases (digit_value c)) [
  | inl q ↦ rw (q, scan_digits)
  | inr (d, q) ↦ rw (q, scan_digits) (ground (arith, e d q))
]

scan_step :
    (limit radix k c d : ℕ) (s : Bytes) (st : Scan)
    → digit_value c ≡ some d
    → d < radix
    → scan_digits limit radix k (c ∷ s) st
      ≡ scan_digits limit radix (k + 1) s (take_digit limit radix d st)
unfolding scan_digits
scan_step limit radix k c d s st q h = rw (q, scan_digits) (ground arith)

abbrev pub any_digit : List ℕ → Bool → Bool
any_digit [] any = any
any_digit (_ ∷ _) any = true

any_digit-true : (ds : List ℕ) → any_digit ds true ≡ true
any_digit-true [] = refl
any_digit-true (_ ∷ _) = refl

-- With any state of the loop that stands for `n`, the loop stops after the digits, with the number
-- that they denote cut off at the limit, and the overflow flag tells whether it was cut.
pub scan_digits_lem :
    (limit radix k n : ℕ) (any : Bool) {s : Bytes} {ds : List ℕ} (rest : Bytes)
    → radix ≤ limit
    → Digits radix s ds
    → EndsDigits radix rest
    → scan_digits limit radix k (s ++ rest) (scanned limit n any)
      ≡ (scanned limit (denotes radix n ds) (any_digit ds any), k + length s)
scan_digits_lem limit radix k n any rest r none_left e =
    scan_end limit radix k rest _ e ∙ ap (λ j. (scanned limit n any, j)) (omega arith)
scan_digits_lem limit radix k n any rest r (digit {c} {d} {s} {ds} q h t) e =
    scan_digits limit radix k (c ∷ (s ++ rest)) (scanned limit n any)
    ≡⟨ scan_step limit radix k c d (s ++ rest) _ q h ⟩
      scan_digits limit radix (k + 1) (s ++ rest) (take_digit limit radix d (scanned limit n any))
    ≡⟨ ap (scan_digits limit radix (k + 1) (s ++ rest)) (take_digit_lem limit radix d n any h r) ⟩
      scan_digits limit radix (k + 1) (s ++ rest) (scanned limit (n * radix + d) true)
    ≡⟨ scan_digits_lem limit radix (k + 1) (n * radix + d) true rest r t e ⟩
      (scanned limit (denotes radix (n * radix + d) ds) (any_digit ds true), k + 1 + length s)
    ≡⟨ ap₂ (λ a j. (scanned limit (denotes radix (n * radix + d) ds) a, j)) (any_digit-true ds)
        (omega arith) ⟩
      (scanned limit (denotes radix (n * radix + d) ds) true, k + suc (length s)) ∎
