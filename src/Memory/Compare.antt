-- ===== src/Memory/Compare.antt =====
-- src/memory/mod.rs: the order of `memcmp`, and what it says after a copy.
use rlibc.Common.{
  ℕ, zero, suc, ◌+◌, ◌≡◌, ◌≢◌, ◌≤◌, ◌<◌, ◌⊎◌, inl, inr, ◌==◌, arith, refl, sym, ◌∙◌, Bool-cases,
  subst, ◌↔◌,
}
use rlibc.Common.Int.{ℤ, pos, ◌-ℤ◌}
use rlibc.Memory.{Memory, compare_bytes, memcmp, memmove}
use rlibc.Memory.Copy.{copied, memmove_copies}

-- The first `n` bytes are the same.
abbrev pub Same : Memory → ℕ → ℕ → ℕ → Type 0
Same m l r n = (i : ℕ) → i < n → m (l + i) ≡ m (r + i)

-- Byte `i` is the first at which the two ranges differ, and `x` is the difference there.
pub record Differs (m : Memory) (l r n : ℕ) (x : ℤ) : Type 0 where
  pub place : ℕ
  pub place-lt : place < n
  pub before : Same m l r place
  pub differ : m (l + place) ≢ m (r + place)
  pub answer : x ≡ pos (m (l + place)) -ℤ pos (m (r + place))

-- What `memcmp` answers for `n` bytes.
abbrev pub Compared : Memory → ℕ → ℕ → ℕ → ℤ → Type 0
Compared m l r n x = ((x ≡ pos 0) × Same m l r n) ⊎ Differs m l r n x

Same-suc : (m : Memory) (l r n : ℕ) → Same m l r n → m (l + n) ≡ m (r + n) → Same m l r (n + 1)
Same-suc m l r n h e i lt = elim (Bool-cases (i == n)) [
  | inl is ↦ ground arith
  | inr is ↦ h i (ground arith)
]

compare_bytes_lem :
    (m : Memory) (l r idx n : ℕ)
    → Same m l r idx
    → Compared m l r (idx + n) (compare_bytes m l r idx n)
unfolding compare_bytes
compare_bytes_lem m l r idx zero h = inl (refl, λ i lt. h i (omega arith))
compare_bytes_lem m l r idx (suc n) h = elim (Bool-cases (m (l + idx) == m (r + idx))) [
  | inl e ↦ rw e (
      subst (λ k. Compared m l r k (compare_bytes m l r (idx + 1) n)) (omega arith)
        (compare_bytes_lem m l r (idx + 1) n (Same-suc m l r idx h (ground arith))))
  | inr e ↦ rw e (
      inr (record {
        place = idx;
        place-lt = omega arith;
        before = h;
        differ = ground arith;
        answer = refl;
      }))
]

-- `memcmp` answers 0 when the `n` bytes are the same; otherwise it answers the difference of the
-- two bytes, read as numbers from 0 to 255, at the first place where the ranges differ.
pub memcmp_compares : (m : Memory) (l r n : ℕ) → Compared m l r n (memcmp m l r n)
unfolding memcmp
memcmp_compares m l r n = elim (Bool-cases (n == 0)) [
  | inl e ↦ rw e (inl (refl, λ i lt. absurd (ground arith)))
  | inr e ↦ rw e (
      subst (λ k. Compared m l r k (compare_bytes m l r 0 n)) (omega arith)
        (compare_bytes_lem m l r 0 n (λ i lt. absurd (omega arith))))
]

differs-not_zero : (a b : ℕ) → a ≢ b → pos a -ℤ pos b ≢ pos 0
unfolding ◌-ℤ◌
differs-not_zero a b h e = h (ground arith)

-- `memcmp` answers 0 exactly when the `n` bytes are the same.
pub memcmp_zero : (m : Memory) (l r n : ℕ) → (memcmp m l r n ≡ pos 0) ↔ Same m l r n
memcmp_zero m l r n = elim (memcmp_compares m l r n) [
  | inl (is, s) ↦ (λ e. s, λ t. is)
  | inr w ↦ (
    λ e. absurd (differs-not_zero _ _ w.differ (sym w.answer ∙ e)),
    λ t. absurd (w.differ (t w.place w.place-lt)),
  )
]

-- After `memmove` between ranges of `n` bytes that do not overlap, `memcmp` of the two answers 0.
pub memcmp-memmove :
    (m : Memory) (d s n : ℕ)
    → (d + n ≤ s) ⊎ (s + n ≤ d)
    → memcmp (memmove m d s n).memory d s n ≡ pos 0
memcmp-memmove m d s n h = (memcmp_zero (memmove m d s n).memory d s n).1 (λ i lt.
    (memmove_copies m d s n (d + i)).1 ∙ untouched i lt ∙ sym (memmove_copies m d s n (s + i)).1)
  where
    untouched : (i : ℕ) → i < n → copied m d s n (d + i) ≡ copied m d s n (s + i)
    untouched i lt = ground arith
