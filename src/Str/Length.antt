-- ===== src/Str/Length.antt =====
-- src/string/mod.rs: the length of a C string.
use rlibc.Common.{
  ◌⊎◌, ℕ, zero, suc, ◌+◌, ◌≤◌, ◌<◌, ◌≡◌, ◌≢◌, ◌==◌, some, arith, min, Bool-cases, inl, inr, subst,
}
use rlibc.Memory.{Memory}
use rlibc.Str.{strlen_from, strlen, strnlen_from, strnlen}

-- The C string at `s` is `k` bytes long.
abbrev pub HasLength : Memory → ℕ → ℕ → Type 0
HasLength m s k = (m (s + k) ≡ 0) × ((i : ℕ) → i < k → m (s + i) ≢ 0)

strlen_from_lem :
    (fuel : ℕ) (m : Memory) (s len k : ℕ)
    → HasLength m s k
    → len ≤ k
    → k < len + fuel
    → strlen_from fuel m s len ≡ some k
unfolding strlen_from
strlen_from_lem zero m s len k h lo hi = absurd (omega arith)
strlen_from_lem (suc fuel) m s len k h lo hi = elim (Bool-cases (len == k)) [
  | inl e ↦ ground (arith, h.0)
  | inr e ↦ ground (
    arith,
    h.1 len (ground arith),
    strlen_from_lem fuel m s (len + 1) k h (ground arith) (omega arith),
  )
]

strnlen_from_lem :
    (m : Memory) (s len rounds k : ℕ)
    → HasLength m s k
    → len ≤ k
    → strnlen_from m s len rounds ≡ min k (len + rounds)
unfolding strnlen_from
strnlen_from_lem m s len zero k h lo = omega arith
strnlen_from_lem m s len (suc rounds) k h lo = elim (Bool-cases (len == k)) [
  | inl e ↦ ground (arith, h.0)
  | inr e ↦
      ground
        (arith, h.1 len (ground arith), strnlen_from_lem m s (len + 1) rounds k h (ground arith))
]

-- On a C string of `k` bytes, `strlen` ends after `k + 1` rounds with `k`, and `strnlen` with the
-- smaller of `k` and its bound.
pub strlen-strnlen :
    (fuel : ℕ) (m : Memory) (s k n : ℕ)
    → HasLength m s k
    → k < fuel
    → (strlen fuel m s ≡ some k) × (strnlen m s n ≡ min k n)
unfolding strlen strnlen
strlen-strnlen fuel m s k n h bound = (
  strlen_from_lem fuel m s 0 k h (omega arith) (omega arith),
  ground (arith, strnlen_from_lem m s 0 n k h (omega arith)),
)

-- What `strnlen` answers on any memory.
abbrev pub IsBounded : Memory → ℕ → ℕ → ℕ → Type 0
IsBounded m s n r = (r ≤ n) × ((i : ℕ) → i < r → m (s + i) ≢ 0) × ((r ≡ n) ⊎ (m (s + r) ≡ 0))

strnlen_from-IsBounded :
    (m : Memory) (s len rounds : ℕ)
    → ((i : ℕ) → i < len → m (s + i) ≢ 0)
    → IsBounded m s (len + rounds) (strnlen_from m s len rounds)
unfolding strnlen_from
strnlen_from-IsBounded m s len zero h = (omega arith, h, inl (omega arith))
strnlen_from-IsBounded m s len (suc rounds) h = elim (Bool-cases (m (s + len) == 0)) [
  | inl e ↦ rw e (omega arith, h, inr (ground arith))
  | inr e ↦ rw e (
      subst (λ k. IsBounded m s k (strnlen_from m s (len + 1) rounds)) (omega arith)
        (strnlen_from-IsBounded m s (len + 1) rounds (λ i lt. elim (Bool-cases (i == len)) [
          | inl is ↦ ground arith
          | inr is ↦ h i (ground arith)
        ])))
]

-- On any memory, a C string or not, `strnlen` answers at most its bound, there is no NUL before
-- the place that it answers, and there is one at that place unless it is the bound.
pub strnlen-IsBounded : (m : Memory) (s n : ℕ) → IsBounded m s n (strnlen m s n)
unfolding strnlen
strnlen-IsBounded m s n = elim (Bool-cases (n == 0)) [
  | inl e ↦ rw e (omega arith, λ i lt. absurd (omega arith), inl (ground arith))
  | inr e ↦ rw e (
      subst (λ k. IsBounded m s k (strnlen_from m s 0 n)) (omega arith)
        (strnlen_from-IsBounded m s 0 n (λ i lt. absurd (omega arith))))
]
