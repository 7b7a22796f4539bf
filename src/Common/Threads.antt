-- ===== src/Common/Threads.antt =====
-- What a number of threads have in common: a function from thread numbers, changed at one thread, and
-- sums over the threads below `n`.
use rlibc.Common.{
  ℕ, zero, suc, ◌+◌, ◌≤◌, ◌<◌, ◌≡◌, refl, ◌==◌, if◌then◌else◌, arith, Bool-cases, inl, inr,
}

abbrev pub update {ℓ} : {A : Type ℓ} → (ℕ → A) → ℕ → A → ℕ → A
update f i a j = if i == j then a else f j

module _ {ℓ} {A : Type ℓ} (weight : A → ℕ) where
  pub total : ℕ → (ℕ → A) → ℕ
  total zero f = 0
  total (suc n) f = weight (f n) + total n f

  total-update_above :
      (n : ℕ) (f : ℕ → A) (i : ℕ) (a : A) → n ≤ i → total n (update f i a) ≡ total n f
  unfolding total
  total-update_above zero f i a h = refl
  total-update_above (suc n) f i a h = ground (arith, total-update_above n f i a)

  -- A change at one thread moves the sum by the difference of the weights.
  pub total-update :
      (n : ℕ) (f : ℕ → A) (i : ℕ) (a : A)
      → i < n
      → total n (update f i a) + weight (f i) ≡ total n f + weight a
  unfolding total
  total-update zero f i a h = absurd (omega arith)
  total-update (suc n) f i a h = elim (Bool-cases (i == n)) [
    | inl e ↦ ground (arith, total-update_above n f i a)
    | inr e ↦ ground (arith, total-update n f i a)
  ]

  pub le-total : (n : ℕ) (f : ℕ → A) (i : ℕ) → i < n → weight (f i) ≤ total n f
  unfolding total
  le-total zero f i h = absurd (omega arith)
  le-total (suc n) f i h = elim (Bool-cases (i == n)) [
    | inl e ↦ ground arith
    | inr e ↦ ground (arith, le-total n f i)
  ]

  -- Weights of at most 1 add up to at most the number of threads.
  pub total-le : ((a : A) → weight a ≤ 1) → (n : ℕ) (f : ℕ → A) → total n f ≤ n
  unfolding total
  total-le h zero f = omega arith
  total-le h (suc n) f = omega (arith, h (f n), total-le h n f)

  -- A positive sum has a thread with a positive weight.
  pub total_pos : (n : ℕ) (f : ℕ → A) → 0 < total n f → (i : ℕ) × (i < n) × (0 < weight (f i))
  unfolding total
  total_pos zero f h = absurd (omega arith)
  total_pos (suc n) f h =
      elim (weight (f n)) as (λ w. weight (f n) ≡ w → (i : ℕ) × (i < suc n) × (0 < weight (f i))) [
        | zero ↦ λ e. let (i, lt, p) = total_pos n f (omega arith) in (i, omega arith, p)
        | suc w ↦ λ e. (n, omega arith, omega arith)
      ]
        refl

  pub total_zero : (n : ℕ) (f : ℕ → A) → ((i : ℕ) → weight (f i) ≡ 0) → total n f ≡ 0
  unfolding total
  total_zero zero f h = refl
  total_zero (suc n) f h = omega (arith, h n, total_zero n f h)

  pub total-same :
      (n : ℕ) (f g : ℕ → A) → ((i : ℕ) → weight (f i) ≡ weight (g i)) → total n f ≡ total n g
  unfolding total
  total-same zero f g h = refl
  total-same (suc n) f g h = omega (arith, h n, total-same n f g h)

-- A sum of sums of weights.
pub total-add {ℓ} :
    {A : Type ℓ} (u v w : A → ℕ)
    → ((a : A) → u a ≡ v a + w a)
    → (n : ℕ) (f : ℕ → A) → total u n f ≡ total v n f + total w n f
unfolding total
total-add u v w h zero f = refl
total-add u v w h (suc n) f = omega (arith, h (f n), total-add u v w h n f)
