-- ===== src/Common/Int.antt =====
-- Signed integers over the native numbers, under the library's names. Sums, products and orders go
-- through the two parts of an integer, which are numbers that `omega` reads.
use rlibc.Common.{
  ℕ, zero, suc, ◌+◌, ◌-◌, ◌*◌, ◌/◌, ◌%◌, ◌≤◌, ◌<◌, ◌≡◌, refl, Bool, arith, ltb, leb, ◌==◌, ◌&&◌,
  if◌then◌else◌,
}

-- `negsuc n` is -(n + 1).
pub data ℤ : Type 0 where
  pos : ℕ → ℤ
  negsuc : ℕ → ℤ

abbrev pub pos_part : ℤ → ℕ
pos_part (pos n) = n
pos_part (negsuc n) = 0

abbrev pub neg_part : ℤ → ℕ
neg_part (pos n) = 0
neg_part (negsuc n) = suc n

-- a - b, as an integer.
abbrev pub sub_ℕ : ℕ → ℕ → ℤ
sub_ℕ a b = if leb b a then pos (a - b) else negsuc (b - a - 1)

infixl 65 ◌+ℤ◌ ◌-ℤ◌
infix 50 ◌≤ℤ◌
unfoldable pub ◌+ℤ◌ : ℤ → ℤ → ℤ
a +ℤ b = sub_ℕ (pos_part a + pos_part b) (neg_part a + neg_part b)

unfoldable pub ◌-ℤ◌ : ℤ → ℤ → ℤ
a -ℤ b = sub_ℕ (pos_part a + neg_part b) (neg_part a + pos_part b)

-- The negation of a number, as an integer.
abbrev pub minus : ℕ → ℤ
minus zero = pos 0
minus (suc n) = negsuc n

abbrev pub ◌≤ℤ◌ : ℤ → ℤ → Type 0
a ≤ℤ b = pos_part a + neg_part b ≤ pos_part b + neg_part a

abbrev pub ltb_ℤ : ℤ → ℤ → Bool
ltb_ℤ a b = ltb (pos_part a + neg_part b) (pos_part b + neg_part a)

abbrev pub leb_ℤ : ℤ → ℤ → Bool
leb_ℤ a b = leb (pos_part a + neg_part b) (pos_part b + neg_part a)

abbrev pub eqb_ℤ : ℤ → ℤ → Bool
eqb_ℤ a b = (pos_part a + neg_part b) == (pos_part b + neg_part a)

-- Rust's `(lo..=hi).contains(&x)`.
abbrev pub within_ℤ : ℤ → ℤ → ℤ → Bool
within_ℤ lo hi x = leb_ℤ lo x && leb_ℤ x hi

-- `a * k` for a constant `k`.
unfoldable pub scale : ℤ → ℕ → ℤ
scale a k = sub_ℕ (pos_part a * k) (neg_part a * k)

-- `/` and `%` round towards zero; the divisor is a positive constant.
unfoldable pub tdiv : ℤ → ℕ → ℤ
tdiv (pos n) m = pos (n / m)
tdiv (negsuc n) m = minus (suc n / m)

unfoldable pub trem : ℤ → ℕ → ℤ
trem (pos n) m = pos (n % m)
trem (negsuc n) m = minus (suc n % m)

unfoldable pub div_euclid : ℤ → ℕ → ℤ
div_euclid (pos n) m = pos (n / m)
div_euclid (negsuc n) m = negsuc (n / m)

-- The remainder is never negative.
unfoldable pub rem_euclid : ℤ → ℕ → ℕ
rem_euclid (pos n) m = n % m
rem_euclid (negsuc n) m = m - 1 - n % m

pub +ℤ_parts :
    (a b : ℤ)
    → pos_part (a +ℤ b) + neg_part a + neg_part b ≡ neg_part (a +ℤ b) + pos_part a + pos_part b
unfolding ◌+ℤ◌
+ℤ_parts a b = ground arith

pub -ℤ_parts :
    (a b : ℤ)
    → pos_part (a -ℤ b) + neg_part a + pos_part b ≡ neg_part (a -ℤ b) + pos_part a + neg_part b
unfolding ◌-ℤ◌
-ℤ_parts a b = ground arith

pub eq_of_parts : (a b : ℤ) → pos_part a + neg_part b ≡ pos_part b + neg_part a → a ≡ b
eq_of_parts a b h = ground arith

pub ruleset int_laws = (arith, +ℤ_parts, -ℤ_parts, eq_of_parts)

-- Quotient and remainder by a day make up the dividend.
pub div_rem_day : (a : ℤ) → scale (div_euclid a 86400) 86400 +ℤ pos (rem_euclid a 86400) ≡ a
unfolding scale div_euclid rem_euclid ◌+ℤ◌
div_rem_day (pos n) = ground arith
div_rem_day (negsuc n) = ground arith

pub rem_day-lt : (a : ℤ) → rem_euclid a 86400 < 86400
unfolding rem_euclid
rem_day-lt (pos n) = omega arith
rem_day-lt (negsuc n) = omega arith
