-- ===== src/Memory/Copy.antt =====
-- src/memory/mod.rs: what `memmove`, `memcpy` and `memset` leave in memory.
use rlibc.Common.{
  ℕ, zero, suc, ◌+◌, ◌-◌, ◌≡◌, ◌≤◌, Bool, true, ltb, leb, ◌==◌, ◌&&◌, ◌||◌, if◌then◌else◌, arith,
  refl, ◌⊎◌, inl, inr, Bool-cases,
}
use rlibc.Common.Int.{ℤ, rem_euclid}
use rlibc.Common.Threads.{update}
use rlibc.Memory.{
  Memory, fill_bytes, copy_bytes_forward, copy_bytes_backward, memmove, memcpy, memset,
}

-- Whether `a` is one of the `n` addresses from `p` on.
abbrev pub within : ℕ → ℕ → ℕ → Bool
within p n a = leb p a && ltb a (p + n)

fill_bytes_lem :
    (m : Memory) (p b idx n a : ℕ)
    → fill_bytes m p b idx n a ≡ (if within (p + idx) n a then b else m a)
unfolding fill_bytes
fill_bytes_lem m p b idx zero a = ground arith
fill_bytes_lem m p b idx (suc n) a =
    ground (arith, fill_bytes_lem (update m (p + idx) b) p b (idx + 1) n a)

-- Forwards, no byte is written before it is read.
copy_bytes_forward_lem :
    (m : Memory) (d s idx n a : ℕ)
    → (s + n ≤ d) ⊎ (d ≤ s)
    → copy_bytes_forward m d s idx n a
      ≡ (if within (d + idx) n a then m (s + idx + (a - (d + idx))) else m a)
unfolding copy_bytes_forward
copy_bytes_forward_lem m d s idx zero a h = ground arith
copy_bytes_forward_lem m d s idx (suc n) a h = ground (
  arith,
  copy_bytes_forward_lem (update m (d + idx) (m (s + idx))) d s (idx + 1) n a
      elim h [ inl x ↦ inl (omega arith) | inr x ↦ inr x ],
)

-- Backwards, neither.
copy_bytes_backward_lem :
    (m : Memory) (d s n a : ℕ)
    → s ≤ d
    → copy_bytes_backward m d s n a ≡ (if within d n a then m (s + (a - d)) else m a)
unfolding copy_bytes_backward
copy_bytes_backward_lem m d s zero a h = ground arith
copy_bytes_backward_lem m d s (suc n) a h =
    ground (arith, copy_bytes_backward_lem (update m (d + n) (m (s + n))) d s n a h)

-- The memory in which the `n` bytes from `d` on are those that the `n` bytes from `s` on were, all of
-- them read before any is written, and nothing else has changed.
abbrev pub copied : Memory → ℕ → ℕ → ℕ → Memory
copied m d s n a = if within d n a then m (s + (a - d)) else m a

by_direction :
    (m : Memory) (d s n a : ℕ)
    → (if leb d s || leb n (d - s)
          then copy_bytes_forward m d s 0 n
          else copy_bytes_backward m d s n)
        a
      ≡ copied m d s n a
by_direction m d s n a = elim (Bool-cases (leb d s || leb n (d - s))) [
  | inl h ↦ rw h (ground (arith, copy_bytes_forward_lem m d s 0 n a (no_clash h)))
  | inr h ↦ rw h (copy_bytes_backward_lem m d s n a (ground arith))
]
  where
    no_clash : (leb d s || leb n (d - s)) ≡ true → (s + n ≤ d) ⊎ (d ≤ s)
    no_clash h = ground arith

moved : (m : Memory) (d s n a : ℕ) → (memmove m d s n).memory a ≡ copied m d s n a
unfolding memmove
moved m d s n a = elim (Bool-cases ((n == 0) || (d == s))) [
  | inl h ↦ rw h (ground arith)
  | inr h ↦ rw h (by_direction m d s n a)
]

-- Wherever the two ranges lie, overlapping or not, `memmove` and `memcpy` return `dst`, and every
-- byte of memory is afterwards as if the source had been read whole before the destination was
-- written.
pub memmove_copies :
    (m : Memory) (d s n a : ℕ)
    → ((memmove m d s n).pointer ≡ d)
      × ((memmove m d s n).memory a ≡ copied m d s n a)
      × ((memcpy m d s n).pointer ≡ d)
      × ((memcpy m d s n).memory a ≡ copied m d s n a)
unfolding memmove memcpy
memmove_copies m d s n a = (refl, moved m d s n a, refl, moved m d s n a)

-- `memset` returns `s`; afterwards the `n` bytes from `s` on are `c` modulo 256, also for a
-- negative `c`, and every other byte is as before.
pub memset_fills :
    (m : Memory) (s : ℕ) (c : ℤ) (n a : ℕ)
    → ((memset m s c n).pointer ≡ s)
      × ((memset m s c n).memory a ≡ (if within s n a then rem_euclid c 256 else m a))
unfolding memset
memset_fills m s c n a = (refl, ground (arith, fill_bytes_lem m s (rem_euclid c 256) 0 n a))
