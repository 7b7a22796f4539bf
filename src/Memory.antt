-- ===== src/Memory.antt =====
-- src/memory/mod.rs: `memmove`, `memcpy`, `memset` and `memcmp` on raw memory. Memory is a function
-- from addresses to bytes; the callers' pointers are valid, so that no address wraps around. A loop
-- over `idx` runs by recursion on the number of its rounds left.
pub mod Copy
pub mod Compare
use rlibc.Common.{ℕ, zero, suc, ◌+◌, ◌-◌, Bool, ltb, leb, ◌==◌, ◌||◌, not, if◌then◌else◌}
use rlibc.Common.Int.{ℤ, pos, ◌-ℤ◌, rem_euclid}
use rlibc.Common.Threads.{update}

abbrev pub Memory : Type 0
Memory = ℕ → ℕ

-- A returned pointer and the memory after the call.
pub record Moved : Type 0 where
  pub pointer : ℕ
  pub memory : Memory

-- `fill_bytes`, `copy_bytes_forward` and `copy_bytes_backward` write at `idx`, from `idx` on.
unfoldable pub fill_bytes : Memory → ℕ → ℕ → ℕ → ℕ → Memory
fill_bytes m bytes byte idx zero = m
fill_bytes m bytes byte idx (suc rounds) =
    fill_bytes (update m (bytes + idx) byte) bytes byte (idx + 1) rounds

unfoldable pub copy_bytes_forward : Memory → ℕ → ℕ → ℕ → ℕ → Memory
copy_bytes_forward m dst src idx zero = m
copy_bytes_forward m dst src idx (suc rounds) =
    copy_bytes_forward (update m (dst + idx) (m (src + idx))) dst src (idx + 1) rounds

unfoldable pub copy_bytes_backward : Memory → ℕ → ℕ → ℕ → Memory
copy_bytes_backward m dst src zero = m
copy_bytes_backward m dst src (suc idx) =
    copy_bytes_backward (update m (dst + idx) (m (src + idx))) dst src idx

unfoldable pub memmove : Memory → ℕ → ℕ → ℕ → Moved
memmove m dst src n = record {
  pointer = dst;
  memory =
      if (n == 0) || (dst == src)
      then m
      else if leb dst src || leb n (dst - src)
      then copy_bytes_forward m dst src 0 n
      else copy_bytes_backward m dst src n;
}

unfoldable pub memcpy : Memory → ℕ → ℕ → ℕ → Moved
memcpy m dst src n = memmove m dst src n

-- `c.to_le_bytes()[0]` is the lowest byte of the two's complement of `c`.
unfoldable pub memset : Memory → ℕ → ℤ → ℕ → Moved
memset m s c n = record {
  pointer = s;
  memory = if n == 0 then m else fill_bytes m s (rem_euclid c 256) 0 n;
}

unfoldable pub compare_bytes : Memory → ℕ → ℕ → ℕ → ℕ → ℤ
compare_bytes m left right idx zero = pos 0
compare_bytes m left right idx (suc rounds) =
    let rest = compare_bytes m left right (idx + 1) rounds in
    if m (left + idx) == m (right + idx)
    then rest
    else pos (m (left + idx)) -ℤ pos (m (right + idx))

unfoldable pub memcmp : Memory → ℕ → ℕ → ℕ → ℤ
memcmp m left right n = if n == 0 then pos 0 else compare_bytes m left right 0 n
