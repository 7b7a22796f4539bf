-- ===== src/Str.antt =====
-- src/string/mod.rs: `strlen` and `strnlen` on raw memory, a function from addresses to bytes.
pub mod Length
use rlibc.Common.{ℕ, zero, suc, ◌+◌, Bool, ltb, ◌==◌, if◌then◌else◌, Option, none, some}
use rlibc.Memory.{Memory}

-- The loop of `strlen` at `len`. It has no bound of its own: `none` is for a run that has not found a
-- NUL after `fuel` rounds.
unfoldable pub strlen_from : ℕ → Memory → ℕ → ℕ → Option ℕ
strlen_from zero m s len = none
strlen_from (suc fuel) m s len =
    let rest = strlen_from fuel m s (len + 1) in if m (s + len) == 0 then some len else rest

unfoldable pub strlen : ℕ → Memory → ℕ → Option ℕ
strlen fuel m s = strlen_from fuel m s 0

-- The loop of `strnlen` at `len`, with `n - len` rounds left.
unfoldable pub strnlen_from : Memory → ℕ → ℕ → ℕ → ℕ
strnlen_from m s len zero = len
strnlen_from m s len (suc rounds) =
    let rest = strnlen_from m s (len + 1) rounds in if m (s + len) == 0 then len else rest

unfoldable pub strnlen : Memory → ℕ → ℕ → ℕ
strnlen m s n = if n == 0 then 0 else strnlen_from m s 0 n
