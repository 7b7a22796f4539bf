-- ===== src/Pthread.antt =====
-- src/pthread.rs: mutexes and read-write locks. Each internal function runs with the state's own
-- `std::sync::Mutex` held, so it is one atomic step; `wait_cv.wait` gives that lock up, which splits a
-- call in two steps.
pub mod Mutex
pub mod Rwlock
pub mod Cond
use rlibc.Common.{ℕ, ◌+◌, ◌-◌, ◌^◌, ◌≡◌, Bool, min, Option, none, some, ◌==◌}
use rlibc.Common.Int.{ℤ, pos}

-- A `ThreadId`.
abbrev pub Thread : Type 0
Thread = ℕ

abbrev pub usize_max : ℕ
usize_max = 2 ^ 64 - 1

-- `saturating_add(1)`
abbrev pub saturating_inc : ℕ → ℕ
saturating_inc n = min (n + 1) usize_max

-- `owner == Some(current)`
abbrev pub is_owner : Option Thread → Thread → Bool
is_owner none t = Bool.false
is_owner (some o) t = o == t

abbrev pub process_private : ℤ
process_private = pos 0

abbrev pub process_shared : ℤ
process_shared = pos 1
