-- ===== src/Pthread/Rwlock.antt =====
-- src/pthread.rs: the internal operations of a read-write lock.
pub mod Calls
pub mod System
pub mod Invariant
pub mod Moves
pub mod Safety
use rlibc.Common.{
  ℕ, ◌+◌, ◌-◌, Bool, true, false, not, ◌&&◌, ◌||◌, Option, none, some, leb, ◌==◌, if◌then◌else◌,
}
use rlibc.Common.Threads.{update}
use rlibc.Errno.{eagain, ebusy, einval, edeadlk}
use rlibc.Pthread.{Thread, usize_max, saturating_inc, is_owner}

-- `PthreadRwlockLockState`. The map `reader_owners` is a function.
pub record RwState : Type 0 where
  pub reader_owners : Thread → Option ℕ
  pub total_readers : ℕ
  pub writer_owner : Option Thread
  pub waiting_readers : ℕ
  pub waiting_writers : ℕ
  pub destroyed : Bool

abbrev pub idle : RwState
idle = record {
  reader_owners = λ _. none;
  total_readers = 0;
  writer_owner = none;
  waiting_readers = 0;
  waiting_writers = 0;
  destroyed = false;
}

-- What a round of a lock call's loop does: it returns a code, or it waits on the condition variable.
pub data RwRound : Type 0 where
  rw_returns : ℕ → RwState → RwRound
  rw_waits : RwState → RwRound

abbrev pub has_none {ℓ} : {A : Type ℓ} → Option A → Bool
has_none none = true
has_none (some _) = false

abbrev pub or_zero : Option ℕ → ℕ
or_zero none = 0
or_zero (some n) = n

-- A call that has registered itself as a waiter takes itself off before it returns.
abbrev leave_readers : Bool → RwState → RwState
leave_readers registered s = record s {
  waiting_readers = if registered then s.waiting_readers - 1 else s.waiting_readers;
}

abbrev leave_writers : Bool → RwState → RwState
leave_writers registered s = record s {
  waiting_writers = if registered then s.waiting_writers - 1 else s.waiting_writers;
}

-- The `checked_add`s, and the two writes that follow them.
abbrev add_reader : Thread → RwState → RwRound
add_reader current s =
    if leb usize_max (or_zero (s.reader_owners current))
    then rw_returns eagain s
    else if leb usize_max s.total_readers
    then rw_returns eagain s
    else rw_returns 0 (record s {
      reader_owners = update s.reader_owners current (some (or_zero (s.reader_owners current) + 1));
      total_readers = s.total_readers + 1;
    })

-- A round of `rwlock_rdlock_internal`.
unfoldable pub rdlock_round : Bool → Bool → Thread → RwState → RwRound
rdlock_round try_only registered current s =
    if s.destroyed
    then rw_returns einval (leave_readers registered s)
    else if has_none s.writer_owner
        && (s.waiting_writers == 0 || not (has_none (s.reader_owners current)))
    then add_reader current (leave_readers registered s)
    else if is_owner s.writer_owner current
    then rw_returns (if try_only then ebusy else edeadlk) (leave_readers registered s)
    else if try_only
    then rw_returns ebusy s
    else rw_waits (record s {
      waiting_readers = if registered then s.waiting_readers else saturating_inc s.waiting_readers;
    })

-- A round of `rwlock_wrlock_internal`.
unfoldable pub wrlock_round : Bool → Bool → Thread → RwState → RwRound
wrlock_round try_only registered current s =
    if s.destroyed
    then rw_returns einval (leave_writers registered s)
    else if is_owner s.writer_owner current
    then rw_returns (if try_only then ebusy else edeadlk) (leave_writers registered s)
    else if has_none s.writer_owner && (s.total_readers == 0)
    then rw_returns 0 (record (leave_writers registered s) { writer_owner = some current })
    else if try_only
    then rw_returns ebusy s
    else rw_waits (record s {
      waiting_writers = if registered then s.waiting_writers else saturating_inc s.waiting_writers;
    })

-- The code, the new state, and whether `notify_all` follows once the state's lock is given up.
pub record RwUnlocked : Type 0 where
  pub code : ℕ
  pub state : RwState
  pub notifies : Bool

abbrev drop_reader : Thread → Option ℕ → RwState → RwUnlocked
drop_reader current none s = record { code = einval; state = s; notifies = false }
drop_reader current (some reader_depth) s = record {
  code = 0;
  state = record s {
    reader_owners =
        update s.reader_owners current
          (if reader_depth - 1 == 0 then none else some (reader_depth - 1));
    total_readers = s.total_readers - 1;
  };
  notifies = s.total_readers - 1 == 0;
}

unfoldable pub rwlock_unlock_internal : Thread → RwState → RwUnlocked
rwlock_unlock_internal current s =
    if s.destroyed
    then record { code = einval; state = s; notifies = false }
    else if is_owner s.writer_owner current
    then record { code = 0; state = record s { writer_owner = none }; notifies = true }
    else drop_reader current (s.reader_owners current) s

unfoldable pub rwlock_mark_destroyed : RwState → RwUnlocked
rwlock_mark_destroyed s =
    if s.destroyed
    then record { code = einval; state = s; notifies = false }
    else if not (has_none s.writer_owner)
        || not (s.total_readers == 0)
        || not (s.waiting_readers == 0)
        || not (s.waiting_writers == 0)
    then record { code = ebusy; state = s; notifies = false }
    else record { code = 0; state = record s { destroyed = true }; notifies = true }
