-- ===== src/Pthread/Mutex.antt =====
-- src/pthread.rs: the internal operations of a mutex.
pub mod Calls
pub mod Attr
pub mod System
pub mod Invariant
pub mod Safety
use rlibc.Common.{
  ℕ, ◌+◌, ◌-◌, ◌≡◌, Bool, true, false, not, ◌&&◌, Option, none, some, ltb, ◌==◌, if◌then◌else◌,
}
use rlibc.Common.Int.{ℤ, pos, eqb_ℤ}
use rlibc.Errno.{eperm, ebusy, edeadlk}
use rlibc.Pthread.{Thread, saturating_inc, is_owner}

abbrev pub mutex_normal : ℤ
mutex_normal = pos 0

abbrev pub mutex_recursive : ℤ
mutex_recursive = pos 1

abbrev pub mutex_errorcheck : ℤ
mutex_errorcheck = pos 2

-- `PthreadMutexLockState`
pub record LockState : Type 0 where
  pub owner : Option Thread
  pub recursion_depth : ℕ
  pub waiter_count : ℕ
  pub cond_waiter_count : ℕ

abbrev pub unlocked : LockState
unlocked = record { owner = none; recursion_depth = 0; waiter_count = 0; cond_waiter_count = 0 }

-- What one round of the loop in `mutex_lock_internal` does: it returns a code, or it waits on the
-- condition variable.
pub data Round : Type 0 where
  returns : ℕ → LockState → Round
  waits : LockState → Round

abbrev wait_round : LockState → Round
wait_round s = waits (record s { waiter_count = saturating_inc s.waiter_count })

abbrev round_at : Option Thread → ℤ → Bool → Thread → LockState → Round
round_at none type try_only current s =
    returns 0 (record s { owner = some current; recursion_depth = 1 })
round_at (some owner) type try_only current s =
    if owner == current
    then (if eqb_ℤ type mutex_recursive
        then returns 0 (record s { recursion_depth = saturating_inc s.recursion_depth })
        else if eqb_ℤ type mutex_errorcheck
        then returns (if try_only then ebusy else edeadlk) s
        else if try_only
        then returns ebusy s
        else wait_round s)
    else if try_only
    then returns ebusy s
    else wait_round s

-- A round of `mutex_lock_internal`.
unfoldable pub lock_round : ℤ → Bool → Thread → LockState → Round
lock_round type try_only current s = round_at s.owner type try_only current s

-- What the loop does when the wait is over, before the next round.
unfoldable pub wake : LockState → LockState
wake s = record s { waiter_count = s.waiter_count - 1 }

-- The code, the new state, and whether `notify_one` follows once the state's lock is given up.
pub record Unlocked : Type 0 where
  pub code : ℕ
  pub state : LockState
  pub notifies : Bool

unfoldable pub mutex_unlock_internal : ℤ → Bool → Thread → LockState → Unlocked
mutex_unlock_internal type for_cond_wait current s =
    if not (is_owner s.owner current)
    then record { code = eperm; state = s; notifies = false }
    else if eqb_ℤ type mutex_recursive && ltb 1 s.recursion_depth && not for_cond_wait
    then record {
      code = 0;
      state = record s { recursion_depth = s.recursion_depth - 1 };
      notifies = false;
    }
    else record {
      code = 0;
      state = record s { owner = none; recursion_depth = 0 };
      notifies = true;
    }

-- The recursion depth, or the error code.
unfoldable pub mutex_add_cond_waiter_reference : Thread → LockState → (Option ℕ) × LockState
mutex_add_cond_waiter_reference current s = if not (is_owner s.owner current) then (none, s) else (
  some s.recursion_depth,
  record s { cond_waiter_count = saturating_inc s.cond_waiter_count },
)

unfoldable pub mutex_remove_cond_waiter_reference : LockState → LockState
mutex_remove_cond_waiter_reference s = record s { cond_waiter_count = s.cond_waiter_count - 1 }
