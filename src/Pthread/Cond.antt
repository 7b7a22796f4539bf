-- ===== src/Pthread/Cond.antt =====
-- src/pthread.rs: condition variables. A call runs with the wait state's lock held, up to the wait; the
-- calls of one condition variable are also one behind the other up to there (`lock_cond_lazy_init`).
pub mod Wait
pub mod System
pub mod Timeout
pub mod Counted
pub mod Stolen
pub mod Calls
use rlibc.Common.{
  ℕ, zero, suc, ◌+◌, ◌-◌, Bool, true, false, not, ◌&&◌, ◌||◌, Option, none, some, ◌==◌, min,
  if◌then◌else◌,
}
use rlibc.Common.Int.{ℤ, pos, eqb_ℤ}
use rlibc.Errno.{einval, ebusy}
use rlibc.Pthread.{saturating_inc, process_private}
use rlibc.Pthread.Mutex.Attr.{Ptr, bad_pshared}

-- `PthreadCondWaitState`
pub record WaitState : Type 0 where
  pub waiter_count : ℕ
  pub pending_wakeups : ℕ

abbrev pub no_waiters : WaitState
no_waiters = record { waiter_count = 0; pending_wakeups = 0 }

-- What the pointer in a `pthread_cond_t` is: null, `DESTROYED_COND_SENTINEL`, or a state.
pub data Cond : Type 0 where
  zeroed : Cond
  destroyed : Cond
  set_up : WaitState → Cond

pub record CondAttr : Type 0 where
  pub pshared : ℤ
  pub initialized : ℤ

abbrev uninitialized : CondAttr → Bool
uninitialized a = eqb_ℤ a.initialized (pos 0)

unfoldable pub condattr_init : Ptr CondAttr → ℕ × Ptr CondAttr
condattr_init none = (einval, none)
condattr_init (some a) = (0, some (record { pshared = process_private; initialized = pos 1 }))

unfoldable pub condattr_destroy : Ptr CondAttr → ℕ × Ptr CondAttr
condattr_destroy none = (einval, none)
condattr_destroy (some a) = (0, some a)

-- The second pointer is where the answer goes.
unfoldable pub condattr_getpshared : Ptr CondAttr → Ptr ℤ → ℕ × Ptr ℤ
condattr_getpshared none out = (einval, out)
condattr_getpshared (some a) none = (einval, none)
condattr_getpshared (some a) (some x) =
    if uninitialized a then (einval, some x) else (0, some a.pshared)

unfoldable pub condattr_setpshared : Ptr CondAttr → ℤ → ℕ × Ptr CondAttr
condattr_setpshared none p = (einval, none)
condattr_setpshared (some a) p =
    if uninitialized a
    then (einval, some a)
    else if bad_pshared p
    then (einval, some a)
    else (0, some (record a { pshared = p }))

abbrev bad_attr : Ptr CondAttr → Bool
bad_attr none = false
bad_attr (some a) = uninitialized a || bad_pshared a.pshared

abbrev init_cond : Cond → ℕ × Ptr Cond
init_cond (set_up w) = (ebusy, some (set_up w))
init_cond zeroed = (0, some (set_up no_waiters))
init_cond destroyed = (0, some (set_up no_waiters))

unfoldable pub cond_init : Ptr Cond → Ptr CondAttr → ℕ × Ptr Cond
cond_init none attr = (einval, none)
cond_init (some c) attr = if bad_attr attr then (einval, some c) else init_cond c

unfoldable pub cond_destroy : Ptr Cond → ℕ × Ptr Cond
cond_destroy none = (einval, none)
cond_destroy (some zeroed) = (0, some destroyed)
cond_destroy (some destroyed) = (0, some destroyed)
cond_destroy (some (set_up w)) =
    if not (w.waiter_count == 0) then (ebusy, some (set_up w)) else (0, some destroyed)

-- What follows once the lock of the wait state is given up: nothing, `notify_one` or `notify_all`.
pub data Notify : Type 0 where
  nobody : Notify
  one : Notify
  everyone : Notify

-- From `should_notify` on.
unfoldable pub signal_state : WaitState → WaitState × Notify
signal_state w =
    if w.waiter_count == 0
    then (w, nobody)
    else (record w { pending_wakeups = min (saturating_inc w.pending_wakeups) w.waiter_count }, one)

unfoldable pub broadcast_state : WaitState → WaitState × Notify
broadcast_state w =
    if w.waiter_count == 0
    then (w, nobody)
    else (record w { pending_wakeups = w.waiter_count }, everyone)

-- The code, the condition variable, and what is notified.
abbrev notify_with : (WaitState → WaitState × Notify) → Ptr Cond → ℕ × Ptr Cond × Notify
notify_with change none = (einval, none, nobody)
notify_with change (some zeroed) = (0, some zeroed, nobody)
notify_with change (some destroyed) = (einval, some destroyed, nobody)
notify_with change (some (set_up w)) = let r = change w in (0, some (set_up r.0), r.1)

unfoldable pub cond_signal : Ptr Cond → ℕ × Ptr Cond × Notify
unfolding signal_state
cond_signal = notify_with signal_state

unfoldable pub cond_broadcast : Ptr Cond → ℕ × Ptr Cond × Notify
unfolding broadcast_state
cond_broadcast = notify_with broadcast_state

-- `cond_state_from_raw_or_lazy_init_locked`
unfoldable pub lazy_init : Ptr Cond → Option WaitState
lazy_init none = none
lazy_init (some zeroed) = some no_waiters
lazy_init (some destroyed) = none
lazy_init (some (set_up w)) = some w
