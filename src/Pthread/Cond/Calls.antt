-- ===== src/Pthread/Cond/Calls.antt =====
-- src/pthread.rs: the calls `pthread_cond_wait` and `pthread_cond_timedwait` with the pointers of the
-- caller, until they return or the thread sleeps.
use rlibc.Common.{ℕ, ◌<◌, ◌≡◌, refl, ap, Option, none, some, arith, ◌⊎◌, inl, inr}
use rlibc.Errno.{einval, eperm}
use rlibc.Pthread.{Thread, usize_max}
use rlibc.Pthread.Mutex.Attr.{Ptr}
use rlibc.Pthread.Mutex.Calls.{Mutex, MutexState}
use rlibc.Pthread.Cond.{WaitState, no_waiters, Cond, zeroed, destroyed, set_up, lazy_init}
use rlibc.Pthread.Cond.Wait.{Waiting, returned, Entered, enter_wait, enter_refused}
use rlibc.Pthread.Cond.Timeout.{Timespec, Timeout, refused, duration, timeout_from_abstime}

abbrev mutex_state_from_raw : Ptr Mutex → Option MutexState
mutex_state_from_raw none = none
mutex_state_from_raw (some m) = m.state

pub record Begun : Type 0 where
  pub waiting : Waiting
  pub cond : Ptr Cond
  pub mutex : Ptr Mutex

abbrev store : MutexState → Entered → Begun
store st e = record {
  waiting = e.waiting;
  cond = some (set_up e.wait_state);
  mutex = some (record { state = some (record st { lock_state = e.lock_state }) });
}

abbrev wait_on : Thread → WaitState → Ptr Mutex → Option MutexState → Begun
wait_on current w mutex none = record {
  waiting = returned einval;
  cond = some (set_up w);
  mutex = mutex;
}
wait_on current w mutex (some st) = store st (enter_wait st.mutex_type current w st.lock_state)

abbrev wait_from : Thread → Ptr Cond → Ptr Mutex → Option WaitState → Begun
wait_from current cond mutex none = record { waiting = returned einval; cond = cond; mutex = mutex }
wait_from current cond mutex (some w) = wait_on current w mutex (mutex_state_from_raw mutex)

unfoldable pub begin_wait : Thread → Ptr Cond → Ptr Mutex → Begun
unfolding enter_wait lazy_init
begin_wait current cond mutex = wait_from current cond mutex (lazy_init cond)

abbrev timed_from : Thread → Ptr Cond → Ptr Mutex → Timeout → Begun
timed_from current cond mutex (refused code) = record {
  waiting = returned einval;
  cond = cond;
  mutex = mutex;
}
timed_from current cond mutex (duration seconds nanos) = begin_wait current cond mutex

-- What `clock_gettime` gives is the parameter `now`.
unfoldable pub begin_timedwait :
    Thread → Option Timespec → Option Timespec → Ptr Cond → Ptr Mutex → Begun
unfolding begin_wait timeout_from_abstime
begin_timedwait current abstime now cond mutex =
    timed_from current cond mutex (timeout_from_abstime abstime now)

abbrev pub waiters : Option WaitState → ℕ
waiters none = 0
waiters (some w) = w.waiter_count

abbrev object : Option MutexState → Mutex
object x = record { state = x }

wait_on_lem :
    (current : Thread) (w : WaitState) (x : Option MutexState) (code : ℕ)
    → w.waiter_count < usize_max
    → (wait_on current w (some (object x)) x).waiting ≡ returned code
    → ((code ≡ einval) ⊎ (code ≡ eperm))
      × ((wait_on current w (some (object x)) x).mutex ≡ some (object x))
      × (lazy_init (wait_on current w (some (object x)) x).cond ≡ some w)
unfolding lazy_init
wait_on_lem current w none code few h = (inl (ground (arith, h)), refl, refl)
wait_on_lem current w (some st) code few h =
    let e = enter_refused st.mutex_type current w st.lock_state code few h in
    (
      inr e.0,
      ap (λ s. some (object (some (record st { lock_state = s })))) e.2,
      ap (λ v. some v) e.1,
    )

-- When `pthread_cond_wait` returns without a sleep, with fewer than 2^64 - 1 threads waiting, it
-- answers `EINVAL` or `EPERM`, the mutex is as before, and so is the wait state of the condition
-- variable.
pub wait_refuses :
    (current : Thread) (cond : Ptr Cond) (mutex : Ptr Mutex) (code : ℕ)
    → waiters (lazy_init cond) < usize_max
    → (begin_wait current cond mutex).waiting ≡ returned code
    → ((code ≡ einval) ⊎ (code ≡ eperm))
      × ((begin_wait current cond mutex).mutex ≡ mutex)
      × (lazy_init (begin_wait current cond mutex).cond ≡ lazy_init cond)
unfolding begin_wait lazy_init
wait_refuses current none mutex code few h = (inl (ground (arith, h)), refl, refl)
wait_refuses current (some destroyed) mutex code few h = (inl (ground (arith, h)), refl, refl)
wait_refuses current (some zeroed) none code few h = (inl (ground (arith, h)), refl, refl)
wait_refuses current (some zeroed) (some m) code few h =
    wait_on_lem current no_waiters m.state code few h
wait_refuses current (some (set_up w)) none code few h = (inl (ground (arith, h)), refl, refl)
wait_refuses current (some (set_up w)) (some m) code few h =
    wait_on_lem current w m.state code few h
