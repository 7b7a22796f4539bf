-- ===== src/Tests/Cond.antt =====
-- src/pthread.rs: the theorems on condition variables, with two threads and one mutex.
use rlibc.Common.{ℕ, ◌+◌, ◌≤◌, min, ◌≡◌, ◌<◌, ◌⊎◌, refl, false, none, some, inl, arith}
use rlibc.Common.Int.{pos}
use rlibc.Pthread.{Thread, usize_max}
use rlibc.Pthread.Mutex.{
  LockState, unlocked, mutex_add_cond_waiter_reference, mutex_recursive, returns, lock_round,
}
use rlibc.Errno.{einval, eperm}
use rlibc.Pthread.Mutex.Attr.{Ptr}
use rlibc.Pthread.Mutex.Calls.{Mutex}
use rlibc.Pthread.Cond.Calls.{begin_wait, waiters, wait_refuses}
use rlibc.Pthread.Cond.{Cond, set_up, lazy_init, no_waiters, signal_state, broadcast_state}
use rlibc.Pthread.Cond.Wait.{returned, sleeps, enter_wait, restore_depth, wait_restores}
use rlibc.Pthread.Cond.System.{
  CondSystem, CondStep, CondReach, start, later, waits, init, outside, sleeping, broadcasting,
}
use rlibc.Pthread.Cond.Counted.{in_wait, served, wakeups_served}
use rlibc.Pthread.Cond.Stolen.{signalled_by, notified, begun_by, looked, signal_stolen}
use rlibc.Common.Threads.{total}
use rlibc.Pthread.Cond.Timeout.{
  duration, timeout_from_abstime, billion, at, IsLater, IsPassed, timeout_lem,
}

two : 2 < usize_max
two = omega arith

-- Thread 0 sleeps.
abbrev waiting : CondSystem
waiting = begun_by 0 init

waiting_reached : CondReach 2 waiting
waiting_reached = later start (waits 0 (omega arith) refl)

wakeups_served_example :
    (waiting.wait_state.pending_wakeups ≤ total in_wait 2 waiting.place)
    × ((waiting.wait_state.pending_wakeups ≤ served 2 waiting)
        ⊎ ((i : Thread) × (i < 2) × (waiting.place i ≡ broadcasting)))
    × ((signal_state waiting.wait_state).0.pending_wakeups
        ≡ min (waiting.wait_state.pending_wakeups + 1) (total in_wait 2 waiting.place))
    × ((broadcast_state waiting.wait_state).0.pending_wakeups ≡ total in_wait 2 waiting.place)
wakeups_served_example = wakeups_served 2 waiting two waiting_reached

-- Thread 1 signals, and then takes the wake-up itself.
signal_stolen_example :
    (let a = signalled_by 1 waiting in
      let b = notified 1 0 a in
      let c = begun_by 1 b in
      let t = looked 0 c in
      CondStep 2 waiting a
      × CondStep 2 a b
      × CondStep 2 b c
      × CondStep 2 c t
      × (t.place 0 ≡ sleeping)
      × (t.place 1 ≡ outside)
      × (t.wait_state.pending_wakeups ≡ 0))
signal_stolen_example =
    signal_stolen 2 waiting 0 1 1 two waiting_reached (omega arith) (omega arith) (omega arith) refl
      refl refl refl

-- Thread 4 has the mutex three times.
abbrev held : LockState
held = record unlocked { owner = some 4; recursion_depth = 3 }

wait_restores_example :
    (let e = enter_wait mutex_recursive 4 no_waiters held in
      (e.waiting ≡ sleeps 3)
      × (e.lock_state.owner ≡ none)
      × ((t : LockState) × (lock_round mutex_recursive false 4 unlocked ≡ returns 0 t)
          × (restore_depth mutex_recursive 4 3 t
              ≡ (some 0, record unlocked { owner = some 4; recursion_depth = 3 }))))
wait_restores_example =
    wait_restores mutex_recursive 4 no_waiters held unlocked refl (inl refl) (omega arith)
      (omega arith) refl

timeout_lem_example :
    (seconds nanos : ℕ) × (timeout_from_abstime (some (at (pos 7) 5)) (some (at (pos 5) 9))
      ≡ duration seconds nanos)
    × (nanos < billion)
    × (IsLater (pos 5) 9 seconds nanos (pos 7) 5
        ⊎ (IsPassed (pos 5) 9 (pos 7) 5 × (seconds ≡ 0) × (nanos ≡ 0)))
timeout_lem_example =
    timeout_lem (pos 7) (pos 5) 5 9 (omega arith) (omega arith) (omega arith) (omega arith)

-- Thread 4 waits with a mutex that it does not hold.
abbrev open_mutex : Ptr Mutex
open_mutex =
    some (record { state = some (record { mutex_type = mutex_recursive; lock_state = unlocked }) })

abbrev quiet : Ptr Cond
quiet = some (set_up no_waiters)

few_wait : waiters (lazy_init quiet) < usize_max
unfolding lazy_init
few_wait = omega arith

refused_here : (begin_wait 4 quiet open_mutex).waiting ≡ returned eperm
unfolding begin_wait mutex_add_cond_waiter_reference
refused_here = refl

wait_refuses_example :
    ((eperm ≡ einval) ⊎ (eperm ≡ eperm))
    × ((begin_wait 4 quiet open_mutex).mutex ≡ open_mutex)
    × (lazy_init (begin_wait 4 quiet open_mutex).cond ≡ lazy_init quiet)
wait_refuses_example = wait_refuses 4 quiet open_mutex eperm few_wait refused_here
