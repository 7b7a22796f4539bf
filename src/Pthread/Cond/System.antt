-- ===== src/Pthread/Cond/System.antt =====
-- src/pthread.rs: any number of threads on a condition variable. Each step is what one thread does while
-- it holds the lock of the wait state, or a notification, which comes after that lock is given up; what
-- the mutex adds is `Wait`. The lock of `lock_cond_lazy_init` rules some of the orders out.
use rlibc.Common.{ℕ, ◌<◌, ◌≡◌, ◌≢◌, Bool, true, if◌then◌else◌}
use rlibc.Common.Threads.{update}
use rlibc.Pthread.{Thread}
use rlibc.Pthread.Cond.{
  WaitState, no_waiters, Notify, nobody, one, everyone, signal_state, broadcast_state,
}
use rlibc.Pthread.Cond.Wait.{one_more, may_resume, leave_wait, leave_timedwait}

pub data Place : Type 0 where
  outside : Place  -- in no call
  sleeping : Place  -- in `wait_cv.wait`
  woken : Place  -- the wait is over, or its time, and the state's lock not yet taken
  signalling : Place  -- in `pthread_cond_signal`, before `notify_one`
  broadcasting : Place  -- in `pthread_cond_broadcast`, before `notify_all`

pub record CondSystem : Type 0 where
  pub wait_state : WaitState
  pub place : Thread → Place

abbrev pub init : CondSystem
init = record { wait_state = no_waiters; place = λ i. outside }

abbrev pub move : CondSystem → Thread → WaitState × Place → CondSystem
move s i (w, p) = record { wait_state = w; place = update s.place i p }

abbrev pub place_for : Notify → Place
place_for nobody = outside
place_for one = signalling
place_for everyone = broadcasting

abbrev pub notifies : WaitState × Notify → WaitState × Place
notifies (w, k) = (w, place_for k)

-- `wait_while` looks at its condition before it sleeps and after each wake-up.
abbrev pub begin : WaitState → WaitState × Place
begin w = if may_resume w then (leave_wait w, outside) else (w, sleeping)

-- A timed wait whose time is over leaves in any case.
abbrev pub look : Bool → WaitState → WaitState × Place
look timed_out w =
    if timed_out
    then ((leave_timedwait true w).1, outside)
    else if may_resume w
    then (leave_wait w, outside)
    else (w, sleeping)

abbrev pub wake_sleeper : Place → Place
wake_sleeper sleeping = woken
wake_sleeper outside = outside
wake_sleeper woken = woken
wake_sleeper signalling = signalling
wake_sleeper broadcasting = broadcasting

abbrev pub wake_all : (Thread → Place) → Thread → Place
wake_all f j = wake_sleeper (f j)

-- A step of one of `n` threads. A wait of `wait_cv` may end at any time (`spurious`).
pub data CondStep (n : ℕ) (s : CondSystem) : CondSystem → Type 0 where
  waits :
      (i : Thread)
      → i < n
      → s.place i ≡ outside
      → CondStep n s (move s i (begin (one_more s.wait_state)))
  spurious :
      (i : Thread) → i < n → s.place i ≡ sleeping → CondStep n s (move s i (s.wait_state, woken))
  looks :
      (i : Thread) (timed_out : Bool)
      → i < n
      → s.place i ≡ woken
      → CondStep n s (move s i (look timed_out s.wait_state))
  signals :
      (i : Thread)
      → i < n
      → s.place i ≡ outside
      → CondStep n s (move s i (notifies (signal_state s.wait_state)))
  broadcasts :
      (i : Thread)
      → i < n
      → s.place i ≡ outside
      → CondStep n s (move s i (notifies (broadcast_state s.wait_state)))
  notify_one :
      (i j : Thread)
      → i < n
      → j < n
      → s.place i ≡ signalling
      → s.place j ≡ sleeping
      → CondStep n s (record s { place = update (update s.place i outside) j woken })
  notify_nobody :
      (i : Thread)
      → i < n
      → s.place i ≡ signalling
      → ((j : Thread) → j < n → s.place j ≢ sleeping)
      → CondStep n s (move s i (s.wait_state, outside))
  notify_all :
      (i : Thread)
      → i < n
      → s.place i ≡ broadcasting
      → CondStep n s (record s { place = wake_all (update s.place i outside) })

pub data CondReach (n : ℕ) : CondSystem → Type 0 where
  start : CondReach n init
  later : {s t : CondSystem} → CondReach n s → CondStep n s t → CondReach n t
