-- ===== src/Pthread/Mutex/System.antt =====
-- `n` threads that lock and unlock one mutex of src/pthread.rs, interleaved in any order.
use rlibc.Common.{ℕ, ◌+◌, ◌-◌, ◌<◌, ◌≡◌, ◌≢◌, Bool, false, not, ◌==◌, if◌then◌else◌}
use rlibc.Common.Int.{ℤ}
use rlibc.Common.Threads.{update}
use rlibc.Pthread.{Thread, usize_max}
use rlibc.Pthread.Mutex.{
  LockState, unlocked, Round, returns, waits, lock_round, wake, Unlocked, mutex_unlock_internal,
}

-- Where a thread stands, with the number of locks that it holds: successful lock calls less
-- successful unlock calls.
pub data Pc : Type 0 where
  outside : (held : ℕ) → Pc  -- in no call
  sleeping : (held : ℕ) → Pc  -- in `wait_cv.wait`
  woken : (held : ℕ) → Pc  -- the wait is over, the state's lock not yet taken
  notifying : (held : ℕ) → Pc  -- in `mutex_unlock_internal`, before `notify_one`

-- Where a round of the loop leaves a thread.
abbrev pub after_round : ℕ → Round → LockState × Pc
after_round h (waits s) = (s, sleeping h)
after_round h (returns code s) = (s, if code == 0 then outside (h + 1) else outside h)

abbrev pub after_unlock : ℕ → Unlocked → LockState × Pc
after_unlock h u = (
  u.state,
  if not (u.code == 0)
      then outside h
      else if u.notifies
      then notifying (h - 1)
      else outside (h - 1),
)

pub record System : Type 0 where
  pub lock : LockState
  pub pc : ℕ → Pc

abbrev pub move : System → Thread → LockState × Pc → System
move s i (l, p) = record { lock = l; pc = update s.pc i p }

-- One atomic step. No thread nests 2 ^ 64 - 1 locks, so no counter saturates. A wait may end at any time (`spurious`), as a condition variable allows; a
-- `notify_one` ends the wait of a sleeping thread if there is one, which is what it promises.
pub data Step (type : ℤ) (n : ℕ) (s : System) : System → Type 0 where
  call_lock :
      (i h : ℕ) (try_only : Bool)
      → i < n
      → s.pc i ≡ outside h
      → h + 1 < usize_max
      → Step type n s (move s i (after_round h (lock_round type try_only i s.lock)))
  resume :
      (i h : ℕ)
      → i < n
      → s.pc i ≡ woken h
      → h + 1 < usize_max
      → Step type n s (move s i (after_round h (lock_round type false i (wake s.lock))))
  spurious : (i h : ℕ) → i < n → s.pc i ≡ sleeping h → Step type n s (move s i (s.lock, woken h))
  call_unlock :
      (i h : ℕ)
      → i < n
      → s.pc i ≡ outside h
      → Step type n s (move s i (after_unlock h (mutex_unlock_internal type false i s.lock)))
  notify :
      (i h j k : ℕ)
      → i < n
      → j < n
      → s.pc i ≡ notifying h
      → s.pc j ≡ sleeping k
      → Step type n s
          (record { lock = s.lock; pc = update (update s.pc i (outside h)) j (woken k) })
  notify_nobody :
      (i h : ℕ)
      → i < n
      → s.pc i ≡ notifying h
      → ((j k : ℕ) → j < n → s.pc j ≢ sleeping k)
      → Step type n s (move s i (s.lock, outside h))

abbrev pub init : System
init = record { lock = unlocked; pc = λ _. outside 0 }

pub data Reach (type : ℤ) (n : ℕ) : System → Type 0 where
  start : Reach type n init
  later : {s t : System} → Reach type n s → Step type n s t → Reach type n t
