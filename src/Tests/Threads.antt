-- ===== src/Tests/Threads.antt =====
-- src/pthread.rs: two threads on a mutex, and on a read-write lock.
use rlibc.Common.{ℕ, ◌<◌, ◌≡◌, ◌⊎◌, inr, refl, false, some, arith}
use rlibc.Common.Threads.{update}
use rlibc.Errno.{ebusy}
use rlibc.Pthread.{usize_max}
use rlibc.Pthread.Mutex.{unlocked, lock_round, mutex_unlock_internal, mutex_normal}
use rlibc.Pthread.Mutex.Calls.{mutex_destroy}
use rlibc.Pthread.Mutex.System.{
  outside, sleeping, woken, notifying, System, Reach, start, later, call_lock, call_unlock, init,
}
use rlibc.Pthread.Mutex.Safety.{mutex_at, mutual_exclusion, no_lost_wakeup, destroy_in_use}

two : 2 < usize_max
two = omega arith

-- Thread 0 has the mutex.
abbrev held : System
held = record {
  lock = record unlocked { owner = some 0; recursion_depth = 1 };
  pc = update init.pc 0 (outside 1);
}

held_reached : Reach mutex_normal 2 held
unfolding lock_round
held_reached = later start (call_lock 0 0 false (omega arith) refl (omega arith))

-- Thread 1 waits for it.
abbrev contended : System
contended = record {
  lock = record unlocked { owner = some 0; recursion_depth = 1; waiter_count = 1 };
  pc = update held.pc 1 (sleeping 0);
}

contended_reached : Reach mutex_normal 2 contended
unfolding lock_round
contended_reached = later held_reached (call_lock 1 0 false (omega arith) refl (omega arith))

-- Thread 0 gives it back and is about to notify.
abbrev handed_over : System
handed_over = record {
  lock = record unlocked { waiter_count = 1 };
  pc = update contended.pc 0 (notifying 0);
}

handed_over_reached : Reach mutex_normal 2 handed_over
unfolding mutex_unlock_internal
handed_over_reached = later contended_reached (call_unlock 0 1 (omega arith) refl)

mutual_exclusion_example : Path ℕ 0 0
mutual_exclusion_example = mutual_exclusion two contended_reached 0 0 (omega arith) (omega arith)

no_lost_wakeup_example :
    (i h : ℕ) × (i < 2) × ((handed_over.pc i ≡ woken h) ⊎ (handed_over.pc i ≡ notifying h))
no_lost_wakeup_example = no_lost_wakeup two handed_over_reached 1 0 refl (omega arith) refl

destroy_in_use_example :
    mutex_destroy (mutex_at mutex_normal contended.lock)
    ≡ (ebusy, mutex_at mutex_normal contended.lock)
destroy_in_use_example = destroy_in_use two contended_reached 1 (omega arith) (inr (omega arith))
