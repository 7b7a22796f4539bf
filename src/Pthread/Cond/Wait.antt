-- ===== src/Pthread/Cond/Wait.antt =====
-- src/pthread.rs: a wait on a condition variable, before and after the thread sleeps.
use rlibc.Common.{
  ℕ, zero, suc, ◌+◌, ◌-◌, ◌<◌, ◌≡◌, refl, Bool, true, false, not, ◌&&◌, ◌||◌, Option, none, some,
  ◌==◌, leb, if◌then◌else◌, arith, ◌⊎◌, inl, inr,
}
use rlibc.Common.Int.{ℤ, eqb_ℤ}
use rlibc.Errno.{eperm, etimedout}
use rlibc.Pthread.{Thread, saturating_inc, usize_max}
use rlibc.Pthread.Mutex.{
  LockState, mutex_recursive, returns, waits, lock_round, Unlocked, mutex_unlock_internal,
  mutex_add_cond_waiter_reference, mutex_remove_cond_waiter_reference,
}
use rlibc.Pthread.Cond.{WaitState}

-- The call has returned a code, or the thread sleeps and has to restore a depth.
pub data Waiting : Type 0 where
  returned : ℕ → Waiting
  sleeps : ℕ → Waiting

pub record Entered : Type 0 where
  pub waiting : Waiting
  pub wait_state : WaitState
  pub lock_state : LockState

abbrev pub one_more : WaitState → WaitState
one_more w = record w { waiter_count = saturating_inc w.waiter_count }

abbrev pub one_less : WaitState → WaitState
one_less w = record w { waiter_count = w.waiter_count - 1 }

abbrev enter_unlocked : ℕ → Unlocked → WaitState → Entered
enter_unlocked depth u w =
    if not (u.code == 0)
    then record {
      waiting = returned u.code;
      wait_state = one_less w;
      lock_state = mutex_remove_cond_waiter_reference u.state;
    }
    else record { waiting = sleeps depth; wait_state = w; lock_state = u.state }

abbrev enter_referenced : ℤ → Thread → WaitState → Option ℕ × LockState → Entered
enter_referenced type current w (none, s) = record {
  waiting = returned eperm;
  wait_state = one_less w;
  lock_state = s;
}
enter_referenced type current w (some depth, s) =
    enter_unlocked depth (mutex_unlock_internal type true current s) w

-- A wait on a condition variable and a mutex that are set up, until the thread sleeps.
unfoldable pub enter_wait : ℤ → Thread → WaitState → LockState → Entered
unfolding mutex_remove_cond_waiter_reference
enter_wait type current w s =
    enter_referenced type current (one_more w) (mutex_add_cond_waiter_reference current s)

-- The condition that `wait_while` waits for, and what follows it.
abbrev pub may_resume : WaitState → Bool
may_resume w = not (w.pending_wakeups == 0)

unfoldable pub leave_wait : WaitState → WaitState
leave_wait w = one_less (record w { pending_wakeups = w.pending_wakeups - 1 })

-- `pthread_cond_timedwait` after its wait: whether it has timed out, and the state.
unfoldable pub leave_timedwait : Bool → WaitState → Bool × WaitState
leave_timedwait timed_out w =
    (timed_out && not (may_resume w), if may_resume w then leave_wait w else one_less w)

-- The loop of `mutex_restore_cond_wait_lock_depth`, for a thread that has the mutex again: the code, or
-- nothing if the thread has to wait.
unfoldable pub relock_times : ℤ → Thread → ℕ → LockState → Option ℕ × LockState
relock_times type current zero s = (some 0, s)
relock_times type current (suc n) s = elim (lock_round type false current s) [
  | waits t ↦ (none, t)
  | returns code t ↦
      let rest = relock_times type current n t in if not (code == 0) then (some code, t) else rest
]

-- What follows the first lock of `mutex_restore_cond_wait_lock_depth`.
unfoldable pub restore_depth : ℤ → Thread → ℕ → LockState → Option ℕ × LockState
unfolding relock_times
restore_depth type current recursive_depth s =
    if not (eqb_ℤ type mutex_recursive) || leb recursive_depth 1
    then (some 0, s)
    else relock_times type current (recursive_depth - 1) s

-- `pthread_cond_wait` after the mutex is restored.
abbrev pub finish_wait : Option ℕ × LockState → Option ℕ × LockState
finish_wait (code, s) = (code, mutex_remove_cond_waiter_reference s)

-- `pthread_cond_timedwait` returns `ETIMEDOUT` only when the mutex is restored.
unfoldable pub timedwait_code : ℕ → Bool → ℕ
timedwait_code relock_result timed_out =
    if not (relock_result == 0) then relock_result else if timed_out then etimedout else 0

relock_lem :
    (current : Thread) (n : ℕ) (s : LockState)
    → s.owner ≡ some current
    → s.recursion_depth + n < usize_max
    → relock_times mutex_recursive current n s
      ≡ (some 0, record s { recursion_depth = s.recursion_depth + n })
unfolding relock_times lock_round
relock_lem current zero s h k = ground arith
relock_lem current (suc n) s h k =
    let t = record s { recursion_depth = s.recursion_depth + 1 } in
    ground (arith, relock_lem current n t h)

enter_lem :
    (type : ℤ) (current : Thread) (w : WaitState) (s : LockState)
    → s.owner ≡ some current
    → ((enter_wait type current w s).waiting ≡ sleeps s.recursion_depth)
      × ((enter_wait type current w s).lock_state.owner ≡ none)
unfolding enter_wait mutex_add_cond_waiter_reference mutex_unlock_internal
enter_lem type current w s h = (ground arith, ground arith)

-- A wait that does not sleep leaves both states as they were.
pub enter_refused :
    (type : ℤ) (current : Thread) (w : WaitState) (s : LockState) (code : ℕ)
    → w.waiter_count < usize_max
    → (enter_wait type current w s).waiting ≡ returned code
    → (code ≡ eperm)
      × ((enter_wait type current w s).wait_state ≡ w)
      × ((enter_wait type current w s).lock_state ≡ s)
unfolding enter_wait mutex_add_cond_waiter_reference mutex_unlock_internal
enter_refused type current w s code few h =
    (ground (arith, h), ground (arith, h), ground (arith, h))

abbrev held_once : Thread → LockState → LockState
held_once current s = record s { owner = some current; recursion_depth = 1 }

restore_lem :
    (type : ℤ) (current : Thread) (depth : ℕ) (s : LockState)
    → (type ≡ mutex_recursive) ⊎ (depth ≡ 1)
    → 0 < depth
    → depth < usize_max
    → restore_depth type current depth (held_once current s)
      ≡ (some 0, record s { owner = some current; recursion_depth = depth })
unfolding restore_depth
restore_lem type current depth s (inl k) d m =
    rw k (ground (arith, relock_lem current (depth - 1) (held_once current s) refl))
restore_lem type current depth s (inr k) d m = ground arith

relock_free :
    (type : ℤ) (current : Thread) (s : LockState)
    → s.owner ≡ none
    → lock_round type false current s ≡ returns 0 (held_once current s)
unfolding lock_round
relock_free type current s n = rw n refl

-- A thread that holds the mutex fewer than 2^64 - 1 times, once if the mutex is not recursive,
-- gives it up for a wait. When it has locked the free mutex once again, whatever the others have
-- left there, it holds it as many times as before.
pub wait_restores :
    (type : ℤ) (current : Thread) (w : WaitState) (s later : LockState)
    → s.owner ≡ some current
    → (type ≡ mutex_recursive) ⊎ (s.recursion_depth ≡ 1)
    → 0 < s.recursion_depth
    → s.recursion_depth < usize_max
    → later.owner ≡ none
    → (let entered = enter_wait type current w s in
        (entered.waiting ≡ sleeps s.recursion_depth)
        × (entered.lock_state.owner ≡ none)
        × ((t : LockState) × (lock_round type false current later ≡ returns 0 t)
            × (restore_depth type current s.recursion_depth t ≡ (
              some 0,
              record later { owner = some current; recursion_depth = s.recursion_depth },
            ))))
wait_restores type current w s later h k d m n =
    let e = enter_lem type current w s h in
    (
      e.0,
      e.1,
      (
        held_once current later,
        relock_free type current later n,
        restore_lem type current s.recursion_depth later k d m,
      ),
    )
