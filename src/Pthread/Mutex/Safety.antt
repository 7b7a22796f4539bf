-- ===== src/Pthread/Mutex/Safety.antt =====
-- What the mutex of src/pthread.rs promises to its threads, in every state that they can reach.
use rlibc.Common.{
  ℕ, ◌+◌, ◌≤◌, ◌<◌, ◌≡◌, ◌⊎◌, inl, inr, refl, true, false, none, some, if◌then◌else◌, arith,
  Option-cases, ap,
}
use rlibc.Common.Int.{ℤ, eqb_ℤ}
use rlibc.Common.Threads.{le-total, total-le, total_pos, total_zero}
use rlibc.Errno.{eperm, ebusy, edeadlk}
use rlibc.Pthread.{Thread, usize_max}
use rlibc.Pthread.Mutex.{
  LockState, returns, waits, lock_round, mutex_unlock_internal, mutex_recursive, mutex_errorcheck,
}
use rlibc.Pthread.Mutex.Attr.{Ptr}
use rlibc.Pthread.Mutex.Calls.{Mutex, blank, is_busy, mutex_destroy}
use rlibc.Pthread.Mutex.System.{Pc, outside, sleeping, woken, notifying, System, Reach}
use rlibc.Pthread.Mutex.Invariant.{holds, asleep, due, waiting, share, Reach-Inv}

-- The mutex object over a lock.
abbrev pub mutex_at : ℤ → LockState → Ptr Mutex
mutex_at type l = some (record { state = some (record { mutex_type = type; lock_state = l }) })

module _ {type : ℤ} {n : ℕ} {s : System} (few : n < usize_max) (r : Reach type n s) where
  -- For fewer than 2^64 - 1 threads, in every state of a mutex that they can reach: two threads
  -- that hold the mutex are one.
  pub mutual_exclusion : (i j : Thread) → 0 < holds (s.pc i) → 0 < holds (s.pc j) → i ≡ j
  mutual_exclusion i j hi hj = let inv = Reach-Inv few r in ground (arith, inv.held i, inv.held j)

  -- For fewer than 2^64 - 1 threads, in every state of a mutex that they can reach: a mutex that
  -- is not recursive is held once at most.
  pub held_once : (i : Thread) → eqb_ℤ type mutex_recursive ≡ false → holds (s.pc i) ≤ 1
  held_once i e = let inv = Reach-Inv few r in ground (arith, inv.held i, inv.single e)

  is_due : (p : Pc) → 0 < due p → (h : ℕ) × ((p ≡ woken h) ⊎ (p ≡ notifying h))
  is_due (woken h) x = (h, inl refl)
  is_due (notifying h) x = (h, inr refl)
  is_due (outside _) x = absurd (omega arith)
  is_due (sleeping _) x = absurd (omega arith)

  -- For fewer than 2^64 - 1 threads, in every state of a mutex that they can reach: while the
  -- mutex is free and a thread sleeps, some thread has been told to wake up or is about to wake
  -- one.
  pub no_lost_wakeup :
      (j k : ℕ)
      → s.lock.owner ≡ none
      → j < n
      → s.pc j ≡ sleeping k
      → (i h : ℕ) × (i < n) × ((s.pc i ≡ woken h) ⊎ (s.pc i ≡ notifying h))
  no_lost_wakeup j k free lj hj =
      let inv = Reach-Inv few r in
      let (i, li, di) =
        total_pos due n s.pc
          (inv.not_lost free (omega (arith, le-total asleep n s.pc j lj, ap asleep hj))) in
      let (h, e) = is_due (s.pc i) di in (i, h, li, e)

  -- For fewer than 2^64 - 1 threads, in every state of a mutex that they can reach: an unlock by
  -- a thread that holds the mutex returns 0 and gives back one of its locks.
  pub unlock_releases :
      (i : Thread)
      → 0 < holds (s.pc i)
      → ((mutex_unlock_internal type false i s.lock).code ≡ 0)
        × (share (mutex_unlock_internal type false i s.lock).state i + 1 ≡ holds (s.pc i))
  unfolding mutex_unlock_internal
  unlock_releases i h =
      let inv = Reach-Inv few r in ground (arith, inv.held i, inv.depth, inv.single)

  -- For fewer than 2^64 - 1 threads, in every state of a mutex that they can reach: an unlock by
  -- a thread that does not hold the mutex returns `EPERM`, changes nothing and wakes nobody.
  pub unlock_foreign :
      (i : Thread)
      → holds (s.pc i) ≡ 0
      → mutex_unlock_internal type false i s.lock
        ≡ record { code = eperm; state = s.lock; notifies = false }
  unfolding mutex_unlock_internal
  unlock_foreign i h = let inv = Reach-Inv few r in ground (arith, inv.held i, inv.depth)

  -- For fewer than 2^64 - 1 threads, in every state of a mutex that they can reach: a lock by a
  -- thread that holds the mutex, fewer than 2^64 - 1 times: a recursive mutex counts one more
  -- lock, an error-checking one returns `EDEADLK`, and any other makes the thread wait.
  pub relock_answers :
      (i : Thread)
      → 0 < holds (s.pc i)
      → holds (s.pc i) < usize_max
      → lock_round type false i s.lock ≡ (
          if eqb_ℤ type mutex_recursive
          then returns 0 (record s.lock { recursion_depth = holds (s.pc i) + 1 })
          else if eqb_ℤ type mutex_errorcheck
          then returns edeadlk s.lock
          else waits (record s.lock { waiter_count = s.lock.waiter_count + 1 }))
  unfolding lock_round
  relock_answers i h bound =
      let inv = Reach-Inv few r in
      ground (arith, inv.held i, inv.counted, few, total-le waiting (λ p. ground arith) n s.pc)

  busy_lock :
      (i : Thread) → i < n → (0 < holds (s.pc i)) ⊎ (0 < waiting (s.pc i)) → is_busy s.lock ≡ true
  busy_lock i lt used =
      let inv = Reach-Inv few r in
      ground (arith, used, inv.held i, inv.counted, le-total waiting n s.pc i lt)

  -- For fewer than 2^64 - 1 threads, in every state of a mutex that they can reach: a mutex that
  -- a thread holds or waits for is not destroyed: `EBUSY`, and nothing changes.
  pub destroy_in_use :
      (i : Thread)
      → i < n
      → (0 < holds (s.pc i)) ⊎ (0 < waiting (s.pc i))
      → mutex_destroy (mutex_at type s.lock) ≡ (ebusy, mutex_at type s.lock)
  unfolding mutex_destroy
  destroy_in_use i lt used = rw (busy_lock i lt used)

  idle_lock :
      ((i : Thread) → (holds (s.pc i) ≡ 0) × (waiting (s.pc i) ≡ 0)) → is_busy s.lock ≡ false
  idle_lock idle =
      let inv = Reach-Inv few r in
      elim (Option-cases s.lock.owner) [
        | inl free ↦
            ground (arith, inv.counted, inv.no_cond, total_zero waiting n s.pc (λ i. (idle i).1))
        | inr (o, own) ↦ ground (arith, inv.held o, idle o, inv.depth)
      ]

  -- For fewer than 2^64 - 1 threads, in every state of a mutex that they can reach: a mutex that
  -- no thread holds or waits for is destroyed.
  pub destroy_unused :
      ((i : Thread) → (holds (s.pc i) ≡ 0) × (waiting (s.pc i) ≡ 0))
      → mutex_destroy (mutex_at type s.lock) ≡ (0, some blank)
  unfolding mutex_destroy
  destroy_unused idle = rw (idle_lock idle)
