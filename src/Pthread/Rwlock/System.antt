-- ===== src/Pthread/Rwlock/System.antt =====
-- `n` threads that lock and unlock one read-write lock of src/pthread.rs, interleaved in any order.
use rlibc.Common.{ℕ, ◌+◌, ◌-◌, ◌<◌, ◌≡◌, Bool, true, false, not, ◌==◌, if◌then◌else◌}
use rlibc.Common.Threads.{update}
use rlibc.Pthread.{Thread}
use rlibc.Pthread.Rwlock.{
  RwState, idle, RwRound, rw_returns, rw_waits, rdlock_round, wrlock_round, RwUnlocked,
  rwlock_unlock_internal,
}

pub data Place : Type 0 where
  outside : Place  -- in no call
  sleeping : (write : Bool) → Place  -- in `wait_cv.wait`, of a read or a write lock call
  woken : (write : Bool) → Place  -- the wait is over, the state's lock not yet taken
  notifying : Place  -- in `rwlock_unlock_internal`, before `notify_all`

-- Where a thread stands, and how many read and write locks it holds: successful lock calls less
-- successful unlock calls.
pub record RwPc : Type 0 where
  pub reads : ℕ
  pub writes : ℕ
  pub place : Place

-- Where a round of the loop leaves a thread.
abbrev pub after_rdlock : RwPc → RwRound → RwState × RwPc
after_rdlock p (rw_waits s) = (s, record p { place = sleeping false })
after_rdlock p (rw_returns code s) =
    (s, record p { place = outside; reads = if code == 0 then p.reads + 1 else p.reads })

abbrev pub after_wrlock : RwPc → RwRound → RwState × RwPc
after_wrlock p (rw_waits s) = (s, record p { place = sleeping true })
after_wrlock p (rw_returns code s) =
    (s, record p { place = outside; writes = if code == 0 then p.writes + 1 else p.writes })

-- A thread that holds the write lock gives it back, any other a read lock.
abbrev pub after_unlock : RwPc → RwUnlocked → RwState × RwPc
after_unlock p u = (
  u.state,
  if not (u.code == 0) then p else record {
    reads = if p.writes == 0 then p.reads - 1 else p.reads;
    writes = p.writes - 1;
    place = if u.notifies then notifying else outside;
  },
)

-- `notify_all` ends every wait.
abbrev pub wake_place : Place → Place
wake_place (sleeping w) = woken w
wake_place outside = outside
wake_place (woken w) = woken w
wake_place notifying = notifying

abbrev pub wake_all : (ℕ → RwPc) → ℕ → RwPc
wake_all f j = record { reads = (f j).reads; writes = (f j).writes; place = wake_place (f j).place }

pub record RwSystem : Type 0 where
  pub lock : RwState
  pub pc : ℕ → RwPc

abbrev pub rw_move : RwSystem → Thread → RwState × RwPc → RwSystem
rw_move s i (l, p) = record { lock = l; pc = update s.pc i p }

abbrev pub at_place : RwPc → Place → RwPc
at_place p w = record p { place = w }

-- One atomic step. A wait may end at any time (`spurious`), as a condition variable allows.
pub data RwStep (n : ℕ) (s : RwSystem) : RwSystem → Type 0 where
  call_rdlock :
      (i : ℕ) (try_only : Bool)
      → i < n
      → (s.pc i).place ≡ outside
      → RwStep n s (rw_move s i (after_rdlock (s.pc i) (rdlock_round try_only false i s.lock)))
  resume_rdlock :
      (i : ℕ)
      → i < n
      → (s.pc i).place ≡ woken false
      → RwStep n s (rw_move s i (after_rdlock (s.pc i) (rdlock_round false true i s.lock)))
  call_wrlock :
      (i : ℕ) (try_only : Bool)
      → i < n
      → (s.pc i).place ≡ outside
      → RwStep n s (rw_move s i (after_wrlock (s.pc i) (wrlock_round try_only false i s.lock)))
  resume_wrlock :
      (i : ℕ)
      → i < n
      → (s.pc i).place ≡ woken true
      → RwStep n s (rw_move s i (after_wrlock (s.pc i) (wrlock_round false true i s.lock)))
  spurious :
      (i : ℕ) (w : Bool)
      → i < n
      → (s.pc i).place ≡ sleeping w
      → RwStep n s (rw_move s i (s.lock, at_place (s.pc i) (woken w)))
  call_unlock :
      (i : ℕ)
      → i < n
      → (s.pc i).place ≡ outside
      → RwStep n s (rw_move s i (after_unlock (s.pc i) (rwlock_unlock_internal i s.lock)))
  notify_all :
      (i : ℕ)
      → i < n
      → (s.pc i).place ≡ notifying
      → RwStep n s
          (record { lock = s.lock; pc = wake_all (update s.pc i (at_place (s.pc i) outside)) })

abbrev pub rw_init : RwSystem
rw_init = record { lock = idle; pc = λ _. record { reads = 0; writes = 0; place = outside } }

pub data RwReach (n : ℕ) : RwSystem → Type 0 where
  rw_start : RwReach n rw_init
  rw_later : {s t : RwSystem} → RwReach n s → RwStep n s t → RwReach n t
