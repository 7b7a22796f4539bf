-- ===== src/Pthread/Rwlock/Calls.antt =====
-- src/pthread.rs: the exported read-write lock functions over the registry, which maps the address of
-- a lock to its state. A null pointer is `none`. Nothing else runs between the look-up of a state and
-- its use here; `System` has the interleavings of the internal operations on one state.
use rlibc.Common.{ℕ, ◌≡◌, true, false, Option, none, some, ◌==◌, if◌then◌else◌, arith}
use rlibc.Common.Threads.{update}
use rlibc.Errno.{einval, ebusy}
use rlibc.Pthread.{Thread}
use rlibc.Pthread.Rwlock.{
  RwState, idle, RwRound, rw_returns, rw_waits, rdlock_round, wrlock_round, RwUnlocked,
  rwlock_unlock_internal, rwlock_mark_destroyed,
}

abbrev pub Registry : Type 0
Registry = ℕ → Option RwState

abbrev pub no_locks : Registry
no_locks _ = none

-- What a lock call does: it returns a code, or it waits on the condition variable.
pub data RwCalled : Type 0 where
  rw_done : ℕ → Registry → RwCalled
  rw_blocked : Registry → RwCalled

unfoldable pub rwlock_init : Option ℕ → Registry → ℕ × Registry
rwlock_init none registry = (einval, registry)
rwlock_init (some key) registry = elim (registry key) [
  | none ↦ (0, update registry key (some idle))
  | some _ ↦ (ebusy, registry)
]

-- A state that is not marked is as it was.
abbrev remove_marked : ℕ → RwUnlocked → Registry → ℕ × Registry
remove_marked key marked registry =
    if marked.code == 0 then (0, update registry key none) else (marked.code, registry)

unfoldable pub rwlock_destroy : Option ℕ → Registry → ℕ × Registry
rwlock_destroy none registry = (einval, registry)
rwlock_destroy (some key) registry = elim (registry key) [
  | none ↦ (einval, registry)
  | some s ↦ remove_marked key (rwlock_mark_destroyed s) registry
]

abbrev called : ℕ → RwRound → Registry → RwCalled
called key (rw_returns code s) registry = rw_done code (update registry key (some s))
called key (rw_waits s) registry = rw_blocked (update registry key (some s))

-- `rwlock_state_from_raw`, and then a first round of the loop.
abbrev lock_by : (RwState → RwRound) → Option ℕ → Registry → RwCalled
lock_by round none registry = rw_done einval registry
lock_by round (some key) registry = elim (registry key) [
  | none ↦ rw_done einval registry
  | some s ↦ called key (round s) registry
]

unfoldable pub rwlock_rdlock : Thread → Option ℕ → Registry → RwCalled
rwlock_rdlock current = lock_by (rdlock_round false false current)

unfoldable pub rwlock_tryrdlock : Thread → Option ℕ → Registry → RwCalled
rwlock_tryrdlock current = lock_by (rdlock_round true false current)

unfoldable pub rwlock_wrlock : Thread → Option ℕ → Registry → RwCalled
rwlock_wrlock current = lock_by (wrlock_round false false current)

unfoldable pub rwlock_trywrlock : Thread → Option ℕ → Registry → RwCalled
rwlock_trywrlock current = lock_by (wrlock_round true false current)

unfoldable pub rwlock_unlock : Thread → Option ℕ → Registry → ℕ × Registry
rwlock_unlock current none registry = (einval, registry)
rwlock_unlock current (some key) registry = elim (registry key) [
  | none ↦ (einval, registry)
  | some s ↦
      (let u = rwlock_unlock_internal current s in (u.code, update registry key (some u.state)))
]

-- `pthread_rwlock_init` at an address without a lock sets an idle lock up there and nowhere else.
-- It cannot then be set up once more; `pthread_rwlock_destroy` takes it out again and leaves
-- every other address as it was before. Where there is no lock, every call but
-- `pthread_rwlock_init` returns `EINVAL` and changes nothing.
pub rwlock_lifecycle :
    (key : ℕ) (registry : Registry) (current : Thread)
    → registry key ≡ none
    → ((rwlock_init (some key) registry) ≡ (0, update registry key (some idle)))
      × (rwlock_init (some key) (update registry key (some idle))
          ≡ (ebusy, update registry key (some idle)))
      × ((rwlock_destroy (some key) (update registry key (some idle))).0 ≡ 0)
      × ((j : ℕ) → (rwlock_destroy (some key) (update registry key (some idle))).1 j ≡ registry j)
      × (rwlock_destroy (some key) registry ≡ (einval, registry))
      × (rwlock_rdlock current (some key) registry ≡ rw_done einval registry)
      × (rwlock_tryrdlock current (some key) registry ≡ rw_done einval registry)
      × (rwlock_wrlock current (some key) registry ≡ rw_done einval registry)
      × (rwlock_trywrlock current (some key) registry ≡ rw_done einval registry)
      × (rwlock_unlock current (some key) registry ≡ (einval, registry))
unfolding rwlock_init rwlock_destroy rwlock_mark_destroyed rwlock_rdlock rwlock_tryrdlock
    rwlock_wrlock rwlock_trywrlock rwlock_unlock
rwlock_lifecycle key registry current h = (
  ground arith,
  ground arith,
  ground arith,
  λ j. ground arith,
  ground arith,
  ground arith,
  ground arith,
  ground arith,
  ground arith,
  ground arith,
)
