-- ===== src/Pthread/Mutex/Calls.antt =====
-- src/pthread.rs: the exported mutex functions. A pointer is null (`none`) or points to a mutex object,
-- whose own pointer is null where it is not initialized.
use rlibc.Common.{
  ℕ, ◌≡◌, refl, Bool, true, false, not, ◌||◌, Option, none, some, ◌==◌, if◌then◌else◌,
}
use rlibc.Common.Int.{ℤ}
use rlibc.Errno.{einval, ebusy}
use rlibc.Pthread.{Thread, process_private}
use rlibc.Pthread.Mutex.{
  LockState, unlocked, Round, returns, waits, lock_round, mutex_unlock_internal, mutex_normal,
}
use rlibc.Pthread.Mutex.Attr.{MutexAttr, Ptr, validate_mutex_type, bad_pshared, uninitialized}

-- `PthreadMutexState`
pub record MutexState : Type 0 where
  pub mutex_type : ℤ
  pub lock_state : LockState

-- `pthread_mutex_t`
pub record Mutex : Type 0 where
  pub state : Option MutexState

-- What a call does: it returns a code, or it waits on the condition variable.
pub data Called : Type 0 where
  done : ℕ → Ptr Mutex → Called
  blocked : Ptr Mutex → Called

abbrev fresh : ℤ → MutexState
fresh type = record { mutex_type = type; lock_state = unlocked }

-- The end of `pthread_mutex_init`, with the type and the sharing that it has found.
abbrev init_with : Mutex → ℤ → ℤ → ℕ × Ptr Mutex
init_with m type pshared = if bad_pshared pshared then (einval, some m) else elim m.state [
  | some _ ↦ (ebusy, some m)
  | none ↦ (0, some (record { state = some (fresh type) }))
]

pub mutex_init : Ptr Mutex → Ptr MutexAttr → ℕ × Ptr Mutex
mutex_init none attr = (einval, none)
mutex_init (some m) none = init_with m mutex_normal process_private
mutex_init (some m) (some a) =
    if uninitialized a || not (validate_mutex_type a.mutex_type)
    then (einval, some m)
    else init_with m a.mutex_type a.pshared

abbrev is_some : Option Thread → Bool
is_some none = false
is_some (some _) = true

abbrev pub is_busy : LockState → Bool
is_busy s = is_some s.owner || not (s.waiter_count == 0) || not (s.cond_waiter_count == 0)

unfoldable pub mutex_destroy : Ptr Mutex → ℕ × Ptr Mutex
mutex_destroy none = (einval, none)
mutex_destroy (some m) = elim m.state [
  | none ↦ (einval, some m)
  | some st ↦ if is_busy st.lock_state then (ebusy, some m) else (0, some (record { state = none }))
]

abbrev with_lock : MutexState → LockState → Ptr Mutex
with_lock st s = some (record { state = some (record st { lock_state = s }) })

abbrev called_round : MutexState → Round → Called
called_round st (returns code s) = done code (with_lock st s)
called_round st (waits s) = blocked (with_lock st s)

abbrev lock_with : Bool → Thread → Ptr Mutex → Called
lock_with try_only current none = done einval none
lock_with try_only current (some m) = elim m.state [
  | none ↦ done einval (some m)
  | some st ↦ called_round st (lock_round st.mutex_type try_only current st.lock_state)
]

pub mutex_lock : Thread → Ptr Mutex → Called
mutex_lock = lock_with false

pub mutex_trylock : Thread → Ptr Mutex → Called
mutex_trylock = lock_with true

pub mutex_unlock : Thread → Ptr Mutex → Called
mutex_unlock current none = done einval none
mutex_unlock current (some m) = elim m.state [
  | none ↦ done einval (some m)
  | some st ↦
      (let u = mutex_unlock_internal st.mutex_type false current st.lock_state in
        done u.code (with_lock st u.state))
]

abbrev pub blank : Mutex
blank = record { state = none }

abbrev pub set_up : ℤ → Ptr Mutex
set_up type = some (record { state = some (fresh type) })

mutex_init-blank :
    (a : MutexAttr)
    → uninitialized a ≡ false
    → validate_mutex_type a.mutex_type ≡ true
    → bad_pshared a.pshared ≡ false
    → mutex_init (some blank) (some a) ≡ (0, set_up a.mutex_type)
unfolding mutex_init
mutex_init-blank a ready known shared = simp (ready, known, shared)

-- `pthread_mutex_init` with good attributes sets a blank object up, unlocked and with the type of the
-- attributes. It cannot then be set up once more, and `pthread_mutex_destroy` makes it blank again.
-- On a blank object every call but `pthread_mutex_init` is refused with `EINVAL`.
pub mutex_lifecycle :
    (a : MutexAttr) (current : Thread)
    → uninitialized a ≡ false
    → validate_mutex_type a.mutex_type ≡ true
    → bad_pshared a.pshared ≡ false
    → (mutex_init (some blank) (some a) ≡ (0, set_up a.mutex_type))
      × (mutex_init (set_up a.mutex_type) none ≡ (ebusy, set_up a.mutex_type))
      × (mutex_destroy (set_up a.mutex_type) ≡ (0, some blank))
      × (mutex_destroy (some blank) ≡ (einval, some blank))
      × (mutex_lock current (some blank) ≡ done einval (some blank))
      × (mutex_trylock current (some blank) ≡ done einval (some blank))
      × (mutex_unlock current (some blank) ≡ done einval (some blank))
unfolding mutex_init mutex_destroy mutex_lock mutex_trylock mutex_unlock
mutex_lifecycle a current ready known shared =
    (mutex_init-blank a ready known shared, refl, refl, refl, refl, refl, refl)
