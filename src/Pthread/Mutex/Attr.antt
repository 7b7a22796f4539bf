-- ===== src/Pthread/Mutex/Attr.antt =====
-- src/pthread.rs: mutex attribute objects. A pointer is null (`none`) or points to an object.
use rlibc.Common.{
  ℕ, ◌≡◌, refl, Bool, false, not, ◌&&◌, ◌||◌, Option, none, some, if◌then◌else◌, Bool-cases, inl,
  inr,
}
use rlibc.Common.Int.{ℤ, pos, eqb_ℤ}
use rlibc.Errno.{einval}
use rlibc.Pthread.{process_private, process_shared}
use rlibc.Pthread.Mutex.{mutex_normal, mutex_recursive, mutex_errorcheck}

pub record MutexAttr : Type 0 where
  pub mutex_type : ℤ
  pub pshared : ℤ
  pub initialized : ℤ

-- An error code with what the pointer leads to after the call.
abbrev pub Ptr : Type 0 → Type 0
Ptr A = Option A

abbrev pub validate_mutex_type : ℤ → Bool
validate_mutex_type type =
    eqb_ℤ type mutex_normal || eqb_ℤ type mutex_recursive || eqb_ℤ type mutex_errorcheck

-- Neither private nor shared.
abbrev pub bad_pshared : ℤ → Bool
bad_pshared p = not (eqb_ℤ p process_private) && not (eqb_ℤ p process_shared)

abbrev pub uninitialized : MutexAttr → Bool
uninitialized a = eqb_ℤ a.initialized (pos 0)

pub mutexattr_init : Ptr MutexAttr → ℕ × Ptr MutexAttr
mutexattr_init none = (einval, none)
mutexattr_init (some a) =
    (0, some (record { mutex_type = mutex_normal; pshared = process_private; initialized = pos 1 }))

pub mutexattr_destroy : Ptr MutexAttr → ℕ × Ptr MutexAttr
mutexattr_destroy none = (einval, none)
mutexattr_destroy (some a) = (0, some (record a { initialized = pos 0 }))

-- The second pointer is where the answer goes.
pub mutexattr_gettype : Ptr MutexAttr → Ptr ℤ → ℕ × Ptr ℤ
mutexattr_gettype none out = (einval, out)
mutexattr_gettype (some a) none = (einval, none)
mutexattr_gettype (some a) (some x) =
    if uninitialized a then (einval, some x) else (0, some a.mutex_type)

pub mutexattr_settype : Ptr MutexAttr → ℤ → ℕ × Ptr MutexAttr
mutexattr_settype none type = (einval, none)
mutexattr_settype (some a) type =
    if not (validate_mutex_type type)
    then (einval, some a)
    else if uninitialized a
    then (einval, some a)
    else (0, some (record a { mutex_type = type }))

pub mutexattr_getpshared : Ptr MutexAttr → Ptr ℤ → ℕ × Ptr ℤ
mutexattr_getpshared none out = (einval, out)
mutexattr_getpshared (some a) none = (einval, none)
mutexattr_getpshared (some a) (some x) =
    if uninitialized a then (einval, some x) else (0, some a.pshared)

pub mutexattr_setpshared : Ptr MutexAttr → ℤ → ℕ × Ptr MutexAttr
mutexattr_setpshared none p = (einval, none)
mutexattr_setpshared (some a) p =
    if uninitialized a
    then (einval, some a)
    else if bad_pshared p
    then (einval, some a)
    else (0, some (record a { pshared = p }))

-- On an initialized object: a type that `settype` accepts is what `gettype` then reports, one that it
-- refuses changes nothing, and the sharing is kept.
pub gettype-settype :
    (a : MutexAttr) (type x : ℤ)
    → uninitialized a ≡ false
    → ((mutexattr_settype (some a) type).0 ≡ (if validate_mutex_type type then 0 else einval))
      × (mutexattr_gettype (mutexattr_settype (some a) type).1 (some x)
          ≡ (0, some (if validate_mutex_type type then type else a.mutex_type)))
      × (mutexattr_getpshared (mutexattr_settype (some a) type).1 (some x) ≡ (0, some a.pshared))
unfolding mutexattr_settype mutexattr_gettype mutexattr_getpshared
gettype-settype a type x h = elim (Bool-cases (validate_mutex_type type)) [
  | inl v ↦ rw (v, h) (rw h (refl, refl, refl))
  | inr v ↦ rw (v, h) (refl, refl, refl)
]

-- The same of the sharing, where `setpshared` accepts private and shared.
pub getpshared-setpshared :
    (a : MutexAttr) (p x : ℤ)
    → uninitialized a ≡ false
    → ((mutexattr_setpshared (some a) p).0 ≡ (if bad_pshared p then einval else 0))
      × (mutexattr_getpshared (mutexattr_setpshared (some a) p).1 (some x)
          ≡ (0, some (if bad_pshared p then a.pshared else p)))
      × (mutexattr_gettype (mutexattr_setpshared (some a) p).1 (some x) ≡ (0, some a.mutex_type))
unfolding mutexattr_setpshared mutexattr_gettype mutexattr_getpshared
getpshared-setpshared a p x h = elim (Bool-cases (bad_pshared p)) [
  | inl v ↦ simp (v, h) (refl, refl, refl)
  | inr v ↦ simp (v, h) (refl, refl, refl)
]
