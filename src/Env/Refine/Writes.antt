-- ===== src/Env/Refine/Writes.antt =====
-- src/stdlib/env_mut.rs: `putenv`, `clearenv` and `setenv` against the promise.
use rlibc.Common.{
  ℕ, ◌≡◌, refl, ◌∙◌, fun_ext, inl, inr, true, false, not, ◌&&◌, Option, none, some, [], ◌==◌,
  if◌then◌else◌, arith, Option-cases, Bool-cases,
}
use rlibc.Common.Int.{ℤ, pos, eqb_ℤ}
use rlibc.Common.Bytes.{Bytes}
use rlibc.Errno.{einval}
use rlibc.Env.{Environment, publish, split_entry, set_name_value, clear}
use rlibc.Env.Host.{Host, ensure_initialized}
use rlibc.Env.Aliases.{Buffers, is_none, lookup_putenv_alias_value, remove_putenv_alias}
use rlibc.Env.Calls.{
  World, fail_with_errno, invalid_name, existed_before, setenv, putenv, clearenv, find_value,
}
use rlibc.Env.Spec.{
  Variable, owned, Variables, bind, value_of, settle, set, put, clear_all, code, accepted,
  promise_set, promise_put, promise, status, perform,
}
use rlibc.Env.Entries.{contains_name-find_value}
use rlibc.Env.Started.{
  IsStarted, IsKept, ensure_initialized-IsStarted, set_name_value-IsStarted,
  remove_putenv_alias-IsStarted,
}
use rlibc.Env.View.{variables, lookup-IsLooked, variables-set}
use rlibc.Env.Bindings.{alias_of, AreUnique}
use rlibc.Env.Refine.{
  shown, IsPromised, done_with, refused_with, valid_name, put_value-IsPromised,
  put_removal-IsPromised,
}

pub put-IsPromised :
    (host : Host) (string : ℕ) (w : World)
    → IsKept w.env
    → IsPromised host (promise (put string) (shown host w)) (perform host (put string) w)
unfolding promise perform putenv promise_put
put-IsPromised host string w k = elim (Bool-cases (string == 0)) [
  | inl h ↦ rw (promise, putenv, h) (refused_with host w k)
  | inr h ↦
      let bytes = w.buffers string in
      elim (Option-cases (split_entry bytes)) [
        | inl g ↦
            rw (promise, putenv, h, promise_put, g) (put_removal-IsPromised host string bytes w k)
        | inr ((n, v), g) ↦
            rw (promise, putenv, h, promise_put, g) (put_value-IsPromised host string n v w k)
      ]
]

cleared-IsStarted : (e : Environment) → IsStarted e → IsStarted (record (clear e) { aliases = [] })
unfolding clear publish AreUnique
cleared-IsStarted e s = record { unique = tt; initialized = s.initialized; published = refl }

variables-cleared : (e : Environment) → variables (record (clear e) { aliases = [] }) ≡ (λ n. none)
unfolding clear publish find_value alias_of
variables-cleared e = refl

pub clear-IsPromised :
    (host : Host) (w : World)
    → IsKept w.env
    → IsPromised host (promise clear_all (shown host w)) (perform host clear_all w)
unfolding promise perform clearenv
clear-IsPromised host w k =
    let e = ensure_initialized host w.env in
    done_with host (code (pos 0)) (λ n. none) (record w { env = record (clear e) { aliases = [] } })
      (cleared-IsStarted e (ensure_initialized-IsStarted host w.env k)) (variables-cleared e)

-- Whether `setenv` finds the variable, and what it leaves.
existed_lem :
    (host : Host) (overwrite : ℤ) (buffers : Buffers) (n : Bytes) (e : Environment)
    → IsStarted e
    → (let r = existed_before overwrite buffers n e in
        IsStarted r.1
        × (r.0 ≡ (eqb_ℤ overwrite (pos 0) && not (is_none (value_of buffers n (variables e n)))))
        × (variables r.1
            ≡ (if eqb_ℤ overwrite (pos 0) then settle buffers n (variables e) else variables e)))
unfolding existed_before
existed_lem host overwrite buffers n e s =
    let l = lookup-IsLooked buffers n e s in
    elim (Bool-cases (eqb_ℤ overwrite (pos 0))) [
      | inl h ↦ (
        ground (arith, l.started),
        ground (
          arith,
          l.found,
          contains_name-find_value (lookup_putenv_alias_value buffers n e).1.entries n,
        ),
        ground (arith, l.settled),
      )
      | inr h ↦ (ground (arith, s), ground arith, ground arith)
    ]

-- When `overwrite` is 0 and the variable is found, its buffer is not stale.
settle_found :
    (buffers : Buffers) (n : Bytes) (m : Variables)
    → is_none (value_of buffers n (m n)) ≡ false
    → settle buffers n m ≡ m
settle_found buffers n m h = rw h

-- A stale variable may as well be forgotten before it gets a value.
bind-settle :
    (buffers : Buffers) (n : Bytes) (v : Option Variable) (m : Variables)
    → bind n v (settle buffers n m) ≡ bind n v m
bind-settle buffers n v m = fun_ext λ k. ground arith

set_refused :
    (host : Host) (n v : Bytes) (overwrite : ℤ) (w : World)
    → invalid_name n ≡ true
    → perform host (set (some n) (some v) overwrite) w ≡ status (fail_with_errno einval w)
unfolding perform setenv
set_refused host n v overwrite w h = rw h

-- `setenv` with a valid name, from its test on.
set_one :
    (host : Host) (n v : Bytes) (overwrite : ℤ) (w : World)
    → IsKept w.env
    → invalid_name n ≡ false
    → perform host (set (some n) (some v) overwrite) w ≡ (
        let r = existed_before overwrite w.buffers n (ensure_initialized host w.env) in
        (
          code (pos 0),
          record w {
            env =
                if eqb_ℤ overwrite (pos 0) && r.0
                then r.1
                else remove_putenv_alias n (set_name_value n v r.1);
          },
        ))
unfolding perform setenv
set_one host n v overwrite w k h =
    let r = existed_before overwrite w.buffers n (ensure_initialized host w.env) in
    rw h (ground arith)

-- The two ways in which `setenv` accepts.
set_accepted :
    (host : Host) (n v : Bytes) (overwrite : ℤ) (w : World)
    → IsKept w.env
    → invalid_name n ≡ false
    → IsPromised host
        (let p = shown host w in
          if eqb_ℤ overwrite (pos 0) && not (is_none (value_of p.buffers n (p.variables n)))
          then accepted p.variables p
          else accepted (bind n (some (owned v)) p.variables) p)
        (perform host (set (some n) (some v) overwrite) w)
set_accepted host n v overwrite w k h =
    let e = ensure_initialized host w.env in
    let m = variables e in
    let r = existed_before overwrite w.buffers n e in
    let x = eqb_ℤ overwrite (pos 0) in
    let (started, found, left) =
      existed_lem host overwrite w.buffers n e (ensure_initialized-IsStarted host w.env k) in
    elim (Bool-cases (x && not (is_none (value_of w.buffers n (m n))))) [
      | inl g ↦
          let g' : (x && r.0) ≡ true = ground arith in
          let left' : variables r.1 ≡ m = ground (arith, settle_found w.buffers n m) in
          rw (set_one host n v overwrite w k h, g, g')
            (done_with host (code (pos 0)) m (record w { env = r.1 }) started left')
      | inr g ↦
          let g' : (x && r.0) ≡ false = ground arith in
          let left' : bind n (some (owned v)) (variables r.1) ≡ bind n (some (owned v)) m =
            ground (arith, bind-settle w.buffers n (some (owned v)) m) in
          rw (set_one host n v overwrite w k h, g, g')
            (done_with host (code (pos 0)) (bind n (some (owned v)) m)
              (record w { env = remove_putenv_alias n (set_name_value n v r.1) })
              (remove_putenv_alias-IsStarted n (set_name_value n v r.1)
                (set_name_value-IsStarted n v r.1 started))
              (variables-set n v r.1 started (valid_name n h) ∙ left'))
    ]

pub set-IsPromised :
    (host : Host) (n v : Bytes) (overwrite : ℤ) (w : World)
    → IsKept w.env
    → IsPromised host
        (promise (set (some n) (some v) overwrite) (shown host w))
        (perform host (set (some n) (some v) overwrite) w)
unfolding promise promise_set
set-IsPromised host n v overwrite w k = elim (Bool-cases (invalid_name n)) [
  | inl h ↦ rw (h, set_refused host n v overwrite w h) (refused_with host w k)
  | inr h ↦ rw h (set_accepted host n v overwrite w k h)
]
