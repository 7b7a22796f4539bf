-- ===== src/Env/Refine.antt =====
-- src/stdlib/env_mut.rs and src/stdlib/env_core.rs: the exported functions do to the environment what
-- their documentation promises of the map from names to variables.
pub mod Writes
pub mod Run
use rlibc.Common.{
  ℕ, ◌≡◌, refl, sym, ◌∙◌, ap, subst, fun_ext, ◌⊎◌, inl, inr, Bool, true, false, not, ◌&&◌, ◌||◌,
  Option, none, some, List, [], ◌∷◌, ◌==◌, if◌then◌else◌, arith, Option-cases, Bool-cases,
}
use rlibc.Common.Int.{ℤ, pos, negsuc, eqb_ℤ}
use rlibc.Common.Bytes.{Bytes, eqb_bytes, eqb_bytes-eq, eqb_bytes_refl}
use rlibc.Errno.{einval}
use rlibc.Env.{Environment, publish, split_entry, contains_name, set_name_value, remove_name, clear}
use rlibc.Env.Host.{Host, contains_byte, is_empty, ensure_initialized}
use rlibc.Env.Aliases.{
  Buffers, is_none, lookup_putenv_alias_value, remove_putenv_alias,
  remove_putenv_aliases_for_name_or_entry, rebind_putenv_alias, drop_renamed,
}
use rlibc.Env.Calls.{
  World, fail_with_errno, invalid_name, read_c_string, existed_before, setenv, unsetenv, put_value,
  put_removal, putenv, clearenv, find_value, lookup_environ_value, look_up, answer_or, getenv,
}
use rlibc.Env.Spec.{
  Variable, owned, aliased, Variables, Promised, bind, forget_buffer, value_of, settle, Call, set,
  unset, put, clear_all, get, write, Answer, code, value, no_answer, store, refused, accepted,
  promise_set, promise_put, promise, status, looked_up, perform, answers,
}
use rlibc.Env.Entries.{contains_name-find_value}
use rlibc.Env.Started.{
  IsStarted, IsKept, owned_at, alias_at, ensure_initialized_again, ensure_initialized-IsStarted,
  remove_name-IsStarted, set_name_value-IsStarted, remove_putenv_alias-IsStarted,
}
use rlibc.Env.View.{variables, IsLooked, lookup-IsLooked, variables-set, variables-unset}
use rlibc.Env.View.Put.{IsPut, variables-IsPut}
use rlibc.Env.View.Put.Removal.{removal-IsPut}

-- What a state stands for; before the first snapshot, what the snapshot will hold.
abbrev pub shown : Host → World → Promised
shown host w = record {
  variables = variables (ensure_initialized host w.env);
  buffers = w.buffers;
  errno = w.errno;
}

-- A call answers and changes the state as promised.
pub record IsPromised (host : Host) (p : Answer × Promised) (r : Answer × World) : Type 0 where
  pub answer : r.0 ≡ p.0
  pub state : shown host r.1 ≡ p.1
  pub kept : IsKept r.1.env

-- A call whose new environment is started.
pub done_with :
    (host : Host) (a : Answer) (m : Variables) (w : World)
    → IsStarted w.env
    → variables w.env ≡ m
    → IsPromised host (a, record { variables = m; buffers = w.buffers; errno = w.errno }) (a, w)
done_with host a m w s h = record {
  answer = refl;
  state =
      ap (λ (v : Variables). record { variables = v; buffers = w.buffers; errno = w.errno })
        (ap variables (ensure_initialized_again host w.env s) ∙ h);
  kept = inl s;
}

-- A call that is refused.
pub refused_with :
    (host : Host) (w : World)
    → IsKept w.env
    → IsPromised host (refused (shown host w)) (status (fail_with_errno einval w))
refused_with host w k = record { answer = refl; state = refl; kept = k }

-- The same, once the first snapshot is taken.
refused_started :
    (host : Host) (w : World)
    → IsKept w.env
    → IsPromised host
        (refused (shown host w))
        (status (fail_with_errno einval (record w { env = ensure_initialized host w.env })))
refused_started host w k =
    let s = ensure_initialized-IsStarted host w.env k in
    record {
      answer = refl;
      state =
          ap (λ (v : Variables). record { variables = v; buffers = w.buffers; errno = einval })
            (ap variables (ensure_initialized_again host (ensure_initialized host w.env) s));
      kept = inl s;
    }

pub valid_name : (n : Bytes) → invalid_name n ≡ false → contains_byte b'=' n ≡ false
valid_name n h = ground arith

pub unset-IsPromised :
    (host : Host) (n : Bytes) (w : World)
    → IsKept w.env
    → IsPromised host (promise (unset (some n)) (shown host w)) (perform host (unset (some n)) w)
unfolding promise perform unsetenv
unset-IsPromised host n w k =
    let e = ensure_initialized host w.env in
    let s = ensure_initialized-IsStarted host w.env k in
    elim (Bool-cases (invalid_name n)) [
      | inl h ↦ rw h (refused_with host w k)
      | inr h ↦ rw h (
          done_with host (code (pos 0)) (bind n none (variables e))
            (record w { env = remove_putenv_alias n (remove_name n e) })
            (remove_putenv_alias-IsStarted n (remove_name n e) (remove_name-IsStarted n e s))
            (variables-unset n e s))
    ]

pub put_value-IsPromised :
    (host : Host) (string : ℕ) (n v : Bytes) (w : World)
    → IsKept w.env
    → IsPromised host
        (if invalid_name n
          then refused (shown host w)
          else accepted
              (bind n (some (aliased string)) (forget_buffer string (shown host w).variables))
              (shown host w))
        (status (put_value string n v (record w { env = ensure_initialized host w.env })))
unfolding put_value
put_value-IsPromised host string n v w k =
    let e = ensure_initialized host w.env in
    let s = ensure_initialized-IsStarted host w.env k in
    elim (Bool-cases (invalid_name n)) [
      | inl h ↦ rw h (refused_started host w k)
      | inr h ↦
          let q = variables-IsPut w.buffers n v string e s (valid_name n h) in
          rw h (done_with host (code (pos 0)) _ (record w { env = _ }) q.started q.shown)
    ]

pub put_removal-IsPromised :
    (host : Host) (string : ℕ) (n : Bytes) (w : World)
    → IsKept w.env
    → IsPromised host
        (if invalid_name n
          then refused (shown host w)
          else accepted
              (bind n none (forget_buffer string (shown host w).variables))
              (shown host w))
        (status (put_removal string n (record w { env = ensure_initialized host w.env })))
unfolding put_removal
put_removal-IsPromised host string n w k =
    let e = ensure_initialized host w.env in
    let s = ensure_initialized-IsStarted host w.env k in
    elim (Bool-cases (invalid_name n)) [
      | inl h ↦ rw h (refused_started host w k)
      | inr h ↦
          let q = removal-IsPut w.buffers n string e s in
          rw h (done_with host (code (pos 0)) _ (record w { env = _ }) q.started q.shown)
    ]
