-- ===== src/Env/Refine/Run.antt =====
-- src/stdlib/env_mut.rs and src/stdlib/env_core.rs: `getenv`, every call, and every sequence of calls,
-- against the promise.
use rlibc.Common.{
  ◌≡◌, refl, sym, ◌∙◌, ap, fun_ext, inl, inr, Bool, true, false, Option, none, some, List, [], ◌∷◌,
  if◌then◌else◌, arith, Option-cases, Bool-cases,
}
use rlibc.Common.Bytes.{Bytes, eqb_bytes-eq}
use rlibc.Env.{Environment, publish}
use rlibc.Env.Host.{Host, ensure_initialized}
use rlibc.Env.Aliases.{Buffers, is_none, lookup_putenv_alias_value}
use rlibc.Env.Calls.{World, invalid_name, setenv, unsetenv, answer_or, getenv}
use rlibc.Env.Spec.{
  Variables, value_of, settle, Call, set, unset, put, clear_all, get, write, value, promise,
  perform, answers,
}
use rlibc.Env.Started.{
  IsStarted, IsKept, owned_at, alias_at, ensure_initialized_again, ensure_initialized-IsStarted,
}
use rlibc.Env.View.{variables, lookup-IsLooked}
use rlibc.Env.Bindings.{alias_of, AreUnique}
use rlibc.Env.Lookup.{look_up-IsStarted, look_up_first}
use rlibc.Env.Refine.{shown, IsPromised, refused_with, unset-IsPromised}
use rlibc.Env.Bindings.Resolve.{lookup_putenv_alias_lem}
use rlibc.Env.Refine.Writes.{put-IsPromised, clear-IsPromised, set-IsPromised}

answer_or_lem :
    (host : Host) (n : Bytes) (v : Option Bytes) (e : Environment)
    → IsStarted e
    → answer_or host n v e ≡ (if is_none v then owned_at n e else v, e)
answer_or_lem host n none e s = look_up-IsStarted host n e s
answer_or_lem host n (some v) e s = refl

-- Without an alias, a lookup changes nothing.
settle_owned :
    (buffers : Buffers) (n : Bytes) (e : Environment)
    → alias_at n e ≡ none
    → (settle buffers n (variables e) ≡ variables e)
      × (value_of buffers n (variables e n) ≡ owned_at n e)
settle_owned buffers n e h =
    (fun_ext λ k. grind (arith, eqb_bytes-eq), ground (arith, Option-cases (owned_at n e)))

aliases-ensure_initialized :
    (host : Host) (e : Environment) → (ensure_initialized host e).aliases ≡ e.aliases
unfolding ensure_initialized publish
aliases-ensure_initialized host e = ground arith

alias_at_first :
    (host : Host) (n : Bytes) (e : Environment)
    → e.aliases ≡ []
    → (alias_at n e ≡ none) × (alias_at n (ensure_initialized host e) ≡ none)
unfolding alias_of
alias_at_first host n e a = (rw a refl, rw (aliases-ensure_initialized host e, a) refl)

lookup_first :
    (buffers : Buffers) (n : Bytes) (e : Environment)
    → e.aliases ≡ []
    → lookup_putenv_alias_value buffers n e ≡ (none, e)
unfolding alias_of AreUnique
lookup_first buffers n e a = ground (arith, lookup_putenv_alias_lem buffers n e (rw a tt), a)

-- The snapshot is the same when it is taken again.
snapshot_again :
    (host : Host) (e : Environment)
    → IsKept e
    → (b : Bool)
    → ensure_initialized host (if b then ensure_initialized host e else e)
      ≡ ensure_initialized host e
snapshot_again host e k true =
    ensure_initialized_again host (ensure_initialized host e)
      (ensure_initialized-IsStarted host e k)
snapshot_again host e k false = refl

snapshot-IsKept :
    (host : Host) (e : Environment)
    → IsKept e
    → (b : Bool) → IsKept (if b then ensure_initialized host e else e)
snapshot-IsKept host e k true = inl (ensure_initialized-IsStarted host e k)
snapshot-IsKept host e k false = k

-- A lookup that answers with the value of the variable.
found_with :
    (host : Host) (n : Bytes) (w : World) (o : Option Bytes) (e : Environment)
    → IsKept e
    → o ≡ value_of w.buffers n (variables (ensure_initialized host w.env) n)
    → variables (ensure_initialized host e)
      ≡ settle w.buffers n (variables (ensure_initialized host w.env))
    → IsPromised host
        (let m = variables (ensure_initialized host w.env) in
          (
            value (value_of w.buffers n (m n)),
            record (shown host w) { variables = settle w.buffers n m },
          ))
        (value o, record w { env = e })
found_with host n w o e k h g = record {
  answer = ap value h;
  state = ap (λ (v : Variables). record { variables = v; buffers = w.buffers; errno = w.errno }) g;
  kept = k;
}

get-IsPromised :
    (host : Host) (n : Bytes) (w : World)
    → IsKept w.env
    → (let r = lookup_putenv_alias_value w.buffers n w.env in
        let a = answer_or host n r.0 r.1 in
        let m = variables (ensure_initialized host w.env) in
        IsPromised host
          (
            value (value_of w.buffers n (m n)),
            record (shown host w) { variables = settle w.buffers n m },
          )
          (value a.0, record w { env = a.1 }))
get-IsPromised host n w (inl s) =
    let r = lookup_putenv_alias_value w.buffers n w.env in
    let l = lookup-IsLooked w.buffers n w.env s in
    rw (answer_or_lem host n r.0 r.1 l.started) (
      found_with host n w (if is_none r.0 then owned_at n r.1 else r.0) r.1 (inl l.started)
        (l.found
          ∙ ap (λ d. value_of w.buffers n (variables d n))
              (sym (ensure_initialized_again host w.env s)))
        (ap variables (ensure_initialized_again host r.1 l.started)
          ∙ l.settled
          ∙ ap (λ d. settle w.buffers n (variables d))
              (sym (ensure_initialized_again host w.env s))))
get-IsPromised host n w (inr (i, a)) =
    let e = ensure_initialized host w.env in
    let o = settle_owned w.buffers n e (alias_at_first host n w.env a).1 in
    rw (lookup_first w.buffers n w.env a, look_up_first host n w.env i a)
      (found_with host n w (owned_at n e) (if is_none w.env.environ then e else w.env)
        (snapshot-IsKept host w.env (inr (i, a)) (is_none w.env.environ)) (sym o.1)
        (ap variables (snapshot_again host w.env (inr (i, a)) (is_none w.env.environ)) ∙ sym o.0))

get_valid :
    (host : Host) (n : Bytes) (w : World)
    → IsKept w.env
    → IsPromised host (promise (get (some n)) (shown host w)) (perform host (get (some n)) w)
unfolding promise perform getenv
get_valid host n w k = elim (Bool-cases (invalid_name n)) [
  | inl h ↦ rw h (record { answer = refl; state = refl; kept = k })
  | inr h ↦ rw h (get-IsPromised host n w k)
]

-- Every call answers, and changes what the environment stands for, as its documentation promises.
pub perform-IsPromised :
    (host : Host) (c : Call) (w : World)
    → IsKept w.env
    → IsPromised host (promise c (shown host w)) (perform host c w)
unfolding promise perform setenv unsetenv getenv
perform-IsPromised host (set none v overwrite) w k = refused_with host w k
perform-IsPromised host (set (some n) none overwrite) w k = refused_with host w k
perform-IsPromised host (set (some n) (some v) overwrite) w k =
    set-IsPromised host n v overwrite w k
perform-IsPromised host (unset none) w k = refused_with host w k
perform-IsPromised host (unset (some n)) w k = unset-IsPromised host n w k
perform-IsPromised host (put string) w k = put-IsPromised host string w k
perform-IsPromised host clear_all w k = clear-IsPromised host w k
perform-IsPromised host (get none) w k = record { answer = refl; state = refl; kept = k }
perform-IsPromised host (get (some n)) w k = get_valid host n w k
perform-IsPromised host (write string bytes) w k = record { answer = refl; state = refl; kept = k }

-- The answers of `setenv`, `unsetenv`, `putenv`, `clearenv` and `getenv`, in any sequence with
-- writes to the buffers of the callers, are those that a map from names to variables gives, in
-- which a variable has a value of its own or is what a buffer says. This holds from every state
-- in which, once the snapshot is taken, `environ` is what the entries are and no two aliases have
-- the same name, and, before, there is no alias.
pub answers-promise :
    (host : Host) (calls : List Call) (w : World)
    → IsKept w.env
    → answers (perform host) calls w ≡ answers promise calls (shown host w)
unfolding answers
answers-promise host [] w k = refl
answers-promise host (c ∷ l) w k =
    let q = perform-IsPromised host c w k in
    let rest = answers-promise host l (perform host c w).1 q.kept in
    ground (arith, q.answer, q.state, rest)
