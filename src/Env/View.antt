-- ===== src/Env/View.antt =====
-- src/stdlib/env_mut.rs and src/stdlib/env_core.rs: the map from names to variables that an environment
-- stands for, and each change to the environment as a change to it.
pub mod Put
use rlibc.Common.{
  ℕ, suc, ◌+◌, ◌≡◌, refl, sym, ◌∙◌, ap, subst, fun_ext, ◌≢◌, ◌⊎◌, inl, inr, Bool, true, false, not,
  ◌&&◌, ◌||◌, Option, none, some, List, [], ◌∷◌, ◌++◌, ◌==◌, if◌then◌else◌, arith,
}
use rlibc.Common.Bytes.{Bytes, eqb_bytes, eqb_bytes-eq, eqb_bytes_refl, eqb_bytes_comm}
use rlibc.Env.{
  PutEnvAlias, Environment, publish, retain, set_name_value, remove_name, clear,
  remove_owned_name_if_initialized,
}
use rlibc.Env.Host.{Host, contains_byte, ensure_initialized}
use rlibc.Env.Aliases.{
  Buffers, is_none, lookup_putenv_alias_value, remove_putenv_alias, parse_alias_value_ptr,
  remove_putenv_aliases_for_name_or_entry, rebind_putenv_alias, drop_renamed,
}
use rlibc.Env.Calls.{find_value}
use rlibc.Env.Spec.{
  Variable, owned, aliased, Variables, bind, unless_buffer, forget_buffer, value_of, settle,
}
use rlibc.Env.Bindings.{
  alias_of, AreUnique, filtered, alias_of-retain, retain-AreUnique, alias_of-push, push-AreUnique,
  contains_name_of, removed_names_lem,
}
use rlibc.Env.Bindings.Resolve.{value_in, is_stale, lookup_putenv_alias_lem}
use rlibc.Env.Started.{
  IsStarted, alias_at, owned_at, set_name_value-IsStarted, owned_at-set_name_value,
  aliases-set_name_value, remove_name-IsStarted, owned_at-remove_name, aliases-remove_name,
  remove_putenv_alias-IsStarted, alias_at-remove_putenv_alias, entries-remove_putenv_alias,
  remove_owned_lem,
}
use rlibc.Env.Started.Dropped.{IsDropped, drop_renamed_lem}

-- An alias is what counts, the entry under its name only a copy.
abbrev pub joined : Option ℕ → Option Bytes → Option Variable
joined (some a) value = some (aliased a)
joined none (some v) = some (owned v)
joined none none = none

abbrev pub variables : Environment → Variables
variables e = λ n. joined (alias_at n e) (owned_at n e)

-- `setenv`, once it writes.
pub variables-set :
    (m v : Bytes) (e : Environment)
    → IsStarted e
    → contains_byte b'=' m ≡ false
    → variables (remove_putenv_alias m (set_name_value m v e))
      ≡ bind m (some (owned v)) (variables e)
variables-set m v e s h = fun_ext λ n. ground (
  arith,
  alias_at-remove_putenv_alias m n (set_name_value m v e) (set_name_value-IsStarted m v e s),
  entries-remove_putenv_alias m (set_name_value m v e),
  owned_at-set_name_value m v n e h,
  aliases-set_name_value m v e,
)

-- `unsetenv`
pub variables-unset :
    (m : Bytes) (e : Environment)
    → IsStarted e
    → variables (remove_putenv_alias m (remove_name m e)) ≡ bind m none (variables e)
variables-unset m e s = fun_ext λ n. ground (
  arith,
  alias_at-remove_putenv_alias m n (remove_name m e) (remove_name-IsStarted m e s),
  entries-remove_putenv_alias m (remove_name m e),
  owned_at-remove_name m n e,
  aliases-remove_name m e,
)

-- What a lookup of the alias leaves, and the value that it or the entries then give.
pub record IsLooked (buffers : Buffers) (n : Bytes) (e : Environment)
    (r : Option Bytes × Environment) : Type 0 where
  pub started : IsStarted r.1
  pub settled : variables r.1 ≡ settle buffers n (variables e)
  pub found : (if is_none r.0 then owned_at n r.1 else r.0) ≡ value_of buffers n (variables e n)

looked_lem :
    (buffers : Buffers) (n : Bytes) (e : Environment)
    → IsStarted e
    → IsLooked buffers n e (
      value_in buffers n (alias_at n e),
      if is_stale buffers n (alias_at n e) then remove_name n (remove_putenv_alias n e) else e,
    )
looked_lem buffers n e s =
    let less = remove_putenv_alias-IsStarted n e s in
    record {
      started = ground (arith, remove_name-IsStarted n (remove_putenv_alias n e) less, s);
      settled = fun_ext λ k. grind (
        arith,
        aliases-remove_name n (remove_putenv_alias n e),
        alias_at-remove_putenv_alias n k e s,
        owned_at-remove_name n k (remove_putenv_alias n e),
        entries-remove_putenv_alias n e,
        eqb_bytes-eq,
      );
      found = ground (
        arith,
        aliases-remove_name n (remove_putenv_alias n e),
        alias_at-remove_putenv_alias n n e s,
        owned_at-remove_name n n (remove_putenv_alias n e),
        eqb_bytes_refl n,
      );
    }

pub lookup-IsLooked :
    (buffers : Buffers) (n : Bytes) (e : Environment)
    → IsStarted e
    → IsLooked buffers n e (lookup_putenv_alias_value buffers n e)
lookup-IsLooked buffers n e s =
    subst (IsLooked buffers n e)
      (sym (
        lookup_putenv_alias_lem buffers n e s.unique
        ∙ ap
            (λ d. (
              value_in buffers n (alias_at n e),
              if is_stale buffers n (alias_at n e) then d else e,
            ))
            (remove_owned_lem n (remove_putenv_alias n e) (remove_putenv_alias-IsStarted n e s))))
      (looked_lem buffers n e s)
