-- ===== src/Env/View/Put.antt =====
-- src/stdlib/env_mut.rs: the two halves of `putenv` as changes to the map from names to variables.
pub mod Removal
use rlibc.Common.{
  Option-cases, ℕ, suc, ◌+◌, ◌≡◌, refl, sym, ◌∙◌, ap, subst, fun_ext, ◌≢◌, ◌⊎◌, inl, inr, Bool,
  true, false, not, ◌&&◌, ◌||◌, Option, none, some, List, [], ◌∷◌, ◌++◌, ◌==◌, if◌then◌else◌, arith,
}
use rlibc.Common.Bytes.{Bytes, eqb_bytes, eqb_bytes-eq, eqb_bytes_refl, eqb_bytes_comm}
use rlibc.Env.{
  PutEnvAlias, Environment, publish, retain, set_name_value, remove_name, clear,
  remove_owned_name_if_initialized,
}
use rlibc.Env.Host.{Host, contains_byte, ensure_initialized}
use rlibc.Env.Aliases.{
  Buffers, is_none, lookup_putenv_alias_value, remove_putenv_alias, parse_alias_value_ptr,
  remove_putenv_aliases_for_name_or_entry, rebind_putenv_alias, drop_renamed,
}
use rlibc.Env.Calls.{find_value}
use rlibc.Env.Spec.{
  Variable, owned, aliased, Variables, bind, unless_buffer, forget_buffer, value_of, settle,
}
use rlibc.Env.Bindings.{
  alias_of, AreUnique, filtered, alias_of-retain, retain-AreUnique, alias_of-push, push-AreUnique,
  contains_name_of, removed_names_lem,
}
use rlibc.Env.Bindings.Resolve.{value_in, is_stale, lookup_putenv_alias_lem}
use rlibc.Env.Started.{
  IsStarted, alias_at, owned_at, set_name_value-IsStarted, owned_at-set_name_value,
  aliases-set_name_value, remove_name-IsStarted, owned_at-remove_name, aliases-remove_name,
  remove_putenv_alias-IsStarted, alias_at-remove_putenv_alias, entries-remove_putenv_alias,
  remove_owned_lem,
}
use rlibc.Env.Started.Dropped.{IsDropped, drop_renamed_lem}
use rlibc.Env.View.{variables, joined}

-- The aliases that `rebind_putenv_alias` keeps, and those whose names it returns.
kept_at : Bytes → ℕ → Bytes → ℕ → Bool
kept_at m string n a = not (eqb_bytes n m) && not (a == string)

renamed_at : Bytes → ℕ → Bytes → ℕ → Bool
renamed_at m string n a = not (eqb_bytes n m) && (a == string)

-- What the rebinding leaves for the loop over the names.
record IsRebound (m : Bytes) (string : ℕ) (e : Environment) (r : List Bytes × Environment)
    : Type 0 where
  started : IsStarted r.1
  entries : r.1.entries ≡ e.entries
  alias :
      (n : Bytes)
      → alias_at n r.1
        ≡ (if eqb_bytes n m then some string else filtered (kept_at m string) n (alias_at n e))
  names :
      (n : Bytes)
      → contains_name_of n r.0 ≡ not (is_none (filtered (renamed_at m string) n (alias_at n e)))

left_at : Bytes → ℕ → Environment → List PutEnvAlias
left_at m string e = retain (λ a. kept_at m string a.name a.entry_addr) e.aliases

alias_of-left :
    (m : Bytes) (string : ℕ) (e : Environment)
    → IsStarted e
    → (n : Bytes) → alias_of n (left_at m string e) ≡ filtered (kept_at m string) n (alias_at n e)
unfolding left_at
alias_of-left m string e s n = alias_of-retain (kept_at m string) e.aliases n s.unique

left_absent :
    (m : Bytes) (string : ℕ) (e : Environment)
    → IsStarted e
    → alias_of m (left_at m string e) ≡ none
unfolding kept_at
left_absent m string e s =
    ground (arith, alias_of-left m string e s m, eqb_bytes_refl m, Option-cases (alias_at m e))

rebind-IsRebound :
    (m : Bytes) (string : ℕ) (e : Environment)
    → IsStarted e
    → IsRebound m string e (rebind_putenv_alias m string e)
unfolding rebind_putenv_alias kept_at renamed_at left_at publish
rebind-IsRebound m string e s =
    let new : PutEnvAlias = record { name = m; entry_addr = string } in
    let left = left_at m string e in
    let absent = left_absent m string e s in
    record {
      started = record {
        unique =
            push-AreUnique left new (retain-AreUnique (kept_at m string) e.aliases s.unique) absent;
        initialized = s.initialized;
        published = s.published;
      };
      entries = refl;
      alias = λ n. ground (arith, alias_of-push left new n absent, alias_of-left m string e s n);
      names = λ n. removed_names_lem (renamed_at m string) n e.aliases s.unique;
    }

-- The loop over the names finds none of them among the aliases.
renamed_absent :
    (m : Bytes) (string : ℕ) (e : Environment) (r : List Bytes × Environment)
    → IsRebound m string e r
    → (n : Bytes) → contains_name_of n r.0 ≡ true
    → alias_at n r.1 ≡ none
unfolding kept_at renamed_at
renamed_absent m string e r b n h =
    ground (arith, b.alias n, b.names n, Option-cases (alias_at n e))

-- The loop over the names ends in a started environment that stands for the map.
pub record IsPut (buffers : Buffers) (m : Variables) (r : List Bytes × Environment) : Type 0 where
  pub started : IsStarted (drop_renamed buffers r.0 r.1)
  pub shown : variables (drop_renamed buffers r.0 r.1) ≡ m

-- `putenv` of `NAME=VALUE`.
pub variables-IsPut :
    (buffers : Buffers) (m v : Bytes) (string : ℕ) (e : Environment)
    → IsStarted e
    → contains_byte b'=' m ≡ false
    → IsPut buffers
        (bind m (some (aliased string)) (forget_buffer string (variables e)))
        (rebind_putenv_alias m string (set_name_value m v e))
unfolding kept_at renamed_at
variables-IsPut buffers m v string e s h =
    let f = set_name_value m v e in
    let r = rebind_putenv_alias m string f in
    let b = rebind-IsRebound m string f (set_name_value-IsStarted m v e s) in
    let d = drop_renamed_lem buffers r.0 r.1 b.started (renamed_absent m string f r b) in
    record {
      started = d.started;
      shown = fun_ext λ n. ground (
        arith,
        d.aliases,
        d.owned n,
        b.alias n,
        b.names n,
        b.entries,
        owned_at-set_name_value m v n e h,
        aliases-set_name_value m v e,
        Option-cases (alias_at n e),
      );
    }
