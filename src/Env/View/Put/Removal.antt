-- ===== src/Env/View/Put/Removal.antt =====
-- src/stdlib/env_mut.rs: `putenv` of a string without `=`, which removes a variable and those that the
-- buffer was before.
use rlibc.Common.{
  Option-cases, ℕ, ◌≡◌, refl, fun_ext, Bool, true, not, ◌||◌, none, List, ◌==◌, arith,
}
use rlibc.Common.Bytes.{Bytes, eqb_bytes}
use rlibc.Env.{Environment, publish, remove_name}
use rlibc.Env.Aliases.{Buffers, is_none, remove_putenv_aliases_for_name_or_entry}
use rlibc.Env.Spec.{bind, forget_buffer}
use rlibc.Env.Bindings.{
  filtered, alias_of-retain, retain-AreUnique, contains_name_of, removed_names_lem,
}
use rlibc.Env.Started.{
  IsStarted, alias_at, remove_name-IsStarted, owned_at-remove_name, aliases-remove_name,
}
use rlibc.Env.Started.Dropped.{drop_renamed_lem}
use rlibc.Env.View.{variables}
use rlibc.Env.View.Put.{IsPut}

gone_at : Bytes → ℕ → Bytes → ℕ → Bool
gone_at m string n a = eqb_bytes n m || (a == string)

record IsRemoved (m : Bytes) (string : ℕ) (e : Environment) (r : List Bytes × Environment)
    : Type 0 where
  started : IsStarted r.1
  entries : r.1.entries ≡ e.entries
  alias :
      (n : Bytes) → alias_at n r.1 ≡ filtered (λ k a. not (gone_at m string k a)) n (alias_at n e)
  names :
      (n : Bytes)
      → contains_name_of n r.0 ≡ not (is_none (filtered (gone_at m string) n (alias_at n e)))

remove-IsRemoved :
    (m : Bytes) (string : ℕ) (e : Environment)
    → IsStarted e
    → IsRemoved m string e (remove_putenv_aliases_for_name_or_entry m string e)
unfolding remove_putenv_aliases_for_name_or_entry gone_at publish
remove-IsRemoved m string e s = record {
  started = record {
    unique = retain-AreUnique (λ k a. not (gone_at m string k a)) e.aliases s.unique;
    initialized = s.initialized;
    published = s.published;
  };
  entries = refl;
  alias = λ n. alias_of-retain (λ k a. not (gone_at m string k a)) e.aliases n s.unique;
  names = λ n. removed_names_lem (gone_at m string) n e.aliases s.unique;
}

removed_absent :
    (m : Bytes) (string : ℕ) (e : Environment) (r : List Bytes × Environment)
    → IsRemoved m string e r
    → (n : Bytes) → contains_name_of n r.0 ≡ true
    → alias_at n r.1 ≡ none
removed_absent m string e r b n h =
    ground (arith, b.alias n, b.names n, Option-cases (alias_at n e))

pub removal-IsPut :
    (buffers : Buffers) (m : Bytes) (string : ℕ) (e : Environment)
    → IsStarted e
    → IsPut buffers
        (bind m none (forget_buffer string (variables e)))
        (remove_putenv_aliases_for_name_or_entry m string (remove_name m e))
unfolding gone_at
removal-IsPut buffers m string e s =
    let f = remove_name m e in
    let r = remove_putenv_aliases_for_name_or_entry m string f in
    let b = remove-IsRemoved m string f (remove_name-IsStarted m e s) in
    let d = drop_renamed_lem buffers r.0 r.1 b.started (removed_absent m string f r b) in
    record {
      started = d.started;
      shown = fun_ext λ n. ground (
        arith,
        d.aliases,
        d.owned n,
        b.alias n,
        b.names n,
        b.entries,
        owned_at-remove_name m n e,
        aliases-remove_name m e,
        Option-cases (alias_at n e),
      );
    }
