-- ===== src/Env/Started.antt =====
-- src/stdlib/env_mut.rs: the environment once the snapshot is taken, and each change to it as a change
-- to the alias and to the own value under a name.
pub mod Dropped
use rlibc.Common.{
  ℕ, suc, ◌+◌, ◌<◌, ◌≤◌, ◌≡◌, refl, sym, ◌∙◌, ap, subst, ◌≢◌, ◌⊎◌, inl, inr, Bool, true, false, not,
  ◌&&◌, ◌||◌, Option, none, some, List, [], ◌∷◌, ◌++◌, ◌==◌, if◌then◌else◌, arith, length,
}
use rlibc.Common.Bytes.{Bytes, eqb_bytes, eqb_bytes-eq, eqb_bytes_refl, eqb_bytes_comm}
use rlibc.Env.{
  PutEnvAlias, Environment, publish, retain, env_entry_has_name, set_entries, set_name_value,
  remove_entries, remove_name, clear, remove_owned_name_if_initialized,
}
use rlibc.Env.Host.{Host, contains_byte, ensure_initialized}
use rlibc.Env.Aliases.{
  Buffers, is_none, lookup_putenv_alias_value, remove_putenv_alias,
  remove_putenv_aliases_for_name_or_entry, rebind_putenv_alias, drop_renamed,
}
use rlibc.Env.Calls.{find_value}
use rlibc.Env.Entries.{find_value-set_entries, find_value-remove_entries}
use rlibc.Env.Bindings.{
  alias_of, AreUnique, filtered, alias_of-retain, retain-AreUnique, alias_of-push, push-AreUnique,
  contains_name_of, removed_names_lem,
}
use rlibc.Env.Bindings.Resolve.{value_in, is_stale, lookup_putenv_alias_lem}

-- No two aliases have the same name, and `environ` points at the entries.
pub record IsStarted (e : Environment) : Type 0 where
  pub unique : AreUnique e.aliases
  pub initialized : e.initialized ≡ true
  pub published : e.environ ≡ (publish e).environ

-- Before the snapshot there are no aliases.
abbrev pub IsKept : Environment → Type 0
IsKept e = IsStarted e ⊎ ((e.initialized ≡ false) × (e.aliases ≡ []))

abbrev pub alias_at : Bytes → Environment → Option ℕ
alias_at n e = alias_of n e.aliases

abbrev pub owned_at : Bytes → Environment → Option Bytes
owned_at n e = find_value n e.entries

pub ensure_initialized_again :
    (host : Host) (e : Environment) → IsStarted e → ensure_initialized host e ≡ e
unfolding ensure_initialized
ensure_initialized_again host e s = rw s.initialized

first_snapshot :
    (host : Host) (e : Environment)
    → e.initialized ≡ false
    → e.aliases ≡ []
    → IsStarted (ensure_initialized host e)
unfolding ensure_initialized publish AreUnique
first_snapshot host e i a = rw (i, a) (record { unique = tt; initialized = refl; published = refl })

pub ensure_initialized-IsStarted :
    (host : Host) (e : Environment) → IsKept e → IsStarted (ensure_initialized host e)
ensure_initialized-IsStarted host e (inl s) =
    subst IsStarted (sym (ensure_initialized_again host e s)) s
ensure_initialized-IsStarted host e (inr (i, a)) = first_snapshot host e i a

pub set_name_value-IsStarted :
    (m v : Bytes) (e : Environment) → IsStarted e → IsStarted (set_name_value m v e)
unfolding set_name_value publish
set_name_value-IsStarted m v e s = record {
  unique = s.unique;
  initialized = s.initialized;
  published = refl;
}

pub owned_at-set_name_value :
    (m v n : Bytes) (e : Environment)
    → contains_byte b'=' m ≡ false
    → owned_at n (set_name_value m v e) ≡ (if eqb_bytes n m then some v else owned_at n e)
unfolding set_name_value publish
owned_at-set_name_value m v n e h = find_value-set_entries e.entries m v n h

pub aliases-set_name_value :
    (m v : Bytes) (e : Environment) → (set_name_value m v e).aliases ≡ e.aliases
unfolding set_name_value publish
aliases-set_name_value m v e = refl

length-remove_entries : (m : Bytes) (l : List Bytes) → length (remove_entries m l) ≤ length l
unfolding remove_entries retain
length-remove_entries m [] = omega arith
length-remove_entries m (x ∷ l) = ground (arith, length-remove_entries m l)

remove_entries_same :
    (m : Bytes) (l : List Bytes) → length (remove_entries m l) ≡ length l → remove_entries m l ≡ l
unfolding remove_entries retain
remove_entries_same m [] h = refl
remove_entries_same m (x ∷ l) h = ground (arith, remove_entries_same m l, length-remove_entries m l)

-- `remove_name` publishes when it has to.
pub remove_name-IsStarted :
    (m : Bytes) (e : Environment) → IsStarted e → IsStarted (remove_name m e)
unfolding remove_name publish
remove_name-IsStarted m e s = ground (arith, remove_entries_same m e.entries, s.published)

pub owned_at-remove_name :
    (m n : Bytes) (e : Environment)
    → owned_at n (remove_name m e) ≡ (if eqb_bytes n m then none else owned_at n e)
unfolding remove_name publish
owned_at-remove_name m n e = ground (arith, find_value-remove_entries e.entries m n)

pub aliases-remove_name : (m : Bytes) (e : Environment) → (remove_name m e).aliases ≡ e.aliases
unfolding remove_name publish
aliases-remove_name m e = ground arith

pub remove_putenv_alias-IsStarted :
    (m : Bytes) (e : Environment) → IsStarted e → IsStarted (remove_putenv_alias m e)
unfolding remove_putenv_alias publish
remove_putenv_alias-IsStarted m e s = record {
  unique = retain-AreUnique (λ k _. not (eqb_bytes k m)) e.aliases s.unique;
  initialized = s.initialized;
  published = s.published;
}

pub alias_at-remove_putenv_alias :
    (m n : Bytes) (e : Environment)
    → IsStarted e
    → alias_at n (remove_putenv_alias m e) ≡ (if eqb_bytes n m then none else alias_at n e)
unfolding remove_putenv_alias
alias_at-remove_putenv_alias m n e s =
    ground (arith, alias_of-retain (λ k _. not (eqb_bytes k m)) e.aliases n s.unique)

pub entries-remove_putenv_alias :
    (m : Bytes) (e : Environment) → (remove_putenv_alias m e).entries ≡ e.entries
unfolding remove_putenv_alias
entries-remove_putenv_alias m e = refl

pub remove_owned_lem :
    (m : Bytes) (e : Environment)
    → IsStarted e
    → remove_owned_name_if_initialized m e ≡ remove_name m e
unfolding remove_owned_name_if_initialized
remove_owned_lem m e s = rw s.initialized
