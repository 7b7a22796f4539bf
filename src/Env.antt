-- ===== src/Env.antt =====
-- src/stdlib/env_mut.rs and src/stdlib/env_core.rs: the state of the process environment, and what
-- the exported functions (`Calls`) do with it under its lock.
pub mod Host
pub mod Aliases
pub mod Calls
pub mod Spec
pub mod Entries
pub mod Bindings
pub mod Started
pub mod View
pub mod Lookup
pub mod Refine
use rlibc.Common.{
  ℕ, ◌+◌, ◌≡◌, Bool, true, false, not, ◌&&◌, Option, none, some, List, [], ◌∷◌, ◌++◌, ◌==◌,
  if◌then◌else◌, length,
}
use rlibc.Common.Bytes.{Bytes, eqb_bytes}

-- `PutEnvAlias`
pub record PutEnvAlias : Type 0 where
  pub name : Bytes
  pub entry_addr : ℕ

-- `OwnedEnviron` and the two other globals. `environ` is null (`none`), or the entries that it points
-- at; the pointers of `OwnedEnviron` point at its own entries.
pub record Environment : Type 0 where
  pub initialized : Bool
  pub entries : List Bytes
  pub environ : Option (List Bytes)
  pub aliases : List PutEnvAlias

-- The bytes before the first `=`, and those after it.
unfoldable pub split_entry : Bytes → Option (Bytes × Bytes)
split_entry [] = none
split_entry (c ∷ s) =
    let rest = split_entry s in
    if c == b'='
    then some ([], s)
    else elim rest [ none ↦ none | some (name, value) ↦ some (c ∷ name, value) ]

unfoldable pub env_entry_has_name : Bytes → Bytes → Bool
env_entry_has_name entry name_bytes = elim (split_entry entry) [
  | none ↦ false
  | some (name, _) ↦ eqb_bytes name name_bytes
]

unfoldable pub build_env_entry : Bytes → Bytes → Bytes
build_env_entry name_bytes value_bytes = name_bytes ++ (b'=' ∷ value_bytes)

-- What a pointer to the entries leads to.
unfoldable pub publish : Environment → Environment
publish e = record e { environ = elim e.entries [ [] ↦ none | c ∷ l ↦ some (c ∷ l) ] }

-- `retain`
unfoldable pub retain {ℓ} : {A : Type ℓ} → (A → Bool) → List A → List A
retain keep [] = []
retain keep (x ∷ l) = let rest = retain keep l in if keep x then x ∷ rest else rest

-- `find_name_index(name).is_some()`
unfoldable pub contains_name : List Bytes → Bytes → Bool
contains_name [] name_bytes = false
contains_name (entry ∷ l) name_bytes =
    let rest = contains_name l name_bytes in
    if env_entry_has_name entry name_bytes then true else rest

-- `entries[index] = entry` at the first entry with the name.
unfoldable pub replace_first : Bytes → Bytes → List Bytes → List Bytes
replace_first name_bytes entry [] = []
replace_first name_bytes entry (x ∷ l) =
    let rest = x ∷ replace_first name_bytes entry l in
    if env_entry_has_name x name_bytes then entry ∷ l else rest

-- The `retain` that keeps the first entry with the name.
unfoldable pub keep_first : Bytes → Bool → List Bytes → List Bytes
keep_first name_bytes kept [] = []
keep_first name_bytes kept (x ∷ l) =
    let other = x ∷ keep_first name_bytes kept l in
    let later = keep_first name_bytes true l in
    if not (env_entry_has_name x name_bytes) then other else if kept then later else x ∷ later

unfoldable pub set_entries : Bytes → Bytes → List Bytes → List Bytes
set_entries name_bytes value_bytes entries =
    if contains_name entries name_bytes
    then keep_first name_bytes false
        (replace_first name_bytes (build_env_entry name_bytes value_bytes) entries)
    else entries ++ (build_env_entry name_bytes value_bytes ∷ [])

unfoldable pub set_name_value : Bytes → Bytes → Environment → Environment
set_name_value name_bytes value_bytes e =
    publish (record e { entries = set_entries name_bytes value_bytes e.entries })

unfoldable pub remove_entries : Bytes → List Bytes → List Bytes
remove_entries name_bytes entries =
    retain (λ entry. not (env_entry_has_name entry name_bytes)) entries

unfoldable pub remove_name : Bytes → Environment → Environment
remove_name name_bytes e =
    let left = remove_entries name_bytes e.entries in
    if length left == length e.entries
    then record e { entries = left }
    else publish (record e { entries = left })

unfoldable pub clear : Environment → Environment
clear e = publish (record e { entries = [] })

unfoldable pub remove_owned_name_if_initialized : Bytes → Environment → Environment
remove_owned_name_if_initialized name_bytes e =
    if e.initialized then remove_name name_bytes e else e
