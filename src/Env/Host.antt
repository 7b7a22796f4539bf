-- ===== src/Env/Host.antt =====
-- src/stdlib/env_mut.rs: the first snapshot of the environment. What the host answers is a parameter:
-- the contents of /proc/self/environ, if it can be read, and `std::env::vars_os`.
use rlibc.Common.{
  ℕ, Bool, true, false, ◌||◌, Option, none, some, List, [], ◌∷◌, ◌==◌, if◌then◌else◌,
}
use rlibc.Common.Bytes.{Bytes}
use rlibc.Env.{Environment, split_entry, build_env_entry, publish}

pub record Host : Type 0 where
  pub proc_environ : Option Bytes
  pub vars_os : List (Bytes × Bytes)

abbrev pub contains_byte : ℕ → Bytes → Bool
contains_byte b [] = false
contains_byte b (c ∷ s) = c == b || contains_byte b s

abbrev pub is_empty {ℓ} : {A : Type ℓ} → List A → Bool
is_empty [] = true
is_empty (x ∷ l) = false

-- `split(|byte| *byte == 0)`: the parts between the NULs.
unfoldable pub split_nul : Bytes → List Bytes
split_nul [] = [] ∷ []
split_nul (c ∷ s) =
    let parts = split_nul s in
    if c == 0 then [] ∷ parts else elim parts [ [] ↦ (c ∷ []) ∷ [] | p ∷ l ↦ (c ∷ p) ∷ l ]

unfoldable pub usable_entries : List Bytes → List Bytes
unfolding split_entry build_env_entry
usable_entries [] = []
usable_entries (entry ∷ l) =
    let rest = usable_entries l in
    elim (split_entry entry) [
      | none ↦ rest
      | some (name, value) ↦
          if is_empty name || contains_byte b'=' name
          then rest
          else build_env_entry name value ∷ rest
    ]

unfoldable pub copy_entries_from_proc_environ : Host → List Bytes
copy_entries_from_proc_environ host = elim host.proc_environ [
  | none ↦ []
  | some contents ↦ usable_entries (split_nul contents)
]

unfoldable pub usable_vars : List (Bytes × Bytes) → List Bytes
unfolding build_env_entry
usable_vars [] = []
usable_vars ((name, value) ∷ l) =
    let rest = usable_vars l in
    if is_empty name || contains_byte b'=' name
    then rest
    else if contains_byte 0 name || contains_byte 0 value
    then rest
    else build_env_entry name value ∷ rest

unfoldable pub copy_entries_from_host_env : Host → List Bytes
copy_entries_from_host_env host = elim (copy_entries_from_proc_environ host) [
  | [] ↦ usable_vars host.vars_os
  | entry ∷ l ↦ entry ∷ l
]

unfoldable pub ensure_initialized : Host → Environment → Environment
ensure_initialized host e =
    if e.initialized
    then e
    else publish (record e {
      entries = elim e.environ [ none ↦ copy_entries_from_host_env host | some entries ↦ entries ];
      initialized = true;
    })
