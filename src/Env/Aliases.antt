-- ===== src/Env/Aliases.antt =====
-- src/stdlib/env_mut.rs: the buffers that `putenv` callers keep. The callers' memory is a function
-- from the address of a C string to its bytes.
use rlibc.Common.{
  ℕ, ◌+◌, Bool, true, false, not, ◌||◌, ◌&&◌, Option, none, some, List, [], ◌∷◌, ◌++◌, ◌==◌,
  if◌then◌else◌, drop, map,
}
use rlibc.Common.Bytes.{Bytes, read_byte, eqb_bytes, sort_bytes, dedup_bytes}
use rlibc.Env.{PutEnvAlias, Environment, retain, remove_owned_name_if_initialized}
use rlibc.Env.Host.{is_empty}

abbrev pub Buffers : Type 0
Buffers = ℕ → Bytes

abbrev value_after : Bytes → Bytes → Option Bytes
value_after [] s = if read_byte s == b'=' then some (drop 1 s) else none
value_after (c ∷ name) s =
    let rest = value_after name (drop 1 s) in if read_byte s == c then rest else none

-- The bytes that the returned pointer leads to.
unfoldable pub parse_alias_value_ptr : Buffers → ℕ → Bytes → Option Bytes
parse_alias_value_ptr buffers entry_addr expected_name =
    if entry_addr == 0 then none else value_after expected_name (buffers entry_addr)

-- What the loop over the aliases has found: the place and the value of the last alias that still has
-- the name, and the places of those to remove.
pub record Resolving : Type 0 where
  pub resolved : Option (ℕ × Bytes)
  pub remove_indices : List ℕ

abbrev pub resolve_one : ℕ → Option Bytes → Resolving → Resolving
resolve_one alias_index none r = record r { remove_indices = alias_index ∷ r.remove_indices }
resolve_one alias_index (some value) r = elim r.resolved [
  | none ↦ record r { resolved = some (alias_index, value) }
  | some (previous_index, _) ↦ record {
    resolved = some (alias_index, value);
    remove_indices = previous_index ∷ r.remove_indices;
  }
]

unfoldable pub resolve_aliases : Buffers → Bytes → ℕ → List PutEnvAlias → Resolving → Resolving
unfolding parse_alias_value_ptr
resolve_aliases buffers name_bytes alias_index [] r = r
resolve_aliases buffers name_bytes alias_index (a ∷ l) r =
    resolve_aliases buffers name_bytes (alias_index + 1) l (
      if eqb_bytes a.name name_bytes
      then resolve_one alias_index (parse_alias_value_ptr buffers a.entry_addr name_bytes) r
      else r)

abbrev pub contains_index : ℕ → List ℕ → Bool
contains_index i [] = false
contains_index i (j ∷ l) = j == i || contains_index i l

-- The items whose places are not to be removed, from place `i` on.
unfoldable pub remove_at : List ℕ → ℕ → List PutEnvAlias → List PutEnvAlias
remove_at indices i [] = []
remove_at indices i (a ∷ l) =
    let rest = remove_at indices (i + 1) l in if contains_index i indices then rest else a ∷ rest

abbrev pub resolved_value : Resolving → Option Bytes
resolved_value r = elim r.resolved [ none ↦ none | some (_, value) ↦ some value ]

abbrev pub is_none {ℓ} : {A : Type ℓ} → Option A → Bool
is_none none = true
is_none (some _) = false

unfoldable pub lookup_putenv_alias_value :
    Buffers → Bytes → Environment → Option Bytes × Environment
unfolding resolve_aliases remove_at
lookup_putenv_alias_value buffers name_bytes e =
    let r =
      resolve_aliases buffers name_bytes 0 e.aliases
        (record { resolved = none; remove_indices = [] }) in
    let pruned = record e { aliases = remove_at r.remove_indices 0 e.aliases } in
    let removed_stale_aliases = is_none r.resolved && not (is_empty r.remove_indices) in
    (
      resolved_value r,
      if removed_stale_aliases then remove_owned_name_if_initialized name_bytes pruned else pruned,
    )

unfoldable pub remove_putenv_alias : Bytes → Environment → Environment
remove_putenv_alias name_bytes e = record e {
  aliases = retain (λ a. not (eqb_bytes a.name name_bytes)) e.aliases;
}

abbrev pub names_of : List PutEnvAlias → List Bytes
names_of = map (λ a. a.name)

-- The names of the aliases removed, and the environment without these.
unfoldable pub remove_putenv_aliases_for_name_or_entry :
    Bytes → ℕ → Environment → List Bytes × Environment
remove_putenv_aliases_for_name_or_entry name_bytes entry_addr e =
    let removed =
      λ (a : PutEnvAlias). eqb_bytes a.name name_bytes || (a.entry_addr == entry_addr) in
    (
      dedup_bytes (sort_bytes (names_of (retain removed e.aliases))),
      record e { aliases = retain (λ a. not (removed a)) e.aliases },
    )

-- The other names of the buffer, and the environment with its alias under the new name only.
unfoldable pub rebind_putenv_alias : Bytes → ℕ → Environment → List Bytes × Environment
rebind_putenv_alias name_bytes entry_addr e =
    let renamed =
      λ (a : PutEnvAlias). not (eqb_bytes a.name name_bytes) && (a.entry_addr == entry_addr) in
    let kept =
      λ (a : PutEnvAlias). not (eqb_bytes a.name name_bytes) && not (a.entry_addr == entry_addr) in
    (
      dedup_bytes (sort_bytes (names_of (retain renamed e.aliases))),
      record e {
        aliases =
            retain kept e.aliases ++ (record { name = name_bytes; entry_addr = entry_addr } ∷ []);
      },
    )

-- The loop over these names.
unfoldable pub drop_renamed : Buffers → List Bytes → Environment → Environment
drop_renamed buffers [] e = e
drop_renamed buffers (name ∷ l) e =
    let (value, looked) = lookup_putenv_alias_value buffers name e in
    drop_renamed buffers l
      (if is_none value then remove_owned_name_if_initialized name looked else looked)
