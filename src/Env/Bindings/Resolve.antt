-- ===== src/Env/Bindings/Resolve.antt =====
-- src/stdlib/env_mut.rs: `lookup_putenv_alias_value` on a list of aliases in which no two have the same
-- name: it reads the one buffer, and drops its alias when the buffer no longer has the name.
use rlibc.Common.{
  ℕ, ◌+◌, ◌<◌, ◌≡◌, refl, sym, ◌∙◌, ap, Bool, true, false, not, ◌&&◌, Option, none, some, List, [],
  ◌∷◌, if◌then◌else◌, arith,
}
use rlibc.Common.Bytes.{Bytes, eqb_bytes, eqb_bytes-eq}
use rlibc.Env.{PutEnvAlias, Environment, retain, remove_owned_name_if_initialized}
use rlibc.Env.Host.{is_empty}
use rlibc.Env.Aliases.{
  Buffers, Resolving, resolve_one, resolve_aliases, contains_index, remove_at,
  parse_alias_value_ptr, resolved_value, is_none, lookup_putenv_alias_value, remove_putenv_alias,
}
use rlibc.Env.Bindings.{alias_of, AreUnique}

abbrev nothing : Resolving
nothing = record { resolved = none; remove_indices = [] }

-- What the loop finds when only the first alias with the name counts.
sought : Buffers → Bytes → ℕ → List PutEnvAlias → Resolving
sought buffers n i [] = nothing
sought buffers n i (a ∷ l) =
    if eqb_bytes a.name n
    then resolve_one i (parse_alias_value_ptr buffers a.entry_addr n) nothing
    else sought buffers n (i + 1) l

resolve_others :
    (buffers : Buffers) (n : Bytes) (i : ℕ) (l : List PutEnvAlias) (r : Resolving)
    → alias_of n l ≡ none
    → resolve_aliases buffers n i l r ≡ r
unfolding resolve_aliases alias_of
resolve_others buffers n i [] r h = refl
resolve_others buffers n i (a ∷ l) r h = ground (arith, resolve_others buffers n (i + 1) l r)

resolve-sought :
    (buffers : Buffers) (n : Bytes) (i : ℕ) (l : List PutEnvAlias)
    → AreUnique l
    → resolve_aliases buffers n i l nothing ≡ sought buffers n i l
unfolding resolve_aliases sought AreUnique
resolve-sought buffers n i [] u = refl
resolve-sought buffers n i (a ∷ l) u = grind (
  arith,
  resolve-sought buffers n (i + 1) l u.1,
  resolve_others buffers n (i + 1) l
      (resolve_one i (parse_alias_value_ptr buffers a.entry_addr n) nothing),
  eqb_bytes-eq,
)

-- The value in the buffer under a name.
abbrev pub value_in : Buffers → Bytes → Option ℕ → Option Bytes
value_in buffers n none = none
value_in buffers n (some a) = parse_alias_value_ptr buffers a n

resolved_value-sought :
    (buffers : Buffers) (n : Bytes) (i : ℕ) (l : List PutEnvAlias)
    → resolved_value (sought buffers n i l) ≡ value_in buffers n (alias_of n l)
unfolding sought alias_of
resolved_value-sought buffers n i [] = refl
resolved_value-sought buffers n i (a ∷ l) =
    ground (arith, resolved_value-sought buffers n (i + 1) l)

-- Whether the alias is dropped.
abbrev pub is_stale : Buffers → Bytes → Option ℕ → Bool
is_stale buffers n none = false
is_stale buffers n (some a) = is_none (parse_alias_value_ptr buffers a n)

without : Bytes → List PutEnvAlias → List PutEnvAlias
without n l = retain (λ a. not (eqb_bytes a.name n)) l

without_lem : (n : Bytes) (l : List PutEnvAlias) → alias_of n l ≡ none → without n l ≡ l
unfolding without retain alias_of
without_lem n [] h = refl
without_lem n (a ∷ l) h = ground (arith, without_lem n l)

remove_at_none : (i : ℕ) (l : List PutEnvAlias) → remove_at [] i l ≡ l
unfolding remove_at
remove_at_none i [] = refl
remove_at_none i (a ∷ l) = ground (arith, remove_at_none (i + 1) l)

remove_before : (j i : ℕ) (l : List PutEnvAlias) → j < i → remove_at (j ∷ []) i l ≡ l
unfolding remove_at
remove_before j i [] h = refl
remove_before j i (a ∷ l) h = ground (arith, remove_before j (i + 1) l)

-- The loop finds places from `i` on only.
sought_later :
    (buffers : Buffers) (n : Bytes) (j i : ℕ) (l : List PutEnvAlias)
    → j < i
    → contains_index j (sought buffers n i l).remove_indices ≡ false
unfolding sought
sought_later buffers n j i [] h = refl
sought_later buffers n j i (a ∷ l) h = ground (arith, sought_later buffers n j (i + 1) l)

no_other :
    (n : Bytes) (a : PutEnvAlias) (l : List PutEnvAlias)
    → alias_of a.name l ≡ none
    → eqb_bytes a.name n ≡ true
    → alias_of n l ≡ none
no_other n a l h e = sym (ap (λ m. alias_of m l) (eqb_bytes-eq a.name n e)) ∙ h

remove_at-sought :
    (buffers : Buffers) (n : Bytes) (i : ℕ) (l : List PutEnvAlias)
    → AreUnique l
    → remove_at (sought buffers n i l).remove_indices i l
      ≡ (if is_stale buffers n (alias_of n l) then without n l else l)
unfolding sought alias_of remove_at without retain AreUnique
remove_at-sought buffers n i [] u = ground arith
remove_at-sought buffers n i (a ∷ l) u = ground (
  arith,
  remove_at-sought buffers n (i + 1) l u.1,
  sought_later buffers n i (i + 1) l,
  without_lem n l,
  remove_at_none (i + 1) l,
  remove_before i (i + 1) l,
  no_other n a l u.0,
)

removal-sought :
    (buffers : Buffers) (n : Bytes) (i : ℕ) (l : List PutEnvAlias)
    → (is_none (sought buffers n i l).resolved
        && not (is_empty (sought buffers n i l).remove_indices))
      ≡ is_stale buffers n (alias_of n l)
unfolding sought alias_of
removal-sought buffers n i [] = refl
removal-sought buffers n i (a ∷ l) = ground (arith, removal-sought buffers n (i + 1) l)

-- A lookup answers with the value in the buffer, and forgets a variable whose buffer has lost the name.
pub lookup_putenv_alias_lem :
    (buffers : Buffers) (n : Bytes) (e : Environment)
    → AreUnique e.aliases
    → lookup_putenv_alias_value buffers n e ≡ (
      value_in buffers n (alias_of n e.aliases),
      if is_stale buffers n (alias_of n e.aliases)
          then remove_owned_name_if_initialized n (remove_putenv_alias n e)
          else e,
    )
unfolding lookup_putenv_alias_value remove_putenv_alias without
lookup_putenv_alias_lem buffers n e u = ground (
  arith,
  resolve-sought buffers n 0 e.aliases u,
  resolved_value-sought buffers n 0 e.aliases,
  remove_at-sought buffers n 0 e.aliases u,
  removal-sought buffers n 0 e.aliases,
)
