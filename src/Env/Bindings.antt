-- ===== src/Env/Bindings.antt =====
-- src/stdlib/env_mut.rs: the list of aliases, in which no two have the same name, as a map from names
-- to the addresses of the buffers.
pub mod Resolve
use rlibc.Common.{
  ℕ, suc, ◌+◌, ◌<◌, ◌≤◌, ◌≡◌, refl, sym, ◌∙◌, ap, ◌≢◌, Bool, true, false, not, ◌&&◌, ◌||◌, Option,
  none, some, List, [], ◌∷◌, ◌++◌, ◌==◌, if◌then◌else◌, arith, All,
}
use rlibc.Common.Bytes.{
  Bytes, eqb_bytes, eqb_bytes-eq, eqb_bytes_refl, eqb_bytes_comm, insert_bytes, sort_bytes,
  dedup_bytes,
}
use rlibc.Env.{PutEnvAlias, retain}
use rlibc.Env.Host.{is_empty}
use rlibc.Env.Aliases.{
  Buffers, Resolving, resolve_one, resolve_aliases, contains_index, remove_at,
  parse_alias_value_ptr, resolved_value, is_none, names_of,
}

-- The buffer of the first alias with the name.
unfoldable pub alias_of : Bytes → List PutEnvAlias → Option ℕ
alias_of n [] = none
alias_of n (a ∷ l) = if eqb_bytes a.name n then some a.entry_addr else alias_of n l

unfoldable pub AreUnique : List PutEnvAlias → Type 0
unfolding alias_of
AreUnique [] = Unit
AreUnique (a ∷ l) = (alias_of a.name l ≡ none) × AreUnique l

-- The same filter on the buffer under a name.
abbrev pub filtered : (Bytes → ℕ → Bool) → Bytes → Option ℕ → Option ℕ
filtered keep n none = none
filtered keep n (some a) = if keep n a then some a else none

pub alias_of-retain :
    (keep : Bytes → ℕ → Bool) (l : List PutEnvAlias) (n : Bytes)
    → AreUnique l
    → alias_of n (retain (λ a. keep a.name a.entry_addr) l) ≡ filtered keep n (alias_of n l)
unfolding alias_of AreUnique retain
alias_of-retain keep [] n u = refl
alias_of-retain keep (a ∷ l) n u =
    grind (arith, alias_of-retain keep l n u.1, eqb_bytes-eq, eqb_bytes_refl)

pub retain-AreUnique :
    (keep : Bytes → ℕ → Bool) (l : List PutEnvAlias)
    → AreUnique l
    → AreUnique (retain (λ a. keep a.name a.entry_addr) l)
unfolding AreUnique retain
retain-AreUnique keep [] u = tt
retain-AreUnique keep (a ∷ l) u =
    ground (arith, retain-AreUnique keep l u.1, alias_of-retain keep l a.name u.1)

pub alias_of-push :
    (l : List PutEnvAlias) (a : PutEnvAlias) (n : Bytes)
    → alias_of a.name l ≡ none
    → alias_of n (l ++ (a ∷ [])) ≡ (if eqb_bytes n a.name then some a.entry_addr else alias_of n l)
unfolding alias_of
alias_of-push [] a n h = ground (arith, eqb_bytes_comm a.name n)
alias_of-push (x ∷ l) a n h = grind (arith, alias_of-push l a n, eqb_bytes-eq, eqb_bytes_refl)

pub push-AreUnique :
    (l : List PutEnvAlias) (a : PutEnvAlias)
    → AreUnique l
    → alias_of a.name l ≡ none
    → AreUnique (l ++ (a ∷ []))
unfolding AreUnique alias_of
push-AreUnique [] a u h = (refl, tt)
push-AreUnique (x ∷ l) a u h =
    ground (arith, push-AreUnique l a u.1, alias_of-push l a x.name, eqb_bytes_comm a.name x.name)

unfoldable pub contains_name_of : Bytes → List Bytes → Bool
contains_name_of n [] = false
contains_name_of n (m ∷ l) = eqb_bytes n m || contains_name_of n l

pub contains-insert :
    (n m : Bytes) (l : List Bytes)
    → contains_name_of n (insert_bytes m l) ≡ (eqb_bytes n m || contains_name_of n l)
unfolding contains_name_of insert_bytes
contains-insert n m [] = refl
contains-insert n m (x ∷ l) = ground (arith, contains-insert n m l)

contains-sort :
    (n : Bytes) (l : List Bytes) → contains_name_of n (sort_bytes l) ≡ contains_name_of n l
unfolding contains_name_of sort_bytes
contains-sort n [] = refl
contains-sort n (m ∷ l) = ground (arith, contains-sort n l, contains-insert n m (sort_bytes l))

contains-dedup :
    (n : Bytes) (l : List Bytes) → contains_name_of n (dedup_bytes l) ≡ contains_name_of n l
unfolding contains_name_of dedup_bytes
contains-dedup n [] = refl
contains-dedup n (m ∷ []) = refl
contains-dedup n (m ∷ k ∷ l) = grind (arith, contains-dedup n (k ∷ l), eqb_bytes-eq)

contains-names_of :
    (gone : Bytes → ℕ → Bool) (n : Bytes) (l : List PutEnvAlias)
    → AreUnique l
    → contains_name_of n (names_of (retain (λ a. gone a.name a.entry_addr) l))
      ≡ not (is_none (filtered gone n (alias_of n l)))
unfolding contains_name_of alias_of AreUnique retain
contains-names_of gone n [] u = refl
contains-names_of gone n (a ∷ l) u =
    grind (arith, contains-names_of gone n l u.1, eqb_bytes-eq, eqb_bytes_refl, eqb_bytes_comm)

-- The names that a call has removed are those of the aliases it has removed.
pub removed_names_lem :
    (gone : Bytes → ℕ → Bool) (n : Bytes) (l : List PutEnvAlias)
    → AreUnique l
    → contains_name_of n
        (dedup_bytes (sort_bytes (names_of (retain (λ a. gone a.name a.entry_addr) l))))
      ≡ not (is_none (filtered gone n (alias_of n l)))
removed_names_lem gone n l u =
    let names = names_of (retain (λ a. gone a.name a.entry_addr) l) in
    contains-dedup n (sort_bytes names) ∙ contains-sort n names ∙ contains-names_of gone n l u
