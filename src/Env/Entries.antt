-- ===== src/Env/Entries.antt =====
-- src/stdlib/env_mut.rs: what the changes to the entries do to the value found under a name.
use rlibc.Common.{
  ◌≡◌, refl, true, false, not, none, some, List, [], ◌∷◌, ◌++◌, if◌then◌else◌, arith,
}
use rlibc.Common.Bytes.{Bytes, eqb_bytes, eqb_bytes-eq, eqb_bytes_refl, eqb_bytes_comm}
use rlibc.Env.{
  split_entry, env_entry_has_name, build_env_entry, retain, contains_name, replace_first,
  keep_first, set_entries, remove_entries,
}
use rlibc.Env.Host.{contains_byte}
use rlibc.Env.Aliases.{is_none}
use rlibc.Env.Calls.{find_value}

-- An entry is split where it was put together.
pub split_entry-build_env_entry :
    (name_bytes value_bytes : Bytes)
    → contains_byte b'=' name_bytes ≡ false
    → split_entry (build_env_entry name_bytes value_bytes) ≡ some (name_bytes, value_bytes)
unfolding split_entry build_env_entry
split_entry-build_env_entry [] v h = refl
split_entry-build_env_entry (c ∷ s) v h = ground (arith, split_entry-build_env_entry s v)

pub contains_name-find_value :
    (l : List Bytes) (n : Bytes) → contains_name l n ≡ not (is_none (find_value n l))
unfolding contains_name find_value env_entry_has_name
contains_name-find_value [] n = refl
contains_name-find_value (e ∷ l) n = ground (arith, contains_name-find_value l n)

pub find_value-remove_entries :
    (l : List Bytes) (m n : Bytes)
    → find_value n (remove_entries m l) ≡ (if eqb_bytes n m then none else find_value n l)
unfolding remove_entries retain find_value env_entry_has_name
find_value-remove_entries [] m n = ground arith
find_value-remove_entries (e ∷ l) m n =
    grind (arith, find_value-remove_entries l m n, eqb_bytes-eq, eqb_bytes_refl)

-- Once an entry with the name is kept, the others go.
find_value-keep_first-true :
    (l : List Bytes) (m n : Bytes)
    → find_value n (keep_first m true l) ≡ (if eqb_bytes n m then none else find_value n l)
unfolding keep_first find_value env_entry_has_name
find_value-keep_first-true [] m n = ground arith
find_value-keep_first-true (e ∷ l) m n =
    grind (arith, find_value-keep_first-true l m n, eqb_bytes-eq, eqb_bytes_refl)

find_value-keep_first :
    (l : List Bytes) (m n : Bytes) → find_value n (keep_first m false l) ≡ find_value n l
unfolding keep_first find_value env_entry_has_name
find_value-keep_first [] m n = refl
find_value-keep_first (e ∷ l) m n = grind (
  arith,
  find_value-keep_first l m n,
  find_value-keep_first-true l m n,
  eqb_bytes-eq,
  eqb_bytes_refl,
)

find_value-replace_first :
    (l : List Bytes) (m v n : Bytes) (e : Bytes)
    → split_entry e ≡ some (m, v)
    → contains_name l m ≡ true
    → find_value n (replace_first m e l) ≡ (if eqb_bytes n m then some v else find_value n l)
unfolding replace_first find_value env_entry_has_name contains_name
find_value-replace_first [] m v n e h k = cc
find_value-replace_first (x ∷ l) m v n e h k =
    grind (arith, find_value-replace_first l m v n e h, eqb_bytes-eq, eqb_bytes_refl)

find_value-push :
    (l : List Bytes) (m v n : Bytes) (e : Bytes)
    → split_entry e ≡ some (m, v)
    → contains_name l m ≡ false
    → find_value n (l ++ (e ∷ [])) ≡ (if eqb_bytes n m then some v else find_value n l)
unfolding find_value env_entry_has_name contains_name
find_value-push [] m v n e h k = ground (arith, eqb_bytes_comm m n)
find_value-push (x ∷ l) m v n e h k =
    grind (arith, find_value-push l m v n e h, eqb_bytes-eq, eqb_bytes_refl)

pub find_value-set_entries :
    (l : List Bytes) (m v n : Bytes)
    → contains_byte b'=' m ≡ false
    → find_value n (set_entries m v l) ≡ (if eqb_bytes n m then some v else find_value n l)
unfolding set_entries
find_value-set_entries l m v n h = ground (
  arith,
  split_entry-build_env_entry m v h,
  find_value-keep_first (replace_first m (build_env_entry m v) l) m n,
  find_value-replace_first l m v n (build_env_entry m v) (split_entry-build_env_entry m v h),
  find_value-push l m v n (build_env_entry m v) (split_entry-build_env_entry m v h),
)
