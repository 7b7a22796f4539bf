-- ===== src/Glob/Vector/Held.antt =====
-- src/glob.rs: what the caller's structure holds after `glob`, on each of its ways out.
use mathlib.Core.List.{Permᴰ}
use mathlib.Core.List.Permᴰ
use mathlib.Core.List.Permᴰ.{nil, cons, swap, trans}
use rlibc.Common.{
  ℕ, zero, suc, ◌+◌, ◌≡◌, refl, ap, sym, ◌∙◌, ◌⊎◌, inl, inr, Bool, true, false, ◌&&◌, Option, none,
  some, List, [], ◌∷◌, ◌++◌, length, drop, length-append, if◌then◌else◌, arith, map, Bool-cases,
}
use rlibc.Common.Bytes.{Bytes, sort_bytes, insert_bytes, leb_bytes}
use rlibc.Env.Host.{is_empty}
use rlibc.Glob.{has_flag, glob_nosort, glob_nocheck, glob_append, glob_aborted, glob_nomatch}
use rlibc.Glob.Traverse.{FileSystem, GlobErrorFn, Outcome, ok, err}
use rlibc.Glob.Collect.{collect_matches, nocheck_fallback_pattern}
use rlibc.Glob.Errno.{ErrnoAfter, collect_errno}
use rlibc.Glob.Vector.{
  GlobState, clone_paths, clone_existing_paths, nulls, allocate_pathv, freed_entries, GlobResult,
  offsets_for, store_matches, glob_with, glob_into,
}

-- The path vector is `gl_offs` nulls, the paths, and a null.
pub record Holds (g : GlobState) (paths : List Bytes) : Type 0 where
  pub vector : g.gl_pathv ≡ some (allocate_pathv paths g.gl_offs)
  pub counted : g.gl_pathc ≡ length paths

-- Or the structure is as `globfree` leaves it.
abbrev pub IsGlob : GlobState → List Bytes → Type 0
IsGlob g paths = Holds g paths ⊎ ((g.gl_pathv ≡ none) × (paths ≡ []))

length-nulls : (n : ℕ) → length (nulls n) ≡ n
unfolding nulls
length-nulls zero = refl
length-nulls (suc n) = omega (arith, length-nulls n)

length-map-some : (paths : List Bytes) → length (map some paths) ≡ length paths
length-map-some [] = refl
length-map-some (p ∷ l) = omega (arith, length-map-some l)

drop-nulls : (n : ℕ) (l : List (Option Bytes)) → drop n (nulls n ++ l) ≡ l
unfolding nulls
drop-nulls zero l = refl
drop-nulls (suc n) l = drop-nulls n l

clone-map :
    (paths : List Bytes) (l : List (Option Bytes))
    → clone_paths (length paths) (map some paths ++ l) ≡ paths
unfolding clone_paths
clone-map [] l = refl
clone-map (p ∷ paths) l = ap (λ t. p ∷ t) (clone-map paths l)

length-allocate :
    (paths : List Bytes) (n : ℕ) → length (allocate_pathv paths n) ≡ n + length paths + 1
unfolding allocate_pathv
length-allocate paths n = omega (
  arith,
  length-append (nulls n) (map some paths ++ (none ∷ [])),
  length-append (map some paths) (none ∷ []),
  length-nulls n,
  length-map-some paths,
)

-- For a structure that holds paths, the length that `free_pathv` gives back the path vector with
-- is the number of its entries.
pub freed_lem :
    (g : GlobState) (paths : List Bytes) (pathv : List (Option Bytes))
    → Holds g paths
    → g.gl_pathv ≡ some pathv
    → freed_entries g ≡ length pathv
unfolding freed_entries
freed_lem g paths pathv h e =
    let same : allocate_pathv paths g.gl_offs ≡ pathv = some-eq (sym h.vector ∙ e) in
    omega (arith, h.counted, ap length same, length-allocate paths g.gl_offs)
  where
    some-eq : {x y : List (Option Bytes)} → some x ≡ some y → x ≡ y
    some-eq q = cc

-- `glob` finds the paths that it has stored before.
existing_lem :
    (g : GlobState) (old : List Bytes) → IsGlob g old → clone_existing_paths g g.gl_offs ≡ old
unfolding clone_existing_paths allocate_pathv
existing_lem g old (inl h) =
    rw (h.vector, h.counted, drop-nulls g.gl_offs (map some old ++ (none ∷ [])))
      (clone-map old (none ∷ []))
existing_lem g old (inr (v, e)) = rw v (sym e)

-- The new paths, in the order in which they are stored.
abbrev pub stored : ℕ → List Bytes → List Bytes
stored flags paths = if has_flag flags glob_nosort then paths else sort_bytes paths

abbrev pub kept : ℕ → List Bytes → List Bytes
kept flags old = if has_flag flags glob_append then old else []

kept_lem :
    (flags : ℕ) (old : List Bytes) (g : GlobState)
    → IsGlob g old
    → (if has_flag flags glob_append then clone_existing_paths g (offsets_for flags g) else [])
      ≡ kept flags old
unfolding offsets_for
kept_lem flags old g h = ground (arith, existing_lem g old h)

store-Holds :
    (flags : ℕ) (paths old : List Bytes) (g : GlobState)
    → IsGlob g old
    → Holds (store_matches flags paths g) (kept flags old ++ stored flags paths)
unfolding store_matches
store-Holds flags paths old g h =
    let e = kept_lem flags old g h in
    let offsets = offsets_for flags g in
    record {
      vector = ap (λ t. some (allocate_pathv (t ++ stored flags paths) offsets)) e;
      counted = ap (λ t. length (t ++ stored flags paths)) e;
    }

insert-Perm : (s : Bytes) (l : List Bytes) → Permᴰ (insert_bytes s l) (s ∷ l)
unfolding insert_bytes
insert-Perm s [] = cons refl nil
insert-Perm s (t ∷ l) = elim (Bool-cases (leb_bytes s t)) [
  | inl h ↦ rw h (Permᴰ.refl (s ∷ t ∷ l))
  | inr h ↦ rw h (trans (cons refl (insert-Perm s l)) (swap refl refl))
]

sort-Perm : (l : List Bytes) → Permᴰ (sort_bytes l) l
unfolding sort_bytes
sort-Perm [] = nil
sort-Perm (s ∷ l) = trans (insert-Perm s (sort_bytes l)) (cons refl (sort-Perm l))

unfoldable pub is_sorted : List Bytes → Bool
is_sorted [] = true
is_sorted (s ∷ []) = true
is_sorted (s ∷ t ∷ l) = let rest = is_sorted (t ∷ l) in leb_bytes s t && rest

leb_total : (s t : Bytes) → leb_bytes s t ≡ false → leb_bytes t s ≡ true
unfolding leb_bytes
leb_total [] t h = cc
leb_total (c ∷ s) [] h = refl
leb_total (c ∷ s) (d ∷ t) h = ground (arith, leb_total s t)

insert_sorted :
    (s : Bytes) (l : List Bytes) → is_sorted l ≡ true → is_sorted (insert_bytes s l) ≡ true
unfolding is_sorted insert_bytes
insert_sorted s [] h = refl
insert_sorted s (t ∷ []) h = ground (arith, leb_total s t)
insert_sorted s (t ∷ u ∷ l) h = ground (arith, leb_total s t, insert_sorted s (u ∷ l))

sort_sorted : (l : List Bytes) → is_sorted (sort_bytes l) ≡ true
unfolding sort_bytes is_sorted
sort_sorted [] = refl
sort_sorted (s ∷ l) = insert_sorted s (sort_bytes l) (sort_sorted l)

stored_lem :
    (flags : ℕ) (paths : List Bytes)
    → Permᴰ (stored flags paths) paths
      × ((has_flag flags glob_nosort ≡ true) ⊎ (is_sorted (stored flags paths) ≡ true))
stored_lem flags paths = elim (Bool-cases (has_flag flags glob_nosort)) [
  | inl h ↦ (rw h (Permᴰ.refl paths), inl h)
  | inr h ↦ (rw h (sort-Perm paths), inr (rw h (sort_sorted paths)))
]

-- The matches, or the pattern itself when there is none and `GLOB_NOCHECK` is given.
unfoldable pub answer : Bytes → ℕ → List Bytes → List Bytes
answer pattern flags paths =
    if is_empty paths then nocheck_fallback_pattern pattern flags ∷ [] else paths

pub record IsStored (flags : ℕ) (paths old : List Bytes) (errno : ℕ) (r : GlobResult) : Type 0 where
  pub new : List Bytes
  pub holds : Holds r.state (kept flags old ++ new)
  pub permuted : Permᴰ new paths
  pub sorted : (has_flag flags glob_nosort ≡ true) ⊎ (is_sorted new ≡ true)
  pub code : r.code ≡ 0
  pub left : r.errno ≡ errno

pub data IsAnswer (pattern : Bytes) (flags : ℕ) (g : GlobState) (old : List Bytes) (errno : ℕ)
    : Outcome (List Bytes) → GlobResult → Type 0 where
  aborts :
      {e : ℕ}
      → IsAnswer pattern flags g old errno
          (err e)
          (record { code = glob_aborted; state = g; errno = e })
  finds_nothing :
      has_flag flags glob_nocheck ≡ false
      → IsAnswer pattern flags g old errno
          (ok [])
          (record { code = glob_nomatch; state = g; errno = errno })
  stores :
      {paths : List Bytes} {r : GlobResult}
      → (is_empty paths ≡ false) ⊎ (has_flag flags glob_nocheck ≡ true)
      → IsStored flags (answer pattern flags paths) old errno r
      → IsAnswer pattern flags g old errno (ok paths) r

store-IsStored :
    (flags : ℕ) (paths old : List Bytes) (g : GlobState) (errno : ℕ)
    → IsGlob g old
    → IsStored flags paths old errno
        (record { code = 0; state = store_matches flags paths g; errno = errno })
store-IsStored flags paths old g errno h =
    let s = stored_lem flags paths in
    record {
      new = stored flags paths;
      holds = store-Holds flags paths old g h;
      permuted = s.0;
      sorted = s.1;
      code = refl;
      left = refl;
    }

glob_with-IsAnswer :
    (pattern : Bytes) (flags : ℕ) (g : GlobState) (old : List Bytes) (errno : ℕ)
    (matched : Outcome (List Bytes))
    → IsGlob g old
    → IsAnswer pattern flags g old errno matched (glob_with pattern flags g errno matched)
unfolding glob_with answer
glob_with-IsAnswer pattern flags g old errno (err e) h = aborts
glob_with-IsAnswer pattern flags g old errno (ok []) h =
    elim (Bool-cases (has_flag flags glob_nocheck)) [
      | inl k ↦ rw k (stores (inr k) (store-IsStored flags _ old g errno h))
      | inr k ↦ rw k (finds_nothing k)
    ]
glob_with-IsAnswer pattern flags g old errno (ok (p ∷ paths)) h =
    stores (inl refl) (store-IsStored flags (p ∷ paths) old g errno h)

-- On a structure that holds the paths `old`, or that is as `globfree` leaves it, `glob` with its
-- two pointers aborts, finds nothing, or stores: the first two when the traversal is aborted, or
-- finds nothing without `GLOB_NOCHECK`, and they leave the structure as it was. Otherwise it
-- returns 0, and the structure holds `old` if `GLOB_APPEND` is given, and then the matches, or
-- the fallback pattern if there are none, sorted unless `GLOB_NOSORT` is given. `errno` is the
-- error that aborts, and otherwise as the traversal leaves it.
pub glob_into-IsAnswer :
    (fs : FileSystem) (after : ErrnoAfter) (pattern : Bytes) (flags : ℕ) (errfunc : GlobErrorFn)
    (g : GlobState) (errno : ℕ) (old : List Bytes)
    → IsGlob g old
    → IsAnswer pattern flags g old
        (collect_errno fs after pattern flags errfunc errno)
        (collect_matches fs pattern flags errfunc)
        (glob_into fs after pattern flags errfunc g errno)
unfolding glob_into
glob_into-IsAnswer fs after pattern flags errfunc g errno old h =
    glob_with-IsAnswer pattern flags g old (collect_errno fs after pattern flags errfunc errno)
      (collect_matches fs pattern flags errfunc) h
