-- ===== src/Glob/Vector.antt =====
-- src/glob.rs: `glob` and `globfree`, on the caller's structure. Its path vector is the list of what it
-- holds, strings and nulls, the null at its end included; the allocation is taken to succeed.
pub mod Held
use rlibc.Common.{
  ℕ, zero, suc, ◌+◌, ◌<◌, ◌%◌, ◌≡◌, ◌≢◌, refl, ap, sym, ◌∙◌, Bool, true, false, not, ◌&&◌, ◌||◌,
  Option, none, some, List, [], ◌∷◌, ◌==◌, ◌++◌, ltb, leb, length, drop, if◌then◌else◌, arith, map,
}
use rlibc.Common.Bytes.{Bytes, sort_bytes}
use rlibc.Errno.{einval}
use rlibc.Glob.{
  has_flag, glob_nosort, glob_dooffs, glob_nocheck, glob_append, glob_aborted, glob_nomatch,
}
use rlibc.Env.Host.{is_empty}
use rlibc.Glob.Traverse.{FileSystem, GlobErrorFn, Outcome, ok, err}
use rlibc.Glob.Collect.{collect_matches, nocheck_fallback_pattern}
use rlibc.Glob.Errno.{ErrnoAfter, collect_errno}

-- `Glob`
pub record GlobState : Type 0 where
  pub gl_pathc : ℕ
  pub gl_pathv : Option (List (Option Bytes))
  pub gl_offs : ℕ
  pub gl_flags : ℕ

-- The loop of `clone_existing_paths`, from the place it starts at.
unfoldable pub clone_paths : ℕ → List (Option Bytes) → List Bytes
clone_paths zero pathv = []
clone_paths (suc n) [] = []
clone_paths (suc n) (none ∷ l) = []
clone_paths (suc n) (some path ∷ l) = path ∷ clone_paths n l

unfoldable pub clone_existing_paths : GlobState → ℕ → List Bytes
clone_existing_paths g offsets = elim g.gl_pathv [
  | none ↦ []
  | some pathv ↦ clone_paths g.gl_pathc (drop offsets pathv)
]

unfoldable pub nulls : ℕ → List (Option Bytes)
nulls zero = []
nulls (suc n) = none ∷ nulls n

unfoldable pub allocate_pathv : List Bytes → ℕ → List (Option Bytes)
unfolding nulls
allocate_pathv paths offsets = nulls offsets ++ (map some paths ++ (none ∷ []))

-- The number of entries of the allocation that `free_pathv` gives back.
unfoldable pub freed_entries : GlobState → ℕ
freed_entries g = g.gl_offs + g.gl_pathc + 1

unfoldable pub globfree : Option GlobState → Option GlobState
globfree none = none
globfree (some g) = some (record { gl_pathc = 0; gl_pathv = none; gl_offs = 0; gl_flags = 0 })

-- The result, the structure, and `errno`.
pub record GlobResult : Type 0 where
  pub code : ℕ
  pub state : GlobState
  pub errno : ℕ

unfoldable pub offsets_for : ℕ → GlobState → ℕ
offsets_for flags g =
    if has_flag flags glob_append || has_flag flags glob_dooffs then g.gl_offs else 0

-- From the matches on.
unfoldable pub store_matches : ℕ → List Bytes → GlobState → GlobState
unfolding offsets_for clone_existing_paths allocate_pathv
store_matches flags matched_paths g =
    let sorted = if has_flag flags glob_nosort then matched_paths else sort_bytes matched_paths in
    let offsets = offsets_for flags g in
    let existing = if has_flag flags glob_append then clone_existing_paths g offsets else [] in
    let final_paths = existing ++ sorted in
    record {
      gl_pathc = length final_paths;
      gl_pathv = some (allocate_pathv final_paths offsets);
      gl_offs = offsets;
      gl_flags = flags;
    }

-- On the matches, and on `errno` as they are found.
unfoldable pub glob_with : Bytes → ℕ → GlobState → ℕ → Outcome (List Bytes) → GlobResult
unfolding store_matches nocheck_fallback_pattern
glob_with pattern flags g errno (err errno_value) = record {
  code = glob_aborted;
  state = g;
  errno = errno_value;
}
glob_with pattern flags g errno (ok matched_paths) =
    if is_empty matched_paths
    then (if has_flag flags glob_nocheck
        then record {
          code = 0;
          state = store_matches flags (nocheck_fallback_pattern pattern flags ∷ []) g;
          errno = errno;
        }
        else record { code = glob_nomatch; state = g; errno = errno })
    else record { code = 0; state = store_matches flags matched_paths g; errno = errno }

unfoldable pub glob_into :
    FileSystem → ErrnoAfter → Bytes → ℕ → GlobErrorFn → GlobState → ℕ → GlobResult
unfolding collect_matches collect_errno glob_with
glob_into fs after pattern flags errfunc g errno =
    glob_with pattern flags g (collect_errno fs after pattern flags errfunc errno)
      (collect_matches fs pattern flags errfunc)

-- `glob`; a null pointer is `none`.
unfoldable pub glob :
    FileSystem
    → ErrnoAfter
    → Option Bytes
    → ℕ
    → GlobErrorFn
    → Option GlobState
    → ℕ
    → ℕ × Option GlobState × ℕ
unfolding glob_into
glob fs after none flags errfunc pglob errno = (glob_aborted, pglob, einval)
glob fs after (some pattern) flags errfunc none errno = (glob_aborted, none, einval)
glob fs after (some pattern) flags errfunc (some g) errno =
    let r = glob_into fs after pattern flags errfunc g errno in (r.code, some r.state, r.errno)
