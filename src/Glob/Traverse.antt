-- ===== src/Glob/Traverse.antt =====
-- src/glob.rs: the traversal. The directory functions, the file system and `PathBuf::join` are
-- parameters; the caller's callback is a function of its arguments.
pub mod Reach
use mathlib.Core.List.{reverse}
use rlibc.Common.{
  ℕ, zero, suc, ◌+◌, ◌<◌, ◌%◌, ◌≡◌, ◌≢◌, refl, ap, sym, ◌∙◌, Bool, true, false, not, ◌&&◌, ◌||◌,
  Option, none, some, List, [], ◌∷◌, ◌==◌, ◌++◌, ltb, leb, length, drop, if◌then◌else◌, arith, map,
}
use rlibc.Common.Int.{ℤ, pos, eqb_ℤ}
use rlibc.Common.Bytes.{Bytes}
use rlibc.Errno.{eacces}
use rlibc.Env.{retain}
use rlibc.Env.Host.{contains_byte}
use rlibc.Glob.{has_flag, glob_noescape, glob_err, glob_aborted}
use rlibc.Glob.Match.{
  is_end, pattern_matches, segment_has_pattern_meta, unescape_segment, should_match_hidden_name,
}
use rlibc.Glob.Segments.{separators, join_result_path, parse_segments_with_separators}

-- What `readdir` gives until it returns null; `errno` after that call, for what it was before; whether
-- `closedir` fails, and `errno` after it, for what it was before.
pub record Directory : Type 0 where
  pub names : List Bytes
  pub read_errno : ℕ → ℕ
  pub close : ℕ → Bool × ℕ

pub data Opened : Type 0 where
  not_opened : ℕ → Opened
  opened : Directory → Opened

pub record FileSystem : Type 0 where
  pub opendir : Bytes → Opened
  pub exists : Bytes → Bool
  pub is_dir : Bytes → Bool
  pub join : Bytes → Bytes → Bytes

pub data Outcome {ℓ} (A : Type ℓ) : Type ℓ where
  ok : A → Outcome A
  err : ℕ → Outcome A

abbrev or_eacces : ℕ → ℕ
or_eacces errno_value = if errno_value == 0 then eacces else errno_value

-- From the last `readdir` on; `errno_value` is `errno` after it.
abbrev close_directory : List Bytes → ℕ → Bool × ℕ → Outcome (List Bytes) × ℕ
close_directory names errno_value (fails, last) = (
  if not (errno_value == 0)
      then err errno_value
      else if fails
      then err (or_eacces last)
      else ok names,
  last,
)

-- The names or an error, and what `errno` is left as. Each `readdir` comes after `write_errno(0)`.
unfoldable pub read_directory_names : FileSystem → Bytes → Outcome (List Bytes) × ℕ
read_directory_names fs path = elim (fs.opendir path) [
  | not_opened errno_value ↦ (err (or_eacces errno_value), errno_value)
  | opened dir ↦ close_directory dir.names (dir.read_errno 0) (dir.close (dir.read_errno 0))
]

-- `CandidatePath`
pub record CandidatePath : Type 0 where
  pub fs_path : Bytes
  pub result_path : Bytes

abbrev pub GlobErrorFn : Type 0
GlobErrorFn = Option (Bytes → ℕ → ℤ)

abbrev pub callback_path : CandidatePath → Bytes
callback_path candidate = if is_end candidate.result_path then b'.' ∷ [] else candidate.result_path

-- Whether the traversal is aborted; `errno` is then set to the error's.
unfoldable pub process_directory_error : CandidatePath → ℕ → ℕ → GlobErrorFn → Bool
process_directory_error candidate errno_value flags none = has_flag flags glob_err
process_directory_error candidate errno_value flags (some callback) =
    if not (eqb_ℤ (callback (callback_path candidate) errno_value) (pos 0))
    then true
    else has_flag flags glob_err

-- Whether a name of the directory is taken.
unfoldable pub selects : Bytes → ℕ → Bytes → Bool
selects segment flags name =
    if elim name [ [] ↦ false | c ∷ _ ↦ c == b'.' ] && not (should_match_hidden_name segment flags)
    then false
    else pattern_matches segment name flags

unfoldable pub child : FileSystem → CandidatePath → ℕ → Bytes → CandidatePath
child fs candidate separator_count name = record {
  fs_path = fs.join candidate.fs_path name;
  result_path = join_result_path candidate.result_path separator_count name;
}

-- One candidate and one segment. An error is what `errno` is set to.
unfoldable pub expand_candidate :
    FileSystem → ℕ → GlobErrorFn → Bytes → ℕ → CandidatePath → Outcome (List CandidatePath)
unfolding process_directory_error read_directory_names selects child
expand_candidate fs flags errfunc segment separator_count candidate =
    if segment_has_pattern_meta segment flags
    then elim (read_directory_names fs candidate.fs_path).0 [
      | err errno_value ↦
          if process_directory_error candidate errno_value flags errfunc
          then err errno_value
          else ok []
      | ok names ↦
          ok (map (child fs candidate separator_count) (retain (selects segment flags) names))
    ]
    else (let next = child fs candidate separator_count (unescape_segment segment flags) in
        if fs.exists next.fs_path then ok (next ∷ []) else ok [])

unfoldable pub expand_candidates :
    FileSystem → ℕ → GlobErrorFn → Bytes → ℕ → List CandidatePath → Outcome (List CandidatePath)
unfolding expand_candidate
expand_candidates fs flags errfunc segment separator_count [] = ok []
expand_candidates fs flags errfunc segment separator_count (candidate ∷ l) =
    let rest = expand_candidates fs flags errfunc segment separator_count l in
    elim (expand_candidate fs flags errfunc segment separator_count candidate) [
      | err errno_value ↦ err errno_value
      | ok next ↦ elim rest [ err errno_value ↦ err errno_value | ok more ↦ ok (next ++ more) ]
    ]

-- The loop over the segments.
unfoldable pub expand_segments :
    FileSystem
    → ℕ
    → GlobErrorFn
    → List Bytes
    → List ℕ
    → List CandidatePath
    → Outcome (List CandidatePath)
unfolding expand_candidates
expand_segments fs flags errfunc [] seps candidates = ok candidates
expand_segments fs flags errfunc (segment ∷ l) [] candidates = ok candidates
expand_segments fs flags errfunc (segment ∷ l) (n ∷ seps) candidates =
    elim (expand_candidates fs flags errfunc segment n candidates) [
      | err errno_value ↦ err errno_value
      | ok next ↦ elim next [
        | [] ↦ ok []
        | candidate ∷ more ↦ expand_segments fs flags errfunc l seps (candidate ∷ more)
      ]
    ]
