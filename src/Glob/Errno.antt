-- ===== src/Glob/Errno.antt =====
-- src/glob.rs: what `errno` is after a traversal that is not aborted. The traversal writes it itself,
-- in `read_directory_names`; what the calls of other code leave is a parameter.
use rlibc.Common.{ℕ, none, some, List, [], ◌∷◌, leb, not, ◌&&◌, if◌then◌else◌}
use rlibc.Common.Bytes.{Bytes}
use rlibc.Env.Host.{is_empty}
use rlibc.Glob.{has_flag, glob_noescape}
use rlibc.Glob.Match.{segment_has_pattern_meta, unescape_segment}
use rlibc.Glob.Segments.{parse_segments_with_separators}
use rlibc.Glob.Traverse.{
  FileSystem, Outcome, ok, err, CandidatePath, GlobErrorFn, callback_path, read_directory_names,
  child, expand_candidates, expand_segments,
}
use rlibc.Glob.Collect.{
  has_escaped_separator, normalize_escaped_separators, start_at_zero, root_candidate,
}

-- What a test of a path leaves, and the caller's callback, for what `errno` was before.
pub record ErrnoAfter : Type 0 where
  pub exists : Bytes → ℕ → ℕ
  pub is_dir : Bytes → ℕ → ℕ
  pub callback : Bytes → ℕ → ℕ → ℕ

abbrev error_errno : ErrnoAfter → CandidatePath → GlobErrorFn → ℕ → ℕ → ℕ
error_errno after candidate none errno_value errno = errno
error_errno after candidate (some callback) errno_value errno =
    after.callback (callback_path candidate) errno_value errno

abbrev read_errno_of : ErrnoAfter → CandidatePath → GlobErrorFn → Outcome (List Bytes) × ℕ → ℕ
read_errno_of after candidate errfunc (ok names, errno) = errno
read_errno_of after candidate errfunc (err errno_value, errno) =
    error_errno after candidate errfunc errno_value errno

unfoldable pub candidate_errno :
    FileSystem → ErrnoAfter → ℕ → GlobErrorFn → Bytes → ℕ → CandidatePath → ℕ → ℕ
unfolding read_directory_names child
candidate_errno fs after flags errfunc segment separator_count candidate errno =
    if segment_has_pattern_meta segment flags
    then read_errno_of after candidate errfunc (read_directory_names fs candidate.fs_path)
    else (let next = child fs candidate separator_count (unescape_segment segment flags) in
        after.exists next.fs_path errno)

unfoldable pub candidates_errno :
    FileSystem → ErrnoAfter → ℕ → GlobErrorFn → Bytes → ℕ → List CandidatePath → ℕ → ℕ
unfolding candidate_errno
candidates_errno fs after flags errfunc segment separator_count [] errno = errno
candidates_errno fs after flags errfunc segment separator_count (candidate ∷ l) errno =
    candidates_errno fs after flags errfunc segment separator_count l
      (candidate_errno fs after flags errfunc segment separator_count candidate errno)

-- The loop over the segments, over the candidates that `expand_segments` has.
unfoldable pub segments_errno :
    FileSystem → ErrnoAfter → ℕ → GlobErrorFn → List Bytes → List ℕ → List CandidatePath → ℕ → ℕ
unfolding candidates_errno expand_candidates
segments_errno fs after flags errfunc [] seps candidates errno = errno
segments_errno fs after flags errfunc (segment ∷ l) [] candidates errno = errno
segments_errno fs after flags errfunc (segment ∷ l) (n ∷ seps) candidates errno =
    let left = candidates_errno fs after flags errfunc segment n candidates errno in
    elim (expand_candidates fs flags errfunc segment n candidates) [
      | err errno_value ↦ left
      | ok next ↦ elim next [
        | [] ↦ left
        | candidate ∷ more ↦ segments_errno fs after flags errfunc l seps (candidate ∷ more) left
      ]
    ]

-- The test of the candidates before a trailing separator.
unfoldable pub finish_errno : ErrnoAfter → List CandidatePath → ℕ → ℕ
finish_errno after [] errno = errno
finish_errno after (candidate ∷ l) errno =
    finish_errno after l (after.is_dir candidate.fs_path errno)

unfoldable pub collect_errno : FileSystem → ErrnoAfter → Bytes → ℕ → GlobErrorFn → ℕ → ℕ
unfolding normalize_escaped_separators has_escaped_separator parse_segments_with_separators
    segments_errno expand_segments root_candidate finish_errno
collect_errno fs after pattern flags errfunc errno =
    let normalized =
      if not (has_flag flags glob_noescape) && has_escaped_separator pattern
      then normalize_escaped_separators pattern
      else pattern in
    let (leading, segments, separators_before, trailing) =
      parse_segments_with_separators normalized in
    let start = root_candidate leading segments ∷ [] in
    let left =
      segments_errno fs after flags errfunc segments (start_at_zero separators_before) start
        errno in
    if is_empty segments
    then errno
    else elim (expand_segments fs flags errfunc segments (start_at_zero separators_before) start) [
      | err errno_value ↦ left
      | ok candidates ↦ if leb 1 trailing then finish_errno after candidates left else left
    ]
