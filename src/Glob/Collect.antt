-- ===== src/Glob/Collect.antt =====
-- src/glob.rs: the paths that a whole pattern gives, and the one that `GLOB_NOCHECK` gives.
use mathlib.Core.List.{reverse}
use rlibc.Common.{
  ℕ, suc, ◌%◌, Bool, true, false, not, ◌&&◌, ◌||◌, List, [], ◌∷◌, ◌==◌, ◌++◌, leb, length,
  if◌then◌else◌, map,
}
use rlibc.Common.Bytes.{Bytes}
use rlibc.Env.{retain}
use rlibc.Env.Host.{contains_byte, is_empty}
use rlibc.Glob.{has_flag, glob_noescape}
use rlibc.Glob.Match.{is_end}
use rlibc.Glob.Segments.{separators, parse_segments_with_separators}
use rlibc.Glob.Traverse.{FileSystem, CandidatePath, GlobErrorFn, Outcome, ok, err, expand_segments}

-- `windows(2).any(|window| window == b"\\/")`
unfoldable pub has_escaped_separator : Bytes → Bool
has_escaped_separator [] = false
has_escaped_separator (c ∷ []) = false
has_escaped_separator (c ∷ d ∷ s) =
    let rest = has_escaped_separator (d ∷ s) in (c == b'\\') && (d == b'/') || rest

unfoldable pub normalize_escaped_separators : Bytes → Bytes
normalize_escaped_separators [] = []
normalize_escaped_separators (c ∷ []) = c ∷ []
normalize_escaped_separators (c ∷ d ∷ s) =
    let after = normalize_escaped_separators s in
    let rest = normalize_escaped_separators (d ∷ s) in
    if (c == b'\\') && (d == b'/') then b'/' ∷ after else c ∷ rest

-- The loop of `leading_separators_include_escaped`.
unfoldable pub leading_escaped : Bool → Bytes → Bool
leading_escaped found [] = found
leading_escaped found (c ∷ []) = found
leading_escaped found (c ∷ d ∷ s) =
    let after = leading_escaped true s in
    let rest = leading_escaped found (d ∷ s) in
    if c == b'/' then rest else if (c == b'\\') && (d == b'/') then after else found

unfoldable pub leading_separators_include_escaped : Bytes → ℕ → Bool
leading_separators_include_escaped pattern flags =
    if has_flag flags glob_noescape then false else leading_escaped false pattern

unfoldable pub root_only_result_path : ℕ → Bool → Bytes
root_only_result_path leading_separators leading_has_escaped_separator = separators (
    if leb 3 leading_separators || ((leading_separators == 2) && leading_has_escaped_separator)
    then 2
    else 1)

unfoldable pub count_backslashes : Bytes → ℕ
count_backslashes [] = 0
count_backslashes (c ∷ s) = let n = count_backslashes s in if c == b'\\' then suc n else 0

-- `separator_is_escaped`, on the bytes before the separator, the last first.
unfoldable pub separator_is_escaped : Bytes → ℕ → Bool
separator_is_escaped before flags =
    not (has_flag flags glob_noescape) && (count_backslashes before % 2 == 1)

-- The loop over the trailing separators, the last byte first.
unfoldable pub trim_separators : ℕ → Bytes → Bytes
unfolding separator_is_escaped
trim_separators flags [] = []
trim_separators flags (c ∷ before) =
    let rest = trim_separators flags before in
    if (c == b'/') && not (separator_is_escaped before flags) then rest else c ∷ before

-- `//name` gives `/name`.
unfoldable pub drop_root_separator : Bytes → Bytes
drop_root_separator [] = []
drop_root_separator (c ∷ []) = c ∷ []
drop_root_separator (c ∷ d ∷ s) =
    if (c == b'/') && (d == b'/') && not (is_end s) && not (contains_byte b'/' s)
    then d ∷ s
    else c ∷ d ∷ s

unfoldable pub nocheck_fallback_pattern : Bytes → ℕ → Bytes
unfolding trim_separators drop_root_separator
nocheck_fallback_pattern pattern flags =
    let trimmed = reverse (trim_separators flags (reverse pattern)) in
    drop_root_separator (if is_end trimmed then pattern else trimmed)

abbrev pub start_at_zero : List ℕ → List ℕ
start_at_zero [] = []
start_at_zero (n ∷ seps) = 0 ∷ seps

unfoldable pub root_candidate : ℕ → List Bytes → CandidatePath
root_candidate leading_separators segments =
    if leb 1 leading_separators
    then record {
      fs_path = b'/' ∷ [];
      result_path =
          separators
            (if (leading_separators == 2) && (length segments == 1) then 1 else leading_separators);
    }
    else record { fs_path = b'.' ∷ []; result_path = [] }

unfoldable pub finish : FileSystem → ℕ → List CandidatePath → List Bytes
finish fs trailing_separators candidates =
    if leb 1 trailing_separators
    then map (λ c. c.result_path ++ (b'/' ∷ [])) (retain (λ c. fs.is_dir c.fs_path) candidates)
    else map (λ c. c.result_path) candidates

unfoldable pub collect_matches : FileSystem → Bytes → ℕ → GlobErrorFn → Outcome (List Bytes)
unfolding normalize_escaped_separators has_escaped_separator leading_separators_include_escaped
    parse_segments_with_separators expand_segments root_candidate root_only_result_path finish
collect_matches fs pattern flags errfunc =
    let normalized =
      if not (has_flag flags glob_noescape) && has_escaped_separator pattern
      then normalize_escaped_separators pattern
      else pattern in
    let (leading, segments, separators_before, trailing) =
      parse_segments_with_separators normalized in
    let expanded =
      expand_segments fs flags errfunc segments (start_at_zero separators_before)
        (root_candidate leading segments ∷ []) in
    if is_empty segments
    then (if leb 1 leading
        then ok
            (root_only_result_path leading (leading_separators_include_escaped pattern flags) ∷ [])
        else ok [])
    else elim expanded [
      | err errno_value ↦ err errno_value
      | ok candidates ↦ ok (finish fs trailing candidates)
    ]
