-- ===== src/Tests/Glob.antt =====
-- The theorems on patterns, on a small directory, and on a structure that is filled twice.
use mathlib.Core.List.{Memᴰ}
use rlibc.Common.{
  ◌≡◌, refl, ◌↔◌, true, false, none, some, List, [], ◌∷◌, ◌++◌, inl, length, All, if◌then◌else◌,
}
use rlibc.Common.Bytes.{codes, eqb_bytes}
use rlibc.Glob.{has_flag, glob_noescape, glob_append, glob_nocheck}
use rlibc.Glob.Match.{pattern_matches, segment_has_pattern_meta, unescape_segment}
use rlibc.Glob.Relation.{tokens, Matches}
use rlibc.Glob.Relation.Loop.{pattern_matches_iff}
use rlibc.Glob.Literal.{literal_segment_lem}
use rlibc.Glob.Segments.{separators, parse_segments_with_separators, joined, IsSegment}
use rlibc.Glob.Segments.Joined.{joined-parse}
use rlibc.Glob.Traverse.{not_opened, opened, FileSystem, CandidatePath, ok, expand_segments}
use rlibc.Glob.Traverse.Reach.{Reaches}
use rlibc.Glob.Traverse.Reach.Chains.{expand_segments_iff}
use rlibc.Glob.Collect.{collect_matches}
use rlibc.Glob.Errno.{ErrnoAfter, collect_errno}
use rlibc.Glob.Vector.{GlobState, glob_into, allocate_pathv}
use rlibc.Glob.Vector.Held.{Holds, IsAnswer, glob_into-IsAnswer}

-- A directory with two files and a hidden one, and nothing else.
abbrev small : FileSystem
small = record {
  opendir = λ path.
      if eqb_bytes path (codes ".")
      then opened (record {
        names = codes "b.c" ∷ codes ".h.c" ∷ codes "a.c" ∷ [];
        read_errno = λ errno. errno;
        close = λ errno. (false, errno);
      })
      else not_opened 2;
  exists = λ path. eqb_bytes path (codes "./a.c");
  is_dir = λ path. false;
  join = λ path name. path ++ (b'/' ∷ name);
}

abbrev here : CandidatePath
here = record { fs_path = codes "."; result_path = [] }

abbrev a_file : CandidatePath
a_file = record { fs_path = codes "./a.c"; result_path = codes "a.c" }

abbrev two_files : List CandidatePath
two_files = record { fs_path = codes "./b.c"; result_path = codes "b.c" } ∷ a_file ∷ []

pattern_matches_iff_example :
    (pattern_matches (codes "a[!x-z]*.c") (codes "abb.c") 0 ≡ true)
    ↔ Matches (tokens (has_flag 0 glob_noescape) 0 (codes "a[!x-z]*.c")) (codes "abb.c")
pattern_matches_iff_example = pattern_matches_iff (codes "a[!x-z]*.c") (codes "abb.c") 0

no_meta : segment_has_pattern_meta (codes "a[\\*") 0 ≡ false
unfolding segment_has_pattern_meta rlibc.Glob.Match.has_meta_from rlibc.Glob.Match.bracket_match
    rlibc.Glob.Match.match_list rlibc.Glob.Match.match_items rlibc.Glob.Match.bracket_item
    rlibc.Glob.has_flag
no_meta = refl

literal_segment_lem_example :
    pattern_matches (codes "a[\\*") (codes "a[*") 0
    ≡ eqb_bytes (codes "a[*") (unescape_segment (codes "a[\\*") 0)
literal_segment_lem_example = literal_segment_lem (codes "a[\\*") (codes "a[*") 0 no_meta

joined-parse_example :
    (let (leading, segments, seps, trailing) = parse_segments_with_separators (codes "//a///b/") in
      (separators leading ++ (joined segments seps ++ separators trailing) ≡ codes "//a///b/")
      × (length segments ≡ length seps)
      × All IsSegment segments)
joined-parse_example = joined-parse (codes "//a///b/")

expanded : expand_segments small 0 none (codes "*.c" ∷ []) (0 ∷ []) (here ∷ []) ≡ ok two_files
unfolding expand_segments segment_has_pattern_meta rlibc.Glob.Match.has_meta_from eqb_bytes
    rlibc.Env.retain pattern_matches rlibc.Glob.Match.pattern_matches_from
    rlibc.Glob.Segments.join_result_path rlibc.Glob.Match.should_match_hidden_name separators
    has_flag
expanded = refl

expand_segments_iff_example : Memᴰ a_file two_files ↔ (
    (c : CandidatePath) × Memᴰ c (here ∷ []) × Reaches small 0 (codes "*.c" ∷ []) (0 ∷ []) c a_file)
expand_segments_iff_example =
    expand_segments_iff small 0 none (codes "*.c" ∷ []) (0 ∷ []) (here ∷ []) two_files a_file refl
      expanded

-- After one path is stored behind one null.
abbrev filled : GlobState
filled = record {
  gl_pathc = 1;
  gl_pathv = some (none ∷ some (codes "z") ∷ none ∷ []);
  gl_offs = 1;
  gl_flags = 0;
}

filled-Holds : Holds filled (codes "z" ∷ [])
unfolding allocate_pathv
filled-Holds = record { vector = refl; counted = refl }

-- Calls that leave `errno`.
abbrev keeping : ErrnoAfter
keeping = record {
  exists = λ path errno. errno;
  is_dir = λ path errno. errno;
  callback = λ path errno_value errno. errno;
}

glob_into-IsAnswer_example :
    IsAnswer
      (codes "*.c")
      32
      filled
      (codes "z" ∷ [])
      (collect_errno small keeping (codes "*.c") 32 none 7)
      (collect_matches small (codes "*.c") 32 none)
      (glob_into small keeping (codes "*.c") 32 none filled 7)
glob_into-IsAnswer_example =
    glob_into-IsAnswer small keeping (codes "*.c") 32 none filled 7 (codes "z" ∷ [])
      (inl filled-Holds)

-- A successful call may leave 0 where the caller had another value.
errno_cleared : collect_errno small keeping (codes "*.c") 32 none 7 ≡ 0
unfolding collect_errno rlibc.Glob.Segments.parse_loop rlibc.Glob.Segments.after_leading has_flag
    rlibc.Glob.Segments.end_segment rlibc.Glob.Segments.parse_byte segment_has_pattern_meta
    rlibc.Glob.Match.has_meta_from eqb_bytes rlibc.Glob.Segments.leading_count rlibc.Env.retain
    pattern_matches rlibc.Glob.Match.pattern_matches_from
errno_cleared = refl
