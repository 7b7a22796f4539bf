-- ===== src/Glob/Match.antt =====
-- src/glob.rs: a name against one segment of a pattern.
use rlibc.Common.{
  ℕ, zero, suc, ◌+◌, Bool, true, false, not, ◌&&◌, ◌||◌, Option, none, some, [], ◌∷◌, ◌==◌, leb,
  drop, if◌then◌else◌,
}
use rlibc.Common.Bytes.{Bytes}
use rlibc.Glob.{has_flag, glob_noescape}

abbrev pub is_end : Bytes → Bool
is_end [] = true
is_end (c ∷ s) = false

-- The item at the position: its first and last byte, and how many bytes it has after its first.
unfoldable pub bracket_item : Bool → ℕ → Bytes → ℕ × ℕ × ℕ
bracket_item no_escape current s =
    if current == b'\\' && not no_escape && not (is_end s)
    then elim s [ [] ↦ (current, current, 0) | escaped ∷ _ ↦ (escaped, escaped, 1) ]
    else elim s [
      | dash ∷ last ∷ t ↦
          if (dash == b'-') && not (last == b']')
          then elim t [
            | [] ↦ (current, last, 2)
            | escaped ∷ _ ↦
                if (last == b'\\') && not no_escape
                then (current, escaped, 3)
                else (current, last, 2)
          ]
          else (current, current, 0)
      | _ ↦ (current, current, 0)
    ]

abbrev pub in_range : ℕ → ℕ → ℕ → Bool
in_range first last candidate = leb first candidate && leb candidate last

-- The loop over the items, with the number of bytes gone over: whether an item has the candidate, and
-- how long the expression is.
unfoldable pub match_items : Bool → ℕ → Bool → Bool → ℕ → ℕ → Bytes → Option (Bool × ℕ)
unfolding bracket_item
match_items no_escape candidate matched has_any_item skip consumed [] = none
match_items no_escape candidate matched has_any_item (suc skip) consumed (current ∷ s) =
    match_items no_escape candidate matched has_any_item skip (consumed + 1) s
match_items no_escape candidate matched has_any_item zero consumed (current ∷ s) =
    let (first, last, more) = bracket_item no_escape current s in
    let rest =
      match_items no_escape candidate (matched || in_range first last candidate) true more
        (consumed + 1) s in
    if (current == b']') && has_any_item then some (matched, consumed + 1) else rest

abbrev pub invert_if : Bool → Option (Bool × ℕ) → Option (Bool × ℕ)
invert_if invert none = none
invert_if invert (some (matched, consumed)) =
    some (if invert then not matched else matched, consumed)

-- From the place of the first item on. A `]` that comes first is an item.
unfoldable pub match_list : Bool → ℕ → ℕ → Bytes → Option (Bool × ℕ)
match_list no_escape candidate consumed [] = none
match_list no_escape candidate consumed (c ∷ s) =
    if c == b']'
    then match_items no_escape candidate (candidate == b']') true 0 (consumed + 1) s
    else match_items no_escape candidate false false 0 consumed (c ∷ s)

-- `bracket_match`, on what follows the `[`; its length is counted from there.
unfoldable pub bracket_match : Bool → ℕ → Bytes → Option (Bool × ℕ)
bracket_match no_escape candidate [] = none
bracket_match no_escape candidate (c ∷ s) =
    if (c == b'!') || (c == b'^')
    then invert_if true (match_list no_escape candidate 1 s)
    else invert_if false (match_list no_escape candidate 0 (c ∷ s))

-- One element of the pattern, other than `*`, against one byte: how many more bytes it has.
unfoldable pub match_one : Bool → ℕ → Bytes → ℕ → Option ℕ
unfolding bracket_match
match_one no_escape current s c =
    if current == b'?'
    then some 0
    else if current == b'['
    then elim (bracket_match no_escape c s) [
      | none ↦ if c == b'[' then some 0 else none
      | some (matched, consumed) ↦ if matched then some consumed else none
    ]
    else if (current == b'\\') && not no_escape
    then elim s [
      | [] ↦ if c == b'\\' then some 0 else none
      | escaped ∷ _ ↦ if c == escaped then some 1 else none
    ]
    else if c == current
    then some 0
    else none

abbrev pub count_stars : Bytes → ℕ
count_stars [] = 0
count_stars (c ∷ s) = if c == b'*' then suc (count_stars s) else 0

-- The scan over the rest of the candidate.
unfoldable pub at_some_suffix : (Bytes → Bool) → Bytes → Bool
at_some_suffix test [] = test []
at_some_suffix test (c ∷ s) = test (c ∷ s) || at_some_suffix test s

unfoldable pub pattern_matches_from : Bool → ℕ → Bytes → Bytes → Bool
unfolding match_one at_some_suffix
pattern_matches_from no_escape skip [] candidate = is_end candidate
pattern_matches_from no_escape (suc skip) (current ∷ s) candidate =
    pattern_matches_from no_escape skip s candidate
pattern_matches_from no_escape zero (current ∷ s) candidate =
    if current == b'*'
    then (is_end (drop (count_stars s) s)
        || at_some_suffix (pattern_matches_from no_escape (count_stars s) s) candidate)
    else elim candidate [
      | [] ↦ false
      | c ∷ t ↦ elim (match_one no_escape current s c) [
        | none ↦ false
        | some more ↦ pattern_matches_from no_escape more s t
      ]
    ]

unfoldable pub pattern_matches : Bytes → Bytes → ℕ → Bool
pattern_matches segment_pattern candidate_name flags =
    pattern_matches_from (has_flag flags glob_noescape) 0 segment_pattern candidate_name

-- `segment_has_pattern_meta`, from a position on.
unfoldable pub has_meta_from : Bool → ℕ → Bytes → Bool
has_meta_from no_escape skip [] = false
has_meta_from no_escape (suc skip) (current ∷ s) = has_meta_from no_escape skip s
has_meta_from no_escape zero (current ∷ s) =
    let escapes = (current == b'\\') && not no_escape && not (is_end s) in
    let rest = has_meta_from no_escape (if escapes then 1 else 0) s in
    if escapes
    then rest
    else if (current == b'*') || (current == b'?')
    then true
    else if (current == b'[')
        && elim (bracket_match no_escape b'.' s) [ none ↦ false | some _ ↦ true ]
    then true
    else rest

unfoldable pub segment_has_pattern_meta : Bytes → ℕ → Bool
segment_has_pattern_meta segment flags = has_meta_from (has_flag flags glob_noescape) 0 segment

-- The loop of `unescape_segment`.
unfoldable pub unescape_from : Bytes → Bytes
unescape_from [] = []
unescape_from (c ∷ []) = c ∷ []
unescape_from (c ∷ d ∷ s) =
    let after = unescape_from s in
    let rest = unescape_from (d ∷ s) in if c == b'\\' then d ∷ after else c ∷ rest

unfoldable pub unescape_segment : Bytes → ℕ → Bytes
unescape_segment segment_pattern flags =
    if has_flag flags glob_noescape then segment_pattern else unescape_from segment_pattern

unfoldable pub should_match_hidden_name : Bytes → ℕ → Bool
should_match_hidden_name [] flags = false
should_match_hidden_name (c ∷ s) flags =
    let no_escape = has_flag flags glob_noescape in
    let bracket_has_dot : Bool = elim (bracket_match no_escape b'.' s) [
      | none ↦ false
      | some (matches_dot, _) ↦ matches_dot
    ] in
    let inverted : Bool = elim s [ [] ↦ false | d ∷ _ ↦ (d == b'!') || (d == b'^') ] in
    let escaped_dot : Bool = elim s [ [] ↦ false | d ∷ _ ↦ (c == b'\\') && (d == b'.') ] in
    if c == b'.'
    then true
    else if (c == b'[') && not inverted && bracket_has_dot
    then true
    else if no_escape
    then false
    else escaped_dot
