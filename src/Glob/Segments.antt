-- ===== src/Glob/Segments.antt =====
-- src/glob.rs: a pattern cut at its separators, and put together again.
pub mod Joined
use mathlib.Core.List.{append_assoc, append-nil}
use rlibc.Common.{
  ℕ, zero, suc, ◌+◌, ◌<◌, ◌%◌, ◌≡◌, ◌≢◌, refl, ap, sym, ◌∙◌, Bool, true, false, not, ◌&&◌, ◌||◌,
  Option, none, some, List, [], ◌∷◌, ◌==◌, ◌++◌, ltb, leb, length, if◌then◌else◌, arith,
  Option-cases, Bool-cases, All,
}
use rlibc.Common.Bytes.{Bytes}
use rlibc.Glob.{has_flag, glob_noescape}
use rlibc.Glob.Match.{is_end}

unfoldable pub separators : ℕ → Bytes
separators zero = []
separators (suc n) = b'/' ∷ separators n

-- `join_result_path`
unfoldable pub join_result_path : Bytes → ℕ → Bytes → Bytes
join_result_path base separator_count name = base ++ (separators separator_count ++ name)

-- What the loop over the pattern has: the segments, the separators before each, those since the last
-- segment, and the segment that it is in.
pub record Parsing : Type 0 where
  pub segments : List Bytes
  pub separators_before : List ℕ
  pub pending_separators : ℕ
  pub current : Bytes

-- The end of a segment, if the loop is in one.
unfoldable pub end_segment : Parsing → Parsing
end_segment p = if is_end p.current then p else record {
  segments = p.segments ++ (p.current ∷ []);
  separators_before = p.separators_before ++ (p.pending_separators ∷ []);
  pending_separators = 0;
  current = [];
}

unfoldable pub parse_byte : ℕ → Parsing → Parsing
parse_byte c p =
    if c == b'/'
    then (let q = end_segment p in record q { pending_separators = q.pending_separators + 1 })
    else record p { current = p.current ++ (c ∷ []) }

unfoldable pub parse_loop : Bytes → Parsing → Parsing
parse_loop [] p = end_segment p
parse_loop (c ∷ s) p = parse_loop s (parse_byte c p)

unfoldable pub leading_count : Bytes → ℕ
leading_count [] = 0
leading_count (c ∷ s) = let n = leading_count s in if c == b'/' then suc n else 0

unfoldable pub after_leading : Bytes → Bytes
after_leading [] = []
after_leading (c ∷ s) = let t = after_leading s in if c == b'/' then t else c ∷ s

abbrev pub unparsed : Parsing
unparsed = record { segments = []; separators_before = []; pending_separators = 0; current = [] }

unfoldable pub parse_segments_with_separators : Bytes → ℕ × List Bytes × List ℕ × ℕ
parse_segments_with_separators pattern =
    let p = parse_loop (after_leading pattern) unparsed in
    (leading_count pattern, p.segments, p.separators_before, p.pending_separators)

-- The segments, each after its separators.
unfoldable pub joined : List Bytes → List ℕ → Bytes
joined [] seps = []
joined (x ∷ l) [] = []
joined (x ∷ l) (n ∷ seps) = separators n ++ (x ++ joined l seps)

-- A segment is a piece of the pattern between separators.
abbrev pub IsSegment : Bytes → Type 0
IsSegment x = (is_end x ≡ false) × All (λ c. (c == b'/') ≡ false) x
