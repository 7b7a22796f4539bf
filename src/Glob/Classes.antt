-- ===== src/Glob/Classes.antt =====
-- src/glob.rs: what a bracket expression means, read once and without a candidate.
use rlibc.Common.{
  ℕ, zero, suc, ◌+◌, ◌≡◌, refl, Bool, true, false, not, ◌&&◌, ◌||◌, Option, none, some, List, [],
  ◌∷◌, ◌==◌, ◌++◌, if◌then◌else◌, arith, Option-cases,
}
use rlibc.Common.Bytes.{Bytes}
use rlibc.Glob.Match.{in_range, bracket_item, match_items, invert_if, match_list, bracket_match}

-- `[...]`, or `[!...]`: the ranges of bytes it lists.
pub record ByteClass : Type 0 where
  pub inverted : Bool
  pub ranges : List (ℕ × ℕ)

unfoldable pub any_range : List (ℕ × ℕ) → ℕ → Bool
any_range [] c = false
any_range ((first, last) ∷ l) c = in_range first last c || any_range l c

abbrev pub class_has : ByteClass → ℕ → Bool
class_has k c = if k.inverted then not (any_range k.ranges c) else any_range k.ranges c

-- The ranges up to the `]`, and the length of the expression.
unfoldable pub read_ranges : Bool → Bool → ℕ → ℕ → Bytes → Option (List (ℕ × ℕ) × ℕ)
unfolding bracket_item
read_ranges no_escape has_any_item skip consumed [] = none
read_ranges no_escape has_any_item (suc skip) consumed (current ∷ s) =
    read_ranges no_escape has_any_item skip (consumed + 1) s
read_ranges no_escape has_any_item zero consumed (current ∷ s) =
    let (first, last, more) = bracket_item no_escape current s in
    let rest = read_ranges no_escape true more (consumed + 1) s in
    if (current == b']') && has_any_item
    then some ([], consumed + 1)
    else elim rest [ none ↦ none | some (l, n) ↦ some ((first, last) ∷ l, n) ]

abbrev class_of : Bool → List (ℕ × ℕ) → Option (List (ℕ × ℕ) × ℕ) → Option (ByteClass × ℕ)
class_of inverted l none = none
class_of inverted l (some (m, n)) = some (record { inverted = inverted; ranges = l ++ m }, n)

unfoldable pub read_list : Bool → Bool → ℕ → Bytes → Option (ByteClass × ℕ)
unfolding read_ranges
read_list no_escape inverted consumed [] = none
read_list no_escape inverted consumed (c ∷ s) =
    if c == b']'
    then class_of inverted ((b']', b']') ∷ []) (read_ranges no_escape true 0 (consumed + 1) s)
    else class_of inverted [] (read_ranges no_escape false 0 consumed (c ∷ s))

unfoldable pub read_class : Bool → Bytes → Option (ByteClass × ℕ)
unfolding read_list
read_class no_escape [] = none
read_class no_escape (c ∷ s) =
    if (c == b'!') || (c == b'^')
    then read_list no_escape true 1 s
    else read_list no_escape false 0 (c ∷ s)

-- What a class says of a candidate.
abbrev pub asked : ℕ → Option (ByteClass × ℕ) → Option (Bool × ℕ)
asked c none = none
asked c (some (k, n)) = some (class_has k c, n)

abbrev ranges_asked : Bool → ℕ → Option (List (ℕ × ℕ) × ℕ) → Option (Bool × ℕ)
ranges_asked matched c none = none
ranges_asked matched c (some (l, n)) = some (matched || any_range l c, n)

match_items_lem :
    (no_escape : Bool) (c : ℕ) (matched any : Bool) (skip consumed : ℕ) (s : Bytes)
    → match_items no_escape c matched any skip consumed s
      ≡ ranges_asked matched c (read_ranges no_escape any skip consumed s)
unfolding match_items read_ranges any_range
match_items_lem no_escape c matched any skip consumed [] = refl
match_items_lem no_escape c matched any (suc skip) consumed (x ∷ s) =
    match_items_lem no_escape c matched any skip (consumed + 1) s
match_items_lem no_escape c matched any zero consumed (x ∷ s) =
    let (first, last, more) = bracket_item no_escape x s in
    ground (
      arith,
      match_items_lem no_escape c (matched || in_range first last c) true more (consumed + 1) s,
      Option-cases (read_ranges no_escape true more (consumed + 1) s),
    )

match_list_lem :
    (no_escape inverted : Bool) (c consumed : ℕ) (s : Bytes)
    → invert_if inverted (match_list no_escape c consumed s)
      ≡ asked c (read_list no_escape inverted consumed s)
unfolding match_list read_list any_range
match_list_lem no_escape inverted c consumed [] = refl
match_list_lem no_escape inverted c consumed (x ∷ s) = ground (
  arith,
  match_items_lem no_escape c (c == b']') true 0 (consumed + 1) s,
  match_items_lem no_escape c false false 0 consumed (x ∷ s),
  Option-cases (read_ranges no_escape true 0 (consumed + 1) s),
  Option-cases (read_ranges no_escape false 0 consumed (x ∷ s)),
)

-- A bracket expression is the same class, of the same length, for every candidate.
pub bracket_match-read_class :
    (no_escape : Bool) (c : ℕ) (s : Bytes)
    → bracket_match no_escape c s ≡ asked c (read_class no_escape s)
unfolding bracket_match read_class
bracket_match-read_class no_escape c [] = refl
bracket_match-read_class no_escape c (x ∷ s) =
    ground (arith, match_list_lem no_escape true c 1 s, match_list_lem no_escape false c 0 (x ∷ s))
