-- ===== src/Glob/Relation.antt =====
-- src/glob.rs: when a name has the form that a segment of a pattern describes, as a relation.
pub mod Decide
pub mod Loop
use rlibc.Common.{
  ℕ, zero, suc, ◌+◌, ◌≡◌, refl, ap, sym, ◌∙◌, ◌↔◌, ◌⊎◌, inl, inr, fun_ext, subst, Bool, true, false,
  not, ◌&&◌, ◌||◌, Option, none, some, List, [], ◌∷◌, ◌==◌, ◌++◌, leb, drop, if◌then◌else◌, arith,
  Option-cases, Bool-cases,
}
use rlibc.Common.Bytes.{Bytes}
use rlibc.Glob.{has_flag, glob_noescape}
use rlibc.Glob.Match.{
  is_end, bracket_match, match_one, count_stars, at_some_suffix, pattern_matches_from,
  pattern_matches,
}
use rlibc.Glob.Classes.{ByteClass, class_has, read_class, asked, bracket_match-read_class}

-- What an element of a pattern stands for: any bytes, any byte, one byte, or one of a class.
pub data Token : Type 0 where
  run : Token
  any_byte : Token
  byte : ℕ → Token
  of_class : ByteClass → Token

abbrev pub accepts : Token → ℕ → Bool
accepts run c = false
accepts any_byte c = true
accepts (byte d) c = c == d
accepts (of_class k) c = class_has k c

-- The element at a position, and how many bytes it has after the first.
unfoldable pub token : Bool → ℕ → Bytes → Token × ℕ
unfolding read_class
token no_escape current s =
    if current == b'*'
    then (run, 0)
    else if current == b'?'
    then (any_byte, 0)
    else if current == b'['
    then elim (read_class no_escape s) [ none ↦ (byte b'[', 0) | some (k, n) ↦ (of_class k, n) ]
    else if (current == b'\\') && not no_escape
    then elim s [ [] ↦ (byte b'\\', 0) | escaped ∷ _ ↦ (byte escaped, 1) ]
    else (byte current, 0)

unfoldable pub tokens : Bool → ℕ → Bytes → List Token
unfolding token
tokens no_escape skip [] = []
tokens no_escape (suc skip) (current ∷ s) = tokens no_escape skip s
tokens no_escape zero (current ∷ s) =
    let (t, more) = token no_escape current s in t ∷ tokens no_escape more s

pub data Matches : List Token → Bytes → Type 0 where
  all_read : Matches [] []
  run_ends : {l : List Token} {s : Bytes} → Matches l s → Matches (run ∷ l) s
  run_takes : {l : List Token} {c : ℕ} {s : Bytes} → Matches (run ∷ l) s → Matches (run ∷ l) (c ∷ s)
  takes :
      {t : Token} {l : List Token} {c : ℕ} {s : Bytes}
      → accepts t c ≡ true
      → Matches l s
      → Matches (t ∷ l) (c ∷ s)
