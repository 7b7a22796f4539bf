-- ===== src/Glob/Relation/Loop.antt =====
-- src/glob.rs: `pattern_matches` against the form that a segment describes.
use rlibc.Common.{
  ℕ, zero, suc, ◌≡◌, refl, ap, sym, ◌∙◌, ◌↔◌, inl, inr, fun_ext, Bool, true, false, ◌&&◌, ◌||◌,
  none, some, List, [], ◌∷◌, ◌==◌, drop, if◌then◌else◌, arith, Option-cases, Bool-cases,
}
use rlibc.Common.Bytes.{Bytes}
use rlibc.Glob.{has_flag, glob_noescape}
use rlibc.Glob.Match.{
  is_end, match_one, count_stars, at_some_suffix, pattern_matches_from, pattern_matches,
}
use rlibc.Glob.Classes.{read_class, bracket_match-read_class}
use rlibc.Glob.Relation.{Token, run, any_byte, byte, of_class, accepts, token, tokens, Matches}
use rlibc.Glob.Relation.Decide.{token_match, token_match-Matches, Matches-token_match}

at_some_suffix_end : (s : Bytes) → at_some_suffix is_end s ≡ true
unfolding at_some_suffix
at_some_suffix_end [] = refl
at_some_suffix_end (c ∷ s) = ground (arith, at_some_suffix_end s)

at_some_suffix_twice :
    (f : Bytes → Bool) (s : Bytes) → at_some_suffix (at_some_suffix f) s ≡ at_some_suffix f s
unfolding at_some_suffix
at_some_suffix_twice f [] = refl
at_some_suffix_twice f (c ∷ s) = ground (arith, at_some_suffix_twice f s)

count_none :
    (no_escape : Bool) (c : ℕ) (p s : Bytes)
    → (c == b'*') ≡ false
    → at_some_suffix (token_match (tokens no_escape 0 (c ∷ p))) s ≡ (
        is_end (drop (count_stars (c ∷ p)) (c ∷ p))
        || at_some_suffix (token_match (tokens no_escape (count_stars (c ∷ p)) (c ∷ p))) s)
count_none no_escape c p s h =
    let none_counted : count_stars (c ∷ p) ≡ 0 = ground arith in rw none_counted refl

-- Several `*` are as good as one, and at the end they take whatever is left.
stars_lem :
    (no_escape : Bool) (p s : Bytes)
    → at_some_suffix (token_match (tokens no_escape 0 p)) s ≡ (
        is_end (drop (count_stars p) p)
        || at_some_suffix (token_match (tokens no_escape (count_stars p) p)) s)
unfolding tokens token token_match
stars_lem no_escape [] s = at_some_suffix_end s
stars_lem no_escape (c ∷ p) s = elim (Bool-cases (c == b'*')) [
  | inl h ↦
      rw h (at_some_suffix_twice (token_match (tokens no_escape 0 p)) s ∙ stars_lem no_escape p s)
  | inr h ↦ count_none no_escape c p s h
]

match_one_lem :
    (no_escape : Bool) (current : ℕ) (s : Bytes) (c : ℕ)
    → (current == b'*') ≡ false
    → match_one no_escape current s c ≡ (
        if accepts (token no_escape current s).0 c
        then some (token no_escape current s).1
        else none)
unfolding match_one token
match_one_lem no_escape current s c h =
    ground (arith, bracket_match-read_class no_escape c s, Option-cases (read_class no_escape s))

abbrev is_run : Token → Bool
is_run run = true
is_run _ = false

token_match-takes :
    (t : Token) (l : List Token) (c : ℕ) (s : Bytes)
    → is_run t ≡ false
    → token_match (t ∷ l) (c ∷ s) ≡ (accepts t c && token_match l s)
unfolding token_match
token_match-takes run l c s h = cc
token_match-takes any_byte l c s h = refl
token_match-takes (byte d) l c s h = refl
token_match-takes (of_class k) l c s h = refl

token_match_end : (t : Token) (l : List Token) → is_run t ≡ false → token_match (t ∷ l) [] ≡ false
unfolding token_match
token_match_end run l h = cc
token_match_end any_byte l h = refl
token_match_end (byte d) l h = refl
token_match_end (of_class k) l h = refl

is_run-token :
    (no_escape : Bool) (current : ℕ) (s : Bytes)
    → (current == b'*') ≡ false
    → is_run (token no_escape current s).0 ≡ false
unfolding token
is_run-token no_escape current s h = ground (arith, Option-cases (read_class no_escape s))

token_star :
    (no_escape : Bool) (current : ℕ) (s : Bytes)
    → (current == b'*') ≡ true
    → token no_escape current s ≡ (run, 0)
unfolding token
token_star no_escape current s h = rw h refl

token_match-star :
    (no_escape : Bool) (current : ℕ) (p s : Bytes)
    → (current == b'*') ≡ true
    → token_match (tokens no_escape 0 (current ∷ p)) s
      ≡ at_some_suffix (token_match (tokens no_escape 0 p)) s
unfolding tokens token_match
token_match-star no_escape current p s h = rw (token_star no_escape current p h) refl

token_match-tokens :
    (no_escape : Bool) (current : ℕ) (p : Bytes) (c : ℕ) (s : Bytes)
    → (current == b'*') ≡ false
    → token_match (tokens no_escape 0 (current ∷ p)) (c ∷ s) ≡ (
        accepts (token no_escape current p).0 c
        && token_match (tokens no_escape (token no_escape current p).1 p) s)
unfolding tokens
token_match-tokens no_escape current p c s h =
    token_match-takes (token no_escape current p).0
      (tokens no_escape (token no_escape current p).1 p) c s (is_run-token no_escape current p h)

token_match-tokens_end :
    (no_escape : Bool) (current : ℕ) (p : Bytes)
    → (current == b'*') ≡ false
    → token_match (tokens no_escape 0 (current ∷ p)) [] ≡ false
unfolding tokens
token_match-tokens_end no_escape current p h =
    token_match_end (token no_escape current p).0 _ (is_run-token no_escape current p h)

-- The three cases of the loop of `pattern_matches_from`.
from_end :
    (no_escape : Bool) (skip : ℕ) (s : Bytes)
    → pattern_matches_from no_escape skip [] s ≡ token_match (tokens no_escape skip []) s
unfolding pattern_matches_from tokens token_match
from_end no_escape zero s = refl
from_end no_escape (suc skip) s = refl

from_star :
    (no_escape : Bool) (current : ℕ) (p s : Bytes)
    → (current == b'*') ≡ true
    → pattern_matches_from no_escape 0 (current ∷ p) s ≡ (
        is_end (drop (count_stars p) p)
        || at_some_suffix (pattern_matches_from no_escape (count_stars p) p) s)
unfolding pattern_matches_from
from_star no_escape current p s h = rw h refl

from_one :
    (no_escape : Bool) (current : ℕ) (p : Bytes) (c : ℕ) (s : Bytes)
    → (current == b'*') ≡ false
    → pattern_matches_from no_escape 0 (current ∷ p) (c ∷ s) ≡ (
        accepts (token no_escape current p).0 c
        && pattern_matches_from no_escape (token no_escape current p).1 p s)
unfolding pattern_matches_from
from_one no_escape current p c s h = ground (arith, match_one_lem no_escape current p c h)

from_one_end :
    (no_escape : Bool) (current : ℕ) (p : Bytes)
    → (current == b'*') ≡ false
    → pattern_matches_from no_escape 0 (current ∷ p) [] ≡ false
unfolding pattern_matches_from
from_one_end no_escape current p h = rw h refl

matches_from_lem :
    (no_escape : Bool) (skip : ℕ) (p s : Bytes)
    → pattern_matches_from no_escape skip p s ≡ token_match (tokens no_escape skip p) s
unfolding pattern_matches_from tokens
matches_from_lem no_escape skip [] s = from_end no_escape skip s
matches_from_lem no_escape (suc skip) (current ∷ p) s = matches_from_lem no_escape skip p s
matches_from_lem no_escape zero (current ∷ p) s = elim (Bool-cases (current == b'*')) [
  | inl h ↦
      from_star no_escape current p s h
      ∙ ap (λ f. is_end (drop (count_stars p) p) || at_some_suffix f s)
          (fun_ext λ t. matches_from_lem no_escape (count_stars p) p t)
      ∙ sym (stars_lem no_escape p s)
      ∙ sym (token_match-star no_escape current p s h)
  | inr h ↦
      elim s
        as (λ t.
          pattern_matches_from no_escape 0 (current ∷ p) t
          ≡ token_match (tokens no_escape 0 (current ∷ p)) t) [
            | [] ↦
                from_one_end no_escape current p h
                ∙ sym (token_match-tokens_end no_escape current p h)
            | c ∷ t ↦
                from_one no_escape current p c t h
                ∙ ap (λ b. accepts (token no_escape current p).0 c && b)
                    (matches_from_lem no_escape (token no_escape current p).1 p t)
                ∙ sym (token_match-tokens no_escape current p c t h)
          ]
]

-- `pattern_matches` accepts a name exactly when the name has the form that the elements of the
-- segment describe one after another: a byte, any byte, a byte of a class, or a run of any bytes.
pub pattern_matches_iff :
    (segment name : Bytes) (flags : ℕ)
    → (pattern_matches segment name flags ≡ true)
      ↔ Matches (tokens (has_flag flags glob_noescape) 0 segment) name
unfolding pattern_matches
pattern_matches_iff segment name flags =
    let e = matches_from_lem (has_flag flags glob_noescape) 0 segment name in
    (λ h. token_match-Matches _ name (sym e ∙ h), λ m. e ∙ Matches-token_match m)
