-- ===== src/Glob/Literal.antt =====
-- src/glob.rs: a segment without a pattern character, which `collect_matches` looks up by name instead of
-- reading the directory.
use rlibc.Common.{
  ℕ, ◌≡◌, refl, ap, sym, ◌∙◌, Bool, true, false, not, ◌&&◌, none, some, [], ◌∷◌, ◌==◌,
  if◌then◌else◌, arith, Option-cases, Bool-cases, inl, inr, subst,
}
use rlibc.Common.Bytes.{Bytes, eqb_bytes}
use rlibc.Glob.{has_flag, glob_noescape}
use rlibc.Glob.Match.{
  is_end, bracket_match, match_one, pattern_matches_from, pattern_matches, has_meta_from,
  segment_has_pattern_meta, unescape_from, unescape_segment,
}
use rlibc.Glob.Classes.{read_class, bracket_match-read_class}

-- Whether there is a bracket expression does not depend on the candidate.
bracket_none :
    (no_escape : Bool) (c d : ℕ) (s : Bytes)
    → bracket_match no_escape c s ≡ none
    → bracket_match no_escape d s ≡ none
bracket_none no_escape c d s h = ground (
  arith,
  bracket_match-read_class no_escape c s,
  bracket_match-read_class no_escape d s,
  Option-cases (read_class no_escape s),
)

-- An element that is none of the pattern characters stands for itself.
one_literal :
    (no_escape : Bool) (c : ℕ) (p : Bytes) (x : ℕ)
    → ((c == b'\\') && not no_escape && not (is_end p)) ≡ false
    → has_meta_from no_escape 0 (c ∷ p) ≡ false
    → (match_one no_escape c p x ≡ (if x == c then some 0 else none))
      × (has_meta_from no_escape 0 p ≡ false)
      × ((c == b'*') ≡ false)
unfolding match_one has_meta_from
one_literal no_escape c p x h m = (
  ground (arith, bracket_none no_escape b'.' x p, Option-cases (bracket_match no_escape b'.' p)),
  ground arith,
  ground arith,
)

-- An escaped element stands for the byte after the backslash.
one_escaped :
    (d : ℕ) (p : Bytes) (x : ℕ) (s : Bytes)
    → (match_one false b'\\' (d ∷ p) x ≡ (if x == d then some 1 else none))
      × (has_meta_from false 0 (b'\\' ∷ d ∷ p) ≡ has_meta_from false 0 p)
      × (pattern_matches_from false 1 (d ∷ p) s ≡ pattern_matches_from false 0 p s)
unfolding match_one has_meta_from pattern_matches_from
one_escaped d p x s = (refl, refl, refl)

from_end : (no_escape : Bool) (s : Bytes) → pattern_matches_from no_escape 0 [] s ≡ eqb_bytes s []
unfolding pattern_matches_from eqb_bytes
from_end no_escape [] = refl
from_end no_escape (x ∷ s) = refl

from_none :
    (no_escape : Bool) (c : ℕ) (p : Bytes)
    → (c == b'*') ≡ false
    → pattern_matches_from no_escape 0 (c ∷ p) [] ≡ false
unfolding pattern_matches_from
from_none no_escape c p h = rw h refl

-- The loop at an element that is not `*`.
from_element :
    (no_escape : Bool) (c : ℕ) (p : Bytes) (x : ℕ) (s : Bytes) (d more : ℕ)
    → (c == b'*') ≡ false
    → match_one no_escape c p x ≡ (if x == d then some more else none)
    → pattern_matches_from no_escape 0 (c ∷ p) (x ∷ s)
      ≡ ((x == d) && pattern_matches_from no_escape more p s)
unfolding pattern_matches_from
from_element no_escape c p x s d more h m = ground arith

eqb-cons : (x y : ℕ) (s t : Bytes) → eqb_bytes (x ∷ s) (y ∷ t) ≡ ((x == y) && eqb_bytes s t)
unfolding eqb_bytes
eqb-cons x y s t = refl

eqb-nil : (y : ℕ) (t : Bytes) → eqb_bytes [] (y ∷ t) ≡ false
unfolding eqb_bytes
eqb-nil y t = refl

-- One literal element after another.
literal_step :
    (no_escape : Bool) (c : ℕ) (p s u : Bytes)
    → ((c == b'\\') && not no_escape && not (is_end p)) ≡ false
    → has_meta_from no_escape 0 (c ∷ p) ≡ false
    → ((t : Bytes) → pattern_matches_from no_escape 0 p t ≡ eqb_bytes t u)
    → pattern_matches_from no_escape 0 (c ∷ p) s ≡ eqb_bytes s (c ∷ u)
literal_step no_escape c p [] u h m f =
    from_none no_escape c p (one_literal no_escape c p 0 h m).2 ∙ sym (eqb-nil c u)
literal_step no_escape c p (x ∷ s) u h m f =
    let o = one_literal no_escape c p x h m in
    from_element no_escape c p x s c 0 o.2 o.0
    ∙ ap (λ b. (x == c) && b) (f s)
    ∙ sym (eqb-cons x c s u)

escaped_step :
    (d : ℕ) (p s u : Bytes)
    → ((t : Bytes) → pattern_matches_from false 0 p t ≡ eqb_bytes t u)
    → pattern_matches_from false 0 (b'\\' ∷ d ∷ p) s ≡ eqb_bytes s (d ∷ u)
escaped_step d p [] u f = from_none false b'\\' (d ∷ p) refl ∙ sym (eqb-nil d u)
escaped_step d p (x ∷ s) u f =
    let o = one_escaped d p x s in
    from_element false b'\\' (d ∷ p) x s d 1 refl o.0
    ∙ ap (λ b. (x == d) && b) (o.2 ∙ f s)
    ∙ sym (eqb-cons x d s u)

-- Without escapes, the segment is the name.
noescape_lem :
    (p s : Bytes) → has_meta_from true 0 p ≡ false → pattern_matches_from true 0 p s ≡ eqb_bytes s p
noescape_lem [] s m = from_end true s
noescape_lem (c ∷ p) s m =
    let h : ((c == b'\\') && not true && not (is_end p)) ≡ false = ground arith in
    literal_step true c p s p h m (λ t. noescape_lem p t (one_literal true c p 0 h m).1)

unescape_lem :
    (p s : Bytes)
    → has_meta_from false 0 p ≡ false
    → pattern_matches_from false 0 p s ≡ eqb_bytes s (unescape_from p)
unfolding unescape_from
unescape_lem [] s m = from_end false s
unescape_lem (c ∷ []) s m = literal_step false c [] s [] (ground arith) m (λ t. from_end false t)
unescape_lem (c ∷ d ∷ p) s m = elim (Bool-cases (c == b'\\')) [
  | inl h ↦
      let e : c ≡ b'\\' = ground arith in
      let escaped = escaped_step d p s (unescape_from p) (λ t. unescape_lem p t (
        sym (one_escaped d p 0 []).1
        ∙ subst (λ k. has_meta_from false 0 (k ∷ d ∷ p) ≡ false) e m)) in
      rw h (
        subst (λ k. pattern_matches_from false 0 (k ∷ d ∷ p) s ≡ eqb_bytes s (d ∷ unescape_from p))
          (sym e) escaped)
  | inr h ↦
      let g : ((c == b'\\') && not false && not (is_end (d ∷ p))) ≡ false = ground arith in
      rw h (
        literal_step false c (d ∷ p) s (unescape_from (d ∷ p)) g m
          (λ t. unescape_lem (d ∷ p) t (one_literal false c (d ∷ p) 0 g m).1))
]

-- For a segment without pattern characters, matching a name is comparing it with the unescaped
-- segment: looking the name up, as `collect_matches` does, selects the same name as reading the
-- directory.
pub literal_segment_lem :
    (segment name : Bytes) (flags : ℕ)
    → segment_has_pattern_meta segment flags ≡ false
    → pattern_matches segment name flags ≡ eqb_bytes name (unescape_segment segment flags)
unfolding segment_has_pattern_meta pattern_matches unescape_segment
literal_segment_lem segment name flags m = elim (Bool-cases (has_flag flags glob_noescape)) [
  | inl h ↦ ground (arith, noescape_lem segment name)
  | inr h ↦ ground (arith, unescape_lem segment name)
]
