-- ===== src/Glob/Relation/Decide.antt =====
-- src/glob.rs: the form of a name decided, element by element.
use rlibc.Common.{
  ℕ, ◌≡◌, refl, inl, inr, Bool, true, false, ◌&&◌, List, [], ◌∷◌, ◌==◌, arith, Bool-cases,
}
use rlibc.Common.Bytes.{Bytes}
use rlibc.Glob.Match.{is_end, at_some_suffix}
use rlibc.Glob.Classes.{class_has}
use rlibc.Glob.Relation.{
  Token, run, any_byte, byte, of_class, accepts, Matches, all_read, run_ends, run_takes, takes,
}

-- The relation, decided.
unfoldable pub token_match : List Token → Bytes → Bool
unfolding at_some_suffix
token_match [] s = is_end s
token_match (run ∷ l) s = at_some_suffix (token_match l) s
token_match (any_byte ∷ l) s = elim s [ [] ↦ false | c ∷ t ↦ token_match l t ]
token_match (byte d ∷ l) s = elim s [ [] ↦ false | c ∷ t ↦ (c == d) && token_match l t ]
token_match (of_class k ∷ l) s = elim s [ [] ↦ false | c ∷ t ↦ class_has k c && token_match l t ]

at_some_suffix_here : (f : Bytes → Bool) (s : Bytes) → f s ≡ true → at_some_suffix f s ≡ true
unfolding at_some_suffix
at_some_suffix_here f [] h = h
at_some_suffix_here f (c ∷ s) h = ground arith

-- The decision and the relation.
at_some_suffix-Matches :
    (l : List Token) (s : Bytes)
    → ((t : Bytes) → token_match l t ≡ true → Matches l t)
    → at_some_suffix (token_match l) s ≡ true
    → Matches (run ∷ l) s
unfolding at_some_suffix
at_some_suffix-Matches l [] f h = run_ends (f [] h)
at_some_suffix-Matches l (c ∷ s) f h = elim (Bool-cases (token_match l (c ∷ s))) [
  | inl g ↦ run_ends (f (c ∷ s) g)
  | inr g ↦ run_takes (at_some_suffix-Matches l s f (ground arith))
]

pub token_match-Matches : (l : List Token) (s : Bytes) → token_match l s ≡ true → Matches l s
unfolding token_match
token_match-Matches [] [] h = all_read
token_match-Matches [] (c ∷ s) h = cc
token_match-Matches (run ∷ l) s h = at_some_suffix-Matches l s (token_match-Matches l) h
token_match-Matches (any_byte ∷ l) [] h = cc
token_match-Matches (any_byte ∷ l) (c ∷ s) h = takes refl (token_match-Matches l s h)
token_match-Matches (byte d ∷ l) [] h = cc
token_match-Matches (byte d ∷ l) (c ∷ s) h =
    takes (ground arith) (token_match-Matches l s (ground arith))
token_match-Matches (of_class k ∷ l) [] h = cc
token_match-Matches (of_class k ∷ l) (c ∷ s) h =
    takes (ground arith) (token_match-Matches l s (ground arith))

at_some_suffix_later :
    (f : Bytes → Bool) (c : ℕ) (s : Bytes)
    → at_some_suffix f s ≡ true
    → at_some_suffix f (c ∷ s) ≡ true
unfolding at_some_suffix
at_some_suffix_later f c s h = ground arith

token_match_taken :
    (t : Token) (l : List Token) (c : ℕ) (s : Bytes)
    → accepts t c ≡ true
    → token_match l s ≡ true
    → token_match (t ∷ l) (c ∷ s) ≡ true
unfolding token_match
token_match_taken run l c s h g = cc
token_match_taken any_byte l c s h g = g
token_match_taken (byte d) l c s h g = ground arith
token_match_taken (of_class k) l c s h g = ground arith

pub Matches-token_match : {l : List Token} {s : Bytes} → Matches l s → token_match l s ≡ true
unfolding token_match
Matches-token_match all_read = refl
Matches-token_match (run_ends {l} {s} m) =
    at_some_suffix_here (token_match l) s (Matches-token_match m)
Matches-token_match (run_takes {l} {c} {s} m) =
    at_some_suffix_later (token_match l) c s (Matches-token_match m)
Matches-token_match (takes {t} {l} {c} {s} h m) =
    token_match_taken t l c s h (Matches-token_match m)
