-- ===== src/Glob/Traverse/Reach/Chains.antt =====
-- src/glob.rs: the candidates left after every segment are the ends of the chains.
use mathlib.Core.List.{Memᴰ}
use mathlib.Core.List.Memᴰ
use mathlib.Core.List.Memᴰ.{head, tail, not-nil}
use rlibc.Common.{ℕ, ◌≡◌, refl, sym, subst, ◌⊎◌, ◌↔◌, inl, inr, List, [], ◌∷◌, ◌++◌, length, arith}
use rlibc.Common.Bytes.{Bytes}
use rlibc.Glob.Traverse.{
  FileSystem, CandidatePath, GlobErrorFn, Outcome, ok, err, expand_candidate, expand_candidates,
  expand_segments,
}
use rlibc.Glob.Traverse.Reach.{IsChild, Reaches, arrives, descends, ok-eq, to_child, of_child}

both_ok :
    (o r : Outcome (List CandidatePath)) (res : List CandidatePath)
    → elim o [ err e ↦ err e | ok next ↦ elim r [ err e ↦ err e | ok more ↦ ok (next ++ more) ] ]
      ≡ ok res
    → (next more : List CandidatePath) × (o ≡ ok next) × (r ≡ ok more) × (next ++ more ≡ res)
both_ok (err e) r res h = cc
both_ok (ok next) (err e) res h = cc
both_ok (ok next) (ok more) res h = (next, more, refl, refl, ok-eq (next ++ more) res h)

module _ (fs : FileSystem) (flags : ℕ) (errfunc : GlobErrorFn) where
  expanded_cons :
      (segment : Bytes) (n : ℕ) (c : CandidatePath) (l res : List CandidatePath)
      → expand_candidates fs flags errfunc segment n (c ∷ l) ≡ ok res
      → (next more : List CandidatePath) × (expand_candidate fs flags errfunc segment n c ≡ ok next)
        × (expand_candidates fs flags errfunc segment n l ≡ ok more)
        × (next ++ more ≡ res)
  unfolding expand_candidates
  expanded_cons segment n c l res h =
      both_ok (expand_candidate fs flags errfunc segment n c)
        (expand_candidates fs flags errfunc segment n l) res h

  expanded_nil :
      (segment : Bytes) (n : ℕ) (res : List CandidatePath)
      → expand_candidates fs flags errfunc segment n [] ≡ ok res
      → res ≡ []
  unfolding expand_candidates
  expanded_nil segment n res h = sym (ok-eq [] res h)

  -- From a candidate of the list.
  abbrev ChildOf : Bytes → ℕ → List CandidatePath → CandidatePath → Type 0
  ChildOf segment n l d = (c : CandidatePath) × Memᴰ c l × IsChild fs flags segment n c d

  to_children :
      (segment : Bytes) (n : ℕ) (l res : List CandidatePath) {d : CandidatePath}
      → expand_candidates fs flags errfunc segment n l ≡ ok res
      → Memᴰ d res
      → ChildOf segment n l d
  to_children segment n [] res {d} h m =
      absurd (not-nil (subst (Memᴰ d) (expanded_nil segment n res h) m))
  to_children segment n (c ∷ l) res {d} h m =
      let (next, more, x, y, e) = expanded_cons segment n c l res h in
      elim (Memᴰ.append_cases next (subst (Memᴰ d) (sym e) m)) [
        | inl q ↦ (c, head refl, to_child fs flags errfunc segment n c next x q)
        | inr q ↦ let (k, t, i) = to_children segment n l more y q in (k, tail t, i)
      ]

  of_children :
      (segment : Bytes) (n : ℕ) (l res : List CandidatePath) {c d : CandidatePath}
      → expand_candidates fs flags errfunc segment n l ≡ ok res
      → Memᴰ c l
      → IsChild fs flags segment n c d
      → Memᴰ d res
  of_children segment n [] res h m i = absurd (not-nil m)
  of_children segment n (k ∷ l) res {c} {d} h m i =
      let (next, more, x, y, e) = expanded_cons segment n k l res h in
      elim (Memᴰ.cases_cons m) [
        | inl q ↦ subst (Memᴰ d) e (
            Memᴰ.append_left more (
              of_child fs flags errfunc segment n k next x
                (subst (λ a. IsChild fs flags segment n a d) q i)))
        | inr q ↦ subst (Memᴰ d) e (Memᴰ.append_right next (of_children segment n l more y q i))
      ]

  -- The ends of the chains from the candidates of a list.
  abbrev EndOf : List Bytes → List ℕ → List CandidatePath → CandidatePath → Type 0
  EndOf segments seps l d = (c : CandidatePath) × Memᴰ c l × Reaches fs flags segments seps c d

  stopped_or_on :
      (o : Outcome (List CandidatePath)) (segments : List Bytes) (seps : List ℕ)
      (res : List CandidatePath)
      → elim o [
        | err e ↦ err e
        | ok next ↦ elim next [
          | [] ↦ ok []
          | c ∷ more ↦ expand_segments fs flags errfunc segments seps (c ∷ more)
        ]
      ]
        ≡ ok res
      → (next : List CandidatePath) × (o ≡ ok next)
        × (((next ≡ []) × (res ≡ []))
            ⊎ (expand_segments fs flags errfunc segments seps next ≡ ok res))
  stopped_or_on (err e) segments seps res h = cc
  stopped_or_on (ok []) segments seps res h = ([], refl, inl (refl, sym (ok-eq [] res h)))
  stopped_or_on (ok (c ∷ l)) segments seps res h = (c ∷ l, refl, inr h)

  segment_step :
      (segment : Bytes) (segments : List Bytes) (n : ℕ) (seps : List ℕ) (l res : List CandidatePath)
      → expand_segments fs flags errfunc (segment ∷ segments) (n ∷ seps) l ≡ ok res
      → (next : List CandidatePath) × (expand_candidates fs flags errfunc segment n l ≡ ok next)
        × (((next ≡ []) × (res ≡ []))
            ⊎ (expand_segments fs flags errfunc segments seps next ≡ ok res))
  unfolding expand_segments
  segment_step segment segments n seps l res h =
      stopped_or_on (expand_candidates fs flags errfunc segment n l) segments seps res h

  expanded_none :
      (l res : List CandidatePath) → expand_segments fs flags errfunc [] [] l ≡ ok res → l ≡ res
  unfolding expand_segments
  expanded_none l res h = ok-eq l res h

  to_ends :
      (segments : List Bytes) (seps : List ℕ) (l res : List CandidatePath) {d : CandidatePath}
      → length segments ≡ length seps
      → expand_segments fs flags errfunc segments seps l ≡ ok res
      → Memᴰ d res
      → EndOf segments seps l d
  to_ends [] [] l res {d} q h m = (d, subst (Memᴰ d) (sym (expanded_none l res h)) m, arrives)
  to_ends [] (n ∷ seps) l res q h m = absurd (omega arith)
  to_ends (x ∷ segments) [] l res q h m = absurd (omega arith)
  to_ends (x ∷ segments) (n ∷ seps) l res {d} q h m =
      let (next, e, r) = segment_step x segments n seps l res h in
      elim r [
        | inl (_, none_left) ↦ absurd (not-nil (subst (Memᴰ d) none_left m))
        | inr more ↦
            let (c, t, w) = to_ends segments seps next res (omega arith) more m in
            let (b, s, i) = to_children x n l next e t in (b, s, descends i w)
      ]

  of_ends :
      (segments : List Bytes) (seps : List ℕ) (l res : List CandidatePath) {c d : CandidatePath}
      → expand_segments fs flags errfunc segments seps l ≡ ok res
      → Memᴰ c l
      → Reaches fs flags segments seps c d
      → Memᴰ d res
  of_ends [] [] l res {c} h m arrives = subst (Memᴰ c) (expanded_none l res h) m
  of_ends [] (n ∷ seps) l res h m w = elim w [ ]
  of_ends (x ∷ segments) [] l res h m w = elim w [ ]
  of_ends (x ∷ segments) (n ∷ seps) l res {c} {d} h m (descends {d = b} i w) =
      let (next, e, r) = segment_step x segments n seps l res h in
      let t = of_children x n l next e m i in
      elim r [
        | inl (z, _) ↦ absurd (not-nil (subst (Memᴰ b) z t))
        | inr more ↦ of_ends segments seps next res more t w
      ]

-- When the loop of `collect_matches` over as many segments as counts of separators is not
-- aborted, the candidates that it leaves are exactly the ends of the chains, from a candidate
-- that it starts with, of one child for each segment: a listed name that the segment selects, or,
-- for a segment without pattern characters, the name that it spells if there is such a file.
pub expand_segments_iff :
    (fs : FileSystem) (flags : ℕ) (errfunc : GlobErrorFn) (segments : List Bytes) (seps : List ℕ)
    (l res : List CandidatePath) (d : CandidatePath)
    → length segments ≡ length seps
    → expand_segments fs flags errfunc segments seps l ≡ ok res
    → Memᴰ d res ↔ ((c : CandidatePath) × Memᴰ c l × Reaches fs flags segments seps c d)
expand_segments_iff fs flags errfunc segments seps l res d q h = (
  to_ends fs flags errfunc segments seps l res q h,
  λ (c, m, w). of_ends fs flags errfunc segments seps l res h m w,
)
