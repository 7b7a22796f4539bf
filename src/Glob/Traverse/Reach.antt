-- ===== src/Glob/Traverse/Reach.antt =====
-- src/glob.rs: the paths that a chain of names leads to, one name for each segment, and the traversal
-- against it.
pub mod Chains
use mathlib.Core.List.{Memᴰ}
use mathlib.Core.List.Memᴰ
use mathlib.Core.List.Memᴰ.{head, tail, not-nil}
use rlibc.Common.{
  ℕ, zero, suc, ◌+◌, ◌≡◌, refl, ap, sym, subst, ◌∙◌, ◌⊎◌, ◌↔◌, inl, inr, Bool, true, false, not,
  ◌&&◌, ◌||◌, Option, none, some, List, [], ◌∷◌, ◌==◌, ◌++◌, length, if◌then◌else◌, arith, map,
  Bool-cases,
}
use rlibc.Common.Bytes.{Bytes}
use rlibc.Env.{retain}
use rlibc.Glob.Match.{segment_has_pattern_meta, unescape_segment}
use rlibc.Glob.Traverse.{
  FileSystem, CandidatePath, GlobErrorFn, Outcome, ok, err, read_directory_names,
  process_directory_error, selects, child, expand_candidate, expand_candidates, expand_segments,
}

-- One name further: a name that the directory lists and the segment selects, or the name that the
-- segment spells, when there is such a file.
pub data IsChild (fs : FileSystem) (flags : ℕ) (segment : Bytes) (n : ℕ) (c : CandidatePath)
    : CandidatePath → Type 0 where
  listed :
      {names : List Bytes} {name : Bytes}
      → segment_has_pattern_meta segment flags ≡ true
      → (read_directory_names fs c.fs_path).0 ≡ ok names
      → Memᴰ name names
      → selects segment flags name ≡ true
      → IsChild fs flags segment n c (child fs c n name)
  spelled :
      segment_has_pattern_meta segment flags ≡ false
      → fs.exists (child fs c n (unescape_segment segment flags)).fs_path ≡ true
      → IsChild fs flags segment n c (child fs c n (unescape_segment segment flags))

pub data Reaches (fs : FileSystem) (flags : ℕ)
    : List Bytes → List ℕ → CandidatePath → CandidatePath → Type 0 where
  arrives : {c : CandidatePath} → Reaches fs flags [] [] c c
  descends :
      {segment : Bytes} {l : List Bytes} {n : ℕ} {seps : List ℕ} {c d e : CandidatePath}
      → IsChild fs flags segment n c d
      → Reaches fs flags l seps d e
      → Reaches fs flags (segment ∷ l) (n ∷ seps) c e

module _ {ℓ} {A : Type ℓ} (keep : A → Bool) where
  retain_yes : (y : A) (l : List A) → keep y ≡ true → retain keep (y ∷ l) ≡ y ∷ retain keep l
  unfolding retain
  retain_yes y l h = rw h refl

  retain_no : (y : A) (l : List A) → keep y ≡ false → retain keep (y ∷ l) ≡ retain keep l
  unfolding retain
  retain_no y l h = rw h refl

  retain_nil : retain keep [] ≡ []
  unfolding retain
  retain_nil = refl

  retain_kept : (l : List A) {x : A} → Memᴰ x l → keep x ≡ true → Memᴰ x (retain keep l)
  retain_kept [] m h = absurd (not-nil m)
  retain_kept (y ∷ l) (head e) h =
      subst (Memᴰ _) (sym (retain_yes y l (sym (ap keep e) ∙ h))) (head e)
  retain_kept (y ∷ l) (tail m) h = elim (Bool-cases (keep y)) [
    | inl k ↦ subst (Memᴰ _) (sym (retain_yes y l k)) (tail (retain_kept l m h))
    | inr k ↦ subst (Memᴰ _) (sym (retain_no y l k)) (retain_kept l m h)
  ]

  retain_of : (l : List A) {x : A} → Memᴰ x (retain keep l) → Memᴰ x l × (keep x ≡ true)
  retain_of [] m = absurd (not-nil (subst (Memᴰ _) retain_nil m))
  retain_of (y ∷ l) {x} m = elim (Bool-cases (keep y)) [
    | inl k ↦ elim (Memᴰ.cases_cons (subst (Memᴰ x) (retain_yes y l k) m)) [
      | inl e ↦ (head e, ap keep e ∙ k)
      | inr t ↦ let r = retain_of l t in (tail r.0, r.1)
    ]
    | inr k ↦ let r = retain_of l (subst (Memᴰ x) (retain_no y l k) m) in (tail r.0, r.1)
  ]

module _ {ℓ} {A : Type ℓ} where
  pub ok-eq : (x y : A) → ok x ≡ ok y → x ≡ y
  ok-eq x y h = cc

  pub Outcome-cases : (o : Outcome A) → ((e : ℕ) × (o ≡ err e)) ⊎ ((x : A) × (o ≡ ok x))
  Outcome-cases (ok x) = inr (x, refl)
  Outcome-cases (err e) = inl (e, refl)

module _ (fs : FileSystem) (flags : ℕ) (errfunc : GlobErrorFn) (segment : Bytes) (n : ℕ)
    (c : CandidatePath) where
  expanded_err :
      (e : ℕ)
      → segment_has_pattern_meta segment flags ≡ true
      → (read_directory_names fs c.fs_path).0 ≡ err e
      → expand_candidate fs flags errfunc segment n c
        ≡ (if process_directory_error c e flags errfunc then err e else ok [])
  unfolding expand_candidate
  expanded_err e h r = rw (h, r) refl

  expanded_ok :
      (names : List Bytes)
      → segment_has_pattern_meta segment flags ≡ true
      → (read_directory_names fs c.fs_path).0 ≡ ok names
      → expand_candidate fs flags errfunc segment n c
        ≡ ok (map (child fs c n) (retain (selects segment flags) names))
  unfolding expand_candidate
  expanded_ok names h r = rw (h, r) refl

  expanded_name :
      segment_has_pattern_meta segment flags ≡ false
      → expand_candidate fs flags errfunc segment n c ≡ (
          let next = child fs c n (unescape_segment segment flags) in
          if fs.exists next.fs_path then ok (next ∷ []) else ok [])
  unfolding expand_candidate
  expanded_name h = rw h refl

  nothing_expanded :
      (b : Bool) (e : ℕ) (next : List CandidatePath) {d : CandidatePath}
      → (if b then err e else ok []) ≡ ok next
      → Memᴰ d next
      → ⊥
  nothing_expanded true e next h m = cc
  nothing_expanded false e next h m = not-nil (subst (Memᴰ _) (sym (ok-eq [] next h)) m)

  one_if :
      (b : Bool) (x : CandidatePath) (next : List CandidatePath) {d : CandidatePath}
      → (if b then ok (x ∷ []) else ok []) ≡ ok next
      → Memᴰ d next
      → (d ≡ x) × (b ≡ true)
  one_if true x next h m =
      (Memᴰ.eq_of_singleton (subst (Memᴰ _) (sym (ok-eq (x ∷ []) next h)) m), refl)
  one_if false x next h m = absurd (not-nil (subst (Memᴰ _) (sym (ok-eq [] next h)) m))

  one_then :
      (b : Bool) (x : CandidatePath) (next : List CandidatePath)
      → (if b then ok (x ∷ []) else ok []) ≡ ok next
      → b ≡ true
      → x ∷ [] ≡ next
  one_then b x next h k = cc

  -- The candidates that one candidate gives are its children.
  pub to_child :
      (next : List CandidatePath) {d : CandidatePath}
      → expand_candidate fs flags errfunc segment n c ≡ ok next
      → Memᴰ d next
      → IsChild fs flags segment n c d
  to_child next {d} h m = elim (Bool-cases (segment_has_pattern_meta segment flags)) [
    | inl k ↦ elim (Outcome-cases (read_directory_names fs c.fs_path).0) [
      | inl (e, r) ↦ absurd (nothing_expanded _ e next (sym (expanded_err e k r) ∙ h) m)
      | inr (names, r) ↦
          let (name, t, q) =
            Memᴰ.of_map (child fs c n) (retain (selects segment flags) names)
              (subst (Memᴰ d) (sym (ok-eq _ next (sym (expanded_ok names k r) ∙ h))) m) in
          let (l, s) = retain_of (selects segment flags) names t in
          subst (IsChild fs flags segment n c) q (listed k r l s)
    ]
    | inr k ↦
        let (e, x) = one_if _ _ next (sym (expanded_name k) ∙ h) m in
        subst (IsChild fs flags segment n c) (sym e) (spelled k x)
  ]

  pub of_child :
      (next : List CandidatePath) {d : CandidatePath}
      → expand_candidate fs flags errfunc segment n c ≡ ok next
      → IsChild fs flags segment n c d
      → Memᴰ d next
  of_child next h (listed {names} {name} k r l s) =
      subst (Memᴰ _) (ok-eq _ next (sym (expanded_ok names k r) ∙ h))
        (Memᴰ.map (child fs c n) (retain_kept (selects segment flags) names l s))
  of_child next h (spelled k x) =
      subst (Memᴰ _) (one_then _ _ next (sym (expanded_name k) ∙ h) x) (head refl)
