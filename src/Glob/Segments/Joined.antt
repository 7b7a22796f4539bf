-- ===== src/Glob/Segments/Joined.antt =====
-- src/glob.rs: what `parse_segments_with_separators` cuts is the whole pattern.
use mathlib.Core.List.{append_assoc, append-nil}
use rlibc.Common.{
  ℕ, zero, suc, ◌+◌, ◌≡◌, refl, ap, sym, ◌∙◌, true, false, List, [], ◌∷◌, ◌==◌, ◌++◌, length,
  length-append, arith, Bool-cases, All, inl, inr,
}
use rlibc.Common.Bytes.{Bytes}
use rlibc.Glob.Segments.{
  separators, Parsing, end_segment, parse_byte, parse_loop, leading_count, after_leading, unparsed,
  parse_segments_with_separators, joined, IsSegment,
}

joined-push :
    (l : List Bytes) (seps : List ℕ) (x : Bytes) (n : ℕ)
    → length l ≡ length seps
    → joined (l ++ (x ∷ [])) (seps ++ (n ∷ [])) ≡ joined l seps ++ (separators n ++ x)
unfolding joined
joined-push [] [] x n h = ap (λ t. separators n ++ t) (append-nil x)
joined-push [] (m ∷ seps) x n h = absurd (omega arith)
joined-push (y ∷ l) [] x n h = absurd (omega arith)
joined-push (y ∷ l) (m ∷ seps) x n h =
    ap (λ t. separators m ++ (y ++ t)) (joined-push l seps x n (omega arith))
    ∙ ap (λ t. separators m ++ t) (sym (append_assoc y (joined l seps) (separators n ++ x)))
    ∙ sym (append_assoc (separators m) (y ++ joined l seps) (separators n ++ x))

module _ {ℓ κ} {A : Type ℓ} (P : A → Type κ) where
  All-push : (l : List A) (x : A) → All P l → P x → All P (l ++ (x ∷ []))
  All-push [] x a h = (h, tt)
  All-push (y ∷ l) x a h = (a.0, All-push l x a.1 h)

separators-push : (n : ℕ) → separators n ++ (b'/' ∷ []) ≡ separators (n + 1)
unfolding separators
separators-push zero = refl
separators-push (suc n) = ap (λ t. b'/' ∷ t) (separators-push n) ∙ ground arith

-- What has been read so far.
shape : Parsing → Bytes
shape p = joined p.segments p.separators_before ++ (separators p.pending_separators ++ p.current)

record IsParsing (p : Parsing) : Type 0 where
  counted : length p.segments ≡ length p.separators_before
  cut : All IsSegment p.segments
  within : All (λ c. (c == b'/') ≡ false) p.current

record IsEnded (p q : Parsing) : Type 0 where
  parsing : IsParsing q
  same : shape q ≡ shape p
  ended : q.current ≡ []

abbrev state : List Bytes → List ℕ → ℕ → Bytes → Parsing
state l seps n x = record {
  segments = l;
  separators_before = seps;
  pending_separators = n;
  current = x;
}

end_lem :
    (l : List Bytes) (seps : List ℕ) (n : ℕ) (x : Bytes)
    → IsParsing (state l seps n x)
    → IsEnded (state l seps n x) (end_segment (state l seps n x))
unfolding shape separators end_segment
end_lem l seps n [] i = record { parsing = i; same = refl; ended = refl }
end_lem l seps n (c ∷ x) i = record {
  parsing = record {
    counted = omega (arith, length-append l ((c ∷ x) ∷ []), length-append seps (n ∷ []), i.counted);
    cut = All-push IsSegment l (c ∷ x) i.cut (refl, i.within);
    within = tt;
  };
  same =
      append-nil (joined (l ++ ((c ∷ x) ∷ [])) (seps ++ (n ∷ [])))
      ∙ joined-push l seps (c ∷ x) n i.counted;
  ended = refl;
}

end_segment-IsEnded : (p : Parsing) → IsParsing p → IsEnded p (end_segment p)
end_segment-IsEnded p i = end_lem p.segments p.separators_before p.pending_separators p.current i

record IsRead (p : Parsing) (s : Bytes) (q : Parsing) : Type 0 where
  parsing : IsParsing q
  shown : shape q ≡ shape p ++ s

separator_lem :
    (c : ℕ) (p : Parsing)
    → (c == b'/') ≡ true
    → IsParsing p
    → IsRead p
        (c ∷ [])
        (record (end_segment p) { pending_separators = (end_segment p).pending_separators + 1 })
unfolding shape
separator_lem c p h i =
    let q = end_segment p in
    let d = end_segment-IsEnded p i in
    let e : c ≡ b'/' = ground arith in
    let j = joined q.segments q.separators_before in
    let shorter : separators q.pending_separators ++ q.current ≡ separators q.pending_separators =
      rw d.ended (append-nil (separators q.pending_separators)) in
    let longer : separators (q.pending_separators + 1) ++ q.current
        ≡ separators q.pending_separators ++ (b'/' ∷ []) =
      rw d.ended (
        append-nil (separators (q.pending_separators + 1))
        ∙ sym (separators-push q.pending_separators)) in
    record {
      parsing = record {
        counted = d.parsing.counted;
        cut = d.parsing.cut;
        within = d.parsing.within;
      };
      shown =
          ap (λ t. j ++ t) longer
          ∙ sym (append_assoc j (separators q.pending_separators) (b'/' ∷ []))
          ∙ ap (λ t. (j ++ t) ++ (b'/' ∷ [])) (sym shorter)
          ∙ ap (λ t. t ++ (b'/' ∷ [])) d.same
          ∙ ap (λ k. shape p ++ (k ∷ [])) (sym e);
    }

byte_lem :
    (c : ℕ) (p : Parsing)
    → (c == b'/') ≡ false
    → IsParsing p
    → IsRead p (c ∷ []) (record p { current = p.current ++ (c ∷ []) })
unfolding shape
byte_lem c p h i =
    let j = joined p.segments p.separators_before in
    record {
      parsing = record {
        counted = i.counted;
        cut = i.cut;
        within = All-push (λ k. (k == b'/') ≡ false) p.current c i.within h;
      };
      shown =
          ap (λ t. j ++ t) (sym (append_assoc (separators p.pending_separators) p.current (c ∷ [])))
          ∙ sym (append_assoc j (separators p.pending_separators ++ p.current) (c ∷ []));
    }

parse_byte-IsRead : (c : ℕ) (p : Parsing) → IsParsing p → IsRead p (c ∷ []) (parse_byte c p)
unfolding parse_byte
parse_byte-IsRead c p i = elim (Bool-cases (c == b'/')) [
  | inl h ↦ rw h (separator_lem c p h i)
  | inr h ↦ rw h (byte_lem c p h i)
]

record IsParsed (p : Parsing) (s : Bytes) (q : Parsing) : Type 0 where
  read : IsRead p s q
  ended : q.current ≡ []

parse_loop-IsParsed : (s : Bytes) (p : Parsing) → IsParsing p → IsParsed p s (parse_loop s p)
unfolding parse_loop
parse_loop-IsParsed [] p i =
    let d = end_segment-IsEnded p i in
    record {
      read = record { parsing = d.parsing; shown = d.same ∙ sym (append-nil (shape p)) };
      ended = d.ended;
    }
parse_loop-IsParsed (c ∷ s) p i =
    let b = parse_byte-IsRead c p i in
    let r = parse_loop-IsParsed s (parse_byte c p) b.parsing in
    record {
      read = record {
        parsing = r.read.parsing;
        shown = r.read.shown ∙ ap (λ t. t ++ s) b.shown ∙ append_assoc (shape p) (c ∷ []) s;
      };
      ended = r.ended;
    }

leading_lem : (s : Bytes) → separators (leading_count s) ++ after_leading s ≡ s
unfolding separators leading_count after_leading
leading_lem [] = refl
leading_lem (c ∷ s) = elim (Bool-cases (c == b'/')) [
  | inl h ↦
      let e : c ≡ b'/' = ground arith in
      rw h (ap (λ t. b'/' ∷ t) (leading_lem s) ∙ ap (λ k. k ∷ s) (sym e))
  | inr h ↦ rw h refl
]

-- Put together again with the separators before each and those at both ends, the segments that
-- `parse_segments_with_separators` cuts are the pattern; there is a count of separators for each,
-- and each is not empty and has no separator.
pub joined-parse :
    (pattern : Bytes)
    → (let (leading, segments, seps, trailing) = parse_segments_with_separators pattern in
        (separators leading ++ (joined segments seps ++ separators trailing) ≡ pattern)
        × (length segments ≡ length seps)
        × All IsSegment segments)
unfolding parse_segments_with_separators shape separators joined
joined-parse pattern =
    let rest = after_leading pattern in
    let q = parse_loop rest unparsed in
    let r = parse_loop-IsParsed rest unparsed (record { counted = refl; cut = tt; within = tt }) in
    let last : separators q.pending_separators ++ q.current ≡ separators q.pending_separators =
      rw r.ended (append-nil (separators q.pending_separators)) in
    (
      ap (λ t. separators (leading_count pattern) ++ t)
            (ap (λ t. joined q.segments q.separators_before ++ t) (sym last) ∙ r.read.shown)
          ∙ leading_lem pattern,
      r.read.parsing.counted,
      r.read.parsing.cut,
    )
