-- ===== src/Conv/Total.antt =====
-- Every string has a subject sequence in every valid base (src/stdlib/conv.rs), so the theorems about
-- subjects cover every call with a valid base.
use rlibc.Common.{
  ℕ, ◌≤◌, ◌≡◌, inl, inr, refl, false, List, [], ◌∷◌, ◌++◌, ltb, ◌==◌, arith, drop, Bool-cases,
  Option-cases, ap, ◌∙◌,
}
use rlibc.Common.Bytes.{Bytes, read_byte}
use rlibc.Common.Int.{ℤ, pos}
use rlibc.Conv.{is_ascii_space, digit_value}
use rlibc.Conv.Digits.{Digits, none_left, digit, EndsDigits}
use rlibc.Conv.Subject.{
  Sign, unsigned, plus, dash, sign_bytes, IsSpaces, Follows, has_hex_prefix, Resolves, explicit,
  hex, octal, decimal, Subject,
}

-- The two kinds of base that the code accepts.
pub data IsBase : ℤ → Type 0 where
  detect : IsBase (pos 0)
  given : (b : ℕ) → 2 ≤ b → b ≤ 36 → IsBase (pos b)

record SpaceSplit (s : Bytes) : Type 0 where
  spaces : Bytes
  after : Bytes
  joined : s ≡ spaces ++ after
  are_spaces : IsSpaces spaces
  stops : is_ascii_space (read_byte after) ≡ false

space_split : (s : Bytes) → SpaceSplit s
space_split [] = record {
  spaces = [];
  after = [];
  joined = refl;
  are_spaces = tt;
  stops = zero_no_space;
}
  where
    zero_no_space : is_ascii_space 0 ≡ false
    zero_no_space = unfold is_ascii_space in refl
space_split (c ∷ s) = elim (Bool-cases (is_ascii_space c)) [
  | inl space ↦
      (let r = space_split s in
        record {
          spaces = c ∷ r.spaces;
          after = r.after;
          joined = ap (λ l. c ∷ l) r.joined;
          are_spaces = (space, r.are_spaces);
          stops = r.stops;
        })
  | inr other ↦ record { spaces = []; after = c ∷ s; joined = refl; are_spaces = tt; stops = other }
]

record SignSplit (s : Bytes) : Type 0 where
  sign : Sign
  body : Bytes
  joined : s ≡ sign_bytes sign ++ body
  follows : Follows sign body

sign_split : (s : Bytes) → is_ascii_space (read_byte s) ≡ false → SignSplit s
sign_split [] h = record {
  sign = unsigned;
  body = [];
  joined = refl;
  follows = (h, ground arith, ground arith);
}
sign_split (c ∷ s) h = elim (Bool-cases (c == b'+')) [
  | inl p ↦ record { sign = plus; body = s; joined = ground arith; follows = tt }
  | inr p ↦ elim (Bool-cases (c == b'-')) [
    | inl d ↦ record { sign = dash; body = s; joined = ground arith; follows = tt }
    | inr d ↦ record {
      sign = unsigned;
      body = c ∷ s;
      joined = refl;
      follows = (h, ground arith, ground arith);
    }
  ]
]

record Resolved (base : ℤ) (body : Bytes) : Type 0 where
  radix : ℕ
  prefix : ℕ
  resolves : Resolves base body radix prefix

resolved : (base : ℤ) (body : Bytes) → IsBase base → Resolved base body
resolved base body detect = elim (Bool-cases (has_hex_prefix body)) [
  | inl h ↦ record { radix = 16; prefix = 2; resolves = hex (inl refl) h }
  | inr h ↦ elim (Bool-cases (read_byte body == b'0')) [
    | inl z ↦ record { radix = 8; prefix = 0; resolves = octal refl (ground arith) h }
    | inr z ↦ record { radix = 10; prefix = 0; resolves = decimal refl (ground arith) }
  ]
]
resolved base body (given b lo hi) = elim (Bool-cases (has_hex_prefix body)) [
  | inl h ↦ elim (Bool-cases (b == 16)) [
    | inl e ↦ record { radix = 16; prefix = 2; resolves = hex (inr (ground arith)) h }
    | inr e ↦ record {
      radix = b;
      prefix = 0;
      resolves = explicit b refl lo hi (inl (ground arith));
    }
  ]
  | inr h ↦ record { radix = b; prefix = 0; resolves = explicit b refl lo hi (inr h) }
]

record DigitSplit (radix : ℕ) (s : Bytes) : Type 0 where
  number : Bytes
  digits : List ℕ
  rest : Bytes
  joined : s ≡ number ++ rest
  are_digits : Digits radix number digits
  ends : EndsDigits radix rest

stop_here : (radix : ℕ) (s : Bytes) → EndsDigits radix s → DigitSplit radix s
stop_here radix s e = record {
  number = [];
  digits = [];
  rest = s;
  joined = refl;
  are_digits = none_left;
  ends = e;
}

digit_split : (radix : ℕ) (s : Bytes) → DigitSplit radix s
digit_split radix [] = stop_here radix [] tt
digit_split radix (c ∷ s) = elim (Option-cases (digit_value c)) [
  | inl q ↦ stop_here radix (c ∷ s) (λ d e. ground arith)
  | inr (v, q) ↦ elim (Bool-cases (ltb v radix)) [
    | inl lt ↦
        (let r = digit_split radix s in
          record {
            number = c ∷ r.number;
            digits = v ∷ r.digits;
            rest = r.rest;
            joined = ap (λ l. c ∷ l) r.joined;
            are_digits = digit q (ground arith) r.are_digits;
            ends = r.ends;
          })
    | inr ge ↦ stop_here radix (c ∷ s) (λ d e. ground arith)
  ]
]

-- The subject sequence of a string in a valid base.
pub subject : (base : ℤ) (nptr : Bytes) → IsBase base → Subject base nptr
subject base nptr valid =
    let w = space_split nptr in
    let g = sign_split w.after w.stops in
    let r = resolved base g.body valid in
    let d = digit_split r.radix (drop r.prefix g.body) in
    record {
      spaces = w.spaces;
      sign = g.sign;
      body = g.body;
      radix = r.radix;
      prefix = r.prefix;
      number = d.number;
      digits = d.digits;
      rest = d.rest;
      is_text = w.joined ∙ ap (λ l. w.spaces ++ l) g.joined;
      is_body = d.joined;
      are_spaces = w.are_spaces;
      follows = g.follows;
      resolves = r.resolves;
      are_digits = d.are_digits;
      ends = d.ends;
    }
