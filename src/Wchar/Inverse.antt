-- ===== src/Wchar/Inverse.antt =====
-- src/wchar/mod.rs: `mbstowcs` reads the string of wide characters that `wcstombs` has written.
use mathlib.Core.List.{append_assoc, append-nil}
use rlibc.Common.{
  ℕ, suc, ◌+◌, ◌-◌, ◌<◌, ◌≤◌, ◌≡◌, refl, sym, ap, ◌∙◌, Bool, true, false, Option, none, some, List,
  [], ◌∷◌, ◌++◌, take, length, length-append, arith, inl, inr, map, ◌⊎◌, All,
}
use rlibc.Common.Int.{ℤ, pos}
use rlibc.Common.Bytes.{Bytes}
use rlibc.Wchar.{Units, encode_utf8_scalar, expected_len_from_lead_byte, decode_utf8_scalar}
use rlibc.Wchar.Codec.{IsScalar, Encodes, encode-decode}
use rlibc.Wchar.Restart.{MbState, new, complete, decode_utf8}
use rlibc.Wchar.Calls.{scan_bytes, scan_byte, Converted, mbrtowc_with_state, encoded_bytes}
use rlibc.Wchar.Strings.{
  at_end, read_wide, is_error, wide_of, stopped, read_loop, mbstowcs, ends, write_loop, wcstombs,
}
use rlibc.Wchar.Roundtrip.{as_converted, mbrtowc-decode_utf8, reads_lem, len_lem}

abbrev encoding : Option (Units × ℕ) → Bytes
encoding none = []
encoding (some p) = encoded_bytes p

-- The UTF-8 of a string of scalar values.
unfoldable pub utf8 : List ℕ → Bytes
unfolding encode_utf8_scalar
utf8 [] = []
utf8 (c ∷ l) = encoding (encode_utf8_scalar (pos c)) ++ utf8 l

abbrev pub IsWide : List ℕ → Type 0
IsWide l = All (λ c. IsScalar c × (0 < c)) l

length-encoded :
    (u : Units) (len : ℕ)
    → (len ≡ 1) ⊎ (len ≡ 2) ⊎ (len ≡ 3) ⊎ (len ≡ 4)
    → (b : ℕ) × (t : Bytes) × (encoded_bytes (u, len) ≡ b ∷ t) × (suc (length t) ≡ len)
length-encoded u len (inl e) = (u.b0, [], rw e refl, sym e)
length-encoded u len (inr (inl e)) = (u.b0, u.b1 ∷ [], rw e refl, sym e)
length-encoded u len (inr (inr (inl e))) = (u.b0, u.b1 ∷ u.b2 ∷ [], rw e refl, sym e)
length-encoded u len (inr (inr (inr e))) = (u.b0, u.b1 ∷ u.b2 ∷ u.b3 ∷ [], rw e refl, sym e)

-- One character and its encoding.
record OneWide (c : ℕ) : Type 0 where
  units : Units
  len : ℕ
  first : ℕ
  more : Bytes
  encodes : Encodes c units len
  shape : encoded_bytes (units, len) ≡ first ∷ more
  sized : suc (length more) ≡ len

one_wide : (c : ℕ) → IsScalar c → OneWide c
one_wide c h =
    let (u, len, e) = encode-decode c h in
    let (b, t, q, r) = length-encoded u len (len_lem c u len e) in
    record { units = u; len = len; first = b; more = t; encodes = e; shape = q; sized = r }

utf8-cons :
    (c : ℕ) (l : List ℕ) (o : OneWide c) → utf8 (c ∷ l) ≡ encoded_bytes (o.units, o.len) ++ utf8 l
unfolding utf8
utf8-cons c l o = rw o.encodes.0 refl

write_one :
    (limit c : ℕ) (src : List ℤ) (count : ℕ) (bytes : Bytes) (o : OneWide c)
    → count + o.len < limit
    → write_loop true limit (pos c ∷ src) count bytes
      ≡ write_loop true limit src (count + o.len) (bytes ++ encoded_bytes (o.units, o.len))
unfolding write_loop
write_one limit c src count bytes o h = ground (arith, o.encodes.0)

write_end :
    (limit count : ℕ) (bytes : Bytes)
    → count < limit
    → write_loop true limit [] count bytes ≡ ends at_end count bytes
unfolding write_loop
write_end limit count bytes h = ground arith

utf8_nil : utf8 [] ≡ []
unfolding utf8
utf8_nil = refl

length-utf8_cons :
    (c : ℕ) (l : List ℕ) (o : OneWide c) → length (utf8 (c ∷ l)) ≡ o.len + length (utf8 l)
length-utf8_cons c l o = omega (
  arith,
  ap length (utf8-cons c l o),
  length-append (encoded_bytes (o.units, o.len)) (utf8 l),
  ap length o.shape,
  o.sized,
)

ends_eq : {m n : ℕ} {s t : Bytes} → m ≡ n → s ≡ t → ends at_end m s ≡ ends at_end n t
ends_eq e f = cc

write_lem :
    (limit : ℕ) (l : List ℕ) (count : ℕ) (bytes : Bytes)
    → IsWide l
    → count + length (utf8 l) < limit
    → write_loop true limit (map pos l) count bytes
      ≡ ends at_end (count + length (utf8 l)) (bytes ++ utf8 l)
write_lem limit [] count bytes w h =
    write_end limit count bytes (omega arith)
    ∙ ends_eq (omega (arith, ap length utf8_nil))
        (sym (append-nil bytes) ∙ ap (λ t. bytes ++ t) (sym utf8_nil))
write_lem limit (c ∷ l) count bytes w h =
    let o = one_wide c w.0.0 in
    let e = length-utf8_cons c l o in
    let enc = encoded_bytes (o.units, o.len) in
    write_one limit c (map pos l) count bytes o (omega arith)
    ∙ write_lem limit l (count + o.len) (bytes ++ enc) w.1 (omega arith)
    ∙ ends_eq (omega arith)
        (append_assoc bytes enc (utf8 l) ∙ ap (λ t. bytes ++ t) (sym (utf8-cons c l o)))

-- Reading skips the bytes of the character that it has read.
skip_lem :
    (bounded : Bool) (limit : ℕ) (xs s : Bytes) (count : ℕ) (wides : List ℕ) (state : MbState)
    → read_loop bounded limit (length xs) (xs ++ s) count wides state
      ≡ read_loop bounded limit 0 s count wides state
unfolding read_loop
skip_lem bounded limit [] s count wides state = refl
skip_lem bounded limit (x ∷ xs) s count wides state = skip_lem bounded limit xs s count wides state

read_one :
    (limit b : ℕ) (cursor : Bytes) (count : ℕ) (wides : List ℕ) (state : MbState) (c : Converted)
    → count < limit
    → read_wide (b ∷ cursor) state ≡ c
    → is_error c.result ≡ false
    → 0 < c.result
    → read_loop true limit 0 (b ∷ cursor) count wides state
      ≡ read_loop true limit (c.result - 1) cursor (count + 1) (wides ++ (wide_of c ∷ [])) c.state
unfolding read_loop
read_one limit b cursor count wides state c h r e k = rw r (ground arith)

take_all : (s : Bytes) → take (length s) s ≡ s
take_all [] = refl
take_all (c ∷ s) = ap (λ t. c ∷ t) (take_all s)

take_string : (s : Bytes) → take (length s + 1) (s ++ (0 ∷ [])) ≡ s ++ (0 ∷ [])
take_string s =
    let e : length s + 1 ≡ length (s ++ (0 ∷ [])) = omega (arith, length-append s (0 ∷ [])) in
    ap (λ k. take k (s ++ (0 ∷ []))) e ∙ take_all (s ++ (0 ∷ []))

complete_lem :
    (c len : ℕ)
    → 0 < c
    → as_converted true 0 (complete c len, new)
      ≡ record { result = len; wide = some c; state = new; errno = 0 }
complete_lem c len h = ground arith

-- A round on the encoding of a character.
read_wide_lem :
    (c : ℕ) (o : OneWide c) (rest : Bytes)
    → 0 < c
    → read_wide (encoded_bytes (o.units, o.len) ++ rest) new
      ≡ record { result = o.len; wide = some c; state = new; errno = 0 }
read_wide_lem c o rest h =
    let enc = encoded_bytes (o.units, o.len) in
    let s = enc ++ rest in
    mbrtowc-decode_utf8 true (s ++ (0 ∷ [])) (length s + 1) new 0 (omega arith)
    ∙ ap (λ t. as_converted true 0 (decode_utf8 new t))
        (take_string s ∙ append_assoc enc rest (0 ∷ []))
    ∙ ap (as_converted true 0) (reads_lem c o.units o.len (rest ++ (0 ∷ [])) o.encodes)
    ∙ complete_lem c o.len h

read_character :
    (limit c : ℕ) (o : OneWide c) (rest : Bytes) (count : ℕ) (wides : List ℕ)
    → count < limit
    → 0 < c
    → read_loop true limit 0 (encoded_bytes (o.units, o.len) ++ rest) count wides new
      ≡ read_loop true limit 0 rest (count + 1) (wides ++ (c ∷ [])) new
read_character limit c o rest count wides h k =
    let e : encoded_bytes (o.units, o.len) ++ rest ≡ o.first ∷ (o.more ++ rest) =
      ap (λ t. t ++ rest) o.shape in
    let r = sym (ap (λ t. read_wide t new) e) ∙ read_wide_lem c o rest k in
    let short : o.len ≤ 4 = ground (arith, len_lem c o.units o.len o.encodes) in
    let left : o.len - 1 ≡ length o.more = omega (arith, o.sized) in
    ap (λ t. read_loop true limit 0 t count wides new) e
    ∙ read_one limit o.first (o.more ++ rest) count wides new _ h r (ground arith)
        (omega (arith, o.sized))
    ∙ ap (λ n. read_loop true limit n (o.more ++ rest) (count + 1) (wides ++ (c ∷ [])) new) left
    ∙ skip_lem true limit o.more rest (count + 1) (wides ++ (c ∷ [])) new

read_nul : read_wide [] new ≡ record { result = 0; wide = some 0; state = new; errno = 0 }
unfolding mbrtowc_with_state scan_bytes scan_byte expected_len_from_lead_byte decode_utf8_scalar
read_nul = refl

read_end :
    (limit count : ℕ) (wides : List ℕ)
    → count < limit
    → read_loop true limit 0 [] count wides new ≡ stopped at_end count wides [] new
unfolding read_loop
read_end limit count wides h = rw read_nul (ground arith)

stopped_eq :
    {m n : ℕ} {v w : List ℕ} → m ≡ n → v ≡ w → stopped at_end m v [] new ≡ stopped at_end n w [] new
stopped_eq e f = cc

read_lem :
    (limit : ℕ) (l : List ℕ) (count : ℕ) (wides : List ℕ)
    → IsWide l
    → count + length l < limit
    → read_loop true limit 0 (utf8 l) count wides new
      ≡ stopped at_end (count + length l) (wides ++ l) [] new
read_lem limit [] count wides w h =
    ap (λ t. read_loop true limit 0 t count wides new) utf8_nil
    ∙ read_end limit count wides (omega arith)
    ∙ stopped_eq (omega arith) (sym (append-nil wides))
read_lem limit (c ∷ l) count wides w h =
    let o = one_wide c w.0.0 in
    ap (λ t. read_loop true limit 0 t count wides new) (utf8-cons c l o)
    ∙ read_character limit c o (utf8 l) count wides (omega arith) w.0.1
    ∙ read_lem limit l (count + 1) (wides ++ (c ∷ [])) w.1 (omega arith)
    ∙ stopped_eq (omega arith) (append_assoc wides (c ∷ []) l)

-- A string of Unicode scalar values other than 0 whose UTF-8, and which itself, is shorter than
-- the room for it: `wcstombs` returns the length of the UTF-8 and stores it with a NUL, and
-- `mbstowcs` of that UTF-8 returns the length of the string and stores the string with a 0; both
-- leave `errno`.
pub mbstowcs-wcstombs :
    (l : List ℕ) (limit wide_limit errno : ℕ)
    → IsWide l
    → length (utf8 l) < limit
    → length l < wide_limit
    → (wcstombs true (some (map pos l)) limit errno
        ≡ record { result = length (utf8 l); bytes = utf8 l ++ (0 ∷ []); errno = errno })
      × (mbstowcs true (some (utf8 l)) wide_limit errno
          ≡ record { result = length l; wides = l ++ (0 ∷ []); errno = errno })
unfolding wcstombs mbstowcs
mbstowcs-wcstombs l limit wide_limit errno w h k = (
  ground (arith, write_lem limit l 0 [] w (omega arith)),
  ground (arith, read_lem wide_limit l 0 [] w (omega arith)),
)
