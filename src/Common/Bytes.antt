-- ===== src/Common/Bytes.antt =====
-- Byte strings. A C string is the list of its bytes up to, and without, the terminating NUL.
use Prim.Native.Char.{code}
use Prim.Native.String.{String}
use rlibc.Common.{
  ℕ, ◌<◌, ◌≡◌, refl, Bool, true, false, ◌&&◌, ◌||◌, List, [], ◌∷◌, All, ◌≢◌, ◌==◌, ltb,
  if◌then◌else◌, arith,
}

abbrev pub Bytes : Type 0
Bytes = List ℕ

-- The bytes of an ASCII text.
abbrev pub codes : String → Bytes
codes String.[] = []
codes (String.◌∷◌ c s) = code c ∷ codes s

-- The byte that a pointer to the start of the rest of a C string reads.
abbrev pub read_byte : Bytes → ℕ
read_byte [] = 0
read_byte (c ∷ s) = c

-- What makes a list the contents of a C string: bytes, none of them NUL.
abbrev pub IsCString : Bytes → Type 0
IsCString s = All (λ c. (c ≢ 0) × (c < 256)) s

-- Equality of byte strings.
unfoldable pub eqb_bytes : Bytes → Bytes → Bool
eqb_bytes [] [] = true
eqb_bytes [] (d ∷ t) = false
eqb_bytes (c ∷ s) [] = false
eqb_bytes (c ∷ s) (d ∷ t) = c == d && eqb_bytes s t

pub eqb_bytes-eq : (s t : Bytes) → eqb_bytes s t ≡ true → s ≡ t
unfolding eqb_bytes
eqb_bytes-eq [] [] h = refl
eqb_bytes-eq [] (d ∷ t) h = cc
eqb_bytes-eq (c ∷ s) [] h = cc
eqb_bytes-eq (c ∷ s) (d ∷ t) h = ground (arith, eqb_bytes-eq s t)

pub eqb_bytes_refl : (s : Bytes) → eqb_bytes s s ≡ true
unfolding eqb_bytes
eqb_bytes_refl [] = refl
eqb_bytes_refl (c ∷ s) = ground (arith, eqb_bytes_refl s)

pub eqb_bytes_comm : (s t : Bytes) → eqb_bytes s t ≡ eqb_bytes t s
unfolding eqb_bytes
eqb_bytes_comm [] [] = refl
eqb_bytes_comm [] (d ∷ t) = refl
eqb_bytes_comm (c ∷ s) [] = refl
eqb_bytes_comm (c ∷ s) (d ∷ t) = ground (arith, eqb_bytes_comm s t)

-- The order of byte strings, as `Vec<u8>` has it.
unfoldable pub leb_bytes : Bytes → Bytes → Bool
leb_bytes [] t = true
leb_bytes (c ∷ s) [] = false
leb_bytes (c ∷ s) (d ∷ t) = ltb c d || (c == d && leb_bytes s t)

-- `sort` and `sort_unstable`: equal byte strings cannot be told apart.
unfoldable pub insert_bytes : Bytes → List Bytes → List Bytes
insert_bytes s [] = s ∷ []
insert_bytes s (t ∷ l) = if leb_bytes s t then s ∷ t ∷ l else t ∷ insert_bytes s l

unfoldable pub sort_bytes : List Bytes → List Bytes
sort_bytes [] = []
sort_bytes (s ∷ l) = insert_bytes s (sort_bytes l)

-- `dedup`: each run of equal items becomes one.
unfoldable pub dedup_bytes : List Bytes → List Bytes
dedup_bytes [] = []
dedup_bytes (s ∷ []) = s ∷ []
dedup_bytes (s ∷ t ∷ l) = let rest = dedup_bytes (t ∷ l) in if eqb_bytes s t then rest else s ∷ rest
