-- ===== src/Pthread/Cond/Timeout.antt =====
-- src/pthread.rs: `timeout_from_abstime`. The time that `clock_gettime` gives is a parameter, nothing
-- when it fails; `tv_sec` is an `i64`, and so every difference of two fits a `u64` when it is not
-- negative.
use rlibc.Common.{
  ℕ, ◌+◌, ◌*◌, ◌^◌, ◌<◌, ◌≤◌, ◌≡◌, refl, Bool, true, not, ◌&&◌, ◌||◌, Option, none, some, leb,
  if◌then◌else◌, arith, ◌⊎◌, inl, inr, Bool-cases,
}
use rlibc.Common.Int.{
  ℤ, pos, negsuc, ◌+ℤ◌, ◌-ℤ◌, ltb_ℤ, leb_ℤ, eqb_ℤ, pos_part, neg_part, +ℤ_parts, -ℤ_parts,
}
use rlibc.Errno.{einval}

pub record Timespec : Type 0 where
  pub tv_sec : ℤ
  pub tv_nsec : ℤ

-- An error code, or seconds and nanoseconds.
pub data Timeout : Type 0 where
  refused : ℕ → Timeout
  duration : ℕ → ℕ → Timeout

abbrev pub billion : ℕ
billion = 1000000000

abbrev in_second : ℤ → Bool
in_second n = leb_ℤ (pos 0) n && ltb_ℤ n (pos billion)

-- `u64::try_from` and `u32::try_from`
abbrev to_duration : ℤ → ℤ → Timeout
to_duration (negsuc n) nsec = refused einval
to_duration (pos sec) (negsuc n) = refused einval
to_duration (pos sec) (pos nsec) =
    if leb (2 ^ 64) sec
    then refused einval
    else if leb (2 ^ 32) nsec
    then refused einval
    else duration sec nsec

abbrev from_deltas : ℤ → ℤ → Timeout
from_deltas sec_delta nsec_delta =
    if ltb_ℤ sec_delta (pos 0) || (eqb_ℤ sec_delta (pos 0) && eqb_ℤ nsec_delta (pos 0))
    then duration 0 0
    else to_duration sec_delta nsec_delta

abbrev borrowed : ℤ → ℤ → Timeout
borrowed sec_delta nsec_delta =
    if ltb_ℤ nsec_delta (pos 0)
    then from_deltas (sec_delta -ℤ pos 1) (nsec_delta +ℤ pos billion)
    else from_deltas sec_delta nsec_delta

unfoldable pub timeout_from_abstime : Option Timespec → Option Timespec → Timeout
timeout_from_abstime none now = refused einval
timeout_from_abstime (some deadline) none = refused einval
timeout_from_abstime (some deadline) (some now) =
    if not (in_second deadline.tv_nsec)
    then refused einval
    else borrowed (deadline.tv_sec -ℤ now.tv_sec) (deadline.tv_nsec -ℤ now.tv_nsec)

abbrev pub at : ℤ → ℕ → Timespec
at sec nsec = record { tv_sec = sec; tv_nsec = pos nsec }

-- The nanoseconds of a time, with the parts of its seconds on the two sides of an equation.
abbrev pub IsLater : ℤ → ℕ → ℕ → ℕ → ℤ → ℕ → Type 0
IsLater now_sec now_nsec seconds nanos sec nsec =
    (pos_part now_sec + neg_part sec + seconds) * billion + now_nsec + nanos
    ≡ (pos_part sec + neg_part now_sec) * billion + nsec

abbrev pub IsPassed : ℤ → ℕ → ℤ → ℕ → Type 0
IsPassed now_sec now_nsec sec nsec =
    (pos_part sec + neg_part now_sec) * billion + nsec
    ≤ (pos_part now_sec + neg_part sec) * billion + now_nsec

IsTimeout : Timeout → ℤ → ℕ → ℤ → ℕ → Type 0
IsTimeout t now_sec now_nsec sec nsec =
    (seconds nanos : ℕ) × (t ≡ duration seconds nanos)
    × (nanos < billion)
    × (IsLater now_sec now_nsec seconds nanos sec nsec
        ⊎ (IsPassed now_sec now_nsec sec nsec × (seconds ≡ 0) × (nanos ≡ 0)))

canonical : (a : ℤ) → (pos_part a ≡ 0) ⊎ (neg_part a ≡ 0)
canonical (pos n) = inr refl
canonical (negsuc n) = inl refl

-- The end of the function, on the two differences; `borrow` is 1 when a second has been borrowed.
from_deltas_lem :
    (x y sec now_sec : ℤ) (nsec now_nsec borrow : ℕ)
    → pos_part x + neg_part sec + pos_part now_sec + borrow
      ≡ neg_part x + pos_part sec + neg_part now_sec
    → pos_part y + now_nsec ≡ nsec + borrow * billion
    → neg_part y ≡ 0
    → pos_part y < billion
    → borrow ≤ 1
    → pos_part sec < 2 ^ 63
    → neg_part now_sec ≤ 2 ^ 63
    → IsTimeout (from_deltas x y) now_sec now_nsec sec nsec
unfolding IsTimeout
from_deltas_lem (pos s) (pos n) sec now_sec nsec now_nsec borrow e f g h b k m =
    (s, n, ground arith, h, inl (omega arith))
from_deltas_lem (negsuc s) (pos n) sec now_sec nsec now_nsec borrow e f g h b k m =
    (0, 0, ground arith, omega arith, inr (omega arith, refl, refl))
from_deltas_lem x (negsuc n) sec now_sec nsec now_nsec borrow e f g h b k m = absurd (omega arith)

borrowed_lem :
    (sec now_sec : ℤ) (nsec now_nsec : ℕ)
    → nsec < billion
    → now_nsec < billion
    → pos_part sec < 2 ^ 63
    → neg_part now_sec ≤ 2 ^ 63
    → IsTimeout (borrowed (sec -ℤ now_sec) (pos nsec -ℤ pos now_nsec)) now_sec now_nsec sec nsec
borrowed_lem sec now_sec nsec now_nsec h k m n =
    let x = sec -ℤ now_sec in
    let y = pos nsec -ℤ pos now_nsec in
    let p = -ℤ_parts sec now_sec in
    let q = -ℤ_parts (pos nsec) (pos now_nsec) in
    let c = canonical y in
    elim (Bool-cases (ltb_ℤ y (pos 0))) [
      | inl l ↦
          let p' = -ℤ_parts x (pos 1) in
          let q' = +ℤ_parts y (pos billion) in
          let c' = canonical (y +ℤ pos billion) in
          let neg : pos_part y < neg_part y = ground (arith, l) in
          rw l (
            from_deltas_lem (x -ℤ pos 1) (y +ℤ pos billion) sec now_sec nsec now_nsec 1
              (omega (arith, p, p')) (omega (arith, q, q', c, c', neg))
              (omega (arith, q, q', c, c', neg)) (omega (arith, q, q', c, c', neg)) (omega arith) m
              n)
      | inr l ↦
          let nonneg : neg_part y ≤ pos_part y = ground (arith, l) in
          rw l (
            from_deltas_lem x y sec now_sec nsec now_nsec 0 (omega (arith, p))
              (omega (arith, q, c, nonneg)) (omega (arith, q, c, nonneg))
              (omega (arith, q, c, nonneg)) (omega arith) m n)
    ]

-- For a deadline and a time that both have their nanoseconds within a second and seconds that an
-- `i64` holds, the timeout has its nanoseconds within a second and is the time from now to the
-- deadline, or nothing when the deadline has passed.
pub timeout_lem :
    (sec now_sec : ℤ) (nsec now_nsec : ℕ)
    → nsec < billion
    → now_nsec < billion
    → pos_part sec < 2 ^ 63
    → neg_part now_sec ≤ 2 ^ 63
    → (seconds nanos : ℕ) × (timeout_from_abstime (some (at sec nsec)) (some (at now_sec now_nsec))
        ≡ duration seconds nanos)
      × (nanos < billion)
      × (IsLater now_sec now_nsec seconds nanos sec nsec
          ⊎ (IsPassed now_sec now_nsec sec nsec × (seconds ≡ 0) × (nanos ≡ 0)))
unfolding timeout_from_abstime IsTimeout
timeout_lem sec now_sec nsec now_nsec h k m n =
    let valid : in_second (pos nsec) ≡ true = ground arith in
    rw valid (borrowed_lem sec now_sec nsec now_nsec h k m n)
