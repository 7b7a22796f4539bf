-- ===== src/Time/Fields.antt =====
-- src/time.rs: the ranges and the meaning of the fields that `tm_from_unix_seconds` yields.
use rlibc.Common.{
  ℕ, ◌+◌, ◌-◌, ◌≡◌, ◌≤◌, Bool, true, false, if◌then◌else◌, none, some, refl, sym, ap, ◌∙◌, ltb, leb,
  arith, Bool-cases, inl, inr, get_or, subst,
}
use rlibc.Common.Int.{ℤ, pos, ◌≤ℤ◌, ◌+ℤ◌, ◌-ℤ◌, int_laws, div_euclid, rem_euclid, rem_day-lt}
use mathlib.Core.Option.{some-injective}
use rlibc.Time.Civil.{Date, is_leap_year, days_from_civil, days_before_phase, phase_of_month}
use rlibc.Time.Civil.Valid.{IsValid, civil_from_days-IsValid}
use rlibc.Time.Civil.Days.{days_from_civil-civil_from_days}
use rlibc.Time.Civil.Tomorrow.{tomorrow, days_from_civil-tomorrow}
use rlibc.Time.Tm.{Tm, days_before_month, tm_from_unix_seconds}
use rlibc.Time.Instant.{
  year_fits, broken_down, date_of, yday_of, yday_of-lt, weekday-lt, tm_from_unix_seconds_lem,
}

abbrev ymd : ℤ → ℕ → ℕ → Date
ymd y m d = record { year = y; month = m; day = d }

-- The days that `days_from_civil` counts from March on, by the day of the year.
march_days : ℕ → ℕ → ℕ
march_days m d = days_before_phase (phase_of_month m) + d - 1

winter_days :
    (m d : ℕ)
    → 1 ≤ m
    → m ≤ 2
    → 1 ≤ d
    → march_days m d ≡ 306 + (get_or days_before_month (m - 1) 0 + (d - 1))
unfolding march_days days_before_phase
winter_days m d lo hi h = ground arith

summer_days :
    (m d : ℕ)
    → 3 ≤ m
    → m ≤ 12
    → 1 ≤ d
    → march_days m d + 59 ≡ get_or days_before_month (m - 1) 0 + (d - 1)
unfolding march_days days_before_phase
summer_days m d lo hi h = ground arith

-- Days that are counted from the same year on.
from_same_year :
    (s : ℤ) (b p q k : ℕ)
    → p ≡ q + k
    → s +ℤ pos (b + p) -ℤ pos 719468 ≡ s +ℤ pos (b + q) -ℤ pos 719468 +ℤ pos k
from_same_year s b p q k h = omega int_laws

low_month : (m : ℕ) → m ≤ 2 → leb m 2 ≡ true
low_month m h = ground arith

high_month : (m : ℕ) → 3 ≤ m → leb m 2 ≡ false
high_month m h = ground arith

in_winter :
    (y : ℤ) (m d : ℕ)
    → 1 ≤ m
    → m ≤ 2
    → 1 ≤ d
    → days_from_civil (ymd y m d)
      ≡ days_from_civil (ymd y 1 1) +ℤ pos (get_or days_before_month (m - 1) 0 + (d - 1))
unfolding days_from_civil march_days days_before_phase
in_winter y m d lo hi h = rw (low_month m hi) (from_same_year _ _ _ _ _ (winter_days m d lo hi h))

in_summer :
    (y : ℤ) (m d k : ℕ)
    → 3 ≤ m
    → m ≤ 12
    → 1 ≤ d
    → get_or days_before_month (m - 1) 0 + (d - 1) ≡ 59 + k
    → days_from_civil (ymd y m d) ≡ days_from_civil (ymd y 3 1) +ℤ pos k
unfolding days_from_civil march_days days_before_phase
in_summer y m d k lo hi h is =
    rw (high_month m lo) (from_same_year _ _ _ _ _ (omega (arith, is, summer_days m d lo hi h)))

last_of_february : ℤ → ℕ
last_of_february y = if is_leap_year y then 29 else 28

add_days : (a : ℤ) (j k : ℕ) → a +ℤ pos j +ℤ pos k ≡ a +ℤ pos (j + k)
add_days a j k = omega int_laws

tomorrow_march : (y : ℤ) → tomorrow (ymd y 2 (last_of_february y)) ≡ ymd y 3 1
unfolding last_of_february
tomorrow_march y = ground arith

february-IsValid : (y : ℤ) → IsValid (ymd y 2 (last_of_february y))
unfolding last_of_february
february-IsValid y = record { month_in = ground arith; day_in = ground arith }

after_february :
    (y : ℤ)
    → days_from_civil (ymd y 3 1) ≡ days_from_civil (ymd y 1 1) +ℤ pos (31 + last_of_february y)
after_february y =
    let n = last_of_february y in
    ap days_from_civil (sym (tomorrow_march y))
    ∙ days_from_civil-tomorrow (ymd y 2 n) (february-IsValid y)
    ∙ rw (in_winter y 2 n (omega arith) (omega arith) ((february-IsValid y).day_in.0)) (
        add_days _ _ 1
        ∙ ap (λ k. days_from_civil (ymd y 1 1) +ℤ pos k)
            (ground (arith, (february-IsValid y).day_in.0)))

after_january :
    (y : ℤ) (k : ℕ)
    → days_from_civil (ymd y 3 1) +ℤ pos k
      ≡ days_from_civil (ymd y 1 1) +ℤ pos (31 + last_of_february y + k)
after_january y k = rw (after_february y) (add_days _ _ k)

-- A valid date is as many days after the first of January as its `tm_yday` says.
yday_lem :
    (t : Date) → IsValid t → days_from_civil t ≡ days_from_civil (ymd t.year 1 1) +ℤ pos (yday_of t)
unfolding last_of_february
yday_lem t v = elim (Bool-cases (ltb 2 t.month)) [
  | inl h ↦
      let k = get_or days_before_month (t.month - 1) 0 + (t.day - 1) - 59 in
      in_summer t.year t.month t.day k (ground arith) v.month_in.1 v.day_in.0
        (omega (arith, summer_days t.month t.day (ground arith) v.month_in.1 v.day_in.0))
      ∙ after_january t.year k
      ∙ ap (λ n. days_from_civil (ymd t.year 1 1) +ℤ pos n)
          (ground (arith, summer_days t.month t.day (ground arith) v.month_in.1 v.day_in.0))
  | inr h ↦
      in_winter t.year t.month t.day v.month_in.0 (ground arith) v.day_in.0
      ∙ ap (λ n. days_from_civil (ymd t.year 1 1) +ℤ pos n) (ground arith)
]

year_back : (y : ℤ) → y -ℤ pos 1900 +ℤ pos 1900 ≡ y
year_back y = omega int_laws

-- The fields of the instant `s`.
pub record HasFields (s : ℤ) (t : Tm) : Type 0 where
  pub sec_in : (pos 0 ≤ℤ t.tm_sec) × (t.tm_sec ≤ℤ pos 59)
  pub min_in : (pos 0 ≤ℤ t.tm_min) × (t.tm_min ≤ℤ pos 59)
  pub hour_in : (pos 0 ≤ℤ t.tm_hour) × (t.tm_hour ≤ℤ pos 23)
  pub mday_in : (pos 1 ≤ℤ t.tm_mday) × (t.tm_mday ≤ℤ pos 31)
  pub mon_in : (pos 0 ≤ℤ t.tm_mon) × (t.tm_mon ≤ℤ pos 11)
  pub wday_in : (pos 0 ≤ℤ t.tm_wday) × (t.tm_wday ≤ℤ pos 6)
  pub yday_in : (pos 0 ≤ℤ t.tm_yday) × (t.tm_yday ≤ℤ pos 365)
  -- `tm_yday` days after the first of January of `tm_year` begins the day of `s`.
  pub yday_counts :
      days_from_civil (ymd (t.tm_year +ℤ pos 1900) 1 1) +ℤ t.tm_yday ≡ div_euclid s 86400
  -- 1970-01-01 is a Thursday (4), and each day is a weekday later, modulo 7.
  pub wday_counts : t.tm_wday ≡ pos (rem_euclid (div_euclid s 86400 +ℤ pos 4) 7)

broken_down-HasFields : (s : ℤ) → HasFields s (broken_down s)
unfolding ◌-ℤ◌
broken_down-HasFields s =
    let v = civil_from_days-IsValid (div_euclid s 86400) in
    record {
      sec_in = omega arith;
      min_in = omega arith;
      hour_in = (omega arith, omega (arith, rem_day-lt s));
      mday_in = (omega (arith, v.day_in), ground (arith, v.day_in, v.month_in));
      mon_in = (omega arith, omega (arith, v.month_in));
      wday_in = (omega arith, omega (arith, weekday-lt (div_euclid s 86400 +ℤ pos 4)));
      yday_in = (omega arith, omega (arith, yday_of-lt (date_of s) v));
      yday_counts =
          rw (year_back (date_of s).year)
            (sym (yday_lem (date_of s) v) ∙ days_from_civil-civil_from_days (div_euclid s 86400));
      wday_counts = refl;
    }

-- Whenever `tm_from_unix_seconds` yields broken-down time, each field is in its range, `tm_year`
-- and `tm_yday` name the day of the instant, and `tm_wday` is its weekday.
pub tm_from_unix_seconds-HasFields :
    (s : ℤ) (t : Tm) → tm_from_unix_seconds s ≡ some t → HasFields s t
tm_from_unix_seconds-HasFields s t h = only (year_fits s) (sym (tm_from_unix_seconds_lem s) ∙ h)
  where
    only : (b : Bool) → (if b then some (broken_down s) else none) ≡ some t → HasFields s t
    only true e = subst (HasFields s) (some-injective (broken_down s) t e) (broken_down-HasFields s)
    only false e = absurd (ground arith)
