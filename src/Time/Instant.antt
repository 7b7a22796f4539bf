-- ===== src/Time/Instant.antt =====
-- src/time.rs: `tm_from_unix_seconds` and `normalized_tm_to_unix_seconds` agree on every instant.
use rlibc.Common.{
  ℕ, ◌+◌, ◌-◌, ◌/◌, ◌%◌, ◌^◌, ◌≡◌, ◌≤◌, ◌<◌, Bool, ◌&&◌, ltb, if◌then◌else◌, none, some, true,
  false, get_or, get_elem?-get_or, get_or-le, arith, refl, ◌∙◌,
}
use rlibc.Common.Int.{
  ℤ, pos, negsuc, minus, within_ℤ, ◌+ℤ◌, ◌-ℤ◌, scale, div_euclid, rem_euclid, int_laws, div_rem_day,
  rem_day-lt,
}
use rlibc.Time.Civil.{Date, is_leap_year, civil_from_days, days_from_civil}
use rlibc.Time.Civil.Valid.{IsValid, civil_from_days-IsValid}
use rlibc.Time.Civil.Days.{days_from_civil-civil_from_days}
use rlibc.Time.Tm.{
  Tm, c_int_try_from, days_before_month, ◌>>=◌, day_of_year, tm_from_unix_seconds,
  normalized_tm_to_unix_seconds,
}

-- The day of the year, from 0.
abbrev pub yday_of : Date → ℕ
yday_of t =
    let yday = get_or days_before_month (t.month - 1) 0 + (t.day - 1) in
    if ltb 2 t.month && is_leap_year t.year then yday + 1 else yday

abbrev pub date_of : ℤ → Date
date_of seconds = civil_from_days (div_euclid seconds 86400)

-- The year of an instant fits `tm_year`.
abbrev pub year_fits : ℤ → Bool
year_fits seconds =
    within_ℤ (minus (2 ^ 31)) (pos (2 ^ 31 - 1)) ((date_of seconds).year -ℤ pos 1900)

-- The broken-down time of an instant.
abbrev pub broken_down : ℤ → Tm
broken_down seconds = record {
  tm_sec = pos (rem_euclid seconds 86400 % 60);
  tm_min = pos (rem_euclid seconds 86400 % 3600 / 60);
  tm_hour = pos (rem_euclid seconds 86400 / 3600);
  tm_mday = pos (date_of seconds).day;
  tm_mon = pos ((date_of seconds).month - 1);
  tm_year = (date_of seconds).year -ℤ pos 1900;
  tm_wday = pos (rem_euclid (div_euclid seconds 86400 +ℤ pos 4) 7);
  tm_yday = pos (yday_of (date_of seconds));
  tm_isdst = pos 0;
  tm_gmtoff = pos 0;
  tm_zone = none;
}

small_fits : (n : ℕ) → n < 2 ^ 31 → c_int_try_from (pos n) ≡ some (pos n)
unfolding c_int_try_from
small_fits n h = ground arith

pub yday_of-lt : (t : Date) → IsValid t → yday_of t < 366
yday_of-lt t v = ground (arith, get_or-le days_before_month (t.month - 1) 334)

day_of_year_lem : (t : Date) → IsValid t → day_of_year t.year t.month t.day ≡ some (pos (yday_of t))
unfolding day_of_year
day_of_year_lem t v =
    rw (get_elem?-get_or days_before_month (t.month - 1) 0 (omega (arith, v.month_in)))
      (small_fits (yday_of t) (omega (arith, yday_of-lt t v)))

month_fits : (m : ℕ) → 1 ≤ m → m ≤ 12 → c_int_try_from (pos m -ℤ pos 1) ≡ some (pos (m - 1))
unfolding c_int_try_from ◌-ℤ◌
month_fits m lo hi = ground arith

pub weekday-lt : (a : ℤ) → rem_euclid a 7 < 7
unfolding rem_euclid
weekday-lt (pos n) = omega arith
weekday-lt (negsuc n) = omega arith

-- `tm_from_unix_seconds` gives the broken-down time of an instant, unless the year does not fit.
pub tm_from_unix_seconds_lem :
    (s : ℤ) → tm_from_unix_seconds s ≡ (if year_fits s then some (broken_down s) else none)
unfolding tm_from_unix_seconds c_int_try_from ◌-ℤ◌
tm_from_unix_seconds_lem s =
    let v = civil_from_days-IsValid (div_euclid s 86400) in
    rw
      (
        day_of_year_lem (date_of s) v,
        small_fits (rem_euclid s 86400 / 3600) (omega (arith, rem_day-lt s)),
        small_fits (rem_euclid s 86400 % 3600 / 60) (omega (arith, rem_day-lt s)),
        small_fits (rem_euclid s 86400 % 60) (omega arith),
        month_fits (date_of s).month v.month_in.0 v.month_in.1,
        small_fits (date_of s).day (ground arith),
        small_fits (rem_euclid (div_euclid s 86400 +ℤ pos 4) 7)
            (omega (arith, weekday-lt (div_euclid s 86400 +ℤ pos 4))),
      )
      (year_split (year_fits s))
  where
    year_split :
        (b : Bool)
        → ((if b then some ((date_of s).year -ℤ pos 1900) else none) >>= λ y.
            some (record (broken_down s) { tm_year = y }))
          ≡ (if b then some (broken_down s) else none)
    year_split true = refl
    year_split false = refl

-- The first day of the month that `tm_year` and `tm_mon` name, whole years in `tm_mon` included.
abbrev pub first_of_month : Tm → ℤ
first_of_month t = days_from_civil (record {
  year = t.tm_year +ℤ pos 1900 +ℤ div_euclid t.tm_mon 12;
  month = rem_euclid t.tm_mon 12 + 1;
  day = 1;
})

abbrev pub clock_seconds : Tm → ℤ
clock_seconds t = scale t.tm_hour 3600 +ℤ scale t.tm_min 60 +ℤ t.tm_sec

scale_+ℤ : (a b : ℤ) → scale (a +ℤ b) 86400 ≡ scale a 86400 +ℤ scale b 86400
unfolding scale ◌+ℤ◌
scale_+ℤ a b = ground arith

regroup : (a b c : ℤ) → a +ℤ b +ℤ c ≡ a +ℤ (b +ℤ c)
regroup a b c = omega int_laws

-- The seconds of any fields, in range or not: those of the first of the month, and then each field at
-- its weight.
pub normalized_tm_to_unix_seconds_lem :
    (t : Tm)
    → normalized_tm_to_unix_seconds t
      ≡ scale (first_of_month t +ℤ (t.tm_mday -ℤ pos 1)) 86400 +ℤ clock_seconds t
unfolding normalized_tm_to_unix_seconds
normalized_tm_to_unix_seconds_lem t = rw (
  scale_+ℤ (first_of_month t +ℤ (t.tm_mday -ℤ pos 1)) (div_euclid (clock_seconds t) 86400),
  regroup (scale (first_of_month t +ℤ (t.tm_mday -ℤ pos 1)) 86400) _
      (pos (rem_euclid (clock_seconds t) 86400)),
  div_rem_day (clock_seconds t),
)

-- Days of one month differ as their numbers do.
days_from_civil-day :
    (y : ℤ) (m d : ℕ)
    → 1 ≤ d
    → days_from_civil (record { year = y; month = m; day = 1 }) +ℤ (pos d -ℤ pos 1)
      ≡ days_from_civil (record { year = y; month = m; day = d })
unfolding days_from_civil
days_from_civil-day y m d h = omega int_laws

year_back : (y : ℤ) → y -ℤ pos 1900 +ℤ pos 1900 +ℤ pos 0 ≡ y
year_back y = omega int_laws

months_of_year :
    (m : ℕ)
    → 1 ≤ m
    → m ≤ 12
    → (div_euclid (pos (m - 1)) 12 ≡ pos 0) × (rem_euclid (pos (m - 1)) 12 + 1 ≡ m)
unfolding div_euclid rem_euclid
months_of_year m lo hi = ground arith

clock_of_day :
    (n : ℕ) → scale (pos (n / 3600)) 3600 +ℤ scale (pos (n % 3600 / 60)) 60 +ℤ pos (n % 60) ≡ pos n
unfolding scale ◌+ℤ◌
clock_of_day n = ground arith

-- The seconds of the broken-down time of an instant are the instant.
pub normalized-broken_down : (s : ℤ) → normalized_tm_to_unix_seconds (broken_down s) ≡ s
normalized-broken_down s =
    let v = civil_from_days-IsValid (div_euclid s 86400) in
    let (no_carry, month_back) = months_of_year (date_of s).month v.month_in.0 v.month_in.1 in
    normalized_tm_to_unix_seconds_lem (broken_down s)
    ∙ rw
        (
          no_carry,
          month_back,
          year_back (date_of s).year,
          days_from_civil-day (date_of s).year (date_of s).month (date_of s).day v.day_in.0,
          clock_of_day (rem_euclid s 86400),
          days_from_civil-civil_from_days (div_euclid s 86400),
        )
        (div_rem_day s)
