-- ===== src/Time/Tm.antt =====
-- src/time.rs: broken-down time (`struct tm`) and its conversions from and to Unix seconds.
use rlibc.Common.{
  ℕ, ◌+◌, ◌-◌, ◌/◌, ◌%◌, ◌^◌, ◌&&◌, ltb, if◌then◌else◌, Option, none, some, List, [], ◌∷◌,
  get_elem?,
}
use rlibc.Common.Int.{ℤ, pos, minus, ltb_ℤ, within_ℤ, ◌+ℤ◌, ◌-ℤ◌, scale, div_euclid, rem_euclid}
use rlibc.Time.Civil.{is_leap_year, civil_from_days, days_from_civil}

abbrev pub seconds_per_day : ℕ
seconds_per_day = 86400

-- `struct tm`. `tm_zone` is null (`none`) or an address.
pub record Tm : Type 0 where
  pub tm_sec : ℤ
  pub tm_min : ℤ
  pub tm_hour : ℤ
  pub tm_mday : ℤ
  pub tm_mon : ℤ
  pub tm_year : ℤ
  pub tm_wday : ℤ
  pub tm_yday : ℤ
  pub tm_isdst : ℤ
  pub tm_gmtoff : ℤ
  pub tm_zone : Option ℕ

-- `c_int::try_from` and `c_long::try_from`
unfoldable pub c_int_try_from : ℤ → Option ℤ
c_int_try_from x = if within_ℤ (minus (2 ^ 31)) (pos (2 ^ 31 - 1)) x then some x else none

unfoldable pub c_long_try_from : ℤ → Option ℤ
c_long_try_from x = if within_ℤ (minus (2 ^ 63)) (pos (2 ^ 63 - 1)) x then some x else none

abbrev pub days_before_month : List ℕ
days_before_month = 0 ∷ 31 ∷ 59 ∷ 90 ∷ 120 ∷ 151 ∷ 181 ∷ 212 ∷ 243 ∷ 273 ∷ 304 ∷ 334 ∷ []

infixl 5 ◌>>=◌
abbrev pub ◌>>=◌ {ℓ κ} : {A : Type ℓ} {B : Type κ} → Option A → (A → Option B) → Option B
none >>= f = none
some a >>= f = f a

-- The caller's month is from 1 to 12, and its day from 1 on.
unfoldable pub day_of_year : ℤ → ℕ → ℕ → Option ℤ
unfolding c_int_try_from
day_of_year year month day = do
  before ← get_elem? days_before_month (month - 1)
  let yday = before + (day - 1)
  c_int_try_from (pos (if ltb 2 month && is_leap_year year then yday + 1 else yday))

unfoldable pub tm_from_unix_seconds : ℤ → Option Tm
tm_from_unix_seconds seconds =
    let days_since_epoch = div_euclid seconds seconds_per_day in
    let seconds_within_day = rem_euclid seconds seconds_per_day in
    let date = civil_from_days days_since_epoch in
    do
      tm_year ← c_int_try_from (date.year -ℤ pos 1900)
      tm_yday ← day_of_year date.year date.month date.day
      tm_hour ← c_int_try_from (pos (seconds_within_day / 3600))
      tm_min ← c_int_try_from (pos (seconds_within_day % 3600 / 60))
      tm_sec ← c_int_try_from (pos (seconds_within_day % 60))
      month_index ← c_int_try_from (pos date.month -ℤ pos 1)
      day_of_month ← c_int_try_from (pos date.day)
      weekday_index ← c_int_try_from (pos (rem_euclid (days_since_epoch +ℤ pos 4) 7))
      some (record {
        tm_sec = tm_sec;
        tm_min = tm_min;
        tm_hour = tm_hour;
        tm_mday = day_of_month;
        tm_mon = month_index;
        tm_year = tm_year;
        tm_wday = weekday_index;
        tm_yday = tm_yday;
        tm_isdst = pos 0;
        tm_gmtoff = pos 0;
        tm_zone = none;
      })

unfoldable pub normalized_tm_to_unix_seconds : Tm → ℤ
normalized_tm_to_unix_seconds t =
    let full_year = t.tm_year +ℤ pos 1900 +ℤ div_euclid t.tm_mon 12 in
    let one_based_month = rem_euclid t.tm_mon 12 + 1 in
    let day_offset = t.tm_mday -ℤ pos 1 in
    let day_seconds = scale t.tm_hour 3600 +ℤ scale t.tm_min 60 +ℤ t.tm_sec in
    let carry_days = div_euclid day_seconds seconds_per_day in
    let normalized_day_seconds = rem_euclid day_seconds seconds_per_day in
    let base_days =
      days_from_civil (record { year = full_year; month = one_based_month; day = 1 }) in
    let days_since_epoch = base_days +ℤ day_offset +ℤ carry_days in
    scale days_since_epoch seconds_per_day +ℤ pos normalized_day_seconds

unfoldable pub normalized_tm_to_unix_seconds_for_mktime : Tm → ℤ
normalized_tm_to_unix_seconds_for_mktime t =
    let unix_seconds = normalized_tm_to_unix_seconds t in
    if ltb_ℤ (pos 0) t.tm_isdst then unix_seconds -ℤ pos 3600 else unix_seconds
