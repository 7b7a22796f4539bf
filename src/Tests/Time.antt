-- ===== src/Tests/Time.antt =====
-- src/time.rs on concrete dates and instants.
use rlibc.Common.{◌≡◌, refl, true, some, none, arith}
use rlibc.Common.Int.{ℤ, pos, negsuc, ◌+ℤ◌, ◌-ℤ◌, scale, tdiv, trem, div_euclid, rem_euclid}
use rlibc.Time.Civil.{
  Date, is_leap_year, era_of_days, era_of_year, year_of_day, days_before, phase_of_day,
  days_before_phase, civil_from_days, days_from_civil,
}
use rlibc.Time.Civil.Days.{days_from_civil-civil_from_days}
use rlibc.Time.Civil.Valid.{IsValid, civil_from_days-days_from_civil}
use rlibc.Time.Tm.{Tm, tm_from_unix_seconds}
use rlibc.Time.Instant.{year_fits, broken_down, tm_from_unix_seconds_lem}
use rlibc.Time.Entry.{gmtime_r, timegm, mktime}
use rlibc.Time.Promise.{gmtime_r-timegm, timegm_counts, mktime_stable}
use rlibc.Time.Fields.{HasFields, tm_from_unix_seconds-HasFields}

abbrev leap_day : Date
leap_day = record { year = pos 2024; month = 2; day = 29 }

leap_day-IsValid : IsValid leap_day
unfolding is_leap_year trem
leap_day-IsValid = record {
  month_in = (omega arith, omega arith);
  day_in = (omega arith, omega arith);
}

days_from_civil-civil_from_days_example : days_from_civil (civil_from_days (negsuc 0)) ≡ negsuc 0
days_from_civil-civil_from_days_example = days_from_civil-civil_from_days (negsuc 0)

civil_from_days-days_from_civil_example : civil_from_days (days_from_civil leap_day) ≡ leap_day
civil_from_days-days_from_civil_example = civil_from_days-days_from_civil leap_day leap_day-IsValid

-- 2024-02-29 is day 19782, and the day before the epoch is in 1969.
dates :
    (days_from_civil leap_day ≡ pos 19782)
    × (civil_from_days (negsuc 0) ≡ record { year = pos 1969; month = 12; day = 31 })
unfolding civil_from_days days_from_civil era_of_days era_of_year scale tdiv year_of_day days_before
    phase_of_day days_before_phase ◌+ℤ◌ ◌-ℤ◌
dates = (refl, refl)

-- 2024-02-29 12:00:00
abbrev noon : ℤ
noon = pos 1709208000

noon_fits : year_fits noon ≡ true
unfolding civil_from_days era_of_days scale tdiv year_of_day days_before phase_of_day
    days_before_phase ◌+ℤ◌ ◌-ℤ◌ div_euclid
noon_fits = refl

abbrev blank_tm : Tm
blank_tm = record {
  tm_sec = pos 0;
  tm_min = pos 0;
  tm_hour = pos 0;
  tm_mday = pos 1;
  tm_mon = pos 0;
  tm_year = pos 70;
  tm_wday = pos 0;
  tm_yday = pos 0;
  tm_isdst = pos 1;
  tm_gmtoff = pos 0;
  tm_zone = none;
}

gmtime_r-timegm_example :
    ((gmtime_r (some noon) (some blank_tm) 5).returned ≡ true)
    × ((gmtime_r (some noon) (some blank_tm) 5).errno ≡ 5)
    × (timegm (gmtime_r (some noon) (some blank_tm) 5).storage 7 ≡ record {
      seconds = noon;
      time_parts = (gmtime_r (some noon) (some blank_tm) 5).storage;
      errno = 7;
    })
gmtime_r-timegm_example = gmtime_r-timegm noon blank_tm 5 7 refl noon_fits

timegm_counts_example :
    timegm (some blank_tm) 3
    ≡ record { seconds = pos 0; time_parts = some (broken_down (pos 0)); errno = 3 }
unfolding civil_from_days days_from_civil era_of_days era_of_year scale tdiv year_of_day days_before
    phase_of_day days_before_phase ◌+ℤ◌ ◌-ℤ◌ div_euclid rem_euclid
timegm_counts_example = timegm_counts blank_tm 3

mktime_stable_example :
    ((mktime (mktime (some blank_tm) 3).time_parts 4).seconds ≡ (mktime (some blank_tm) 3).seconds)
    × ((mktime (mktime (some blank_tm) 3).time_parts 4).time_parts
        ≡ (mktime (some blank_tm) 3).time_parts)
mktime_stable_example = mktime_stable blank_tm 3 4

tm_from_unix_seconds-HasFields_example : HasFields noon (broken_down noon)
tm_from_unix_seconds-HasFields_example =
    tm_from_unix_seconds-HasFields noon (broken_down noon) noon_converts
  where
    noon_converts : tm_from_unix_seconds noon ≡ some (broken_down noon)
    noon_converts = rw (tm_from_unix_seconds_lem noon, noon_fits) refl
