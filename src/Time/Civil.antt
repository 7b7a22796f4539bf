-- ===== src/Time/Civil.antt =====
-- src/time.rs: the conversion between days since 1970-01-01 and dates of the proleptic Gregorian
-- calendar. The source computes in `i128`, which holds every value that occurs. Within an era of 400
-- years no value is negative (`Era`), so those are numbers here.
pub mod Era
pub mod Days
pub mod Valid
pub mod Tomorrow
use rlibc.Common.{
  ℕ, ◌+◌, ◌-◌, ◌*◌, ◌/◌, ◌%◌, ◌≡◌, Bool, not, ◌&&◌, ◌||◌, ltb, leb, ◌==◌, if◌then◌else◌,
}
use rlibc.Common.Int.{
  ℤ, pos, pos_part, neg_part, ltb_ℤ, leb_ℤ, ◌+ℤ◌, ◌-ℤ◌, scale, tdiv, trem, eqb_ℤ,
}

abbrev pub days_per_400_years : ℕ
days_per_400_years = 146097

pub record Date : Type 0 where
  pub year : ℤ
  pub month : ℕ
  pub day : ℕ

unfoldable pub is_leap_year : ℤ → Bool
is_leap_year year =
    eqb_ℤ (trem year 4) (pos 0) && not (eqb_ℤ (trem year 100) (pos 0))
    || eqb_ℤ (trem year 400) (pos 0)

-- `shifted_days` and `adjusted_year` are brought to their era by a division that rounds down.
unfoldable pub era_of_days : ℤ → ℤ
era_of_days shifted_days =
    tdiv
      (if leb_ℤ (pos 0) shifted_days
        then shifted_days
        else shifted_days -ℤ pos (days_per_400_years - 1))
      days_per_400_years

unfoldable pub era_of_year : ℤ → ℤ
era_of_year adjusted_year =
    tdiv (if leb_ℤ (pos 0) adjusted_year then adjusted_year else adjusted_year -ℤ pos 399) 400

unfoldable pub year_of_day : ℕ → ℕ
year_of_day day_of_era =
    (day_of_era - day_of_era / 1460 + day_of_era / 36524 - day_of_era / 146096) / 365

-- The days of the era before a year of it.
unfoldable pub days_before : ℕ → ℕ
days_before year_of_era = 365 * year_of_era + year_of_era / 4 - year_of_era / 100

-- The month, from March on, of a day of the year that begins in March.
unfoldable pub phase_of_day : ℕ → ℕ
phase_of_day day_of_year = (5 * day_of_year + 2) / 153

unfoldable pub days_before_phase : ℕ → ℕ
days_before_phase month_phase = (153 * month_phase + 2) / 5

abbrev pub month_of_phase : ℕ → ℕ
month_of_phase month_phase = if ltb month_phase 10 then month_phase + 3 else month_phase - 9

abbrev pub phase_of_month : ℕ → ℕ
phase_of_month month = if ltb 2 month then month - 3 else month + 9

-- `day_of_era` is not negative (`Days.era_of_days_lem`), so `pos_part` is its value.
unfoldable pub civil_from_days : ℤ → Date
civil_from_days days_since_epoch =
    let shifted_days = days_since_epoch +ℤ pos 719468 in
    let era = era_of_days shifted_days in
    let day_of_era = pos_part (shifted_days -ℤ scale era days_per_400_years) in
    let year_of_era = year_of_day day_of_era in
    let day_of_year = day_of_era - days_before year_of_era in
    let month_phase = phase_of_day day_of_year in
    let month = month_of_phase month_phase in
    record {
      year = pos year_of_era +ℤ scale era 400 +ℤ pos (if leb month 2 then 1 else 0);
      month = month;
      day = day_of_year - days_before_phase month_phase + 1;
    }

-- The callers give a month from 1 to 12 and a day from 1 on.
unfoldable pub days_from_civil : Date → ℤ
days_from_civil date =
    let adjusted_year = date.year -ℤ pos (if leb date.month 2 then 1 else 0) in
    let era = era_of_year adjusted_year in
    let year_of_era = pos_part (adjusted_year -ℤ scale era 400) in
    let day_of_year = days_before_phase (phase_of_month date.month) + date.day - 1 in
    let day_of_era = days_before year_of_era + day_of_year in
    scale era days_per_400_years +ℤ pos day_of_era -ℤ pos 719468
