-- ===== src/Time/Civil/Era.antt =====
-- src/time.rs: the arithmetic of `civil_from_days` and `days_from_civil` within an era of 400 years,
-- whose years begin in March.
use rlibc.Common.{
  ℕ, ◌+◌, ◌-◌, ◌%◌, ◌≡◌, ◌≤◌, ◌<◌, Bool, ◌&&◌, ◌||◌, not, ◌==◌, if◌then◌else◌, arith,
}
use rlibc.Time.Civil.{year_of_day, days_before, phase_of_day, days_before_phase}

-- Whether the year that begins in March of year `y` of the era ends with a leap day.
abbrev pub ends_leap : ℕ → Bool
ends_leap y = ((y + 1) % 4 == 0) && not ((y + 1) % 100 == 0) || (y + 1) % 400 == 0

abbrev pub year_length : ℕ → ℕ
year_length y = if ends_leap y then 366 else 365

-- `days_before` counts the days of the years before, in whole.
pub days_before-suc : (y : ℕ) → y < 399 → days_before (y + 1) ≡ days_before y + year_length y
unfolding days_before
days_before-suc y h = ground arith

-- A day of the era lies in the year that `year_of_day` names.
pub year_of_day_lem :
    (doe : ℕ)
    → doe < 146097
    → (year_of_day doe < 400)
      × (days_before (year_of_day doe) ≤ doe)
      × (doe - days_before (year_of_day doe) < year_length (year_of_day doe))
unfolding days_before year_of_day
year_of_day_lem doe h = ground arith

-- And it is the only one.
pub year_of_day_unique :
    (y doy : ℕ) → y < 400 → doy < year_length y → year_of_day (days_before y + doy) ≡ y
unfolding days_before year_of_day
year_of_day_unique y doy hy hd = ground arith

-- The last day of the era's last year is the last of the era.
pub day_of_era-lt : (y doy : ℕ) → y < 400 → doy < year_length y → days_before y + doy < 146097
unfolding days_before
day_of_era-lt y doy hy hd = ground arith

abbrev pub phase_length : ℕ → ℕ → ℕ
phase_length y m =
    if m == 11
    then (if ends_leap y then 29 else 28)
    else if (m == 1) || (m == 3) || (m == 6) || (m == 8)
    then 30
    else 31

-- A day of the year lies in the month that `phase_of_day` names.
pub phase_of_day_lem :
    (y doy : ℕ)
    → doy < year_length y
    → (phase_of_day doy < 12)
      × (days_before_phase (phase_of_day doy) ≤ doy)
      × (doy - days_before_phase (phase_of_day doy) < phase_length y (phase_of_day doy))
unfolding phase_of_day days_before_phase
phase_of_day_lem y doy h = ground arith

pub phase_of_day_unique :
    (y m d : ℕ)
    → m < 12
    → d < phase_length y m
    → (phase_of_day (days_before_phase m + d) ≡ m) × (days_before_phase m + d < year_length y)
unfolding phase_of_day days_before_phase
phase_of_day_unique y m d hm hd = ground arith
