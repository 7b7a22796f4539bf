-- ===== src/Time/Civil/Days.antt =====
-- src/time.rs: `civil_from_days` and `days_from_civil` undo each other, over all days and all dates.
use rlibc.Common.{ℕ, ◌+◌, ◌-◌, ◌≡◌, ◌<◌, leb, if◌then◌else◌, arith, ap, sym, ◌∙◌}
use rlibc.Common.Int.{ℤ, pos, negsuc, pos_part, ◌+ℤ◌, ◌-ℤ◌, scale, tdiv, int_laws}
use rlibc.Time.Civil.{
  Date, era_of_days, era_of_year, year_of_day, days_before, phase_of_day, days_before_phase,
  month_of_phase, phase_of_month, civil_from_days, days_from_civil,
}
use rlibc.Time.Civil.Era.{year_of_day_lem, phase_of_day_lem}

-- The era of a day, and the day within it, which is not negative.
pub era_of_days_lem :
    (s : ℤ)
    → (s ≡ scale (era_of_days s) 146097 +ℤ pos (pos_part (s -ℤ scale (era_of_days s) 146097)))
      × (pos_part (s -ℤ scale (era_of_days s) 146097) < 146097)
unfolding era_of_days scale tdiv ◌+ℤ◌ ◌-ℤ◌
era_of_days_lem (pos n) = ground arith
era_of_days_lem (negsuc n) = ground arith

pub era_of_year_lem :
    (y : ℤ)
    → (y ≡ scale (era_of_year y) 400 +ℤ pos (pos_part (y -ℤ scale (era_of_year y) 400)))
      × (pos_part (y -ℤ scale (era_of_year y) 400) < 400)
unfolding era_of_year scale tdiv ◌+ℤ◌ ◌-ℤ◌
era_of_year_lem (pos n) = ground arith
era_of_year_lem (negsuc n) = ground arith

-- An era and a day within it are found again from their sum.
pub era_of_days_unique : (e : ℤ) (d : ℕ) → d < 146097 → era_of_days (scale e 146097 +ℤ pos d) ≡ e
unfolding era_of_days scale tdiv ◌+ℤ◌ ◌-ℤ◌
era_of_days_unique (pos n) d h = ground arith
era_of_days_unique (negsuc n) d h = ground arith

pub era_of_year_unique : (e : ℤ) (y : ℕ) → y < 400 → era_of_year (scale e 400 +ℤ pos y) ≡ e
unfolding era_of_year scale tdiv ◌+ℤ◌ ◌-ℤ◌
era_of_year_unique (pos n) y h = ground arith
era_of_year_unique (negsuc n) y h = ground arith

-- The date of day `d` (from 0) of month `m` of year `y` of era `e`, years beginning in March.
abbrev pub date_at : ℤ → ℕ → ℕ → ℕ → Date
date_at e y m d = record {
  year = pos y +ℤ scale e 400 +ℤ pos (if leb (month_of_phase m) 2 then 1 else 0);
  month = month_of_phase m;
  day = d + 1;
}

-- The number of day `doe` (from 0) of era `e`.
abbrev pub day_at : ℤ → ℕ → ℤ
day_at e doe = scale e 146097 +ℤ pos doe -ℤ pos 719468

back_and_forth : (a b : ℤ) → a -ℤ b +ℤ b ≡ a
back_and_forth a b = omega int_laws

forth_and_back : (a b : ℤ) → a +ℤ b -ℤ b ≡ a
forth_and_back a b = omega int_laws

front_taken : (a : ℤ) (n : ℕ) → pos_part (a +ℤ pos n -ℤ a) ≡ n
front_taken a n = ap pos_part (cancel a n)
  where
    cancel : (a : ℤ) (n : ℕ) → a +ℤ pos n -ℤ a ≡ pos n
    cancel a n = omega int_laws

adjusted_lem : (a : ℤ) (y k : ℕ) → pos y +ℤ a +ℤ pos k -ℤ pos k ≡ a +ℤ pos y
adjusted_lem a y k = omega int_laws

phase_of_month_lem : (m : ℕ) → m < 12 → phase_of_month (month_of_phase m) ≡ m
phase_of_month_lem m h = ground arith

pub days_from_civil_at :
    (e : ℤ) (y m d : ℕ)
    → y < 400
    → m < 12
    → days_from_civil (date_at e y m d) ≡ day_at e (days_before y + (days_before_phase m + d))
unfolding days_from_civil
days_from_civil_at e y m d hy hm =
    rw
      (
        adjusted_lem (scale e 400) y (if leb (month_of_phase m) 2 then 1 else 0),
        era_of_year_unique e y hy,
        front_taken (scale e 400) y,
        phase_of_month_lem m hm,
      )
      (ap (λ k. day_at e (days_before y + k)) (omega arith))

pub civil_from_days_at :
    (e : ℤ) (doe : ℕ)
    → doe < 146097
    → civil_from_days (day_at e doe) ≡ (
        let y = year_of_day doe in
        let doy = doe - days_before y in
        let m = phase_of_day doy in date_at e y m (doy - days_before_phase m))
unfolding civil_from_days
civil_from_days_at e doe h = rw (
  back_and_forth (scale e 146097 +ℤ pos doe) (pos 719468),
  era_of_days_unique e doe h,
  front_taken (scale e 146097) doe,
)

-- Every day is the one at its era and place.
pub day_at_lem : (d : ℤ) → (e : ℤ) × (doe : ℕ) × (doe < 146097) × (d ≡ day_at e doe)
day_at_lem d =
    let s = d +ℤ pos 719468 in
    let (split, bound) = era_of_days_lem s in
    (
      era_of_days s,
      pos_part (s -ℤ scale (era_of_days s) 146097),
      bound,
      sym (forth_and_back d (pos 719468)) ∙ ap (λ z. z -ℤ pos 719468) split,
    )

-- Turning a day into a date and back gives the day, for every day.
pub days_from_civil-civil_from_days : (d : ℤ) → days_from_civil (civil_from_days d) ≡ d
days_from_civil-civil_from_days d =
    let (e, doe, h, is_day) = day_at_lem d in
    let y = year_of_day doe in
    let doy = doe - days_before y in
    let (y_small, y_before, y_after) = year_of_day_lem doe h in
    let (m_small, m_before, m_after) = phase_of_day_lem y doy y_after in
    rw is_day (
      rw (civil_from_days_at e doe h) (
        days_from_civil_at e y (phase_of_day doy) (doy - days_before_phase (phase_of_day doy))
          y_small m_small
        ∙ ap (day_at e) (omega (arith, y_before, m_before))))
