-- ===== src/Time/Civil/Tomorrow.antt =====
-- src/time.rs: `civil_from_days` follows the calendar day by day.
use rlibc.Common.{
  ℕ, ◌+◌, ◌≡◌, ◌<◌, ltb, if◌then◌else◌, arith, refl, ap, sym, ◌∙◌, Bool-cases, inl, inr,
}
use rlibc.Common.Int.{ℤ, pos, ◌+ℤ◌, ◌-ℤ◌, scale, tdiv, int_laws}
use rlibc.Time.Civil.{
  Date, era_of_days, year_of_day, phase_of_day, days_before, days_before_phase, civil_from_days,
  days_from_civil,
}
use rlibc.Time.Civil.Era.{year_length, days_before-suc, phase_length}
use rlibc.Time.Civil.Days.{date_at, day_at, days_from_civil_at, days_from_civil-civil_from_days}
use rlibc.Time.Civil.Valid.{
  month_length, IsValid, month_length_at, located, civil_from_days-IsValid,
  civil_from_days-days_from_civil,
}

-- The next date of the calendar.
abbrev pub tomorrow : Date → Date
tomorrow t =
    if ltb t.day (month_length t.year t.month)
    then record t { day = t.day + 1 }
    else if ltb t.month 12
    then record t { month = t.month + 1; day = 1 }
    else record { year = t.year +ℤ pos 1; month = 1; day = 1 }

-- The next day of an era, its years beginning in March.
abbrev next_at : ℤ → ℕ → ℕ → ℕ → Date
next_at e y m d =
    if ltb (d + 1) (phase_length y m)
    then date_at e y m (d + 1)
    else if ltb m 11
    then date_at e y (m + 1) 0
    else if ltb y 399
    then date_at e (y + 1) 0 0
    else date_at (e +ℤ pos 1) 0 0 0

new_year : (a : ℤ) (y : ℕ) → pos y +ℤ a +ℤ pos 0 +ℤ pos 1 ≡ pos y +ℤ a +ℤ pos 1
new_year a y = omega int_laws

new_march : (a : ℤ) (y : ℕ) → pos y +ℤ a +ℤ pos 1 ≡ pos (y + 1) +ℤ a +ℤ pos 0
new_march a y = omega int_laws

new_era : (e : ℤ) → pos 399 +ℤ scale e 400 +ℤ pos 1 ≡ pos 0 +ℤ scale (e +ℤ pos 1) 400 +ℤ pos 0
unfolding scale ◌+ℤ◌
new_era e = ground arith

tomorrow_at :
    (e : ℤ) (y m d : ℕ)
    → y < 400
    → m < 12
    → d < phase_length y m
    → tomorrow (date_at e y m d) ≡ next_at e y m d
tomorrow_at e y m d hy hm hd =
    rw (month_length_at e y m d hy hm)
      (ground (arith, new_year (scale e 400) y, new_march (scale e 400) y, new_era e))

phase_step : (m y : ℕ) → m < 11 → days_before_phase (m + 1) ≡ days_before_phase m + phase_length y m
unfolding days_before_phase
phase_step m y h = ground arith

last_phase : (y : ℕ) → days_before_phase 11 + phase_length y 11 ≡ year_length y
unfolding days_before_phase
last_phase y = ground arith

era_step : (e : ℤ) (n : ℕ) → n + 1 ≡ 146097 → day_at (e +ℤ pos 1) 0 ≡ day_at e n +ℤ pos 1
unfolding scale ◌+ℤ◌ ◌-ℤ◌
era_step e n h = ground arith

day_step : (e : ℤ) (n m : ℕ) → m ≡ n + 1 → day_at e m ≡ day_at e n +ℤ pos 1
day_step e n m h = omega int_laws

first_days : (days_before 0 ≡ 0) × (days_before_phase 0 ≡ 0) × (days_before 399 ≡ 145731)
unfolding days_before days_before_phase
first_days = (refl, refl, refl)

-- The four ways to the next day.
next_at_day :
    (e : ℤ) (y m d : ℕ)
    → y < 400
    → m < 12
    → d < phase_length y m
    → days_from_civil (next_at e y m d)
      ≡ day_at e (days_before y + (days_before_phase m + d)) +ℤ pos 1
next_at_day e y m d hy hm hd = elim (Bool-cases (ltb (d + 1) (phase_length y m))) [
  | inl t ↦ rw t (days_from_civil_at e y m (d + 1) hy hm ∙ day_step e _ _ (omega arith))
  | inr t ↦ elim (Bool-cases (ltb m 11)) [
    | inl u ↦
        rw (t, u)
          (days_from_civil_at e y (m + 1) 0 hy (ground arith)
            ∙ day_step e _ _ (ground (arith, phase_step m y)))
    | inr u ↦ elim (Bool-cases (ltb y 399)) [
      | inl w ↦
          rw (t, u, w)
            (days_from_civil_at e (y + 1) 0 0 (ground arith) (omega arith)
              ∙ day_step e _ _ (ground (arith, last_phase y, days_before-suc y, first_days)))
      | inr w ↦
          rw (t, u, w)
            (days_from_civil_at (e +ℤ pos 1) 0 0 0 (omega arith) (omega arith)
              ∙ ap (day_at (e +ℤ pos 1)) (omega (arith, first_days))
              ∙ era_step e _ (ground (arith, last_phase y, first_days)))
    ]
  ]
]

tomorrow-IsValid : (t : Date) → IsValid t → IsValid (tomorrow t)
tomorrow-IsValid t v = record { month_in = ground arith; day_in = ground arith }

pub days_from_civil-tomorrow :
    (t : Date) → IsValid t → days_from_civil (tomorrow t) ≡ days_from_civil t +ℤ pos 1
days_from_civil-tomorrow t v =
    let r = located t v in
    rw r.is_date (
      ap days_from_civil
        (tomorrow_at r.era r.year r.phase r.day r.year_small r.phase_small r.day_small)
      ∙ next_at_day r.era r.year r.phase r.day r.year_small r.phase_small r.day_small
      ∙ ap (λ z. z +ℤ pos 1)
          (sym (days_from_civil_at r.era r.year r.phase r.day r.year_small r.phase_small)))

civil_from_days-suc : (d : ℤ) → civil_from_days (d +ℤ pos 1) ≡ tomorrow (civil_from_days d)
civil_from_days-suc d =
    let v = civil_from_days-IsValid d in
    ap civil_from_days (
      ap (λ z. z +ℤ pos 1) (sym (days_from_civil-civil_from_days d))
      ∙ sym (days_from_civil-tomorrow (civil_from_days d) v))
    ∙ civil_from_days-days_from_civil (tomorrow (civil_from_days d)) (tomorrow-IsValid _ v)

-- Day 0 is 1970-01-01, and the next day is the next date of the calendar: this fixes the date of
-- every day.
pub civil_from_days_calendar :
    (civil_from_days (pos 0) ≡ record { year = pos 1970; month = 1; day = 1 })
    × ((d : ℤ) → civil_from_days (d +ℤ pos 1) ≡ tomorrow (civil_from_days d))
unfolding civil_from_days era_of_days scale tdiv year_of_day days_before phase_of_day
    days_before_phase ◌+ℤ◌ ◌-ℤ◌
civil_from_days_calendar = (refl, civil_from_days-suc)
