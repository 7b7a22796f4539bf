-- ===== src/Time/Civil/Valid.antt =====
-- src/time.rs: the dates of the proleptic Gregorian calendar, which `civil_from_days` yields and
-- `days_from_civil` takes back.
use rlibc.Common.{ℕ, ◌+◌, ◌-◌, ◌≡◌, ◌≤◌, ◌<◌, ◌||◌, ◌==◌, leb, if◌then◌else◌, arith, ap, sym, ◌∙◌}
use rlibc.Common.Int.{ℤ, pos, negsuc, pos_part, neg_part, ◌+ℤ◌, ◌-ℤ◌, scale, trem, int_laws}
use rlibc.Time.Civil.{
  Date, is_leap_year, era_of_year, year_of_day, days_before, phase_of_day, days_before_phase,
  month_of_phase, phase_of_month, civil_from_days, days_from_civil,
}
use rlibc.Time.Civil.Era.{
  ends_leap, year_length, day_of_era-lt, year_of_day_lem, year_of_day_unique, phase_length,
  phase_of_day_lem, phase_of_day_unique,
}
use rlibc.Time.Civil.Days.{
  date_at, day_at_lem, civil_from_days_at, days_from_civil_at, era_of_year_lem,
}

abbrev pub month_length : ℤ → ℕ → ℕ
month_length year month =
    if month == 2
    then (if is_leap_year year then 29 else 28)
    else if (month == 4) || (month == 6) || (month == 9) || (month == 11)
    then 30
    else 31

pub record IsValid (t : Date) : Type 0 where
  pub month_in : (1 ≤ t.month) × (t.month ≤ 12)
  pub day_in : (1 ≤ t.day) × (t.day ≤ month_length t.year t.month)

-- The leap rule, read within an era.
ends_leap_lem :
    (e : ℤ) (y : ℕ) → y < 400 → is_leap_year (pos y +ℤ scale e 400 +ℤ pos 1) ≡ ends_leap y
unfolding is_leap_year trem scale ◌+ℤ◌
ends_leap_lem (pos n) y h = ground arith
ends_leap_lem (negsuc n) y h = ground arith

pub month_length_at :
    (e : ℤ) (y m d : ℕ)
    → y < 400
    → m < 12
    → month_length (date_at e y m d).year (month_of_phase m) ≡ phase_length y m
month_length_at e y m d hy hm = ground (arith, ends_leap_lem e y hy)

-- `civil_from_days` yields a date of the calendar, whatever the day.
pub civil_from_days-IsValid : (d : ℤ) → IsValid (civil_from_days d)
civil_from_days-IsValid d =
    let (e, doe, h, is_day) = day_at_lem d in
    let y = year_of_day doe in
    let doy = doe - days_before y in
    let (y_small, y_before, y_after) = year_of_day_lem doe h in
    let (m_small, m_before, m_after) = phase_of_day_lem y doy y_after in
    rw is_day (
      rw (civil_from_days_at e doe h) (record {
        month_in = ground arith;
        day_in = rw (month_length_at e y (phase_of_day doy) 0 y_small m_small) (omega arith);
      }))

phase_round :
    (m : ℕ) → 1 ≤ m → m ≤ 12 → (month_of_phase (phase_of_month m) ≡ m) × (phase_of_month m < 12)
phase_round m lo hi = ground arith

-- A date of the calendar by its era.
pub record Located (t : Date) : Type 0 where
  pub era : ℤ
  pub year : ℕ
  pub phase : ℕ
  pub day : ℕ
  pub year_small : year < 400
  pub phase_small : phase < 12
  pub day_small : day < phase_length year phase
  pub is_date : t ≡ date_at era year phase day

year_split : (z : ℤ) (k : ℕ) (e : ℤ) (y : ℕ) → z -ℤ pos k ≡ e +ℤ pos y → z ≡ pos y +ℤ e +ℤ pos k
year_split z k e y h = omega (int_laws, ap pos_part h, ap neg_part h)

pub located : (t : Date) → IsValid t → Located t
located t v = record {
  era = e;
  year = y;
  phase = m;
  day = t.day - 1;
  year_small = y_small;
  phase_small = m_small;
  day_small = rw (← length_is) (rw (← date_is) (rw round (omega (arith, v.day_in))));
  is_date = λ i. record { year = date_is i; month = sym round i; day = day_is i };
}
  where
    k : ℕ
    k = if leb t.month 2 then 1 else 0

    e : ℤ
    e = era_of_year (t.year -ℤ pos k)

    y : ℕ
    y = pos_part (t.year -ℤ pos k -ℤ scale e 400)

    m : ℕ
    m = phase_of_month t.month

    y_small : y < 400
    y_small = (era_of_year_lem (t.year -ℤ pos k)).1

    m_small : m < 12
    m_small = (phase_round t.month v.month_in.0 v.month_in.1).1

    round : month_of_phase m ≡ t.month
    round = (phase_round t.month v.month_in.0 v.month_in.1).0

    date_is : t.year ≡ (date_at e y m 0).year
    date_is = rw round (year_split t.year k (scale e 400) y (era_of_year_lem (t.year -ℤ pos k)).0)

    day_is : t.day ≡ t.day - 1 + 1
    day_is = omega (arith, v.day_in)

    length_is : month_length (date_at e y m 0).year (month_of_phase m) ≡ phase_length y m
    length_is = month_length_at e y m 0 y_small m_small

sub_front : (a b : ℕ) → a + b - a ≡ b
sub_front a b = omega arith

found_again :
    (e : ℤ) (y m d : ℕ)
    → y < 400
    → days_before_phase m + d < year_length y
    → phase_of_day (days_before_phase m + d) ≡ m
    → (let doe = days_before y + (days_before_phase m + d) in
        let doy = doe - days_before (year_of_day doe) in
        date_at e (year_of_day doe) (phase_of_day doy) (doy - days_before_phase (phase_of_day doy)))
      ≡ date_at e y m d
found_again e y m d hy fits found = rw (
  year_of_day_unique y (days_before_phase m + d) hy fits,
  sub_front (days_before y) (days_before_phase m + d),
  found,
  sub_front (days_before_phase m) d,
)

-- Turning a date of the calendar into a day and back gives the date.
pub civil_from_days-days_from_civil :
    (t : Date) → IsValid t → civil_from_days (days_from_civil t) ≡ t
civil_from_days-days_from_civil t v =
    let r = located t v in
    let (m_found, fits) = phase_of_day_unique r.year r.phase r.day r.phase_small r.day_small in
    rw r.is_date (
      rw (days_from_civil_at r.era r.year r.phase r.day r.year_small r.phase_small) (
        civil_from_days_at r.era _ (day_of_era-lt r.year _ r.year_small fits)
        ∙ found_again r.era r.year r.phase r.day r.year_small fits m_found))
