-- ===== src/Time/Promise.antt =====
-- src/time.rs: what the time entry points promise, errors included.
use rlibc.Common.{
  ℕ, ◌-◌, ◌^◌, ◌≡◌, Bool, true, false, ◌&&◌, if◌then◌else◌, Option, none, some, refl, ap, ◌∙◌,
  arith, Bool-cases, inl, inr,
}
use rlibc.Common.Int.{ℤ, pos, negsuc, minus, within_ℤ, ltb_ℤ, ◌+ℤ◌, ◌-ℤ◌, scale, int_laws}
use rlibc.Errno.{erange}
use rlibc.Time.Tm.{
  Tm, c_long_try_from, tm_from_unix_seconds, normalized_tm_to_unix_seconds,
  normalized_tm_to_unix_seconds_for_mktime,
}
use rlibc.Time.Instant.{
  year_fits, broken_down, tm_from_unix_seconds_lem, normalized_tm_to_unix_seconds_lem,
  normalized-broken_down, first_of_month, clock_seconds,
}
use rlibc.Time.Entry.{Filled, Counted, gmtime_r, timegm, mktime}

-- The values of `time_t`.
abbrev pub fits_time : ℤ → Bool
fits_time s = within_ℤ (minus (2 ^ 63)) (pos (2 ^ 63 - 1)) s

-- The answer of `timegm` and of `mktime` to fields that stand for the instant `s`: the fields are
-- normalized, or with ERANGE left as they were.
abbrev pub counted : ℤ → Tm → ℕ → Counted
counted s input errno =
    if fits_time s && year_fits s
    then record { seconds = s; time_parts = some (broken_down s); errno = errno }
    else record { seconds = negsuc 0; time_parts = some input; errno = erange }

abbrev answer : Option ℤ → Option Tm → Tm → ℕ → Counted
answer none n input errno = record { seconds = negsuc 0; time_parts = some input; errno = erange }
answer (some s) none input errno = record {
  seconds = negsuc 0;
  time_parts = some input;
  errno = erange;
}
answer (some s) (some t) input errno = record { seconds = s; time_parts = some t; errno = errno }

answer_lem :
    (a b : Bool) (s : ℤ) (n t : Tm) (e : ℕ)
    → answer (if a then some s else none) (if b then some n else none) t e ≡ (
        if a && b
        then record { seconds = s; time_parts = some n; errno = e }
        else record { seconds = negsuc 0; time_parts = some t; errno = erange })
answer_lem true true s n t e = refl
answer_lem true false s n t e = refl
answer_lem false true s n t e = refl
answer_lem false false s n t e = refl

answer-counted :
    (s : ℤ) (t : Tm) (e : ℕ)
    → answer (c_long_try_from s) (tm_from_unix_seconds s) t e ≡ counted s t e
unfolding c_long_try_from
answer-counted s t e =
    ap (λ n. answer (c_long_try_from s) n t e) (tm_from_unix_seconds_lem s)
    ∙ answer_lem (fits_time s) (year_fits s) s (broken_down s) t e

by_answer :
    (o : Option ℤ) (n : Option Tm) (t : Tm) (e : ℕ)
    → elim o [
      | none ↦ record { seconds = negsuc 0; time_parts = some t; errno = erange }
      | some s ↦ elim n [
        | none ↦ record { seconds = negsuc 0; time_parts = some t; errno = erange }
        | some m ↦ record { seconds = s; time_parts = some m; errno = e }
      ]
    ]
      ≡ answer o n t e
by_answer none n t e = refl
by_answer (some s) none t e = refl
by_answer (some s) (some m) t e = refl

timegm_lem : (t : Tm) (e : ℕ) → timegm (some t) e ≡ counted (normalized_tm_to_unix_seconds t) t e
unfolding timegm
timegm_lem t e =
    let s = normalized_tm_to_unix_seconds t in
    by_answer (c_long_try_from s) (tm_from_unix_seconds s) t e ∙ answer-counted s t e

mktime_lem :
    (t : Tm) (e : ℕ) → mktime (some t) e ≡ counted (normalized_tm_to_unix_seconds_for_mktime t) t e
unfolding mktime
mktime_lem t e =
    let s = normalized_tm_to_unix_seconds_for_mktime t in
    by_answer (c_long_try_from s) (tm_from_unix_seconds s) t e ∙ answer-counted s t e

abbrev filled : Tm → ℕ → Option Tm → Filled
filled old e n = elim n [
  | none ↦ record { returned = false; storage = some old; errno = erange }
  | some t ↦ record { returned = true; storage = some t; errno = e }
]

filled_lem :
    (old : Tm) (e : ℕ) (b : Bool) (s : ℤ)
    → filled old e (if b then some (broken_down s) else none) ≡ (
        if b
        then record { returned = true; storage = some (broken_down s); errno = e }
        else record { returned = false; storage = some old; errno = erange })
filled_lem old e true s = refl
filled_lem old e false s = refl

gmtime_r_lem :
    (s : ℤ) (old : Tm) (e : ℕ)
    → gmtime_r (some s) (some old) e ≡ (
        if year_fits s
        then record { returned = true; storage = some (broken_down s); errno = e }
        else record { returned = false; storage = some old; errno = erange })
unfolding gmtime_r
gmtime_r_lem s old e =
    ap (filled old e) (tm_from_unix_seconds_lem s) ∙ filled_lem old e (year_fits s) s

-- For an instant that `time_t` holds and whose year `tm_year` holds, `gmtime_r` succeeds and
-- leaves `errno`, and `timegm` of what it stored returns the instant, leaves the fields as they
-- are and leaves `errno`.
pub gmtime_r-timegm :
    (s : ℤ) (old : Tm) (e f : ℕ)
    → fits_time s ≡ true
    → year_fits s ≡ true
    → ((gmtime_r (some s) (some old) e).returned ≡ true)
      × ((gmtime_r (some s) (some old) e).errno ≡ e)
      × (timegm (gmtime_r (some s) (some old) e).storage f ≡ record {
        seconds = s;
        time_parts = (gmtime_r (some s) (some old) e).storage;
        errno = f;
      })
gmtime_r-timegm s old e f h k =
    rw (gmtime_r_lem s old e, k)
      (refl, refl, timegm_lem (broken_down s) f ∙ rw (normalized-broken_down s, h, k) refl)

-- Whatever the fields, in range or not, `timegm` takes them for the first day of the month that
-- `tm_year` and `tm_mon` name, plus `tm_mday - 1` days, plus `tm_hour`, `tm_min` and `tm_sec`.
-- When `time_t` and `tm_year` hold that instant it returns the instant, stores its broken-down
-- time and leaves `errno`; when one does not it returns -1, leaves the fields and sets ERANGE.
pub timegm_counts :
    (t : Tm) (e : ℕ)
    → timegm (some t) e
      ≡ counted (scale (first_of_month t +ℤ (t.tm_mday -ℤ pos 1)) 86400 +ℤ clock_seconds t) t e
timegm_counts t e = timegm_lem t e ∙ ap (λ s. counted s t e) (normalized_tm_to_unix_seconds_lem t)

scale_hour_back : (h : ℤ) → scale (h -ℤ pos 1) 3600 ≡ scale h 3600 -ℤ pos 3600
unfolding scale ◌-ℤ◌
scale_hour_back h = ground arith

regroup_hour : (a h m s k : ℤ) → a +ℤ (h +ℤ m +ℤ s) -ℤ k ≡ a +ℤ (h -ℤ k +ℤ m +ℤ s)
regroup_hour a h m s k = omega int_laws

hour_back :
    (a h m s : ℤ)
    → a +ℤ (scale h 3600 +ℤ m +ℤ s) -ℤ pos 3600 ≡ a +ℤ (scale (h -ℤ pos 1) 3600 +ℤ m +ℤ s)
hour_back a h m s = rw (scale_hour_back h) (regroup_hour a (scale h 3600) m s (pos 3600))

-- The fields with the hour of daylight saving time taken off.
abbrev pub standard : Tm → Tm
standard t = if ltb_ℤ (pos 0) t.tm_isdst then record t { tm_hour = t.tm_hour -ℤ pos 1 } else t

mktime_seconds :
    (t : Tm)
    → normalized_tm_to_unix_seconds_for_mktime t ≡ normalized_tm_to_unix_seconds (standard t)
unfolding normalized_tm_to_unix_seconds_for_mktime
mktime_seconds t = elim (Bool-cases (ltb_ℤ (pos 0) t.tm_isdst)) [
  | inl e ↦ rw e (
      rw
        (
          normalized_tm_to_unix_seconds_lem t,
          normalized_tm_to_unix_seconds_lem (record t { tm_hour = t.tm_hour -ℤ pos 1 }),
        )
        (hour_back (scale (first_of_month t +ℤ (t.tm_mday -ℤ pos 1)) 86400) t.tm_hour
          (scale t.tm_min 60) t.tm_sec))
  | inr e ↦ rw e refl
]

counted_same :
    (s : ℤ) (t u : Tm) (e : ℕ)
    → ((counted s t e).seconds ≡ (counted s u e).seconds)
      × ((counted s t e).errno ≡ (counted s u e).errno)
counted_same s t u e = elim (Bool-cases (fits_time s && year_fits s)) [
  | inl h ↦ rw h (refl, refl)
  | inr h ↦ rw h (refl, refl)
]

-- `mktime` returns the seconds and the `errno` that `timegm` gives the same fields, one hour
-- earlier if `tm_isdst` is positive.
pub mktime-timegm :
    (t : Tm) (e : ℕ)
    → ((mktime (some t) e).seconds ≡ (timegm (some (standard t)) e).seconds)
      × ((mktime (some t) e).errno ≡ (timegm (some (standard t)) e).errno)
mktime-timegm t e =
    rw (mktime_lem t e, timegm_lem (standard t) e, mktime_seconds t)
      (counted_same (normalized_tm_to_unix_seconds (standard t)) t (standard t) e)

dst_reset : (s : ℤ) → normalized_tm_to_unix_seconds_for_mktime (broken_down s) ≡ s
dst_reset s = mktime_seconds (broken_down s) ∙ normalized-broken_down s

counted_stable :
    (t : Tm) (s : ℤ) (e f : ℕ)
    → normalized_tm_to_unix_seconds_for_mktime t ≡ s
    → (mktime (counted s t e).time_parts f).seconds ≡ (counted s t e).seconds
      × (mktime (counted s t e).time_parts f).time_parts ≡ (counted s t e).time_parts
counted_stable t s e f is = elim (Bool-cases (fits_time s && year_fits s)) [
  | inl h ↦ rw (h, mktime_lem (broken_down s) f, dst_reset s, h) (refl, refl)
  | inr h ↦ rw (h, mktime_lem t f, is, h) (refl, refl)
]

-- Normalization is stable: `mktime` of the fields that a first `mktime` left, whether it
-- succeeded or not, returns the same seconds and leaves the same fields.
pub mktime_stable :
    (t : Tm) (e f : ℕ)
    → ((mktime (mktime (some t) e).time_parts f).seconds ≡ (mktime (some t) e).seconds)
      × ((mktime (mktime (some t) e).time_parts f).time_parts ≡ (mktime (some t) e).time_parts)
mktime_stable t e f =
    rw (mktime_lem t e) (counted_stable t (normalized_tm_to_unix_seconds_for_mktime t) e f refl)
