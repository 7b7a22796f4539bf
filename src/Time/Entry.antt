-- ===== src/Time/Entry.antt =====
-- src/time.rs: the entry points `gmtime_r`, `gmtime`, `localtime_r`, `localtime`, `timegm` and
-- `mktime`. A pointer is null (`none`) or has the contents of what it points at.
use rlibc.Common.{ℕ, Bool, true, false, Option, none, some}
use rlibc.Common.Int.{ℤ, negsuc}
use rlibc.Errno.{einval, erange}
use rlibc.Time.Tm.{
  Tm, c_long_try_from, tm_from_unix_seconds, normalized_tm_to_unix_seconds,
  normalized_tm_to_unix_seconds_for_mktime,
}

-- What a conversion to broken-down time leaves: whether it returned the pointer to its result (and not
-- null), what the result's storage holds after the call, and `errno`.
pub record Filled : Type 0 where
  pub returned : Bool
  pub storage : Option Tm
  pub errno : ℕ

-- What a conversion to seconds leaves: the seconds, the fields after the call, and `errno`.
pub record Counted : Type 0 where
  pub seconds : ℤ
  pub time_parts : Option Tm
  pub errno : ℕ

unfoldable pub gmtime_r : Option ℤ → Option Tm → ℕ → Filled
gmtime_r none result errno = record { returned = false; storage = result; errno = einval }
gmtime_r (some timer) none errno = record { returned = false; storage = none; errno = einval }
gmtime_r (some timer) (some old) errno = elim (tm_from_unix_seconds timer) [
  | none ↦ record { returned = false; storage = some old; errno = erange }
  | some converted ↦ record { returned = true; storage = some converted; errno = errno }
]

-- `gmtime` and `localtime` share the per-thread `GMTIME_STORAGE`, whose contents are passed here.
unfoldable pub gmtime : Option ℤ → Tm → ℕ → Filled
gmtime none gmtime_storage errno = record {
  returned = false;
  storage = some gmtime_storage;
  errno = einval;
}
gmtime (some timer) gmtime_storage errno = gmtime_r (some timer) (some gmtime_storage) errno

unfoldable pub localtime_r : Option ℤ → Option Tm → ℕ → Filled
localtime_r timer result errno = gmtime_r timer result errno

unfoldable pub localtime : Option ℤ → Tm → ℕ → Filled
localtime none gmtime_storage errno = record {
  returned = false;
  storage = some gmtime_storage;
  errno = einval;
}
localtime (some timer) gmtime_storage errno = localtime_r (some timer) (some gmtime_storage) errno

unfoldable pub timegm : Option Tm → ℕ → Counted
timegm none errno = record { seconds = negsuc 0; time_parts = none; errno = einval }
timegm (some input) errno =
    let seconds = normalized_tm_to_unix_seconds input in
    elim (c_long_try_from seconds) [
      | none ↦ record { seconds = negsuc 0; time_parts = some input; errno = erange }
      | some output_seconds ↦ elim (tm_from_unix_seconds seconds) [
        | none ↦ record { seconds = negsuc 0; time_parts = some input; errno = erange }
        | some normalized ↦ record {
          seconds = output_seconds;
          time_parts = some normalized;
          errno = errno;
        }
      ]
    ]

unfoldable pub mktime : Option Tm → ℕ → Counted
mktime none errno = record { seconds = negsuc 0; time_parts = none; errno = einval }
mktime (some input) errno =
    let seconds = normalized_tm_to_unix_seconds_for_mktime input in
    elim (c_long_try_from seconds) [
      | none ↦ record { seconds = negsuc 0; time_parts = some input; errno = erange }
      | some output_seconds ↦ elim (tm_from_unix_seconds seconds) [
        | none ↦ record { seconds = negsuc 0; time_parts = some input; errno = erange }
        | some normalized ↦ record {
          seconds = output_seconds;
          time_parts = some normalized;
          errno = errno;
        }
      ]
    ]
