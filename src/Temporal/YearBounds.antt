-- ===== src/Temporal/YearBounds.antt =====
-- Away from the ends of `int32_t` the loops of `normalize_to_utc` do not overflow.
use xb.Common.{ℕ, ◌+◌, ◌≤◌, ◌≡◌, arith}
use xb.Common.Int.{ℤ, pos, negsuc, pos_part, neg_part, nat_abs, ◌≤ℤ◌}
use xb.Common.Result.{ok}
use xb.Temporal.Calendar.{
  is_leap, is_leap_year, month_days, UtcNormalized, checked_year, total_minutes, normalize_to_utc,
}
use xb.Temporal.Settle.{calendar_leap, calendar_days}
use xb.Temporal.Instant.{IsMonth}
use xb.Temporal.Utc.{minutes_at, IsUtc, utc_minutes}

is_leap_year-calendar_leap : (y : ℤ) → is_leap_year y ≡ calendar_leap y
unfolding is_leap_year is_leap calendar_leap
is_leap_year-calendar_leap (pos n) = ground arith
is_leap_year-calendar_leap (negsuc n) = ground arith

-- The table of the code has the lengths of the months.
pub month_days-calendar_days : (y : ℤ) (mo : ℕ) → month_days y mo ≡ calendar_days y mo
unfolding month_days calendar_days
month_days-calendar_days y mo = rw (is_leap_year-calendar_leap y) (ground arith)

abbrev FitsYear : ℤ → Type 0
FitsYear y = (negsuc 2147483647 ≤ℤ y) × (y ≤ℤ pos 2147483647)

pub checked_year-ok : (y : ℤ) → FitsYear y → checked_year y ≡ ok y
unfolding checked_year
checked_year-ok y h = ground arith

pub nat_abs-parts : (z : ℤ) → nat_abs z ≡ pos_part z + neg_part z
nat_abs-parts (pos n) = omega arith
nat_abs-parts (negsuc n) = omega arith

-- What the arguments of `normalize_to_utc` may be: a month, fields of a `uint8_t`, an offset of an
-- `int16_t`, and a year that is not within 647 of the ends of `int32_t`.
pub record IsInRange (year : ℤ) (month day hour minute : ℕ) (tz_offset : ℤ) : Type 0 where
  pub far_from_ends : nat_abs year ≤ 2147483000
  pub is_month : IsMonth month
  pub day_fits : day ≤ 255
  pub hour_fits : hour ≤ 255
  pub minute_fits : minute ≤ 255
  pub offset_fits : nat_abs tz_offset ≤ 32768

-- What `normalize_to_utc` returns.
abbrev pub ReturnsUtc : ℤ → (month day hour minute second nanosecond : ℕ) → ℤ → Type 0
ReturnsUtc year month day hour minute second nanosecond tz_offset =
    (n : UtcNormalized) × (normalize_to_utc year month day hour minute second nanosecond tz_offset
      ≡ ok n)
    × IsUtc n
    × (n.second ≡ second)
    × (n.nanosecond ≡ nanosecond)
    × (utc_minutes n
        ≡ minutes_at (record { y = year; mo = month; d = pos day })
            (total_minutes hour minute tz_offset))
