-- ===== src/Temporal/Calendar.antt =====
-- The calendar of src/lib/xsd_time_parse.hpp: leap years, months, and the shift to UTC.
use xb.Common.{ℕ, zero, suc, ◌+◌, ◌-◌, ◌*◌, ◌%◌, Bool, not, ltb, ◌==◌, ◌&&◌, ◌||◌, if◌then◌else◌}
use xb.Common.Int.{ℤ, pos, negsuc, pos_part, neg_part, ◌+ℤ◌, ◌-ℤ◌, ◌*ℤ◌, neg_ℤ, ltb_ℤ}
use xb.Common.Casts.{u8, tdiv, tmod}
use xb.Common.Result.{Result, ok, err, invalid_argument, undefined, ◌>>=◌}

unfoldable pub is_leap : ℕ → Bool
is_leap y = y % 4 == 0 && not (y % 100 == 0) || y % 400 == 0

-- For a negative `year`, `-(year + 1)` is `n` where the year is `negsuc n`.
unfoldable pub is_leap_year : ℤ → Bool
unfolding is_leap
is_leap_year (pos y) = is_leap y
is_leap_year (negsuc n) = is_leap n

-- The table, and 29 for February of a leap year.
unfoldable pub month_days : ℤ → ℕ → ℕ
unfolding is_leap_year
month_days year month =
    if month == 2
    then if is_leap_year year then 29 else 28
    else if month == 4 || month == 6 || month == 9 || month == 11
    then 30
    else 31

unfoldable pub days_in_month : ℤ → ℕ → Result ℕ
unfolding month_days
days_in_month year month =
    if ltb month 1 || ltb 12 month then err invalid_argument else ok (month_days year month)

pub record UtcNormalized : Type 0 where
  pub year : ℤ
  pub month : ℕ
  pub day : ℕ
  pub hour : ℕ
  pub minute : ℕ
  pub second : ℕ
  pub nanosecond : ℕ

-- `h` and `m` once the minute is not negative.
pub record Clock : Type 0 where
  pub h : ℤ
  pub m : ℤ

unfoldable pub normalize_minute : ℤ → Clock
unfolding tdiv tmod
normalize_minute total =
    let h = tdiv total 60 in
    let m = tmod total 60 in
    if ltb_ℤ m (pos 0) then record { h = h -ℤ pos 1; m = m +ℤ pos 60 } else record { h = h; m = m }

-- `-(((-h) + 23) / 24)` for a negative hour, `h / 24` for one past the day, and 0
unfoldable pub day_adjustment : ℤ → ℤ
unfolding tdiv
day_adjustment h =
    if ltb_ℤ h (pos 0)
    then neg_ℤ (tdiv (neg_ℤ h +ℤ pos 23) 24)
    else if ltb_ℤ h (pos 24)
    then pos 0
    else tdiv h 24

-- A date whose day may lie outside its month.
pub record LooseDate : Type 0 where
  pub y : ℤ
  pub mo : ℕ
  pub d : ℤ

-- A year that an `int32_t` holds; the steps of a year overflow otherwise.
unfoldable pub checked_year : ℤ → Result ℤ
checked_year y =
    if ltb_ℤ y (negsuc 2147483647) || ltb_ℤ (pos 2147483647) y then err undefined else ok y

unfoldable pub previous_month : LooseDate → Result LooseDate
unfolding month_days checked_year
previous_month t = do
  y ← if t.mo == 1 then checked_year (t.y -ℤ pos 1) else ok t.y
  let mo = if t.mo == 1 then 12 else t.mo - 1
  ok (record { y = y; mo = mo; d = t.d +ℤ pos (month_days y mo) })

unfoldable pub next_month : LooseDate → Result LooseDate
unfolding month_days checked_year
next_month t = do
  y ← if t.mo == 12 then checked_year (t.y +ℤ pos 1) else ok t.y
  ok (record {
    y = y;
    mo = if t.mo == 12 then 1 else t.mo + 1;
    d = t.d -ℤ pos (month_days t.y t.mo);
  })

-- `while (d < 1)`, and `while (d > days_in_month(y, mo))`. The month stays from 1 to 12 in both, so
-- that `days_in_month` does not throw there.
unfoldable pub raise_day : ℕ → LooseDate → Result LooseDate
unfolding previous_month
raise_day zero t = ok t
raise_day (suc f) t =
    let rest = previous_month t >>= λ u. raise_day f u in if ltb_ℤ t.d (pos 1) then rest else ok t

unfoldable pub lower_day : ℕ → LooseDate → Result LooseDate
unfolding next_month
lower_day zero t = ok t
lower_day (suc f) t =
    let rest = next_month t >>= λ u. lower_day f u in
    if ltb_ℤ (pos (month_days t.y t.mo)) t.d then rest else ok t

-- Each round moves the day by 28 or more: the distance of the day from 0 is fuel enough.
unfoldable pub settle_day : LooseDate → Result LooseDate
unfolding raise_day lower_day
settle_day t = do u ← raise_day (neg_part t.d + 1) t; lower_day (pos_part u.d) u

unfoldable pub total_minutes : ℕ → ℕ → ℤ → ℤ
total_minutes hour minute tz_offset = pos (hour * 60 + minute) -ℤ tz_offset

unfoldable pub normalize_to_utc : ℤ → ℕ → ℕ → ℕ → ℕ → ℕ → ℕ → ℤ → Result UtcNormalized
unfolding total_minutes normalize_minute day_adjustment settle_day
normalize_to_utc year month day hour minute second nanosecond tz_offset = do
  let clock = normalize_minute (total_minutes hour minute tz_offset)
  let day_adj = day_adjustment clock.h
  date ← settle_day (record { y = year; mo = month; d = pos day +ℤ day_adj })
  ok (record {
    year = date.y;
    month = date.mo;
    day = u8 date.d;
    hour = u8 (clock.h -ℤ day_adj *ℤ pos 24);
    minute = u8 clock.m;
    second = second;
    nanosecond = nanosecond;
  })
