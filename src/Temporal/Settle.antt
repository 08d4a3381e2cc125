-- ===== src/Temporal/Settle.antt =====
-- A calendar apart from the code, without bounds on the year: the lengths of months and the shift to UTC that
-- the code's one is compared with.
use xb.Common.{ℕ, zero, suc, ◌+◌, ◌-◌, ◌%◌, Bool, true, false, ◌==◌, ◌||◌, if◌then◌else◌}
use xb.Common.Int.{ℤ, pos, negsuc, pos_part, neg_part, ◌+ℤ◌, ◌-ℤ◌, ◌*ℤ◌, ltb_ℤ}
use xb.Common.Casts.{u8}
use xb.Temporal.Calendar.{LooseDate, UtcNormalized, normalize_minute, day_adjustment, total_minutes}

-- Every fourth year is a leap year, but of the centuries every fourth one only.
abbrev pub leap_number : ℕ → Bool
leap_number n =
    if n % 400 == 0
    then true
    else if n % 100 == 0
    then false
    else if n % 4 == 0
    then true
    else false

-- The years before year 0 count down from -1, which is a leap year.
unfoldable pub calendar_leap : ℤ → Bool
calendar_leap (pos n) = leap_number n
calendar_leap (negsuc n) = leap_number n

-- Thirty days have September, April, June and November.
unfoldable pub calendar_days : ℤ → ℕ → ℕ
calendar_days y mo =
    if mo == 2
    then if calendar_leap y then 29 else 28
    else if mo == 9 || mo == 4 || mo == 6 || mo == 11
    then 30
    else 31

unfoldable pub month_before : LooseDate → LooseDate
unfolding calendar_days
month_before t =
    let y = if t.mo == 1 then t.y -ℤ pos 1 else t.y in
    let mo = if t.mo == 1 then 12 else t.mo - 1 in
    record { y = y; mo = mo; d = t.d +ℤ pos (calendar_days y mo) }

unfoldable pub month_after : LooseDate → LooseDate
unfolding calendar_days
month_after t = record {
  y = if t.mo == 12 then t.y +ℤ pos 1 else t.y;
  mo = if t.mo == 12 then 1 else t.mo + 1;
  d = t.d -ℤ pos (calendar_days t.y t.mo);
}

-- `while (d < 1)`, and `while (d > days_in_month(y, mo))`. The month stays from 1 to 12 in both, so
-- that `days_in_month` does not throw there.
unfoldable pub raised : ℕ → LooseDate → LooseDate
unfolding month_before
raised zero t = t
raised (suc f) t = let rest = raised f (month_before t) in if ltb_ℤ t.d (pos 1) then rest else t

unfoldable pub lowered : ℕ → LooseDate → LooseDate
unfolding month_after
lowered zero t = t
lowered (suc f) t =
    let rest = lowered f (month_after t) in
    if ltb_ℤ (pos (calendar_days t.y t.mo)) t.d then rest else t

-- Each round moves the day by 28 or more: the distance of the day from 0 is fuel enough.
unfoldable pub settled : LooseDate → LooseDate
unfolding raised lowered
settled t = let u = raised (neg_part t.d + 1) t in lowered (pos_part u.d) u

unfoldable pub utc_of : ℤ → ℕ → ℕ → ℕ → ℕ → ℕ → ℕ → ℤ → UtcNormalized
unfolding total_minutes normalize_minute day_adjustment settled
utc_of year month day hour minute second nanosecond tz_offset =
    let clock = normalize_minute (total_minutes hour minute tz_offset) in
    let day_adj = day_adjustment clock.h in
    let date = settled (record { y = year; mo = month; d = pos day +ℤ day_adj }) in
    record {
      year = date.y;
      month = date.mo;
      day = u8 date.d;
      hour = u8 (clock.h -ℤ day_adj *ℤ pos 24);
      minute = u8 clock.m;
      second = second;
      nanosecond = nanosecond;
    }
