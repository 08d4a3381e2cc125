-- ===== src/Temporal/Examples.antt =====
-- The theorems on the dates and times of src/lib at concrete values.
use xb.Common.{[], ◌∷◌, ◌++◌, some, ◌≡◌, refl, arith}
use xb.Common.Int.{pos, negsuc, ◌+ℤ◌, ◌-ℤ◌}
use xb.Common.Result.{ok, err, undefined}
use xb.Temporal.Lexical.{format_timezone, parse_fractional_seconds, format_fractional_seconds, drop}
use xb.Temporal.Calendar.{month_days, normalize_to_utc}
use xb.Temporal.Date
use xb.Temporal.Date.{Date}
use xb.Temporal.Time
use xb.Temporal.Time.{Time}
use xb.Temporal.DateTime
use xb.Temporal.DateTime.{DateTime}
use xb.Temporal.ZoneLaws.{ReadsZone, parse-format_timezone}
use xb.Temporal.FracLaws.{parse-format_fractional_seconds}
use xb.Temporal.DateLaws.{IsYmd, date-of_string-to_text}
use xb.Temporal.TimeLaws.{IsClock, time-of_string-to_text}
use xb.Temporal.DateTimeLaws.{
  IsDateTime, RollsToNextDay, date_time-of_string-to_text, roll_day-IsNextDay,
}

-- A step of the year below `int32_t`.
year_underflow : normalize_to_utc (negsuc 2147483647) 1 1 0 0 0 0 (pos 60) ≡ err undefined
unfolding normalize_to_utc ◌+ℤ◌ ◌-ℤ◌
year_underflow = refl

-- -0044-02-28T23:30:15.5+02:00 and 2024-03-01T00:30:00-05:00
abbrev ancient : DateTime
ancient = record {
  year = negsuc 43;
  month = 2;
  day = 28;
  hour = 23;
  minute = 30;
  second = 15;
  nanosecond = 500000000;
  tz_offset_minutes = some (pos 120);
}

abbrev recent : DateTime
recent = record {
  year = pos 2024;
  month = 3;
  day = 1;
  hour = 0;
  minute = 30;
  second = 0;
  nanosecond = 0;
  tz_offset_minutes = some (negsuc 299);
}

ancient-IsYmd : IsYmd (negsuc 43) 2 28
ancient-IsYmd = record {
  year_fits = omega arith;
  is_month = omega arith;
  first = omega arith;
  last = unfold month_days in omega arith;
}

ancient-IsClock : IsClock 23 30 15 500000000
ancient-IsClock = record {
  hour_fits = omega arith;
  minute_fits = omega arith;
  second_fits = omega arith;
  nanosecond_fits = omega arith;
}

ancient-IsDateTime : IsDateTime ancient
ancient-IsDateTime = record { ymd = ancient-IsYmd; clock = ancient-IsClock; zone = omega arith }

date_time-of_string-to_text_example : DateTime.of_string (DateTime.to_text ancient) ≡ ok ancient
date_time-of_string-to_text_example = date_time-of_string-to_text ancient ancient-IsDateTime

roll_day-IsNextDay_example : RollsToNextDay (negsuc 43) 2 28
roll_day-IsNextDay_example = roll_day-IsNextDay (negsuc 43) 2 28 ancient-IsYmd (omega arith)

abbrev ancient_day : Date
ancient_day = record { year = negsuc 43; month = 2; day = 28; tz_offset_minutes = some (pos 120) }

date-of_string-to_text_example : Date.of_string (Date.to_text ancient_day) ≡ ok ancient_day
date-of_string-to_text_example =
    date-of_string-to_text ancient_day (record { ymd = ancient-IsYmd; zone = omega arith })

abbrev late : Time
late = record {
  hour = 23;
  minute = 30;
  second = 15;
  nanosecond = 500000000;
  tz_offset_minutes = some (negsuc 299);
}

time-of_string-to_text_example : Time.of_string (Time.to_text late) ≡ ok late
time-of_string-to_text_example =
    time-of_string-to_text late (record { clock = ancient-IsClock; zone = omega arith })

parse-format_timezone_example : ReadsZone (format_timezone (some (negsuc 299))) (some (negsuc 299))
parse-format_timezone_example = parse-format_timezone (some (negsuc 299)) (omega arith)

parse-format_fractional_seconds_example :
    ((parse_fractional_seconds (format_fractional_seconds 120 ++ b'Z' ∷ [])).nanos ≡ 120)
    × (drop
          (parse_fractional_seconds (format_fractional_seconds 120 ++ b'Z' ∷ [])).consumed
          (format_fractional_seconds 120 ++ b'Z' ∷ [])
        ≡ b'Z' ∷ [])
parse-format_fractional_seconds_example =
    parse-format_fractional_seconds 120 (b'Z' ∷ []) (omega arith) (refl, refl)
