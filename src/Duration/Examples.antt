-- ===== src/Duration/Examples.antt =====
-- The theorems on the durations of src/lib at concrete values.
use xb.Common.{ℕ, ◌<◌, [], true, false, ◌||◌, ◌≡◌, ◌↔◌, refl, arith, Ordering}
use xb.Common.Int.{ℤ, pos, negsuc, ◌+ℤ◌, ◌-ℤ◌, ◌*ℤ◌, ltb_ℤ}
use xb.Common.Result.{ok, err, invalid_argument}
use xb.Common.Text.{codes}
use xb.Duration.Scan.{has_byte}
use xb.Duration.YearMonth
use xb.Duration.YearMonth.{YearMonth, signed, of_months, to_months, parse_year_month_duration}
use xb.Duration.Months.{
  IsYearMonth, value, add-signed, mul-signed, months-sub-signed, months-cmp_lem,
  of_months-to_months,
}
use xb.Duration.MonthsText.{parse_year_month_duration-to_text, parse_year_month_duration-foreign}
use xb.Duration.Full
use xb.Duration.Full.{Duration, Totals, date_loop, time_loop, year_month_part, parse_duration_str}
use xb.Duration.Fuel.{time_loop-fuel}
use xb.Duration.Runs.{DateRun, date_loop-DateRun}
use xb.Duration.FullLaws.{IsDuration, months_of, year_month_part_lem}
use xb.Duration.RoundTrip.{parse_duration_str-to_text}

-- -P1Y2M and P3M
abbrev past : YearMonth
past = record { negative = true; total_months = pos 14 }

abbrev quarter : YearMonth
quarter = record { negative = false; total_months = pos 3 }

past-IsYearMonth : IsYearMonth past
past-IsYearMonth = record {
  magnitude = 14;
  is_magnitude = refl;
  fits = omega arith;
  no_negative_zero = λ e. omega arith;
}

quarter-IsYearMonth : IsYearMonth quarter
quarter-IsYearMonth = record {
  magnitude = 3;
  is_magnitude = refl;
  fits = omega arith;
  no_negative_zero = λ e. omega arith;
}

-- -P1Y2M3DT4H5M6.000000007S
abbrev span : Duration
span = record { negative = true; total_months = pos 14; total_seconds = 273906; nanoseconds = 7 }

span-IsDuration : IsDuration span
span-IsDuration = record {
  month_count = 14;
  is_month_count = refl;
  months_fit = omega arith;
  seconds_fit = omega arith;
  nanoseconds_fit = omega arith;
  no_negative_zero = λ e. omega arith;
}

parse_duration_str-to_text_example : parse_duration_str (Full.to_text span) ≡ ok span
parse_duration_str-to_text_example = parse_duration_str-to_text span span-IsDuration

parse_year_month_duration-to_text_example :
    parse_year_month_duration (YearMonth.to_text past) ≡ ok past
parse_year_month_duration-to_text_example = parse_year_month_duration-to_text past past-IsYearMonth

parse_year_month_duration-foreign_example :
    parse_year_month_duration (codes "P1Y2M3D") ≡ err invalid_argument
parse_year_month_duration-foreign_example =
    parse_year_month_duration-foreign (codes "P1Y2M3D") (unfold has_byte in refl)

months-cmp_lem_example :
    ((YearMonth.cmp past quarter ≡ Ordering.lt)
      ↔ (ltb_ℤ (value past past-IsYearMonth) (value quarter quarter-IsYearMonth) ≡ true))
    × ((YearMonth.cmp past quarter ≡ Ordering.gt)
        ↔ (ltb_ℤ (value quarter quarter-IsYearMonth) (value past past-IsYearMonth) ≡ true))
    × ((YearMonth.cmp past quarter ≡ Ordering.eq) ↔ (past ≡ quarter))
months-cmp_lem_example = months-cmp_lem past quarter past-IsYearMonth quarter-IsYearMonth

add-signed_example :
    IsYearMonth (YearMonth.add past quarter)
    × (signed (YearMonth.add past quarter) ≡ signed past +ℤ signed quarter)
unfolding signed ◌+ℤ◌ xb.Common.Int.neg_ℤ
add-signed_example = add-signed past quarter (omega arith)

months-sub-signed_example :
    IsYearMonth (YearMonth.sub past quarter)
    × (signed (YearMonth.sub past quarter) ≡ signed past -ℤ signed quarter)
unfolding signed ◌-ℤ◌ xb.Common.Int.neg_ℤ
months-sub-signed_example = months-sub-signed past quarter quarter-IsYearMonth (omega arith)

mul-signed_example :
    IsYearMonth (YearMonth.mul past (negsuc 4))
    × (signed (YearMonth.mul past (negsuc 4)) ≡ signed past *ℤ negsuc 4)
unfolding signed ◌*ℤ◌ xb.Common.Int.neg_ℤ
mul-signed_example = mul-signed past (negsuc 4) (omega arith)

of_months-to_months_example : of_months (to_months past) ≡ past
of_months-to_months_example = of_months-to_months past past-IsYearMonth

abbrev at_text : Totals
at_text = record { found = false; months = 0; seconds = 0; nanos = 0; rest = codes "3Y4M" }

date_loop-DateRun_example : DateRun (date_loop 5 at_text) at_text
date_loop-DateRun_example = date_loop-DateRun 5 at_text (omega arith)

time_loop-fuel_example : time_loop 5 at_text ≡ time_loop 100 at_text
time_loop-fuel_example = time_loop-fuel 5 100 at_text (omega arith) (omega arith)

year_month_part_lem_example :
    (year_month_part span ≡ ok (months_of span)) × IsYearMonth (months_of span)
year_month_part_lem_example = year_month_part_lem span span-IsDuration
