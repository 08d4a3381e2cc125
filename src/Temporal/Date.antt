-- ===== src/Temporal/Date.antt =====
-- src/lib/date.cpp: parsing, printing and equality of `xs:date`.
use xb.Common.{
  ℕ, ◌+◌, ◌/◌, ◌%◌, [], ◌∷◌, ◌++◌, Option, none, some, Bool, false, leb, ◌==◌, ◌&&◌, if◌then◌else◌,
}
use xb.Common.Int.{ℤ, pos, nat_abs, neg_ℤ, ltb_ℤ, eqb_ℤ}
use xb.Common.Casts.{i32}
use xb.Common.Result.{Result, ok, err, ◌>>=◌, ◌>>◌, require, invalid_argument}
use xb.Common.Text.{Bytes, to_string}
use xb.Temporal.Lexical.{
  parse_timezone, format_timezone, pad_zeros, parse_digits, expect, two_digits, year_sign, drop,
  is_end,
}
use xb.Temporal.Calendar.{days_in_month, UtcNormalized, normalize_to_utc}

pub record Date : Type 0 where
  pub year : ℤ
  pub month : ℕ
  pub day : ℕ
  pub tz_offset_minutes : Option ℤ

-- `static_cast<int32_t>(neg_year ? -year : year)`
unfoldable pub signed_year : Bool → ℕ → ℤ
signed_year neg year = i32 (if neg then neg_ℤ (pos year) else pos year)

-- The sign and the four or more digits of the year.
unfoldable pub read_year : Bytes → Result (ℤ × Bytes)
read_year s = do
  let (neg, s1) = year_sign s
  y ← parse_digits s1 4
  ok (signed_year neg y.value, y.rest)

-- The year, month and day, up to what follows the day.
unfoldable pub parse_ymd : Bytes → Result (ℤ × ℕ × ℕ × Bytes)
parse_ymd s = do
  y ← read_year s
  s2 ← expect b'-' y.1
  mo ← two_digits s2
  require (leb 1 mo.0 && leb mo.0 12) invalid_argument
  s3 ← expect b'-' mo.1
  d ← two_digits s3
  days ← days_in_month y.0 mo.0
  require (leb 1 d.0 && leb d.0 days) invalid_argument
  ok (y.0, mo.0, d.0, d.1)

-- `date(std::string_view)`, with `parse_date_str`
unfoldable pub parse_date : Bytes → Result Date
parse_date s = do
  ymd ← parse_ymd s
  tz ← parse_timezone ymd.3
  require (is_end (drop tz.consumed ymd.3)) invalid_argument
  ok (record { year = ymd.0; month = ymd.1; day = ymd.2; tz_offset_minutes = tz.offset_minutes })

unfoldable pub of_string : Bytes → Result Date
of_string [] = err invalid_argument
of_string (c ∷ s) = parse_date (c ∷ s)

-- `date(int32_t, uint8_t, uint8_t, std::optional<int16_t>)`
unfoldable pub make : ℤ → ℕ → ℕ → Option ℤ → Result Date
make year month day tz = do
  require (leb 1 month && leb month 12) invalid_argument
  days ← days_in_month year month
  require (leb 1 day && leb day days) invalid_argument
  ok (record { year = year; month = month; day = day; tz_offset_minutes = tz })

-- `'0' + n / 10`, `'0' + n % 10`, for an `n` below 100
unfoldable pub two_digit_text : ℕ → Bytes
two_digit_text n = (b'0' + n / 10) ∷ (b'0' + n % 10) ∷ []

-- The sign and the padded digits of the year.
unfoldable pub year_text : ℤ → Bytes
year_text year =
    (if ltb_ℤ year (pos 0) then b'-' ∷ [] else []) ++ pad_zeros 4 (to_string (nat_abs year))

unfoldable pub ymd_text : ℤ → ℕ → ℕ → Bytes
ymd_text year month day =
    year_text year ++ b'-' ∷ (two_digit_text month ++ b'-' ∷ two_digit_text day)

unfoldable pub to_text : Date → Bytes
to_text t = ymd_text t.year t.month t.day ++ format_timezone t.tz_offset_minutes

-- Midnight of a date, normalized.
unfoldable pub date_utc : Date → ℤ → Result UtcNormalized
date_utc t tz = normalize_to_utc t.year t.month t.day 0 0 0 0 tz

unfoldable pub same_ymd : UtcNormalized → UtcNormalized → Bool
same_ymd a b = eqb_ℤ a.year b.year && a.month == b.month && a.day == b.day

-- `operator==`
unfoldable pub eq_zoned : Date → Date → Option ℤ → Option ℤ → Result Bool
eq_zoned s t none none = ok (eqb_ℤ s.year t.year && s.month == t.month && s.day == t.day)
eq_zoned s t none (some b) = ok false
eq_zoned s t (some a) none = ok false
eq_zoned s t (some a) (some b) = do l ← date_utc s a; r ← date_utc t b; ok (same_ymd l r)

unfoldable pub eq : Date → Date → Result Bool
unfolding eq_zoned
eq s t = eq_zoned s t s.tz_offset_minutes t.tz_offset_minutes
