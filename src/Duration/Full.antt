-- ===== src/Duration/Full.antt =====
-- `duration` of src/lib/duration.cpp: a sign, months, seconds and nanoseconds. `total_seconds_` is an
-- `int64_t` that only the parser sets, and never below 0. `day_time_part` is left out: it hands its
-- text to the parser of `day_time_duration`.
use xb.Common.{
  ℕ, zero, suc, ◌+◌, ◌*◌, ◌/◌, ◌%◌, [], ◌∷◌, ◌++◌, length, Bool, true, false, not, ltb, ◌==◌, ◌&&◌,
  ◌||◌, if◌then◌else◌,
}
use xb.Common.Int.{ℤ, pos, ltb_ℤ, eqb_ℤ}
use xb.Common.Casts.{i32, tdiv, tmod}
use xb.Common.Result.{Result, ok, err, ◌>>=◌, ◌>>◌, require, invalid_argument, undefined}
use xb.Common.Text.{Bytes}
use xb.Temporal.Lexical.{
  parse_digits, parse_fractional_seconds, format_fractional_seconds, expect, drop, is_end,
}
use xb.Duration.Scan.{starts_digit, checked_i64, int_text, minus_sign, same_bool}
use xb.Duration.YearMonth
use xb.Duration.YearMonth.{YearMonth, of_years_months}

pub record Duration : Type 0 where
  pub negative : Bool
  pub total_months : ℤ
  pub total_seconds : ℕ
  pub nanoseconds : ℕ

-- The local variables of the parser, with the text from `pos` on. In the loop of the time portion
-- `found` is `found_time`, else `found_any`.
pub record Totals : Type 0 where
  pub found : Bool
  pub months : ℕ
  pub seconds : ℕ
  pub nanos : ℕ
  pub rest : Bytes

unfoldable pub add_months : Totals → ℕ → Bytes → Result Totals
add_months t n rest = do
  months ← checked_i64 (t.months + n)
  ok (record { found = true; months = months; seconds = t.seconds; nanos = t.nanos; rest = rest })

unfoldable pub add_seconds : Totals → ℕ → Bytes → Result Totals
add_seconds t n rest = do
  seconds ← checked_i64 (t.seconds + n)
  ok (record { found = true; months = t.months; seconds = seconds; nanos = t.nanos; rest = rest })

-- The designator behind a number of the date portion.
unfoldable pub date_field : Totals → ℕ → Bytes → Result Totals
date_field t value [] = err invalid_argument
date_field t value (c ∷ s) =
    if c == b'Y'
    then add_months t (value * 12) s
    else if c == b'M'
    then add_months t value s
    else if c == b'D'
    then add_seconds t (value * 86400) s
    else err invalid_argument

-- `pos < str.size() && str[pos] != 'T'`, negated
unfoldable pub date_ends : Bytes → Bool
date_ends [] = true
date_ends (c ∷ s) = c == b'T'

-- The loop of the date portion. Fuel above the length of the text is enough.
unfoldable pub date_loop : ℕ → Totals → Result Totals
date_loop zero t = err undefined
date_loop (suc f) t = if date_ends t.rest then ok t else do
  require (starts_digit t.rest) invalid_argument
  d ← parse_digits t.rest 1
  next ← date_field t d.value d.rest
  date_loop f next

-- `parse_fractional` and the `S` behind it.
unfoldable pub fraction_field : Totals → Bytes → Result Totals
fraction_field t s = do
  let f = parse_fractional_seconds s
  rest ← expect b'S' (drop f.consumed s)
  ok (record { found = true; months = t.months; seconds = t.seconds; nanos = f.nanos; rest = rest })

-- The designator behind a number of the time portion.
unfoldable pub time_field : Totals → ℕ → Bytes → Result Totals
time_field t value [] = err invalid_argument
time_field t value (c ∷ s) =
    if c == b'H'
    then add_seconds t (value * 3600) s
    else if c == b'M'
    then add_seconds t (value * 60) s
    else if c == b'S' || c == b'.'
    then (do u ← add_seconds t value (c ∷ s); fraction_field u (c ∷ s))
    else err invalid_argument

-- The loop of the time portion, with the same fuel.
unfoldable pub time_loop : ℕ → Totals → Result Totals
time_loop zero t = err undefined
time_loop (suc f) t =
    if not (starts_digit t.rest)
    then ok t
    else do d ← parse_digits t.rest 1; next ← time_field t d.value d.rest; time_loop f next

-- "Parse time portion": the text is at its end or at the `T`.
unfoldable pub time_portion : Totals → Bytes → Result Totals
time_portion t [] = ok t
time_portion t (c ∷ s) = do
  require (not (is_end s)) invalid_argument
  u ←
      time_loop (suc (length s)) (record {
        found = false;
        months = t.months;
        seconds = t.seconds;
        nanos = t.nanos;
        rest = s;
      })
  require u.found invalid_argument
  ok u

unfoldable pub zero_totals : ℤ → ℕ → ℕ → Bool
zero_totals months seconds nanos = eqb_ℤ months (pos 0) && seconds == 0 && nanos == 0

unfoldable pub read_totals : Bytes → Result Totals
read_totals s = do
  require (not (is_end s)) invalid_argument
  t ←
      date_loop (suc (length s))
        (record { found = false; months = 0; seconds = 0; nanos = 0; rest = s })
  u ← time_portion t t.rest
  require u.found invalid_argument
  require (is_end u.rest) invalid_argument
  ok u

-- The first test for an empty text is part of `expect`, which throws the same exception.
unfoldable pub parse_duration_str : Bytes → Result Duration
parse_duration_str str = do
  let (negative, unsigned) = minus_sign str
  s ← expect b'P' unsigned
  u ← read_totals s
  let total_months = i32 (pos u.months)
  ok (record {
    negative = negative && not (zero_totals total_months u.seconds u.nanos);
    total_months = total_months;
    total_seconds = u.seconds;
    nanoseconds = u.nanos;
  })

unfoldable pub years : Duration → ℤ
years t = tdiv t.total_months 12

unfoldable pub months : Duration → ℤ
months t = tmod t.total_months 12

unfoldable pub days : Duration → ℕ
days t = t.total_seconds / 86400

unfoldable pub hours : Duration → ℕ
hours t = t.total_seconds % 86400 / 3600

unfoldable pub minutes : Duration → ℕ
minutes t = t.total_seconds % 3600 / 60

unfoldable pub seconds : Duration → ℕ
seconds t = t.total_seconds % 60

-- A number with its designator, if it is above 0.
unfoldable pub field_text : ℤ → ℕ → Bytes
field_text n c = if ltb_ℤ (pos 0) n then int_text n ++ c ∷ [] else []

unfoldable pub seconds_text : ℕ → ℕ → Bytes
seconds_text s nanos = int_text (pos s) ++ (format_fractional_seconds nanos ++ b'S' ∷ [])

unfoldable pub time_text : ℕ → ℕ → ℕ → ℕ → Bytes
time_text h mi s nanos =
    field_text (pos h) b'H'
    ++ (field_text (pos mi) b'M'
        ++ (if ltb 0 s || ltb 0 nanos || not (ltb 0 h || ltb 0 mi)
            then seconds_text s nanos
            else []))

-- What `to_string` appends behind the `P`; `remaining` is the rest of the division by a day.
unfoldable pub fields_text : ℤ → ℤ → ℕ → ℕ → ℕ → Bytes
fields_text y mo d remaining nanos =
    let h = remaining / 3600 in
    let mi = remaining % 3600 / 60 in
    let s = remaining % 3600 % 60 in
    let has_date_part = ltb_ℤ (pos 0) y || ltb_ℤ (pos 0) mo || ltb 0 d in
    let has_time_part = ltb 0 h || ltb 0 mi || ltb 0 s || ltb 0 nanos in
    field_text y b'Y'
    ++ (field_text mo b'M'
        ++ (field_text (pos d) b'D'
            ++ (if has_time_part
                then b'T' ∷ time_text h mi s nanos
                else if has_date_part
                then []
                else b'T' ∷ b'0' ∷ b'S' ∷ [])))

unfoldable pub to_text : Duration → Bytes
to_text t =
    (if t.negative then b'-' ∷ [] else [])
    ++ b'P'
      ∷ fields_text (tdiv t.total_months 12) (tmod t.total_months 12) (t.total_seconds / 86400)
          (t.total_seconds % 86400) t.nanoseconds

unfoldable pub is_zero : Duration → Bool
is_zero t = zero_totals t.total_months t.total_seconds t.nanoseconds

unfoldable pub year_month_part : Duration → Result YearMonth
year_month_part t =
    if eqb_ℤ t.total_months (pos 0)
    then ok (record { negative = false; total_months = pos 0 })
    else do
      ym ← of_years_months (tdiv t.total_months 12) (tmod t.total_months 12)
      ok (if t.negative then YearMonth.neg ym else ym)

-- `operator-`
unfoldable pub neg : Duration → Duration
neg t = record {
  negative = not (zero_totals t.total_months t.total_seconds t.nanoseconds) && not t.negative;
  total_months = t.total_months;
  total_seconds = t.total_seconds;
  nanoseconds = t.nanoseconds;
}

unfoldable pub eq : Duration → Duration → Bool
eq a b =
    same_bool a.negative b.negative
    && eqb_ℤ a.total_months b.total_months
    && a.total_seconds == b.total_seconds
    && a.nanoseconds == b.nanoseconds
