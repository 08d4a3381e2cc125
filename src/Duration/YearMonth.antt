-- ===== src/Duration/YearMonth.antt =====
-- `year_month_duration` of src/lib/year_month_duration.cpp: a sign and a number of months.
use xb.Common.{
  ℕ, ◌+◌, ◌*◌, [], ◌∷◌, ◌++◌, Bool, true, false, not, ◌==◌, ◌&&◌, ◌||◌, if◌then◌else◌, compare,
  Ordering,
}
use xb.Common.Int.{ℤ, pos, pos_part, neg_part, ◌+ℤ◌, ◌*ℤ◌, neg_ℤ, ltb_ℤ, eqb_ℤ}
use xb.Common.Casts.{i32, tdiv, tmod}
use xb.Common.Result.{Result, ok, err, ◌>>=◌, ◌>>◌, require, invalid_argument}
use xb.Common.Text.{Bytes}
use xb.Temporal.Lexical.{expect, is_end}
use xb.Duration.Scan.{
  digit_run, number_from, starts_digit, has_byte, checked_i32, checked_i64, int_text, minus_sign,
  same_bool,
}

pub record YearMonth : Type 0 where
  pub negative : Bool
  pub total_months : ℤ

-- The local variables of the parser: `found_any`, `years`, `months`, and the text from `pos` on.
pub record Parts : Type 0 where
  pub found_any : Bool
  pub years : ℕ
  pub months : ℕ
  pub rest : Bytes

unfoldable pub designate : ℕ → ℕ → Bytes → Result Parts
designate value c s =
    if c == b'Y'
    then ok (record { found_any = true; years = value; months = 0; rest = s })
    else if c == b'M'
    then ok (record { found_any = true; years = 0; months = value; rest = s })
    else err invalid_argument

unfoldable pub after_number : Bytes → Bytes → Result Parts
after_number digits [] = err invalid_argument
after_number digits (c ∷ s) = do value ← number_from 0 digits; designate value c s

-- "Parse optional years"
unfoldable pub first_part : Bytes → Result Parts
first_part s =
    let (digits, rest) = digit_run s in
    if starts_digit s
    then after_number digits rest
    else ok (record { found_any = false; years = 0; months = 0; rest = s })

unfoldable pub month_number : Bytes → Bytes → Parts → Result Parts
month_number digits s p = do
  rest ← expect b'M' s
  value ← number_from 0 digits
  ok (record { found_any = p.found_any; years = p.years; months = value; rest = rest })

-- "Parse optional months (if years was parsed above)"
unfoldable pub second_part : Parts → Result Parts
second_part p =
    let (digits, rest) = digit_run p.rest in
    if starts_digit p.rest && p.found_any && p.months == 0 then month_number digits rest p else ok p

unfoldable pub not_zero : ℤ → Bool
not_zero n = not (eqb_ℤ n (pos 0))

-- The components behind the `P`.
unfoldable pub read_parts : Bytes → Result Parts
read_parts s = do
  require (not (is_end s)) invalid_argument
  require (not (has_byte b'T' s)) invalid_argument
  require (not (has_byte b'D' s)) invalid_argument
  p ← first_part s
  q ← second_part p
  require q.found_any invalid_argument
  require (is_end q.rest) invalid_argument
  ok q

-- The first test for an empty text is part of `expect`, which throws the same exception.
unfoldable pub parse_year_month_duration : Bytes → Result YearMonth
parse_year_month_duration str = do
  let (negative, unsigned) = minus_sign str
  s ← expect b'P' unsigned
  q ← read_parts s
  total ← checked_i64 (q.years * 12 + q.months)
  let total_months = i32 (pos total)
  ok (record { negative = negative && not_zero total_months; total_months = total_months })

-- `year_month_duration(int32_t years, int32_t months)`
unfoldable pub of_years_months : ℤ → ℤ → Result YearMonth
of_years_months years months = do
  product ← checked_i32 (years *ℤ pos 12)
  total ← checked_i32 (product +ℤ months)
  ok (record { negative = false; total_months = total })

unfoldable pub years_text : ℤ → Bytes
years_text y = if ltb_ℤ (pos 0) y then int_text y ++ b'Y' ∷ [] else []

unfoldable pub months_text : ℤ → ℤ → Bytes
months_text y m = if ltb_ℤ (pos 0) m || eqb_ℤ y (pos 0) then int_text m ++ b'M' ∷ [] else []

unfoldable pub to_text : YearMonth → Bytes
to_text d =
    (if d.negative then b'-' ∷ [] else [])
    ++ b'P'
      ∷ (years_text (tdiv d.total_months 12)
          ++ months_text (tdiv d.total_months 12) (tmod d.total_months 12))

unfoldable pub is_zero : YearMonth → Bool
is_zero d = eqb_ℤ d.total_months (pos 0)

-- The value as the operators compute it, in `int64_t`.
unfoldable pub signed : YearMonth → ℤ
signed d = if d.negative then neg_ℤ d.total_months else d.total_months

-- The sign and the magnitude of an `int64_t`, the magnitude cut to `int32_t`.
unfoldable pub of_signed : ℤ → YearMonth
of_signed sum =
    if ltb_ℤ sum (pos 0)
    then record { negative = true; total_months = i32 (neg_ℤ sum) }
    else record { negative = false; total_months = i32 sum }

-- `operator-`
unfoldable pub neg : YearMonth → YearMonth
neg d = record {
  negative = not_zero d.total_months && not d.negative;
  total_months = d.total_months;
}

unfoldable pub add : YearMonth → YearMonth → YearMonth
add a b = of_signed (signed a +ℤ signed b)

unfoldable pub sub : YearMonth → YearMonth → YearMonth
sub a b = add a (neg b)

-- `operator*`, by an `int32_t`
unfoldable pub mul : YearMonth → ℤ → YearMonth
mul a n = of_signed (signed a *ℤ n)

-- `operator<=>`
unfoldable pub cmp : YearMonth → YearMonth → Ordering
cmp a b =
    compare (pos_part (signed a) + neg_part (signed b)) (pos_part (signed b) + neg_part (signed a))

unfoldable pub eq : YearMonth → YearMonth → Bool
eq a b = same_bool a.negative b.negative && eqb_ℤ a.total_months b.total_months

-- `operator std::chrono::months`, and the constructor from `std::chrono::months`; the argument and
-- the result are the counts.
unfoldable pub to_months : YearMonth → ℤ
to_months d = i32 (signed d)

unfoldable pub of_months : ℤ → YearMonth
of_months count = of_signed count

unfoldable pub is_negative : YearMonth → Bool
is_negative d = d.negative

unfoldable pub years : YearMonth → ℤ
years d = tdiv d.total_months 12

unfoldable pub months : YearMonth → ℤ
months d = tmod d.total_months 12

-- The compound assignments return the new value of `*this`.
unfoldable pub add_assign : YearMonth → YearMonth → YearMonth
add_assign self other = add self other

unfoldable pub sub_assign : YearMonth → YearMonth → YearMonth
sub_assign self other = sub self other

unfoldable pub mul_assign : YearMonth → ℤ → YearMonth
mul_assign self n = mul self n
