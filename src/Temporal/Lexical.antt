-- ===== src/Temporal/Lexical.antt =====
-- The lexical helpers of src/lib/xsd_time_parse.hpp, and the readers of digits that date.cpp, time.cpp
-- and date_time.cpp share. A position in a text is what is left of the text from there on.
use xb.Common.{
  ℕ, zero, suc, ◌+◌, ◌-◌, ◌*◌, [], ◌∷◌, ◌++◌, length, replicate, Option, none, some, Bool, true,
  false, ltb, leb, ◌==◌, ◌&&◌, ◌||◌, if◌then◌else◌,
}
use xb.Common.Int.{ℤ, pos, ◌+ℤ◌, ◌-ℤ◌, ◌*ℤ◌, neg_ℤ, ltb_ℤ, eqb_ℤ}
use xb.Common.Casts.{u8, i16, char_value, tdiv, tmod}
use xb.Common.Result.{Result, ok, err, ◌>>=◌, ◌>>◌, require, invalid_argument, undefined}
use xb.Common.Text.{Bytes, is_digit, to_string}

pub record TzResult : Type 0 where
  pub offset_minutes : Option ℤ
  pub consumed : ℕ

-- `(a - '0') * 10 + (b - '0')`, with no test that the two are digits
unfoldable pub pair_value : ℕ → ℕ → ℤ
unfolding ◌+ℤ◌ ◌-ℤ◌ ◌*ℤ◌
pair_value a b = (char_value a -ℤ pos b'0') *ℤ pos 10 +ℤ (char_value b -ℤ pos b'0')

unfoldable pub tz_offset : Bool → ℤ → ℤ → Result TzResult
unfolding ◌+ℤ◌ ◌*ℤ◌ neg_ℤ
tz_offset neg hours mins =
    if ltb_ℤ (pos 14) hours || (eqb_ℤ hours (pos 14) && ltb_ℤ (pos 0) mins) || ltb_ℤ (pos 59) mins
    then err invalid_argument
    else let offset = i16 (hours *ℤ pos 60 +ℤ mins) in
      ok (record {
        offset_minutes = some (if neg then i16 (neg_ℤ offset) else offset);
        consumed = 6;
      })

-- The characters behind the sign: `str.size() < 6` where one of the five is missing.
unfoldable pub tz_fields : Bool → Bytes → Result TzResult
unfolding tz_offset pair_value
tz_fields neg (h1 ∷ h2 ∷ c ∷ m1 ∷ m2 ∷ rest) =
    if c == b':' then tz_offset neg (pair_value h1 h2) (pair_value m1 m2) else err invalid_argument
tz_fields neg _ = err invalid_argument

unfoldable pub parse_timezone : Bytes → Result TzResult
unfolding tz_fields
parse_timezone [] = ok (record { offset_minutes = none; consumed = 0 })
parse_timezone (c ∷ s) =
    if c == b'Z'
    then ok (record { offset_minutes = some (pos 0); consumed = 1 })
    else if c == b'+' || c == b'-'
    then tz_fields (c == b'-') s
    else ok (record { offset_minutes = none; consumed = 0 })

-- `'0' + h / 10`, `'0' + h % 10`, each cut to a `char`
unfoldable pub two_chars : ℤ → Bytes
unfolding tdiv tmod ◌+ℤ◌
two_chars h = u8 (pos b'0' +ℤ tdiv h 10) ∷ u8 (pos b'0' +ℤ tmod h 10) ∷ []

unfoldable pub tz_chars : ℤ → Bytes
unfolding tdiv tmod
tz_chars offset = two_chars (tdiv offset 60) ++ b':' ∷ two_chars (tmod offset 60)

-- What `format_timezone` appends.
unfoldable pub format_timezone : Option ℤ → Bytes
unfolding tz_chars neg_ℤ
format_timezone none = []
format_timezone (some offset) =
    if eqb_ℤ offset (pos 0)
    then b'Z' ∷ []
    else if ltb_ℤ offset (pos 0)
    then b'-' ∷ tz_chars (i16 (neg_ℤ offset))
    else b'+' ∷ tz_chars offset

pub record FracResult : Type 0 where
  pub nanos : ℕ
  pub consumed : ℕ

-- The last loop of `parse_fractional_seconds`: `while (digits < 9) nanos *= 10`.
unfoldable pub scale_nanos : ℕ → ℕ → ℕ
scale_nanos zero nanos = nanos
scale_nanos (suc missing) nanos = scale_nanos missing (nanos * 10)

-- Its first loop, which drops the digits behind the ninth. `position` is `pos`.
unfoldable pub frac_digits : Bytes → ℕ → ℕ → ℕ → FracResult
unfolding scale_nanos
frac_digits [] nanos digits position = record {
  nanos = scale_nanos (9 - digits) nanos;
  consumed = position;
}
frac_digits (c ∷ s) nanos digits position =
    let taken = ltb digits 9 in
    let rest =
      frac_digits s (if taken then nanos * 10 + (c - b'0') else nanos)
        (if taken then digits + 1 else digits) (position + 1) in
    if is_digit c
    then rest
    else record { nanos = scale_nanos (9 - digits) nanos; consumed = position }

unfoldable pub parse_fractional_seconds : Bytes → FracResult
unfolding frac_digits
parse_fractional_seconds [] = record { nanos = 0; consumed = 0 }
parse_fractional_seconds (c ∷ s) =
    if c == b'.' then frac_digits s 0 0 1 else record { nanos = 0; consumed = 0 }

-- `while (frac.back() == '0') frac.pop_back();`
unfoldable pub keep_char : ℕ → Bytes → Bytes
keep_char c [] = if c == b'0' then [] else c ∷ []
keep_char c (d ∷ s) = c ∷ d ∷ s

unfoldable pub strip_zeros : Bytes → Bytes
unfolding keep_char
strip_zeros [] = []
strip_zeros (c ∷ s) = keep_char c (strip_zeros s)

-- `s.insert(0, width - s.size(), '0')`
unfoldable pub pad_zeros : ℕ → Bytes → Bytes
pad_zeros width s = replicate (width - length s) b'0' ++ s

-- What `format_fractional_seconds` appends; `nanos` is below 10^9.
unfoldable pub format_fractional_seconds : ℕ → Bytes
unfolding strip_zeros pad_zeros
format_fractional_seconds nanos =
    if nanos == 0 then [] else b'.' ∷ strip_zeros (pad_zeros 9 (to_string nanos))

-- A run of digits: its value, how many they are and what is left.
pub record Digits : Type 0 where
  pub value : ℕ
  pub count : ℕ
  pub rest : Bytes

-- The loop of `parse_digits`; `value * 10 + digit` is computed in `int64_t`, where an overflow is
-- undefined.
unfoldable pub scan_digits : Bytes → ℕ → ℕ → Result Digits
scan_digits [] value count = ok (record { value = value; count = count; rest = [] })
scan_digits (c ∷ s) value count =
    let next = value * 10 + (c - b'0') in
    let more = scan_digits s next (count + 1) in
    if is_digit c
    then if ltb 9223372036854775807 next then err undefined else more
    else ok (record { value = value; count = count; rest = c ∷ s })

unfoldable pub parse_digits : Bytes → ℕ → Result Digits
unfolding scan_digits
parse_digits s min_digits = do
  d ← scan_digits s 0 0
  require (leb min_digits d.count) invalid_argument
  ok d

-- `if (pos >= str.size() || str[pos] != c) throw …; ++pos;`
unfoldable pub expect : ℕ → Bytes → Result Bytes
expect c [] = err invalid_argument
expect c (d ∷ s) = if d == c then ok s else err invalid_argument

-- `expect_digit_pair`, and the number that the pair spells
unfoldable pub digit_pair : Bytes → Result (ℕ × Bytes)
digit_pair (a ∷ b ∷ s) =
    if is_digit a && is_digit b then ok ((a - b'0') * 10 + (b - b'0'), s) else err invalid_argument
digit_pair _ = err invalid_argument

-- `parse_digits(str, pos, 2)` with the test for exactly two digits
unfoldable pub two_digits : Bytes → Result (ℕ × Bytes)
unfolding parse_digits
two_digits s = do
  d ← parse_digits s 2
  require (d.count == 2) invalid_argument
  ok (d.value, d.rest)

-- The `-` of a negative year.
unfoldable pub year_sign : Bytes → Bool × Bytes
year_sign [] = (false, [])
year_sign (c ∷ s) = if c == b'-' then (true, s) else (false, c ∷ s)

-- `str.substr(n)`, and `pos == str.size()`
abbrev pub drop : ℕ → Bytes → Bytes
drop zero s = s
drop (suc n) [] = []
drop (suc n) (c ∷ s) = drop n s

abbrev pub is_end : Bytes → Bool
is_end [] = true
is_end (c ∷ s) = false
