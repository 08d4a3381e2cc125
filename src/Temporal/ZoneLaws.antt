-- ===== src/Temporal/ZoneLaws.antt =====
-- Printing a timezone offset and reading it back.
use xb.Common.{
  ℕ, zero, suc, ◌+◌, ◌/◌, ◌%◌, ◌≤◌, ◌<◌, [], ◌∷◌, Option, none, some, Bool, true, false, ◌==◌, ◌||◌,
  if◌then◌else◌, ◌≡◌, refl, arith, ap,
}
use xb.Common.Int.{ℤ, pos, negsuc, ◌+ℤ◌, ◌-ℤ◌, ◌*ℤ◌, neg_ℤ, ltb_ℤ, eqb_ℤ, nat_abs}
use xb.Common.Casts.{i16, char_value, tdiv, tmod}
use xb.Common.Result.{ok}
use xb.Common.Text.{Bytes}
use xb.Temporal.Lexical.{
  TzResult, pair_value, tz_offset, tz_fields, parse_timezone, two_chars, tz_chars, format_timezone,
  drop,
}

-- Two characters that spell a number below 100 are read as that number.
two_chars-digits : (n : ℕ) → n < 100 → two_chars (pos n) ≡ (b'0' + n / 10) ∷ (b'0' + n % 10) ∷ []
unfolding two_chars tdiv tmod ◌+ℤ◌
two_chars-digits n h = ground arith

pair_value-digits : (n : ℕ) → n < 100 → pair_value (b'0' + n / 10) (b'0' + n % 10) ≡ pos n
unfolding pair_value
pair_value-digits n h =
    let high : char_value (b'0' + n / 10) -ℤ pos b'0' ≡ pos (n / 10) =
      unfold ◌-ℤ◌ in ground arith in
    let low : char_value (b'0' + n % 10) -ℤ pos b'0' ≡ pos (n % 10) = unfold ◌-ℤ◌ in ground arith in
    rw (high, low) (unfold ◌+ℤ◌ ◌*ℤ◌ in ground arith)

tz_chars-digits :
    (n : ℕ)
    → n ≤ 840
    → tz_chars (pos n)
      ≡ (b'0' + n / 60 / 10)
        ∷ (b'0' + n / 60 % 10)
        ∷ b':'
        ∷ (b'0' + n % 60 / 10)
        ∷ (b'0' + n % 60 % 10)
        ∷ []
unfolding tz_chars tdiv tmod
tz_chars-digits n h =
    rw (two_chars-digits (n / 60) (omega arith), two_chars-digits (n % 60) (omega arith))

tz_offset-small :
    (neg : Bool) (n : ℕ)
    → n ≤ 840
    → tz_offset neg (pos (n / 60)) (pos (n % 60))
      ≡ ok (record { offset_minutes = some (if neg then neg_ℤ (pos n) else pos n); consumed = 6 })
unfolding tz_offset
tz_offset-small neg n h =
    let whole : pos (n / 60) *ℤ pos 60 +ℤ pos (n % 60) ≡ pos n = unfold ◌+ℤ◌ ◌*ℤ◌ in ground arith in
    let word : i16 (pos n) ≡ pos n = ground arith in
    let back : i16 (neg_ℤ (pos n)) ≡ neg_ℤ (pos n) = unfold neg_ℤ in ground arith in
    rw (whole, word, back) (ground arith)

tz_fields-tz_chars :
    (neg : Bool) (n : ℕ)
    → n ≤ 840
    → tz_fields neg (tz_chars (pos n))
      ≡ ok (record { offset_minutes = some (if neg then neg_ℤ (pos n) else pos n); consumed = 6 })
unfolding tz_fields
tz_fields-tz_chars neg n h =
    rw
      (
        tz_chars-digits n h,
        pair_value-digits (n / 60) (omega arith),
        pair_value-digits (n % 60) (omega arith),
      )
      (tz_offset-small neg n h)

-- An offset of at most 14 hours, as `parse_timezone` returns it.
abbrev pub IsZone : Option ℤ → Type 0
IsZone none = Unit
IsZone (some z) = nat_abs z ≤ 840

-- The text that `parse_timezone` takes for a whole offset, and the offset that it returns.
pub record ReadsZone (s : Bytes) (tz : Option ℤ) : Type 0 where
  pub result : TzResult
  pub parsed : parse_timezone s ≡ ok result
  pub offset : result.offset_minutes ≡ tz
  pub all : drop result.consumed s ≡ []

zone_behind_sign :
    (c : ℕ) (neg : Bool) (n : ℕ) {z : ℤ}
    → (c == b'-') ≡ neg
    → (c == b'Z') ≡ false
    → ((c == b'+') || (c == b'-')) ≡ true
    → n ≤ 840
    → (if neg then neg_ℤ (pos n) else pos n) ≡ z
    → ReadsZone (c ∷ tz_chars (pos n)) (some z)
unfolding parse_timezone
zone_behind_sign c neg n e1 e2 e3 h e = record {
  result = record { offset_minutes = some (if neg then neg_ℤ (pos n) else pos n); consumed = 6 };
  parsed = rw (e2, e3, e1) (tz_fields-tz_chars neg n h);
  offset = ap some e;
  all = rw (tz_chars-digits n h);
}

-- `parse_timezone` takes all of what `format_timezone` appends for an offset of at most 14 hours
-- or none, and returns that offset.
pub parse-format_timezone : (tz : Option ℤ) → IsZone tz → ReadsZone (format_timezone tz) tz
unfolding format_timezone parse_timezone
parse-format_timezone none h = record {
  result = record { offset_minutes = none; consumed = 0 };
  parsed = refl;
  offset = refl;
  all = refl;
}
parse-format_timezone (some (pos zero)) h = record {
  result = record { offset_minutes = some (pos 0); consumed = 1 };
  parsed = refl;
  offset = refl;
  all = refl;
}
parse-format_timezone (some (pos (suc n))) h =
    let nonzero : eqb_ℤ (pos (suc n)) (pos 0) ≡ false = ground arith in
    let forward : ltb_ℤ (pos (suc n)) (pos 0) ≡ false = ground arith in
    rw (nonzero, forward) (zone_behind_sign b'+' false (suc n) refl refl refl h refl)
parse-format_timezone (some (negsuc n)) h =
    let nonzero : eqb_ℤ (negsuc n) (pos 0) ≡ false = ground arith in
    let backward : ltb_ℤ (negsuc n) (pos 0) ≡ true = ground arith in
    let positive : i16 (neg_ℤ (negsuc n)) ≡ pos (suc n) = unfold neg_ℤ in ground arith in
    let negative : neg_ℤ (pos (suc n)) ≡ negsuc n = unfold neg_ℤ in ground arith in
    rw (nonzero, backward, positive) (zone_behind_sign b'-' true (suc n) refl refl refl h negative)
