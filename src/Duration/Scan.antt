-- ===== src/Duration/Scan.antt =====
-- Readers and printers that the duration types share.
use xb.Common.{
  ℕ, ◌+◌, ◌-◌, ◌*◌, [], ◌∷◌, ◌++◌, Bool, true, false, ltb, ◌==◌, ◌||◌, not, if◌then◌else◌,
}
use xb.Common.Int.{ℤ, pos, negsuc, nat_abs, ltb_ℤ}
use xb.Common.Result.{Result, ok, err, undefined}
use xb.Common.Text.{Bytes, is_digit, to_string}

-- The digits at the front of a text, and what follows them.
unfoldable pub digit_run : Bytes → Bytes × Bytes
digit_run [] = ([], [])
digit_run (c ∷ s) = let run = digit_run s in if is_digit c then (c ∷ run.0, run.1) else ([], c ∷ s)

-- `for (char c : num_str) value = value * 10 + (c - '0')` in `int64_t`, where an overflow is undefined
unfoldable pub number_from : ℕ → Bytes → Result ℕ
number_from value [] = ok value
number_from value (c ∷ s) =
    let next = value * 10 + (c - b'0') in
    let more = number_from next s in if ltb 9223372036854775807 next then err undefined else more

-- `pos < str.size() && str[pos] >= '0' && str[pos] <= '9'`
unfoldable pub starts_digit : Bytes → Bool
starts_digit [] = false
starts_digit (c ∷ s) = is_digit c

-- `str.find(c) != npos`
unfoldable pub has_byte : ℕ → Bytes → Bool
has_byte c [] = false
has_byte c (d ∷ s) = d == c || has_byte c s

-- A computed value of type `int32_t` or `int64_t`; out of its range the computation is undefined.
unfoldable pub checked_i32 : ℤ → Result ℤ
checked_i32 (pos n) = if ltb 2147483647 n then err undefined else ok (pos n)
checked_i32 (negsuc n) = if ltb 2147483647 n then err undefined else ok (negsuc n)

unfoldable pub checked_i64 : ℕ → Result ℕ
checked_i64 n = if ltb 9223372036854775807 n then err undefined else ok n

-- `std::to_string` of a signed number
unfoldable pub int_text : ℤ → Bytes
int_text n = (if ltb_ℤ n (pos 0) then b'-' ∷ [] else []) ++ to_string (nat_abs n)

-- The `-` in front of a text, and the text behind it.
unfoldable pub minus_sign : Bytes → Bool × Bytes
minus_sign [] = (false, [])
minus_sign (c ∷ s) = if c == b'-' then (true, s) else (false, c ∷ s)

-- `a == b` of two `bool`
unfoldable pub same_bool : Bool → Bool → Bool
same_bool true b = b
same_bool false b = not b
