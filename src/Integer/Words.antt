-- ===== src/Integer/Words.antt =====
-- The conversions between `integer` and the 64-bit words in src/lib/integer.cpp.
use Prim.Native.Nat.{bit_or}
use xb.Common.{
  ℕ, ◌+◌, ◌-◌, ◌*◌, ◌/◌, ◌%◌, List, [], ◌∷◌, Bool, true, false, ltb, ◌==◌, if◌then◌else◌,
}
use xb.Common.Int.{ℤ, pos, negsuc}
use xb.Common.Result.{Result, ok, err, overflow_error}
use xb.Integer.Magnitude.{limb_mod, u64}
use xb.Integer.Ops.{Sign, positive, negative, Integer, zero_integer, is_empty}

-- The one or two limbs of a `uint64_t` that is not zero.
unfoldable pub limbs_of_u64 : ℕ → List ℕ
limbs_of_u64 v =
    let high = v / limb_mod % limb_mod in
    if high == 0 then (v % limb_mod) ∷ [] else (v % limb_mod) ∷ high ∷ []

-- `integer(uint64_t)`
unfoldable pub of_u64 : ℕ → Integer
unfolding limbs_of_u64
of_u64 v = if v == 0 then zero_integer else record { sign = positive; magnitude = limbs_of_u64 v }

-- `integer(int64_t)`; for a negative value, `-(value + 1)` is `n` where the value is `negsuc n`.
unfoldable pub of_i64 : ℤ → Integer
unfolding limbs_of_u64
of_i64 (pos v) =
    if v == 0 then zero_integer else record { sign = positive; magnitude = limbs_of_u64 v }
of_i64 (negsuc n) = record { sign = negative; magnitude = limbs_of_u64 (u64 (n + 1)) }

-- `magnitude_[0]`, and `magnitude_[1] << 32` where there is a second limb
unfoldable pub low64 : List ℕ → ℕ
low64 [] = 0
low64 (x ∷ []) = x
low64 (x ∷ y ∷ m) = bit_or (u64 (y * limb_mod)) x

-- `magnitude_.size() > 2`
unfoldable pub over_two : List ℕ → Bool
over_two [] = false
over_two (x ∷ []) = false
over_two (x ∷ y ∷ []) = false
over_two (x ∷ y ∷ z ∷ m) = true

-- `operator int64_t`
unfoldable pub signed_word : Sign → ℕ → Result ℤ
signed_word negative v =
    if ltb 9223372036854775808 v then err overflow_error else ok (negsuc (v - 1))
signed_word positive v = if ltb 9223372036854775807 v then err overflow_error else ok (pos v)

unfoldable pub to_i64 : Integer → Result ℤ
unfolding low64 over_two signed_word is_empty
to_i64 x =
    if is_empty x.magnitude
    then ok (pos 0)
    else if over_two x.magnitude
    then err overflow_error
    else signed_word x.sign (low64 x.magnitude)

-- `operator uint64_t`
unfoldable pub unsigned_word : Sign → List ℕ → Result ℕ
unfolding low64 over_two
unsigned_word negative m = err overflow_error
unsigned_word positive m = if over_two m then err overflow_error else ok (low64 m)

unfoldable pub to_u64 : Integer → Result ℕ
unfolding unsigned_word is_empty
to_u64 x = if is_empty x.magnitude then ok 0 else unsigned_word x.sign x.magnitude
