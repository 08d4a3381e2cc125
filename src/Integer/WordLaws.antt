-- ===== src/Integer/WordLaws.antt =====
-- The conversions between `integer` and 64-bit words keep the number, and throw where it does not fit.
use xb.Common.{
  ℕ, zero, suc, ◌+◌, ◌*◌, ◌^◌, ◌≤◌, ◌<◌, List, [], ◌∷◌, Bool, true, false, leb, ◌&&◌, if◌then◌else◌,
  ◌≡◌, ◌∙◌, refl, arith, ap, Bool-cases, suc-eq-zero, inl, inr,
}
use xb.Common.Bits.{bit_or-disjoint}
use xb.Common.Int.{ℤ, pos, negsuc, pos_part, neg_part, nat_abs}
use xb.Integer.Truncated.{nat_abs-signed}
use xb.Common.Result.{ok, err, overflow_error}
use xb.Integer.Magnitude.{limb_mod, u64}
use xb.Integer.Value.{value, IsLimbs, IsTrimmed, value-pos}
use xb.Integer.Ops.{Sign, positive, negative, Integer, is_empty}
use xb.Integer.Words.{
  limbs_of_u64, of_u64, of_i64, low64, over_two, signed_word, to_i64, unsigned_word, to_u64,
}
use xb.Integer.Ring.{signed, to_ℤ, IsInteger, zero_integer-IsInteger}

limbs_of_u64-value :
    (v : ℕ)
    → 0 < v
    → v < 18446744073709551616
    → (value (limbs_of_u64 v) ≡ v) × IsLimbs (limbs_of_u64 v) × IsTrimmed (limbs_of_u64 v)
unfolding limbs_of_u64
limbs_of_u64-value v h k = ground arith

-- The values of an `int64_t` and of a `uint64_t`.
abbrev pub in_i64 : ℤ → Bool
in_i64 z = leb (pos_part z) 9223372036854775807 && leb (neg_part z) 9223372036854775808

abbrev pub in_u64 : ℤ → Bool
in_u64 z = leb (pos_part z) 18446744073709551615 && leb (neg_part z) 0

of_word :
    (s : Sign) (v : ℕ) {z : ℤ}
    → 0 < v
    → v < 18446744073709551616
    → signed s v ≡ z
    → IsInteger (record { sign = s; magnitude = limbs_of_u64 v })
      × (to_ℤ (record { sign = s; magnitude = limbs_of_u64 v }) ≡ z)
of_word s v h k e =
    let (n, l, t) = limbs_of_u64-value v h k in
    (
      record { limbs = l; trimmed = t; no_negative_zero = λ z. absurd (omega arith) },
      ap (signed s) n ∙ e,
    )

-- The constructor from an `int64_t` returns a well-formed integer of the same number, for each
-- number from -2^63 to 2^63 - 1.
pub of_i64-value : (z : ℤ) → in_i64 z ≡ true → IsInteger (of_i64 z) × (to_ℤ (of_i64 z) ≡ z)
unfolding of_i64
of_i64-value (pos zero) h = (zero_integer-IsInteger, refl)
of_i64-value (pos (suc v)) h =
    rw suc-eq-zero (of_word positive (suc v) (omega arith) (ground arith) refl)
of_i64-value (negsuc n) h =
    let fits : u64 (n + 1) ≡ suc n = ground arith in
    rw fits (of_word negative (suc n) (omega arith) (ground arith) (ground arith))

-- `integer(uint64_t)` keeps the number, for every `uint64_t`.
pub of_u64-value :
    (v : ℕ) → v < 18446744073709551616 → IsInteger (of_u64 v) × (to_ℤ (of_u64 v) ≡ pos v)
unfolding of_u64
of_u64-value zero h = (zero_integer-IsInteger, refl)
of_u64-value (suc v) h = rw suc-eq-zero (of_word positive (suc v) (omega arith) h refl)

low64-value :
    (m : List ℕ)
    → IsLimbs m
    → over_two m ≡ false
    → (low64 m ≡ value m) × (value m < 18446744073709551616)
unfolding low64 over_two
low64-value [] l h = (refl, omega arith)
low64-value (x ∷ []) l h = (omega arith, omega arith)
low64-value (x ∷ y ∷ []) l h =
    let fits : u64 (y * limb_mod) ≡ y * 2 ^ 32 = omega arith in
    (rw fits (bit_or-disjoint 32 y x l.0 ∙ omega arith), omega arith)
low64-value (x ∷ y ∷ z ∷ m) l h = cc

over_two-value : (m : List ℕ) → IsTrimmed m → over_two m ≡ true → 18446744073709551616 ≤ value m
unfolding over_two
over_two-value [] t h = cc
over_two-value (x ∷ []) t h = cc
over_two-value (x ∷ y ∷ []) t h = cc
over_two-value (x ∷ y ∷ z ∷ m) t h = omega (arith, value-pos z m t)

to_i64-parts :
    (s : Sign) (m : List ℕ)
    → IsInteger (record { sign = s; magnitude = m })
    → to_i64 (record { sign = s; magnitude = m })
      ≡ (if in_i64 (signed s (value m)) then ok (signed s (value m)) else err overflow_error)
unfolding to_i64 signed_word is_empty
to_i64-parts s [] v = ground (arith, v.no_negative_zero refl)
to_i64-parts s (x ∷ m) v = elim (Bool-cases (over_two (x ∷ m))) [
  | inl big ↦ let large = over_two-value (x ∷ m) v.trimmed big in ground arith
  | inr small ↦
      let (w, b) = low64-value (x ∷ m) v.limbs small in ground (arith, value-pos x m v.trimmed)
]

-- The conversion of a well-formed integer to `int64_t` returns its number if that is from -2^63 to
-- 2^63 - 1, and otherwise throws `overflow_error`.
pub to_i64-value :
    (x : Integer)
    → IsInteger x
    → to_i64 x ≡ (if in_i64 (to_ℤ x) then ok (to_ℤ x) else err overflow_error)
to_i64-value x v = to_i64-parts x.sign x.magnitude v

to_u64-parts :
    (s : Sign) (m : List ℕ)
    → IsInteger (record { sign = s; magnitude = m })
    → to_u64 (record { sign = s; magnitude = m })
      ≡ (if in_u64 (signed s (value m)) then ok (value m) else err overflow_error)
unfolding to_u64 unsigned_word is_empty
to_u64-parts s [] v = ground (arith, v.no_negative_zero refl)
to_u64-parts s (x ∷ m) v = elim (Bool-cases (over_two (x ∷ m))) [
  | inl big ↦ let large = over_two-value (x ∷ m) v.trimmed big in ground arith
  | inr small ↦
      let (w, b) = low64-value (x ∷ m) v.limbs small in ground (arith, value-pos x m v.trimmed)
]

-- The conversion of a well-formed integer to `uint64_t` returns its number if that is from 0 to
-- 2^64 - 1, and otherwise throws `overflow_error`.
pub to_u64-value :
    (x : Integer)
    → IsInteger x
    → to_u64 x ≡ (if in_u64 (to_ℤ x) then ok (nat_abs (to_ℤ x)) else err overflow_error)
to_u64-value x v = rw nat_abs-signed (to_u64-parts x.sign x.magnitude v)
