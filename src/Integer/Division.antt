-- ===== src/Integer/Division.antt =====
-- `magnitude_divmod` is division with remainder.
use xb.Common.{
  ℕ, zero, suc, ◌+◌, ◌*◌, ◌/◌, ◌%◌, ◌≤◌, ◌<◌, compare, Ordering, List, [], ◌∷◌, ◌≡◌, ◌∙◌, refl, sym,
  arith, ap,
}
use xb.Common.Result.{ok}
use xb.Integer.Magnitude.{pop_zeros, magnitude_compare, magnitude_sub}
use xb.Integer.Value.{
  value, IsLimbs, IsTrimmed, value-pop_zeros, pop_zeros-IsLimbs, pop_zeros-IsTrimmed,
}
use xb.Integer.AddSub.{value-magnitude_sub}
use xb.Integer.Compare.{compare-value}
use xb.Integer.Divmod.{
  set_bit, next_quotient, next_remainder, shift_in, shift_limbs, bit_at, div_bits, divmod_branch,
  total_bits, magnitude_divmod,
}
use xb.Integer.Bits.{place, below, place_step, below_step, bit_at-le, below-total_bits}
use xb.Integer.SetBit.{
  ClearBelow, ClearBelow-next, value-set_bit, set_bit-IsLimbs, set_bit-ClearBelow,
}
use xb.Integer.Shift.{
  Extends, value-shift_limbs, shift_limbs-IsTrimmed, shift_limbs-EvenHead, set_low-Extends,
}

shift_in-Extends :
    (a r : List ℕ) (i : ℕ)
    → IsLimbs r
    → IsTrimmed r
    → Extends (shift_in a r i) (2 * value r + bit_at a (i / 32) (i % 32))
unfolding shift_in
shift_in-Extends a r i l t =
    let bit = bit_at a (i / 32) (i % 32) in
    let (v, l') = value-shift_limbs r 0 l (omega arith) in
    let e =
      set_low-Extends (shift_limbs r 0) bit (bit_at-le a (i / 32) (i % 32)) (shift_limbs-EvenHead r)
        l' (shift_limbs-IsTrimmed r 0 l (omega arith) t) in
    record { number = omega (arith, e.number, v); limbs = e.limbs; trimmed = e.trimmed }

-- A quotient and a remainder at bit `i`, which together stand for `total`.
record Divides (b q r : List ℕ) (i total : ℕ) : Type 0 where
  pub quotient_limbs : IsLimbs q
  pub clear : ClearBelow q i
  pub limbs : IsLimbs r
  pub trimmed : IsTrimmed r
  pub smaller : value r < value b
  pub sum : value q * value b + value r * place i ≡ total

subtract :
    (b q r : List ℕ) (i v total : ℕ)
    → IsLimbs b
    → IsLimbs q
    → ClearBelow q (suc i)
    → Extends r v
    → v < 2 * value b
    → value b ≤ v
    → value q * value b + v * place i ≡ total
    → Divides b (set_bit q (i / 32) (i % 32)) (magnitude_sub r b) i total
subtract b q r i v total lb lq cl x bound le s =
    let (d, l, t) = value-magnitude_sub r b x.limbs lb (omega (arith, x.number)) in
    let bit = value-set_bit q (i / 32) (i % 32) cl in
    let less : value (magnitude_sub r b) + value b ≡ v = d ∙ x.number in
    record {
      quotient_limbs = set_bit-IsLimbs q (i / 32) (i % 32) (omega arith) cl lq;
      clear = set_bit-ClearBelow q i cl;
      limbs = l;
      trimmed = t;
      smaller = omega (arith, less);
      sum = rw bit (omega (arith, s, ap (λ (t : ℕ). t * place i) less));
    }

-- One round, for each outcome of the comparison.
round :
    (b q r : List ℕ) (c : Ordering) (i v total : ℕ)
    → IsLimbs b
    → IsLimbs q
    → ClearBelow q (suc i)
    → Extends r v
    → v < 2 * value b
    → compare v (value b) ≡ c
    → value q * value b + v * place i ≡ total
    → Divides b (next_quotient c q i) (next_remainder c r b) i total
unfolding next_quotient next_remainder
round b q r Ordering.lt i v total lb lq cl x bound e s = record {
  quotient_limbs = lq;
  clear = ClearBelow-next q i cl;
  limbs = x.limbs;
  trimmed = x.trimmed;
  smaller = ground (arith, x.number);
  sum = rw x.number s;
}
round b q r Ordering.eq i v total lb lq cl x bound e s =
    subtract b q r i v total lb lq cl x bound (ground arith) s
round b q r Ordering.gt i v total lb lq cl x bound e s =
    subtract b q r i v total lb lq cl x bound (ground arith) s

below-zero : (a : List ℕ) → below a 0 ≡ 0
below-zero [] = refl
below-zero (x ∷ a) = omega arith

ClearBelow-nil : (i : ℕ) → ClearBelow [] i
ClearBelow-nil zero = tt
ClearBelow-nil (suc i) = tt

-- The loop from bit `i` down adds the bits of `a` below `i`.
div_bits-Divides :
    (i : ℕ) (a b q r : List ℕ) (total : ℕ)
    → IsLimbs a
    → IsLimbs b
    → IsTrimmed b
    → Divides b q r i total
    → Divides b (div_bits i a b q r).0 (div_bits i a b q r).1 0 (total + below a i)
unfolding div_bits
div_bits-Divides zero a b q r total la lb tb d =
    let none : total + below a 0 ≡ total = omega (arith, below-zero a) in rw none d
div_bits-Divides (suc i) a b q r total la lb tb d =
    let x = shift_in-Extends a r i d.limbs d.trimmed in
    let bit = bit_at a (i / 32) (i % 32) in
    let v = 2 * value r + bit in
    let moved : value q * value b + v * place i ≡ total + bit * place i =
      omega (arith, d.sum, ap (λ (t : ℕ). value r * t) (place_step i)) in
    let bound : v < 2 * value b = omega (arith, d.smaller, bit_at-le a (i / 32) (i % 32)) in
    let c = magnitude_compare (shift_in a r i) b in
    let compared : compare v (value b) ≡ c = sym (
      compare-value (shift_in a r i) b x.limbs lb x.trimmed tb
      ∙ ap (λ t. compare t (value b)) x.number) in
    let next =
      round b q (shift_in a r i) c i v _ lb d.quotient_limbs d.clear x bound compared moved in
    let rest : total + bit * place i + below a i ≡ total + below a (suc i) =
      omega (arith, below_step a i la) in
    rw rest at (
      div_bits-Divides i a b (next_quotient c q i) (next_remainder c (shift_in a r i) b)
        (total + bit * place i) la lb tb next)

-- The results of `magnitude_divmod`, for every divisor but zero: the quotient and the remainder.
pub record Quotient (a b : List ℕ) (qr : List ℕ × List ℕ) : Type 0 where
  pub quotient_limbs : IsLimbs qr.0
  pub quotient_trimmed : IsTrimmed qr.0
  pub remainder_limbs : IsLimbs qr.1
  pub remainder_trimmed : IsTrimmed qr.1
  pub smaller : value qr.1 < value b
  pub sum : value qr.0 * value b + value qr.1 ≡ value a

divmod_by_order :
    (a b : List ℕ) (c : Ordering)
    → IsLimbs a
    → IsLimbs b
    → IsTrimmed a
    → IsTrimmed b
    → 0 < value b
    → compare (value a) (value b) ≡ c
    → (qr : List ℕ × List ℕ) × (divmod_branch a b c ≡ ok qr) × Quotient a b qr
unfolding divmod_branch
divmod_by_order a b Ordering.lt la lb ta tb p e = (
  ([], a),
  refl,
  record {
    quotient_limbs = tt;
    quotient_trimmed = tt;
    remainder_limbs = la;
    remainder_trimmed = ta;
    smaller = ground arith;
    sum = omega arith;
  },
)
divmod_by_order a b Ordering.eq la lb ta tb p e = (
  (1 ∷ [], []),
  refl,
  record {
    quotient_limbs = omega arith;
    quotient_trimmed = omega arith;
    remainder_limbs = tt;
    remainder_trimmed = tt;
    smaller = p;
    sum = ground arith;
  },
)
divmod_by_order a b Ordering.gt la lb ta tb p e =
    let start : Divides b [] [] (total_bits a) 0 = record {
      quotient_limbs = tt;
      clear = ClearBelow-nil (total_bits a);
      limbs = tt;
      trimmed = tt;
      smaller = p;
      sum = omega arith;
    } in
    let d = div_bits-Divides (total_bits a) a b [] [] 0 la lb tb start in
    let (q, r) = div_bits (total_bits a) a b [] [] in
    (
      (pop_zeros q, r),
      refl,
      record {
        quotient_limbs = pop_zeros-IsLimbs q d.quotient_limbs;
        quotient_trimmed = pop_zeros-IsTrimmed q;
        remainder_limbs = d.limbs;
        remainder_trimmed = d.trimmed;
        smaller = d.smaller;
        sum = rw value-pop_zeros (omega (arith, d.sum, below-total_bits a la));
      },
    )

-- For magnitudes of 32-bit limbs without leading zero limbs and a divisor above 0,
-- `magnitude_divmod` returns a quotient and a remainder in the same form, with dividend = quotient
-- * divisor + remainder and the remainder below the divisor.
pub magnitude_divmod-Quotient :
    (a b : List ℕ)
    → IsLimbs a
    → IsLimbs b
    → IsTrimmed a
    → IsTrimmed b
    → 0 < value b
    → (qr : List ℕ × List ℕ) × (magnitude_divmod a b ≡ ok qr) × Quotient a b qr
unfolding magnitude_divmod
magnitude_divmod-Quotient a [] la lb ta tb p = absurd (omega arith)
magnitude_divmod-Quotient a (y ∷ b) la lb ta tb p =
    divmod_by_order a (y ∷ b) (magnitude_compare a (y ∷ b)) la lb ta tb p
      (sym (compare-value a (y ∷ b) la lb ta tb))
