-- ===== src/Integer/Divmod.antt =====
-- `magnitude_divmod` of src/lib/integer.cpp: shift-and-subtract binary long division.
use Prim.Native.Nat.{bit_or}
use xb.Common.{ℕ, zero, suc, ◌+◌, ◌*◌, ◌/◌, ◌%◌, ◌^◌, Ordering, List, [], ◌∷◌, ◌==◌, if◌then◌else◌}
use xb.Common.Result.{Result, ok, err, domain_error}
use xb.Integer.Magnitude.{limb_mod, push_carry, pop_zeros, magnitude_compare, magnitude_sub}

-- `while (top != 0) { ++a_bits; top >>= 1; }`, with fuel above `top`
unfoldable pub bit_length : ℕ → ℕ → ℕ
bit_length zero top = 0
bit_length (suc f) top = let more = suc (bit_length f (top / 2)) in if top == 0 then 0 else more

-- `(a.size() - 1) * 32` and the bits of `a.back()`
unfoldable pub total_bits : List ℕ → ℕ
unfolding bit_length
total_bits [] = 0
total_bits (x ∷ []) = bit_length (suc x) x
total_bits (x ∷ y ∷ a) = 32 + total_bits (y ∷ a)

-- Left-shift of the remainder by one bit.
unfoldable pub shift_limbs : List ℕ → ℕ → List ℕ
unfolding push_carry
shift_limbs [] carry = push_carry carry
shift_limbs (limb ∷ r) carry =
    bit_or (limb * 2 % limb_mod) carry ∷ shift_limbs r (limb / 2147483648)

-- `(a[i / 32] >> (i % 32)) & 1`, at limb `n` and place `k`
unfoldable pub bit_at : List ℕ → ℕ → ℕ → ℕ
bit_at [] n k = 0
bit_at (x ∷ a) zero k = x / 2 ^ k % 2
bit_at (x ∷ a) (suc n) k = bit_at a n k

-- `remainder[0] |= a_bit`, or `push_back` of a set bit
unfoldable pub set_low : List ℕ → ℕ → List ℕ
set_low [] bit = if bit == 0 then [] else bit ∷ []
set_low (x ∷ r) bit = bit_or x bit ∷ r

-- `quotient.resize(n + 1, 0)` where it is shorter, and `quotient[n] |= 1 << k`
unfoldable pub set_bit : List ℕ → ℕ → ℕ → List ℕ
set_bit [] zero k = bit_or 0 (2 ^ k) ∷ []
set_bit [] (suc n) k = 0 ∷ set_bit [] n k
set_bit (q ∷ quotient) zero k = bit_or q (2 ^ k) ∷ quotient
set_bit (q ∷ quotient) (suc n) k = q ∷ set_bit quotient n k

-- `for (auto i = a_bits; i-- > 0;)`; `keep` is the test that the remainder is below `b`.
unfoldable pub next_quotient : Ordering → List ℕ → ℕ → List ℕ
unfolding set_bit
next_quotient Ordering.lt quotient i = quotient
next_quotient Ordering.eq quotient i = set_bit quotient (i / 32) (i % 32)
next_quotient Ordering.gt quotient i = set_bit quotient (i / 32) (i % 32)

unfoldable pub next_remainder : Ordering → List ℕ → List ℕ → List ℕ
next_remainder Ordering.lt r b = r
next_remainder Ordering.eq r b = magnitude_sub r b
next_remainder Ordering.gt r b = magnitude_sub r b

-- The remainder with bit `i` of `a` shifted in.
unfoldable pub shift_in : List ℕ → List ℕ → ℕ → List ℕ
unfolding shift_limbs set_low bit_at
shift_in a r i = set_low (shift_limbs r 0) (bit_at a (i / 32) (i % 32))

unfoldable pub div_bits : ℕ → List ℕ → List ℕ → List ℕ → List ℕ → List ℕ × List ℕ
unfolding next_quotient next_remainder shift_in magnitude_compare magnitude_sub
div_bits zero a b quotient remainder = (quotient, remainder)
div_bits (suc i) a b quotient remainder =
    let r = shift_in a remainder i in
    let c = magnitude_compare r b in
    div_bits i a b (next_quotient c quotient i) (next_remainder c r b)

-- The result is `{quotient, remainder}`.
unfoldable pub divmod_branch : List ℕ → List ℕ → Ordering → Result (List ℕ × List ℕ)
unfolding div_bits total_bits pop_zeros
divmod_branch a b Ordering.lt = ok ([], a)
divmod_branch a b Ordering.eq = ok (1 ∷ [], [])
divmod_branch a b Ordering.gt =
    let (quotient, remainder) = div_bits (total_bits a) a b [] [] in
    ok (pop_zeros quotient, remainder)

unfoldable pub magnitude_divmod : List ℕ → List ℕ → Result (List ℕ × List ℕ)
unfolding divmod_branch magnitude_compare
magnitude_divmod a [] = err domain_error
magnitude_divmod a (y ∷ b) = divmod_branch a (y ∷ b) (magnitude_compare a (y ∷ b))
