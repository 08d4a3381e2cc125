-- ===== src/Integer/Magnitude.antt =====
-- The helpers of src/lib/integer.cpp on magnitudes. A `std::vector<uint32_t>` is the list of its
-- limbs, the least significant first; a loop over indices is a recursion on the limbs.
use xb.Common.{
  ℕ, ◌+◌, ◌-◌, ◌*◌, ◌/◌, ◌%◌, compare, Ordering, List, [], ◌∷◌, length, replicate, ltb, ◌==◌,
  if◌then◌else◌,
}

-- 2^32, the number of values of a `uint32_t`.
abbrev pub limb_mod : ℕ
limb_mod = 4294967296

-- Arithmetic in `uint64_t` wraps around.
abbrev pub u64 : ℕ → ℕ
u64 n = n % 18446744073709551616

-- `while (!mag.empty() && mag.back() == 0) mag.pop_back();`
unfoldable pub keep_limb : ℕ → List ℕ → List ℕ
keep_limb x [] = if x == 0 then [] else x ∷ []
keep_limb x (y ∷ ys) = x ∷ y ∷ ys

unfoldable pub pop_zeros : List ℕ → List ℕ
unfolding keep_limb
pop_zeros [] = []
pop_zeros (x ∷ xs) = keep_limb x (pop_zeros xs)

-- `if (carry != 0) push_back(static_cast<uint32_t>(carry));`
unfoldable pub push_carry : ℕ → List ℕ
push_carry carry = if carry == 0 then [] else (carry % limb_mod) ∷ []

unfoldable pub mul10_limbs : List ℕ → ℕ → List ℕ
unfolding push_carry
mul10_limbs [] carry = push_carry carry
mul10_limbs (limb ∷ mag) carry =
    let product = u64 (limb * 10 + carry) in
    (product % limb_mod) ∷ mul10_limbs mag (product / limb_mod)

unfoldable pub magnitude_mul10_add : List ℕ → ℕ → List ℕ
unfolding mul10_limbs
magnitude_mul10_add mag digit = mul10_limbs mag digit

-- The two `if (i < size())` are the empty cases.
unfoldable pub add_limbs : List ℕ → List ℕ → ℕ → List ℕ
unfolding push_carry
add_limbs [] [] carry = push_carry carry
add_limbs [] (y ∷ b) carry =
    let sum = u64 (carry + y) in (sum % limb_mod) ∷ add_limbs [] b (sum / limb_mod)
add_limbs (x ∷ a) [] carry =
    let sum = u64 (carry + x) in (sum % limb_mod) ∷ add_limbs a [] (sum / limb_mod)
add_limbs (x ∷ a) (y ∷ b) carry =
    let sum = u64 (carry + x + y) in (sum % limb_mod) ∷ add_limbs a b (sum / limb_mod)

unfoldable pub magnitude_add : List ℕ → List ℕ → List ℕ
unfolding add_limbs
magnitude_add a b = add_limbs a b 0

-- The loop from the most significant limb down, on vectors of one size.
unfoldable pub limb_compare : ℕ → ℕ → Ordering → Ordering
limb_compare x y Ordering.lt = Ordering.lt
limb_compare x y Ordering.eq = compare x y
limb_compare x y Ordering.gt = Ordering.gt

unfoldable pub compare_limbs : List ℕ → List ℕ → Ordering
unfolding limb_compare
compare_limbs [] b = Ordering.eq
compare_limbs (x ∷ a) [] = Ordering.eq
compare_limbs (x ∷ a) (y ∷ b) = limb_compare x y (compare_limbs a b)

unfoldable pub size_first : Ordering → Ordering → Ordering
size_first Ordering.lt limbs = Ordering.lt
size_first Ordering.eq limbs = limbs
size_first Ordering.gt limbs = Ordering.gt

unfoldable pub magnitude_compare : List ℕ → List ℕ → Ordering
unfolding compare_limbs size_first
magnitude_compare a b = size_first (compare (length a) (length b)) (compare_limbs a b)

-- One limb of `magnitude_sub`: the difference in `uint64_t`, cut to 32 bits.
abbrev pub sub_limb : ℕ → ℕ → ℕ → ℕ
sub_limb ai bi borrow = u64 (ai + 18446744073709551616 - bi - borrow) % limb_mod

abbrev pub next_borrow : ℕ → ℕ → ℕ → ℕ
next_borrow ai bi borrow = if ltb ai (bi + borrow) then 1 else 0

unfoldable pub sub_limbs : List ℕ → List ℕ → ℕ → List ℕ
sub_limbs [] b borrow = []
sub_limbs (x ∷ a) [] borrow = sub_limb x 0 borrow ∷ sub_limbs a [] (next_borrow x 0 borrow)
sub_limbs (x ∷ a) (y ∷ b) borrow = sub_limb x y borrow ∷ sub_limbs a b (next_borrow x y borrow)

unfoldable pub magnitude_sub : List ℕ → List ℕ → List ℕ
unfolding sub_limbs pop_zeros
magnitude_sub a b = pop_zeros (sub_limbs a b 0)

-- The inner loop of `magnitude_mul`, on `result` from index `i` on, with the addition of the last
-- carry at index `i + b.size()`.
unfoldable pub mul_row : ℕ → List ℕ → List ℕ → ℕ → List ℕ
mul_row ai b [] carry = []
mul_row ai [] (r ∷ result) carry = ((r + carry % limb_mod) % limb_mod) ∷ result
mul_row ai (bj ∷ b) (r ∷ result) carry =
    let product = u64 (ai * bj + r + carry) in
    (product % limb_mod) ∷ mul_row ai b result (product / limb_mod)

-- The outer loop: a later round leaves the limbs below its index alone.
unfoldable pub mul_rows : List ℕ → List ℕ → List ℕ → List ℕ
unfolding mul_row
mul_rows [] b result = result
mul_rows (ai ∷ a) b result = elim (mul_row ai b result 0) [
  | [] ↦ []
  | r ∷ rest ↦ r ∷ mul_rows a b rest
]

unfoldable pub magnitude_mul : List ℕ → List ℕ → List ℕ
unfolding mul_rows pop_zeros
magnitude_mul [] b = []
magnitude_mul (x ∷ a) [] = []
magnitude_mul (x ∷ a) (y ∷ b) =
    pop_zeros (mul_rows (x ∷ a) (y ∷ b) (replicate (length (x ∷ a) + length (y ∷ b)) 0))
