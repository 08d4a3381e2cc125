-- ===== src/Common/Text.antt =====
-- Texts as lists of bytes, and the decimal print of a natural number, as `std::to_string` writes it.
use Prim.Native.Nat.{ℕ, zero, suc, ◌+◌, ◌-◌, ◌*◌, ◌/◌, ◌%◌, ◌^◌, ◌≤◌, ◌<◌}
use Prim.Native.Char.{code}
use Prim.Native.String.{String}
use mathlib.Core.Path.{◌≡◌, refl}
use mathlib.Core.Logic.{◌≢◌}
use mathlib.Core.Bool.{Bool, ◌&&◌}
use mathlib.Core.List.{List, [], ◌∷◌, ◌++◌}
use native.Mathlib.Omega.{arith}
use native.Mathlib.Nat.{pow-suc}
use mathlib.Core.Logic.{inl, inr}
use xb.Common.Tests.{ltb, leb, ltb→le, if◌then◌else◌, Bool-cases}
use xb.Common.Lists.{length, replicate, All}

abbrev pub Bytes : Type 0
Bytes = List ℕ

-- The code points of a literal; these are its bytes when the text is ASCII.
abbrev pub codes : String → Bytes
codes String.[] = []
codes (String.◌∷◌ c s) = code c ∷ codes s

-- `c >= '0' && c <= '9'`
abbrev pub is_digit : ℕ → Bool
is_digit c = leb b'0' c && leb c b'9'

abbrev pub IsDigit : ℕ → Type 0
IsDigit c = (b'0' ≤ c) × (c ≤ b'9')

-- The number that digits spell behind `n`.
abbrev pub decimal : ℕ → Bytes → ℕ
decimal n [] = n
decimal n (c ∷ s) = decimal (n * 10 + (c - b'0')) s

-- The digits of `n` in front of `out`. Fuel above `n` is enough.
unfoldable pub digits : ℕ → ℕ → Bytes → Bytes
digits zero n out = out
digits (suc f) n out =
    let rest = digits f (n / 10) ((b'0' + n % 10) ∷ out) in
    if ltb n 10 then (b'0' + n) ∷ out else rest

unfoldable pub to_string : ℕ → Bytes
unfolding digits
to_string n = digits (suc n) n []

decimal-digits : (f n : ℕ) (out : Bytes) → n < f → decimal 0 (digits f n out) ≡ decimal n out
unfolding digits
decimal-digits zero n out h = absurd (omega arith)
decimal-digits (suc f) n out h = ground (arith, decimal-digits f (n / 10) ((b'0' + n % 10) ∷ out))

digits-IsDigit : (f n : ℕ) (out : Bytes) → All IsDigit out → All IsDigit (digits f n out)
unfolding digits
digits-IsDigit zero n out h = h
digits-IsDigit (suc f) n out h = ground (arith, digits-IsDigit f (n / 10) ((b'0' + n % 10) ∷ out))

digits-ne-nil : (f n : ℕ) (out : Bytes) → out ≢ [] → digits f n out ≢ []
unfolding digits
digits-ne-nil zero n out h = h
digits-ne-nil (suc f) n out h = ground (arith, digits-ne-nil f (n / 10) ((b'0' + n % 10) ∷ out))

-- Reading the print of `n` gives `n`.
pub decimal-to_string : (n : ℕ) → decimal 0 (to_string n) ≡ n
unfolding to_string
decimal-to_string n = decimal-digits (suc n) n [] (omega arith)

pub to_string-IsDigit : (n : ℕ) → All IsDigit (to_string n)
unfolding to_string
to_string-IsDigit n = digits-IsDigit (suc n) n [] tt

pub to_string-ne-nil : (n : ℕ) → to_string n ≢ []
unfolding to_string
to_string-ne-nil n = ground (arith, digits-ne-nil n (n / 10) ((b'0' + n % 10) ∷ []))

length-digits :
    (f n k : ℕ) (out : Bytes) → n < 10 ^ k → 0 < k → length (digits f n out) ≤ k + length out
unfolding digits
length-digits zero n k out h p = omega arith
length-digits (suc f) n zero out h p = absurd (omega arith)
length-digits (suc f) n (suc k) out h p = elim (Bool-cases (ltb n 10)) [
  | inl small ↦ rw small (omega arith)
  | inr big ↦
      let p10 = pow-suc 10 k in
      let many : 10 ≤ n = ltb→le n 10 big in
      let more : 0 < k = two_digits_room n k h many in
      rw big (
        omega (arith, length-digits f (n / 10) k ((b'0' + n % 10) ∷ out) (omega (arith, p10)) more))
]
  where
    two_digits_room : (n k : ℕ) → n < 10 ^ suc k → 10 ≤ n → 0 < k
    two_digits_room n zero h m = absurd (omega arith)
    two_digits_room n (suc k) h m = omega arith

-- A number below 10^k is printed in at most `k` digits.
pub length-to_string : (n k : ℕ) → n < 10 ^ k → 0 < k → length (to_string n) ≤ k
unfolding to_string
length-to_string n k h p = omega (arith, length-digits (suc n) n k [] h p)

pub replicate-IsDigit : (k : ℕ) → All IsDigit (replicate k b'0')
replicate-IsDigit zero = tt
replicate-IsDigit (suc k) = (omega arith, replicate-IsDigit k)

-- Leading zeros change nothing.
pub decimal-zeros : (k : ℕ) (s : Bytes) → decimal 0 (replicate k b'0' ++ s) ≡ decimal 0 s
decimal-zeros zero s = refl
decimal-zeros (suc k) s = decimal-zeros k s
