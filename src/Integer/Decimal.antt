-- ===== src/Integer/Decimal.antt =====
-- `integer(std::string_view)` and `integer::to_string` of src/lib/integer.cpp.
use xb.Common.{ℕ, zero, suc, ◌+◌, ◌-◌, ◌*◌, ◌/◌, ◌%◌, List, [], ◌∷◌, ◌==◌, if◌then◌else◌}
use xb.Common.Result.{Result, ok, err, ◌>>=◌, invalid_argument}
use xb.Common.Text.{Bytes, codes, is_digit}
use xb.Integer.Magnitude.{limb_mod, u64, pop_zeros, magnitude_mul10_add}
use xb.Integer.Value.{value}
use xb.Integer.Ops.{Sign, positive, negative, Integer, normalize_sign}

-- The digits of the text, checked and added one by one.
unfoldable pub scan_digits : Bytes → List ℕ → Result (List ℕ)
unfolding magnitude_mul10_add
scan_digits [] mag = ok mag
scan_digits (c ∷ s) mag =
    if is_digit c then scan_digits s (magnitude_mul10_add mag (c - b'0')) else err invalid_argument

unfoldable pub of_digits : Sign → Bytes → Result Integer
unfolding scan_digits pop_zeros normalize_sign
of_digits s [] = err invalid_argument
of_digits s (c ∷ cs) = do mag ← scan_digits (c ∷ cs) []; ok (normalize_sign s (pop_zeros mag))

-- `integer(std::string_view)`
unfoldable pub of_string : Bytes → Result Integer
unfolding of_digits
of_string [] = err invalid_argument
of_string (c ∷ s) =
    if c == b'-'
    then of_digits negative s
    else if c == b'+'
    then of_digits positive s
    else of_digits positive (c ∷ s)

-- One division of a magnitude by ten, from the most significant limb down. `remainder << 32` has no
-- bit below 32, where the limb's bits are.
unfoldable pub div10 : List ℕ → List ℕ × ℕ
div10 [] = ([], 0)
div10 (x ∷ mag) =
    let (q, remainder) = div10 mag in
    let cur = u64 (remainder * limb_mod) + x in ((cur / 10 % limb_mod) ∷ q, cur % 10)

-- `while (!mag.empty())`: `out` is `digits` read backwards. Fuel above the value is enough.
unfoldable pub print_digits : ℕ → List ℕ → Bytes → Bytes
unfolding div10 pop_zeros
print_digits zero mag out = out
print_digits (suc f) [] out = out
print_digits (suc f) (x ∷ mag) out =
    let (q, remainder) = div10 (x ∷ mag) in print_digits f (pop_zeros q) ((b'0' + remainder) ∷ out)

unfoldable pub sign_text : Sign → Bytes → Bytes
sign_text positive out = out
sign_text negative out = b'-' ∷ out

unfoldable pub to_string : Integer → Bytes
unfolding print_digits sign_text
to_string x = elim x.magnitude [
  | [] ↦ codes "0"
  | y ∷ mag ↦ sign_text x.sign (print_digits (suc (value x.magnitude)) x.magnitude [])
]
