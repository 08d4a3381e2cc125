-- ===== src/Integer/RoundTrip.antt =====
-- `integer(std::string_view)` and `to_string`: what is accepted, its number, and the print of a number.
use xb.Common.{
  ℕ, zero, suc, ◌+◌, ◌-◌, ◌*◌, ◌/◌, ◌%◌, ◌≤◌, ◌<◌, List, [], ◌∷◌, All, ◌==◌, ltb, ltb→lt, ltb→le,
  lt→ltb, le→ltb, ◌≡◌, ◌≢◌, ◌∙◌, refl, sym, arith, ap, Bool-cases, inl, inr,
}
use xb.Common.Result.{ok, >>=-eq-ok}
use mathlib.Core.List.{cons-ne-nil}
use mathlib.Core.Path.{subst}
use xb.Common.Text
use xb.Common.Text.{
  Bytes, codes, is_digit, IsDigit, decimal, digits, decimal-to_string, to_string-IsDigit,
  to_string-ne-nil,
}
use xb.Integer.Magnitude.{pop_zeros, magnitude_mul10_add}
use xb.Integer.Value.{
  value, IsLimbs, IsTrimmed, value-pos, value-pop_zeros, pop_zeros-IsLimbs, pop_zeros-IsTrimmed,
}
use xb.Integer.AddSub.{value-magnitude_mul10_add}
use xb.Integer.Ops.{Sign, positive, negative, Integer, normalize_sign}
use xb.Integer.Decimal.{
  scan_digits, of_digits, of_string, div10, print_digits, sign_text, to_string,
}
use xb.Integer.Order.{to_ℤ-injective}
use xb.Integer.Ring.{signed, to_ℤ, IsInteger, normalized}

scan_digits-value :
    (s : Bytes) (mag : List ℕ)
    → IsLimbs mag
    → All IsDigit s
    → (m : List ℕ) × (scan_digits s mag ≡ ok m) × IsLimbs m × (value m ≡ decimal (value mag) s)
unfolding scan_digits
scan_digits-value [] mag l h = (mag, refl, l, refl)
scan_digits-value (c ∷ s) mag l h =
    let (v, l') = value-magnitude_mul10_add mag (c - b'0') l (omega arith) in
    let (m, e, lm, vm) = scan_digits-value s (magnitude_mul10_add mag (c - b'0')) l' h.1 in
    (m, ground arith, lm, vm ∙ ap (λ n. decimal n s) v)

-- A text of digits is read as its number.
pub of_digits-value :
    (s : Sign) (cs : Bytes)
    → cs ≢ []
    → All IsDigit cs
    → (x : Integer) × (of_digits s cs ≡ ok x) × IsInteger x × (to_ℤ x ≡ signed s (decimal 0 cs))
unfolding of_digits
of_digits-value s [] h _ = absurd (h refl)
of_digits-value s (c ∷ cs) _ h =
    let (m, e, l, v) = scan_digits-value (c ∷ cs) [] tt h in
    let (w, z) =
      normalized s (pop_zeros m) (pop_zeros-IsLimbs m l) (pop_zeros-IsTrimmed m)
        (ap (signed s) (value-pop_zeros m ∙ v)) in
    (normalize_sign s (pop_zeros m), rw e, w, z)

-- `cs` behind an optional sign, as `integer(std::string_view)` reads it
pub data Spelled : Sign → Bytes → Bytes → Type 0 where
  unsigned : {cs s : Bytes} → s ≡ cs → Spelled positive cs s
  plus : {cs s : Bytes} → s ≡ b'+' ∷ cs → Spelled positive cs s
  minus : {cs s : Bytes} → s ≡ b'-' ∷ cs → Spelled negative cs s

scan_digits-IsDigit :
    (s : Bytes) (mag : List ℕ) {m : List ℕ} → scan_digits s mag ≡ ok m → All IsDigit s
unfolding scan_digits
scan_digits-IsDigit [] mag {m} e = tt
scan_digits-IsDigit (c ∷ s) mag {m} e =
    ground (arith, scan_digits-IsDigit s (magnitude_mul10_add mag (c - b'0')) {m = m})

of_digits_sound :
    (t : Sign) (cs : Bytes) {x : Integer} → of_digits t cs ≡ ok x → (cs ≢ []) × All IsDigit cs
unfolding of_digits
of_digits_sound t [] e = cc
of_digits_sound t (c ∷ cs) e =
    let (m, h, _) = >>=-eq-ok (scan_digits (c ∷ cs) []) _ e in
    (cons-ne-nil c cs, scan_digits-IsDigit (c ∷ cs) [] h)

of_string_shape :
    (s : Bytes) {x : Integer}
    → of_string s ≡ ok x
    → (t : Sign) × ((cs : Bytes) × Spelled t cs s × (of_digits t cs ≡ ok x))
unfolding of_string
of_string_shape [] e = cc
of_string_shape (c ∷ s) e = elim (Bool-cases (c == b'-')) [
  | inl m ↦ (negative, (s, minus (ground arith), rw m at e))
  | inr n ↦ elim (Bool-cases (c == b'+')) [
    | inl p ↦ (positive, (s, plus (ground arith), ground arith))
    | inr q ↦ (positive, (c ∷ s, unsigned refl, ground arith))
  ]
]

-- A text that the constructor of `integer` accepts is one or more digits behind an optional sign,
-- and the result is well formed and is the number that the sign and the digits spell.
pub of_string_sound :
    (s : Bytes) {x : Integer}
    → of_string s ≡ ok x
    → (t : Sign) × (cs : Bytes) × Spelled t cs s
      × (cs ≢ [])
      × All IsDigit cs
      × IsInteger x
      × (to_ℤ x ≡ signed t (decimal 0 cs))
of_string_sound s {x} e =
    let (t, (cs, w, h)) = of_string_shape s e in
    let (ne, d) = of_digits_sound t cs h in
    let (y, p, v, z) = of_digits-value t cs ne d in
    let same : y ≡ x = cc in (t, cs, w, ne, d, subst IsInteger same v, ap to_ℤ (sym same) ∙ z)

div10-value :
    (mag : List ℕ)
    → IsLimbs mag
    → (value (div10 mag).0 * 10 + (div10 mag).1 ≡ value mag) × ((div10 mag).1 < 10)
unfolding div10
div10-value [] l = (omega arith, omega arith)
div10-value (x ∷ mag) l = let (v, r) = div10-value mag l.1 in (omega arith, omega arith)

div10-IsLimbs : (mag : List ℕ) → IsLimbs (div10 mag).0
unfolding div10
div10-IsLimbs [] = tt
div10-IsLimbs (x ∷ mag) = (omega arith, div10-IsLimbs mag)

trimmed_zero : (m : List ℕ) → IsTrimmed m → value m ≡ 0 → m ≡ []
trimmed_zero [] t e = refl
trimmed_zero (x ∷ m) t e = absurd (omega (arith, value-pos x m t))

print_digits-nil : (f : ℕ) (out : Bytes) → print_digits f [] out ≡ out
unfolding print_digits
print_digits-nil zero out = refl
print_digits-nil (suc f) out = refl

digits_more :
    (f v w d : ℕ) (out : Bytes)
    → w * 10 + d ≡ v
    → d < 10
    → 10 ≤ v
    → digits f w ((b'0' + d) ∷ out) ≡ digits (suc f) v out
unfolding digits
digits_more f v w d out e hd hv =
    let quot : w ≡ v / 10 = omega arith in
    let digit : d ≡ v % 10 = omega arith in rw (le→ltb v 10 hv, quot, digit)

digits_less : (f v : ℕ) (out : Bytes) → v < 10 → digits (suc f) v out ≡ (b'0' + v) ∷ out
unfolding digits
digits_less f v out h = rw (lt→ltb v 10 h)

print_last :
    (f v d : ℕ) (m out : Bytes)
    → IsTrimmed m
    → value m * 10 + d ≡ v
    → v < 10
    → print_digits f m ((b'0' + d) ∷ out) ≡ digits (suc f) v out
print_last f v d m out t e h =
    let empty : m ≡ [] = trimmed_zero m t (omega arith) in
    let digit : d ≡ v = omega arith in
    rw (empty, digit) (print_digits-nil f _ ∙ sym (digits_less f v out h))

-- The limb loop prints the digits of the number.
print_digits-digits :
    (f : ℕ) (mag : List ℕ) (out : Bytes)
    → IsLimbs mag
    → IsTrimmed mag
    → value mag < f
    → 0 < value mag
    → print_digits f mag out ≡ digits f (value mag) out
unfolding print_digits
print_digits-digits zero mag out l t h p = absurd (omega arith)
print_digits-digits (suc f) [] out l t h p = absurd (omega arith)
print_digits-digits (suc f) (x ∷ mag) out l t h p =
    let q = (div10 (x ∷ mag)).0 in
    let r = (div10 (x ∷ mag)).1 in
    let (split, small) = div10-value (x ∷ mag) l in
    let whole : value (pop_zeros q) * 10 + r ≡ value (x ∷ mag) =
      omega (arith, value-pop_zeros q, split) in
    let trimmed = pop_zeros-IsTrimmed q in
    elim (Bool-cases (ltb (value (x ∷ mag)) 10)) [
      | inl less ↦
          print_last f (value (x ∷ mag)) r (pop_zeros q) out trimmed whole (ltb→lt _ 10 less)
      | inr more ↦
          let big : 10 ≤ value (x ∷ mag) = ltb→le _ 10 more in
          print_digits-digits f (pop_zeros q) ((b'0' + r) ∷ out)
            (pop_zeros-IsLimbs q (div10-IsLimbs (x ∷ mag))) trimmed (omega arith) (omega arith)
          ∙ digits_more f (value (x ∷ mag)) (value (pop_zeros q)) r out whole small big
    ]

to_string-parts :
    (s : Sign) (m : List ℕ)
    → IsInteger (record { sign = s; magnitude = m })
    → to_string (record { sign = s; magnitude = m }) ≡ sign_text s (Text.to_string (value m))
unfolding to_string
to_string-parts s [] v = rw (v.no_negative_zero refl) (unfold Text.to_string in refl)
to_string-parts s (x ∷ m) v = ap (sign_text s) (
    print_digits-digits (suc (value (x ∷ m))) (x ∷ m) [] v.limbs v.trimmed (omega arith)
      (value-pos x m v.trimmed)
    ∙ unfold Text.to_string in refl)

-- The text of an integer is the decimal print of its magnitude, behind `-` where it is negative.
pub to_string-value :
    (x : Integer)
    → IsInteger x
    → to_string x ≡ sign_text x.sign (Text.to_string (value x.magnitude))
to_string-value x v = to_string-parts x.sign x.magnitude v

of_string-sign_text :
    (s : Sign) (cs : Bytes) → cs ≢ [] → All IsDigit cs → of_string (sign_text s cs) ≡ of_digits s cs
unfolding of_string sign_text
of_string-sign_text s [] ne d = absurd (ne refl)
of_string-sign_text positive (c ∷ cs) ne d = ground arith
of_string-sign_text negative (c ∷ cs) ne d = ground arith

-- For every well-formed integer the constructor from a text accepts what `to_string` prints, and
-- returns the same sign and the same limbs.
pub of_string-to_string : (x : Integer) → IsInteger x → of_string (to_string x) ≡ ok x
of_string-to_string x v =
    let n = value x.magnitude in
    let digits_of = Text.to_string n in
    let (y, e, w, z) =
      of_digits-value x.sign digits_of (to_string-ne-nil n) (to_string-IsDigit n) in
    let same : y ≡ x = to_ℤ-injective y x w v (z ∙ ap (signed x.sign) (decimal-to_string n)) in
    rw to_string-value (
      of_string-sign_text x.sign digits_of (to_string-ne-nil n) (to_string-IsDigit n)
      ∙ e
      ∙ ap ok same)
