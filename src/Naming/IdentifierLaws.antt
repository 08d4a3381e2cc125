-- ===== src/Naming/IdentifierLaws.antt =====
-- What `sanitize_cpp_identifier` returns is an identifier of C++.
use xb.Common.{
  ℕ, ◌<◌, List, [], ◌∷◌, ◌++◌, Bool, true, false, ◌||◌, ◌==◌, ◌≡◌, ◌≢◌, refl, arith, Bool-cases,
  inl, inr, All, All-append,
}
use xb.Common.Result.{Result, ok, >>=-eq-ok}
use xb.Common.Text.{Bytes, is_digit}
use xb.Naming.Style.{is_upper, is_lower, to_snake_case, apply_naming_style}
use xb.Naming.Identifier.{
  same_bytes, is_one_of, cpp_keywords, is_identifier_char, hex_digit, escape_char, escape_all,
  escape_others, or_fallback, guard_digit, guard_keyword, sanitize_cpp_identifier,
  to_cpp_identifier, NamingCategory, NamingOptions, style_of, rules_of, apply_rules, apply_naming,
}

abbrev IsIdentifierChar : ℕ → Type 0
IsIdentifierChar c = is_identifier_char c ≡ true

-- One or more characters of identifiers, of which the first is no digit.
abbrev HasForm : Bytes → Type 0
HasForm [] = ⊥
HasForm (c ∷ s) = (is_digit c ≡ false) × All IsIdentifierChar (c ∷ s)

-- What C++ takes for an identifier: a text of that form that is no keyword.
abbrev pub IsCppIdentifier : Bytes → Type 0
IsCppIdentifier s = HasForm s × (is_one_of cpp_keywords s ≡ false)

hex_digit-IsIdentifierChar : (d : ℕ) → d < 16 → IsIdentifierChar (hex_digit d)
unfolding hex_digit is_identifier_char is_lower is_upper
hex_digit-IsIdentifierChar d h = ground arith

escape_char-IsIdentifierChar : (c : ℕ) → All IsIdentifierChar (escape_char c)
unfolding escape_char is_identifier_char is_lower is_upper
escape_char-IsIdentifierChar c = (
  refl,
  (
    refl,
    (hex_digit-IsIdentifierChar _ (omega arith), (hex_digit-IsIdentifierChar _ (omega arith), tt)),
  ),
)

escape_all-IsIdentifierChar : (s : Bytes) → All IsIdentifierChar (escape_all s)
unfolding escape_all
escape_all-IsIdentifierChar [] = tt
escape_all-IsIdentifierChar (c ∷ s) =
    All-append IsIdentifierChar (escape_char c) (escape_all s) (escape_char-IsIdentifierChar c)
      (escape_all-IsIdentifierChar s)

escape_others-IsIdentifierChar : (s : Bytes) → All IsIdentifierChar (escape_others s)
unfolding escape_others
escape_others-IsIdentifierChar [] = tt
escape_others-IsIdentifierChar (c ∷ s) = elim (Bool-cases (is_identifier_char c)) [
  | inl e ↦ rw e (e, escape_others-IsIdentifierChar s)
  | inr e ↦ rw e (
      All-append IsIdentifierChar (escape_char c) (escape_others s) (escape_char-IsIdentifierChar c)
        (escape_others-IsIdentifierChar s))
]

escape_all-ne-nil : (s : Bytes) → s ≢ [] → escape_all s ≢ []
unfolding escape_all escape_char
escape_all-ne-nil [] h e = h refl
escape_all-ne-nil (c ∷ s) h e = cc

or_fallback-IsIdentifierChar :
    (result original : Bytes)
    → All IsIdentifierChar result
    → original ≢ []
    → All IsIdentifierChar (or_fallback result original) × (or_fallback result original ≢ [])
unfolding or_fallback
or_fallback-IsIdentifierChar [] original h n =
    (escape_all-IsIdentifierChar original, escape_all-ne-nil original n)
or_fallback-IsIdentifierChar (c ∷ result) original h n = (h, λ e. cc)

guard_digit-HasForm : (s : Bytes) → All IsIdentifierChar s → s ≢ [] → HasForm (guard_digit s)
unfolding guard_digit is_identifier_char is_lower is_upper
guard_digit-HasForm [] h n = n refl
guard_digit-HasForm (c ∷ s) h n = elim (Bool-cases (is_digit c)) [
  | inl e ↦ rw e (refl, (refl, h))
  | inr e ↦ rw e (e, h)
]

ends_underscore : Bytes → Bool
ends_underscore [] = false
ends_underscore (c ∷ []) = c == b'_'
ends_underscore (c ∷ d ∷ s) = ends_underscore (d ∷ s)

ends_underscore-append : (s : Bytes) → ends_underscore (s ++ (b'_' ∷ [])) ≡ true
unfolding ends_underscore
ends_underscore-append [] = refl
ends_underscore-append (c ∷ []) = refl
ends_underscore-append (c ∷ d ∷ s) = ends_underscore-append (d ∷ s)

pub same_bytes-eq : (s t : Bytes) → same_bytes s t ≡ true → s ≡ t
unfolding same_bytes
same_bytes-eq [] [] h = refl
same_bytes-eq (c ∷ s) (d ∷ t) h =
    let same_c : c ≡ d = ground (arith, h) in
    let same_s : same_bytes s t ≡ true = ground (arith, h) in
    rw (same_c, same_bytes-eq s t same_s) refl
same_bytes-eq [] (d ∷ t) h = cc
same_bytes-eq (c ∷ s) [] h = cc

pub same_bytes-same : (s : Bytes) → same_bytes s s ≡ true
unfolding same_bytes
same_bytes-same [] = refl
same_bytes-same (c ∷ s) = ground (arith, same_bytes-same s)

abbrev any_ends : List Bytes → Bool
any_ends [] = false
any_ends (k ∷ keys) = ends_underscore k || any_ends keys

is_one_of-append :
    (keys : List Bytes) (s : Bytes)
    → any_ends keys ≡ false
    → is_one_of keys (s ++ (b'_' ∷ [])) ≡ false
unfolding is_one_of
is_one_of-append [] s h = refl
is_one_of-append (k ∷ keys) s h =
    let first : ends_underscore k ≡ false = ground (arith, h) in
    let later = is_one_of-append keys s (ground (arith, h)) in
    elim (Bool-cases (same_bytes k (s ++ (b'_' ∷ [])))) [
      | inr e ↦ rw (e, later) refl
      | inl e ↦ cc (ends_underscore-append s, rw (same_bytes-eq k (s ++ (b'_' ∷ [])) e) at first)
    ]

-- No keyword ends with an underscore.
keywords-end : any_ends cpp_keywords ≡ false
unfolding ends_underscore
keywords-end = refl

append-HasForm : (s : Bytes) → HasForm s → HasForm (s ++ (b'_' ∷ []))
unfolding is_identifier_char is_lower is_upper
append-HasForm [] h = absurd h
append-HasForm (c ∷ s) h = (h.0, All-append IsIdentifierChar (c ∷ s) (b'_' ∷ []) h.1 (refl, tt))

guard_keyword-IsCppIdentifier : (s : Bytes) → HasForm s → IsCppIdentifier (guard_keyword s)
unfolding guard_keyword
guard_keyword-IsCppIdentifier s h = elim (Bool-cases (is_one_of cpp_keywords s)) [
  | inl e ↦ rw e (append-HasForm s h, is_one_of-append cpp_keywords s keywords-end)
  | inr e ↦ rw e (h, e)
]

pub sanitize_cpp_identifier-IsCppIdentifier :
    (input original : Bytes)
    → original ≢ []
    → IsCppIdentifier (sanitize_cpp_identifier input original)
unfolding sanitize_cpp_identifier
sanitize_cpp_identifier-IsCppIdentifier input original h =
    let (chars, some_char) =
      or_fallback-IsIdentifierChar (escape_others input) original
        (escape_others-IsIdentifierChar input) h in
    guard_keyword-IsCppIdentifier (guard_digit (or_fallback (escape_others input) original))
      (guard_digit-HasForm (or_fallback (escape_others input) original) chars some_char)

pub to_cpp_identifier-ne-nil : (name : Bytes) → name ≢ [] → to_cpp_identifier name ≢ []
unfolding to_cpp_identifier
to_cpp_identifier-ne-nil name h e =
    let valid = sanitize_cpp_identifier-IsCppIdentifier (to_snake_case name) name h in
    let empty : HasForm [] = rw e at valid.0 in empty

-- Whatever the replacements of the rules return, if `apply_naming` returns for a name that is not
-- empty, the result is an identifier of C++: identifier characters of which the first is no digit,
-- and no keyword.
pub apply_naming-IsCppIdentifier :
    (regex_replace : Bytes → Bytes → Bytes → Result Bytes) (name : Bytes)
    (category : NamingCategory) (opts : NamingOptions) (identifier : Bytes)
    → name ≢ []
    → apply_naming regex_replace name category opts ≡ ok identifier
    → IsCppIdentifier identifier
unfolding apply_naming
apply_naming-IsCppIdentifier regex_replace name category opts identifier h e =
    let (result, replaced, same) =
      >>=-eq-ok
        (apply_rules regex_replace (rules_of category opts)
          (apply_naming_style name (style_of category opts)))
        (λ result. ok (sanitize_cpp_identifier result name)) e in
    let equal : sanitize_cpp_identifier result name ≡ identifier = cc in
    rw equal at (sanitize_cpp_identifier-IsCppIdentifier result name h)
