-- ===== src/Naming/SnakeLaws.antt =====
-- `to_snake_case` of src/lib/naming.cpp, beside a description that looks at a character and at its neighbours
-- only.
use xb.Common.{
  ℕ, ◌+◌, [], ◌∷◌, ◌++◌, Bool, true, false, ◌&&◌, ◌||◌, Option, none, some, leb, ◌==◌,
  if◌then◌else◌, ◌≡◌, ◌≢◌, refl, arith, Bool-cases, inl, inr,
}
use xb.Common.Text.{Bytes}
use xb.Naming.Style.{
  is_upper, is_lower, to_lower, next_lower, starts_word, snake_step, back_of, snake_from,
  to_snake_case,
}

abbrev is_capital : ℕ → Bool
is_capital c = leb 65 c && leb c 90

abbrev is_small : ℕ → Bool
is_small c = leb 97 c && leb c 122

abbrev small_first : Bytes → Bool
small_first [] = false
small_first (c ∷ name) = is_small c

-- A capital begins a word behind a small letter, and before one where it stands behind a capital.
abbrev begins_word : ℕ → ℕ → Bytes → Bool
begins_word previous c name =
    is_capital c && (is_small previous || (is_capital previous && small_first name))

-- Capitals become small letters, hyphens and dots underscores.
abbrev written : ℕ → ℕ
written c = if is_capital c then c + 32 else if c == 45 || c == 46 then 95 else c

-- The text, whose first character stands behind `previous`.
abbrev pub snake_text : ℕ → Bytes → Bytes
snake_text previous [] = []
snake_text previous (c ∷ name) =
    (if begins_word previous c name then 95 ∷ written c ∷ [] else written c ∷ [])
    ++ snake_text c name

-- What has been written last is no underscore where a letter has been read last.
abbrev Follows : ℕ → Option ℕ → Type 0
Follows previous none = (is_upper previous || is_lower previous) ≡ false
Follows previous (some back) =
    (is_upper previous || is_lower previous) ≡ true → (back == b'_') ≡ false

next_lower-eq-small_first : (name : Bytes) → next_lower name ≡ small_first name
unfolding next_lower is_lower
next_lower-eq-small_first [] = refl
next_lower-eq-small_first (c ∷ name) = refl

starts_word-eq :
    (previous : ℕ) (back : Option ℕ) (name : Bytes)
    → Follows previous back
    → starts_word previous back name
      ≡ (is_small previous || (is_capital previous && small_first name))
unfolding starts_word is_upper is_lower
starts_word-eq previous none name h = ground arith
starts_word-eq previous (some back) name h = rw (next_lower-eq-small_first name) (ground arith)

snake_step-eq :
    (previous : ℕ) (back : Option ℕ) (c : ℕ) (name : Bytes)
    → Follows previous back
    → snake_step previous back c name
      ≡ (if begins_word previous c name then 95 ∷ written c ∷ [] else written c ∷ [])
unfolding snake_step to_lower is_upper
snake_step-eq previous back c name h = rw (starts_word-eq previous back name h) (ground arith)

back_of-Follows :
    (previous : ℕ) (back : Option ℕ) (c : ℕ) (name : Bytes)
    → Follows c (back_of back (snake_step previous back c name))
unfolding snake_step back_of to_lower is_upper is_lower
back_of-Follows previous back c name = ground arith

snake_from-snake_text :
    (previous : ℕ) (back : Option ℕ) (name : Bytes)
    → Follows previous back
    → snake_from previous back name ≡ snake_text previous name
unfolding snake_from
snake_from-snake_text previous back [] h = refl
snake_from-snake_text previous back (c ∷ name) h =
    rw
      (
        snake_from-snake_text c (back_of back (snake_step previous back c name)) name
            (back_of-Follows previous back c name),
        snake_step-eq previous back c name h,
      )
      refl

-- `to_snake_case` writes for each character, by what stands next to it in the name only: an
-- underscore for a hyphen or a dot, a small letter for a capital, and the character itself
-- otherwise; and it puts an underscore before a capital that stands behind a small letter, or
-- between a capital and a small letter, and nowhere else.
pub to_snake_case-snake_text : (name : Bytes) → to_snake_case name ≡ snake_text 0 name
unfolding to_snake_case is_upper is_lower
to_snake_case-snake_text name = snake_from-snake_text 0 none name refl

snake_text-ne-nil : (previous c : ℕ) (name : Bytes) → snake_text previous (c ∷ name) ≢ []
snake_text-ne-nil previous c name = elim (Bool-cases (begins_word previous c name)) [
  | inl e ↦ rw e (λ h. cc)
  | inr e ↦ rw e (λ h. cc)
]

pub to_snake_case-ne-nil : (name : Bytes) → name ≢ [] → to_snake_case name ≢ []
to_snake_case-ne-nil [] h = absurd (h refl)
to_snake_case-ne-nil (c ∷ name) h =
    rw (to_snake_case-snake_text (c ∷ name)) (snake_text-ne-nil 0 c name)
