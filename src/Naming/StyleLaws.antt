-- ===== src/Naming/StyleLaws.antt =====
-- The styles change the case of letters and the underscores, and nothing else.
use xb.Common.{
  ℕ, List, [], ◌∷◌, ◌++◌, map, true, false, ◌||◌, Option, none, ◌==◌, if◌then◌else◌, ◌≡◌, ◌≢◌, ◌∙◌,
  refl, sym, ap, arith, Bool-cases, inl, inr, All, All-append, append-nil, append_assoc,
}
use xb.Common.Text.{Bytes}
use xb.Naming.Style.{
  is_upper, is_lower, to_lower, to_upper, starts_word, snake_step, back_of, snake_from,
  to_snake_case, push_word, pieces_from, split_words, capitalize, capitalize_all, to_pascal_case,
  camel_words, to_camel_case, to_upper_snake_case, NamingStyle, snake_case, pascal_case, camel_case,
  upper_snake, original, apply_naming_style,
}

-- No uppercase letter, hyphen or dot.
abbrev pub IsSnake : ℕ → Type 0
IsSnake c = (is_upper c ≡ false) × ((c == b'-') ≡ false) × ((c == b'.') ≡ false)

to_lower-IsSnake : (c : ℕ) → is_upper c ≡ true → IsSnake (to_lower c)
unfolding to_lower is_upper
to_lower-IsSnake c h = (ground arith, ground arith, ground arith)

underscore-IsSnake : IsSnake b'_'
unfolding is_upper
underscore-IsSnake = (refl, refl, refl)

snake_step-IsSnake :
    (previous : ℕ) (back : Option ℕ) (c : ℕ) (name : Bytes)
    → All IsSnake (snake_step previous back c name)
unfolding snake_step
snake_step-IsSnake previous back c name = elim (Bool-cases (c == b'-' || c == b'.')) [
  | inl e ↦ rw e (underscore-IsSnake, tt)
  | inr plain ↦ elim (Bool-cases (is_upper c)) [
    | inr lower ↦ rw (plain, lower) ((lower, ground arith, ground arith), tt)
    | inl upper ↦ elim (Bool-cases (starts_word previous back name)) [
      | inl starts ↦ rw (plain, upper, starts) (underscore-IsSnake, (to_lower-IsSnake c upper, tt))
      | inr goes_on ↦ rw (plain, upper, goes_on) (to_lower-IsSnake c upper, tt)
    ]
  ]
]

snake_from-IsSnake :
    (previous : ℕ) (back : Option ℕ) (name : Bytes) → All IsSnake (snake_from previous back name)
unfolding snake_from
snake_from-IsSnake previous back [] = tt
snake_from-IsSnake previous back (c ∷ name) =
    All-append IsSnake (snake_step previous back c name) _ (snake_step-IsSnake previous back c name)
      (snake_from-IsSnake c (back_of back (snake_step previous back c name)) name)

pub to_snake_case-IsSnake : (name : Bytes) → All IsSnake (to_snake_case name)
unfolding to_snake_case
to_snake_case-IsSnake name = snake_from-IsSnake 0 none name

snake_step-kept :
    (previous : ℕ) (back : Option ℕ) (c : ℕ) (name : Bytes)
    → IsSnake c
    → snake_step previous back c name ≡ c ∷ []
unfolding snake_step
snake_step-kept previous back c name h = rw (h.1, h.2, h.0) refl

snake_from-kept :
    (previous : ℕ) (back : Option ℕ) (name : Bytes)
    → All IsSnake name
    → snake_from previous back name ≡ name
unfolding snake_from
snake_from-kept previous back [] h = refl
snake_from-kept previous back (c ∷ name) h =
    rw (snake_step-kept previous back c name h.0) (ap (λ s. c ∷ s) (snake_from-kept c _ name h.1))

-- `to_snake_case` leaves a name as it is that it has returned.
pub to_snake_case-to_snake_case :
    (name : Bytes) → to_snake_case (to_snake_case name) ≡ to_snake_case name
unfolding to_snake_case
to_snake_case-to_snake_case name =
    snake_from-kept 0 none (snake_from 0 none name) (snake_from-IsSnake 0 none name)

-- The letters and digits of a name: without underscores, in lower case.
unfoldable pub letters : Bytes → Bytes
letters [] = []
letters (c ∷ s) = let rest = letters s in if to_lower c == b'_' then rest else to_lower c ∷ rest

letters-append : (s t : Bytes) → letters (s ++ t) ≡ letters s ++ letters t
unfolding letters
letters-append [] t = refl
letters-append (c ∷ s) t = elim (Bool-cases (to_lower c == b'_')) [
  | inl e ↦ rw e (letters-append s t)
  | inr e ↦ rw e (ap (λ u. to_lower c ∷ u) (letters-append s t))
]

to_lower-to_upper : (c : ℕ) → to_lower (to_upper c) ≡ to_lower c
unfolding to_lower to_upper is_upper is_lower
to_lower-to_upper c = ground arith

letters-to_upper : (s : Bytes) → letters (map to_upper s) ≡ letters s
unfolding letters
letters-to_upper [] = refl
letters-to_upper (c ∷ s) = rw (to_lower-to_upper c, letters-to_upper s) refl

letters-capitalize : (word : Bytes) → letters (capitalize word) ≡ letters word
unfolding letters capitalize
letters-capitalize [] = refl
letters-capitalize (c ∷ word) = rw (to_lower-to_upper c) refl

abbrev concat : List Bytes → Bytes
concat [] = []
concat (word ∷ words) = word ++ concat words

letters-capitalize_all :
    (words : List Bytes) → letters (capitalize_all words) ≡ letters (concat words)
unfolding capitalize_all
letters-capitalize_all [] = refl
letters-capitalize_all (word ∷ words) =
    rw
      (
        letters-append (capitalize word) (capitalize_all words),
        letters-capitalize word,
        letters-capitalize_all words,
        letters-append word (concat words),
      )
      refl

letters-camel_words : (words : List Bytes) → letters (camel_words words) ≡ letters (concat words)
unfolding camel_words
letters-camel_words [] = refl
letters-camel_words (word ∷ words) =
    rw
      (
        letters-append word (capitalize_all words),
        letters-capitalize_all words,
        letters-append word (concat words),
      )
      refl

concat-push_word :
    (word : Bytes) (words : List Bytes) → concat (push_word word words) ≡ word ++ concat words
unfolding push_word
concat-push_word [] words = refl
concat-push_word (c ∷ word) words = refl

letters-underscore : (c : ℕ) (s : Bytes) → (c == b'_') ≡ true → letters (c ∷ s) ≡ letters s
unfolding letters to_lower is_upper
letters-underscore c s h = ground arith

-- Cutting at underscores loses underscores only.
letters-pieces_from :
    (word s : Bytes)
    → letters (concat (pieces_from (λ c. c == b'_') word s)) ≡ letters word ++ letters s
unfolding pieces_from letters
letters-pieces_from word [] =
    rw (concat-push_word word [], append-nil word) (sym (append-nil (letters word)))
letters-pieces_from word (c ∷ s) = elim (Bool-cases (c == b'_')) [
  | inl e ↦
      rw
        (
          e,
          concat-push_word word (pieces_from (λ c. c == b'_') [] s),
          letters-append word (concat (pieces_from (λ c. c == b'_') [] s)),
          letters-pieces_from [] s,
          letters-underscore c s e,
        )
        refl
  | inr e ↦
      rw (e, letters-pieces_from (word ++ (c ∷ [])) s, letters-append word (c ∷ []))
        (append_assoc (letters word) (letters (c ∷ [])) (letters s)
          ∙ ap (λ u. letters word ++ u) (sym (letters-append (c ∷ []) s)))
]

letters-split_words :
    (name : Bytes) → letters (concat (split_words name)) ≡ letters (to_snake_case name)
unfolding split_words letters
letters-split_words name = letters-pieces_from [] (to_snake_case name)

-- Every style but `original` gives a name the same characters in the same order, up to the case of
-- letters and the underscores: those of `to_snake_case`.
pub letters-apply_naming_style :
    (name : Bytes) (style : NamingStyle)
    → style ≢ original
    → letters (apply_naming_style name style) ≡ letters (to_snake_case name)
unfolding apply_naming_style to_pascal_case to_camel_case to_upper_snake_case
letters-apply_naming_style name snake_case h = refl
letters-apply_naming_style name pascal_case h =
    letters-capitalize_all (split_words name) ∙ letters-split_words name
letters-apply_naming_style name camel_case h =
    letters-camel_words (split_words name) ∙ letters-split_words name
letters-apply_naming_style name upper_snake h = letters-to_upper (to_snake_case name)
letters-apply_naming_style name original h = absurd (h refl)
