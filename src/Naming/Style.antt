-- ===== src/Naming/Style.antt =====
-- src/lib/naming.cpp: the styles of names. A `char` is a byte; one of 128 or more is negative in the
-- source, and in no range there or here.
use xb.Common.{
  ℕ, ◌+◌, ◌-◌, List, [], ◌∷◌, ◌++◌, map, Bool, false, not, ◌&&◌, ◌||◌, Option, none, some, leb,
  ◌==◌, if◌then◌else◌,
}
use xb.Common.Text.{Bytes}

unfoldable pub is_upper : ℕ → Bool
is_upper c = leb b'A' c && leb c b'Z'

unfoldable pub is_lower : ℕ → Bool
is_lower c = leb b'a' c && leb c b'z'

unfoldable pub to_lower : ℕ → ℕ
to_lower c = if is_upper c then c - b'A' + b'a' else c

unfoldable pub to_upper : ℕ → ℕ
to_upper c = if is_lower c then c - b'a' + b'A' else c

-- `(i + 1 < name.size()) && is_lower(name[i + 1])`, over the characters behind `name[i]`
unfoldable pub next_lower : Bytes → Bool
next_lower [] = false
next_lower (c ∷ name) = is_lower c

-- Whether an underscore comes before an uppercase letter, from `name[i - 1]`, `result.back()` (`none`
-- where the result is empty) and what is behind the letter.
unfoldable pub starts_word : ℕ → Option ℕ → Bytes → Bool
starts_word previous none name = false
starts_word previous (some back) name =
    not (back == b'_') && (is_lower previous || (is_upper previous && next_lower name))

-- What a character adds to the result.
unfoldable pub snake_step : ℕ → Option ℕ → ℕ → Bytes → Bytes
snake_step previous back c name =
    if c == b'-' || c == b'.'
    then b'_' ∷ []
    else if is_upper c
    then if starts_word previous back name then b'_' ∷ to_lower c ∷ [] else to_lower c ∷ []
    else c ∷ []

-- `result.back()`, after the bytes have been added
unfoldable pub back_of : Option ℕ → Bytes → Option ℕ
back_of back [] = back
back_of back (c ∷ out) = back_of (some c) out

unfoldable pub snake_from : ℕ → Option ℕ → Bytes → Bytes
snake_from previous back [] = []
snake_from previous back (c ∷ name) =
    let out = snake_step previous back c name in out ++ snake_from c (back_of back out) name

unfoldable pub to_snake_case : Bytes → Bytes
to_snake_case name = snake_from 0 none name

-- `if (!word.empty()) words.push_back(word);`
unfoldable pub push_word : Bytes → List Bytes → List Bytes
push_word [] words = words
push_word (c ∷ word) words = (c ∷ word) ∷ words

-- The loop that cuts a text at separators and drops the empty pieces.
unfoldable pub pieces_from : (ℕ → Bool) → Bytes → Bytes → List Bytes
pieces_from separates word [] = push_word word []
pieces_from separates word (c ∷ s) =
    let next = if separates c then [] else word ++ (c ∷ []) in
    let rest = pieces_from separates next s in if separates c then push_word word rest else rest

unfoldable pub split_words : Bytes → List Bytes
split_words name = pieces_from (λ c. c == b'_') [] (to_snake_case name)

unfoldable pub capitalize : Bytes → Bytes
capitalize [] = []
capitalize (c ∷ word) = to_upper c ∷ word

unfoldable pub capitalize_all : List Bytes → Bytes
capitalize_all [] = []
capitalize_all (word ∷ words) = capitalize word ++ capitalize_all words

unfoldable pub to_pascal_case : Bytes → Bytes
to_pascal_case name = capitalize_all (split_words name)

-- The first word stays as it is.
unfoldable pub camel_words : List Bytes → Bytes
camel_words [] = []
camel_words (word ∷ words) = word ++ capitalize_all words

unfoldable pub to_camel_case : Bytes → Bytes
to_camel_case name = camel_words (split_words name)

unfoldable pub to_upper_snake_case : Bytes → Bytes
to_upper_snake_case name = map to_upper (to_snake_case name)

pub data NamingStyle : Type 0 where
  snake_case pascal_case camel_case upper_snake original : NamingStyle

unfoldable pub apply_naming_style : Bytes → NamingStyle → Bytes
apply_naming_style name snake_case = to_snake_case name
apply_naming_style name pascal_case = to_pascal_case name
apply_naming_style name camel_case = to_camel_case name
apply_naming_style name upper_snake = to_upper_snake_case name
apply_naming_style name original = name
