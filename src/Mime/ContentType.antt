-- ===== src/Mime/ContentType.antt =====
-- src/lib/mime_multipart.cpp: the boundary in the content type of a message.
use xb.Common.{
  ℕ, [], ◌∷◌, ◌++◌, false, ◌||◌, Option, none, some, ◌==◌, if◌then◌else◌, ◌≡◌, refl, All,
}
use xb.Common.Text.{Bytes, codes}
use xb.Naming.Namespace.{after_text, strip_prefix, or_else}

unfoldable pub mtom_content_type : Bytes → Bytes → Bytes
mtom_content_type boundary start_content_id =
    codes "multipart/related; type=\"application/xop+xml\"; boundary=\""
    ++ (boundary ++ (codes "\"; start=\"<" ++ (start_content_id ++ codes ">\"")))

unfoldable pub put_before : ℕ → Option Bytes → Option Bytes
put_before c none = none
put_before c (some s) = some (c ∷ s)

-- `find('"', pos)` and the text in front of it
unfoldable pub before_quote : Bytes → Option Bytes
before_quote [] = none
before_quote (c ∷ s) =
    let later = put_before c (before_quote s) in if c == b'"' then some [] else later

unfoldable pub text_or_nil : Option Bytes → Bytes
text_or_nil none = []
text_or_nil (some s) = s

-- The text up to one of `"; \t"`, or all of it.
unfoldable pub bare_boundary : Bytes → Bytes
bare_boundary [] = []
bare_boundary (c ∷ s) =
    let rest = bare_boundary s in if c == b';' || c == b' ' || c == 9 then [] else c ∷ rest

unfoldable pub read_boundary : Option Bytes → Bytes
read_boundary none = []
read_boundary (some []) = []
read_boundary (some (c ∷ s)) =
    if c == b'"' then text_or_nil (before_quote s) else bare_boundary (c ∷ s)

unfoldable pub extract_boundary : Bytes → Bytes
extract_boundary content_type = read_boundary (after_text (codes "boundary=") content_type)

abbrev pub HasNoQuote : Bytes → Type 0
HasNoQuote = All (λ c. (c == b'"') ≡ false)

before_quote-append : (s rest : Bytes) → HasNoQuote s → before_quote (s ++ (b'"' ∷ rest)) ≡ some s
unfolding before_quote put_before
before_quote-append [] rest h = refl
before_quote-append (c ∷ s) rest h = rw (h.0, before_quote-append s rest h.1) refl

quoted_boundary :
    (s rest : Bytes) → HasNoQuote s → read_boundary (some (b'"' ∷ (s ++ (b'"' ∷ rest)))) ≡ s
unfolding read_boundary text_or_nil
quoted_boundary s rest h = rw (before_quote-append s rest h) refl

-- `extract_boundary` returns the boundary that `mtom_content_type` wrote, if it has no quotation
-- mark.
pub extract_boundary-mtom_content_type :
    (boundary start_content_id : Bytes)
    → HasNoQuote boundary
    → extract_boundary (mtom_content_type boundary start_content_id) ≡ boundary
unfolding extract_boundary mtom_content_type after_text strip_prefix or_else
extract_boundary-mtom_content_type boundary start_content_id h =
    quoted_boundary boundary (codes "; start=\"<" ++ (start_content_id ++ codes ">\"")) h
