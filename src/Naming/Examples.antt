-- ===== src/Naming/Examples.antt =====
-- Names and namespaces of a schema of orders.
use xb.Common.{List, [], ◌∷◌, ◌≡◌, ◌≢◌, refl}
use xb.Common.Result.{Result, ok}
use xb.Common.Text.{Bytes, codes}
use xb.Naming.Style.{
  push_word, pieces_from, snake_from, snake_step, is_upper, starts_word, to_lower, back_of,
  is_lower, next_lower, pascal_case, snake_case, to_snake_case, apply_naming_style,
}
use xb.Naming.Identifier.{
  apply_rules, rules_of, guard_keyword, is_one_of, same_bytes, guard_digit, or_fallback,
  escape_others, is_identifier_char, escape_char, hex_digit, NamingOptions, type_name,
  to_cpp_identifier, sanitize_cpp_identifier, apply_naming,
}
use xb.Naming.Namespace.{
  separates, without_scheme, without_www, strip_www, strip_prefix, strip_scheme, after_text,
  or_else, value_or, lookup, choose_namespace, reverse_onto, collides, candidate_at, join_names,
  drop, append_name, append_segment, prepend_until_unique, derive_namespace, uri_segments,
  other_segments, cpp_namespace_for, default_namespace_for,
}
use xb.Naming.StyleLaws.{letters, letters-apply_naming_style}
use xb.Naming.JoinedNames.{joined}
use xb.Naming.SnakeLaws.{snake_text, to_snake_case-snake_text}
use xb.Naming.ChosenLaws.{IsChosen, default_namespace_for-IsChosen}
use xb.Naming.IdentifierLaws.{IsCppIdentifier, apply_naming-IsCppIdentifier}
use xb.Naming.NamespaceLaws.{cpp_namespace_for-uri_segments}

-- A replacement that takes the place of the text.
abbrev replace_all : Bytes → Bytes → Bytes → Result Bytes
replace_all text pattern replacement = ok replacement

abbrev options : NamingOptions
options = record {
  type_style = pascal_case;
  field_style = snake_case;
  enum_style = snake_case;
  function_style = snake_case;
  type_rules = record { pattern = codes "^.*$"; replacement = codes "2nd choice" } ∷ [];
  field_rules = [];
}

apply_naming-IsCppIdentifier_example : IsCppIdentifier (codes "_2nd_x20choice")
unfolding apply_naming apply_rules rules_of is_upper is_lower sanitize_cpp_identifier guard_keyword
    is_one_of same_bytes guard_digit or_fallback escape_others is_identifier_char escape_char
    hex_digit
apply_naming-IsCppIdentifier_example =
    apply_naming-IsCppIdentifier replace_all (codes "OrderType") type_name options
      (codes "_2nd_x20choice") (λ e. cc) refl

letters-apply_naming_style_example :
    letters (apply_naming_style (codes "HTMLParser-v2") pascal_case)
    ≡ letters (to_snake_case (codes "HTMLParser-v2"))
letters-apply_naming_style_example =
    letters-apply_naming_style (codes "HTMLParser-v2") pascal_case (λ e. cc)

to_snake_case-snake_text_example :
    to_snake_case (codes "HTMLParser-v2") ≡ snake_text 0 (codes "HTMLParser-v2")
to_snake_case-snake_text_example = to_snake_case-snake_text (codes "HTMLParser-v2")

snake_words : to_snake_case (codes "HTMLParser-v2") ≡ codes "html_parser_v2"
unfolding to_snake_case snake_from snake_step is_upper starts_word to_lower back_of is_lower
    next_lower
snake_words = refl

keyword_as_name : to_cpp_identifier (codes "class") ≡ codes "class_"
unfolding to_cpp_identifier sanitize_cpp_identifier guard_keyword is_one_of same_bytes guard_digit
    or_fallback escape_others is_identifier_char to_snake_case snake_from snake_step is_upper
    is_lower
keyword_as_name = refl

abbrev orders : Bytes
orders = codes "http://example.com/orders/types"

abbrev namespaces : List Bytes
namespaces = orders ∷ codes "http://www.example.com/parts/types" ∷ codes "urn:parts" ∷ []

orders_segments :
    uri_segments orders ≡ codes "example" ∷ codes "com" ∷ codes "orders" ∷ codes "types" ∷ []
unfolding uri_segments pieces_from push_word separates strip_www strip_prefix strip_scheme
    after_text or_else value_or
orders_segments = refl

cons-ne-nil : (s : Bytes) (segments : List Bytes) → (s ∷ segments) ≢ []
cons-ne-nil s segments e = cc

default_namespace_for-IsChosen_example :
    IsChosen orders namespaces (default_namespace_for orders namespaces [])
unfolding lookup
default_namespace_for-IsChosen_example =
    default_namespace_for-IsChosen orders namespaces []
      (λ e. cons-ne-nil _ _ (rw orders_segments at e)) refl (λ e. cc)

two_segments : default_namespace_for orders namespaces [] ≡ codes "orders::types"
unfolding default_namespace_for choose_namespace reverse_onto other_segments collides candidate_at
    join_names drop append_name prepend_until_unique uri_segments pieces_from push_word separates
    strip_www strip_prefix strip_scheme after_text or_else value_or lookup to_cpp_identifier
    sanitize_cpp_identifier guard_keyword is_one_of same_bytes guard_digit or_fallback escape_others
    is_identifier_char to_snake_case snake_from snake_step is_upper is_lower
two_segments = refl

cpp_namespace_for-uri_segments_example :
    cpp_namespace_for orders [] ≡ joined to_snake_case (uri_segments orders)
unfolding lookup
cpp_namespace_for-uri_segments_example = cpp_namespace_for-uri_segments orders [] (λ e. cc) refl

-- A segment that is no identifier stays as it is.
year_as_namespace :
    cpp_namespace_for (codes "http://example.com/2001/int") [] ≡ codes "example::com::2001::int"
unfolding cpp_namespace_for without_scheme without_www derive_namespace append_segment append_name
    separates strip_www strip_prefix strip_scheme after_text or_else value_or lookup to_snake_case
    snake_from snake_step is_upper
year_as_namespace = refl
