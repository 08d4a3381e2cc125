-- ===== src/Naming/Identifier.antt =====
-- src/lib/naming.cpp: names that are valid in C++.
use Prim.Native.String.{String}
use xb.Common.{
  ℕ, ◌+◌, ◌-◌, ◌/◌, ◌%◌, List, [], ◌∷◌, ◌++◌, map, Bool, true, false, ◌&&◌, ◌||◌, ltb, ◌==◌,
  if◌then◌else◌,
}
use xb.Common.Result.{Result, ok, ◌>>=◌}
use xb.Common.Text.{Bytes, codes, is_digit}
use xb.Naming.Style.{is_upper, is_lower, NamingStyle, to_snake_case, apply_naming_style}

-- `==` of two strings
unfoldable pub same_bytes : Bytes → Bytes → Bool
same_bytes [] [] = true
same_bytes (c ∷ s) (d ∷ t) = (c == d) && same_bytes s t
same_bytes _ _ = false

-- `count(…)` in a set of strings
unfoldable pub is_one_of : List Bytes → Bytes → Bool
is_one_of [] s = false
is_one_of (k ∷ keys) s = same_bytes k s || is_one_of keys s

abbrev pub keywords : List String
keywords =
    "alignas" ∷ "alignof" ∷ "and" ∷ "and_eq" ∷ "asm" ∷ "auto" ∷ "bitand" ∷ "bitor" ∷ "bool"
    ∷ "break" ∷ "case" ∷ "catch" ∷ "char" ∷ "char8_t" ∷ "char16_t" ∷ "char32_t" ∷ "class" ∷ "compl"
    ∷ "concept" ∷ "const" ∷ "consteval" ∷ "constexpr" ∷ "constinit" ∷ "const_cast" ∷ "continue"
    ∷ "co_await" ∷ "co_return" ∷ "co_yield" ∷ "decltype" ∷ "default" ∷ "delete" ∷ "do" ∷ "double"
    ∷ "dynamic_cast" ∷ "else" ∷ "enum" ∷ "explicit" ∷ "export" ∷ "extern" ∷ "false" ∷ "float"
    ∷ "for" ∷ "friend" ∷ "goto" ∷ "if" ∷ "inline" ∷ "int" ∷ "long" ∷ "mutable" ∷ "namespace" ∷ "new"
    ∷ "noexcept" ∷ "not" ∷ "not_eq" ∷ "nullptr" ∷ "operator" ∷ "or" ∷ "or_eq" ∷ "private"
    ∷ "protected" ∷ "public" ∷ "register" ∷ "reinterpret_cast" ∷ "requires" ∷ "return" ∷ "short"
    ∷ "signed" ∷ "sizeof" ∷ "static" ∷ "static_assert" ∷ "static_cast" ∷ "struct" ∷ "switch"
    ∷ "template" ∷ "this" ∷ "thread_local" ∷ "throw" ∷ "true" ∷ "try" ∷ "typedef" ∷ "typeid"
    ∷ "typename" ∷ "union" ∷ "unsigned" ∷ "using" ∷ "virtual" ∷ "void" ∷ "volatile" ∷ "wchar_t"
    ∷ "while" ∷ "xor" ∷ "xor_eq" ∷ []

abbrev pub cpp_keywords : List Bytes
cpp_keywords = map codes keywords

unfoldable pub is_identifier_char : ℕ → Bool
is_identifier_char c = is_lower c || is_upper c || is_digit c || (c == b'_')

-- A digit of `%02x`.
unfoldable pub hex_digit : ℕ → ℕ
hex_digit d = if ltb d 10 then b'0' + d else b'a' + (d - 10)

-- `snprintf(buf, sizeof(buf), "_x%02x", static_cast<unsigned char>(c))`
unfoldable pub escape_char : ℕ → Bytes
escape_char c = b'_' ∷ b'x' ∷ hex_digit (c % 256 / 16) ∷ hex_digit (c % 256 % 16) ∷ []

unfoldable pub escape_all : Bytes → Bytes
escape_all [] = []
escape_all (c ∷ s) = escape_char c ++ escape_all s

-- The first loop, which keeps the characters of identifiers.
unfoldable pub escape_others : Bytes → Bytes
escape_others [] = []
escape_others (c ∷ s) =
    let rest = escape_others s in if is_identifier_char c then c ∷ rest else escape_char c ++ rest

-- `if (result.empty())`
unfoldable pub or_fallback : Bytes → Bytes → Bytes
or_fallback [] original = escape_all original
or_fallback (c ∷ result) original = c ∷ result

unfoldable pub guard_digit : Bytes → Bytes
guard_digit [] = []
guard_digit (c ∷ result) = if is_digit c then b'_' ∷ c ∷ result else c ∷ result

unfoldable pub guard_keyword : Bytes → Bytes
guard_keyword result = if is_one_of cpp_keywords result then result ++ (b'_' ∷ []) else result

unfoldable pub sanitize_cpp_identifier : Bytes → Bytes → Bytes
sanitize_cpp_identifier input original_for_fallback =
    guard_keyword (guard_digit (or_fallback (escape_others input) original_for_fallback))

unfoldable pub to_cpp_identifier : Bytes → Bytes
to_cpp_identifier xsd_name = sanitize_cpp_identifier (to_snake_case xsd_name) xsd_name

pub data NamingCategory : Type 0 where
  type_name field enum_value function : NamingCategory

pub record Rule : Type 0 where
  pub pattern : Bytes
  pub replacement : Bytes

pub record NamingOptions : Type 0 where
  pub type_style : NamingStyle
  pub field_style : NamingStyle
  pub enum_style : NamingStyle
  pub function_style : NamingStyle
  pub type_rules : List Rule
  pub field_rules : List Rule

unfoldable pub style_of : NamingCategory → NamingOptions → NamingStyle
style_of type_name opts = opts.type_style
style_of field opts = opts.field_style
style_of enum_value opts = opts.enum_style
style_of function opts = opts.function_style

-- `rules`, where a null pointer is no rule
unfoldable pub rules_of : NamingCategory → NamingOptions → List Rule
rules_of type_name opts = opts.type_rules
rules_of field opts = opts.field_rules
rules_of enum_value opts = []
rules_of function opts = []

-- `std::regex_replace(result, std::regex(pattern), replacement)`, of the standard library: the text,
-- the pattern, the replacement. An ill-formed pattern throws.
module _ (regex_replace : Bytes → Bytes → Bytes → Result Bytes) where
  unfoldable pub apply_rules : List Rule → Bytes → Result Bytes
  apply_rules [] result = ok result
  apply_rules (rule ∷ rules) result =
      regex_replace result rule.pattern rule.replacement >>= λ replaced. apply_rules rules replaced

  unfoldable pub apply_naming : Bytes → NamingCategory → NamingOptions → Result Bytes
  apply_naming name category opts =
      apply_rules (rules_of category opts) (apply_naming_style name (style_of category opts))
      >>= λ result. ok (sanitize_cpp_identifier result name)
