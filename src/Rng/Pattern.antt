-- ===== src/Rng/Pattern.antt =====
-- The nodes of src/include/xb/rng_pattern.hpp. A `std::unique_ptr` is a child, which may be null.
use Prim.Native.String.{String}
use xb.Common.{ℕ, suc, ◌+◌, List}

mutual
  pub data NameClass : Type 0 where
    specific_name : (ns local_name : String) → NameClass
    any_name_nc : NameChild → NameClass
    ns_name_nc : String → NameChild → NameClass
    choice_name_class : NameChild → NameChild → NameClass

  pub data NameChild : Type 0 where
    no_name : NameChild
    name_class : NameClass → NameChild

pub record DataParam : Type 0 where
  pub name : String
  pub value : String

pub data CombineMethod : Type 0 where
  none choice interleave : CombineMethod

mutual
  pub data Pattern : Type 0 where
    element_pattern attribute_pattern : NameClass → Child → Pattern
    group_pattern interleave_pattern choice_pattern : Child → Child → Pattern
    one_or_more_pattern zero_or_more_pattern optional_pattern mixed_pattern : Child → Pattern
    ref_pattern parent_ref_pattern : String → Pattern
    empty_pattern text_pattern not_allowed_pattern : Pattern
    data_pattern : (datatype_library type_name : String) → List DataParam → Child → Pattern
    value_pattern : (datatype_library type_name value ns : String) → Pattern
    list_pattern : Child → Pattern
    external_ref_pattern : (href ns : String) → Pattern
    grammar_pattern : Child → Defines → Includes → Pattern

  pub data Child : Type 0 where
    null : Child
    node : Pattern → Child

  pub data Defines : Type 0 where
    no_define : Defines
    define : (name : String) → CombineMethod → Child → Defines → Defines

  pub data Includes : Type 0 where
    no_include : Includes
    include_directive : (href ns : String) → Defines → Child → Includes → Includes

-- The nodes and the definitions of a pattern, without those of its includes.
unfoldable mutual
  pub size : Pattern → ℕ
  size (element_pattern name content) = suc (size_child content)
  size (attribute_pattern name content) = suc (size_child content)
  size (group_pattern left right) = suc (size_child left + size_child right)
  size (interleave_pattern left right) = suc (size_child left + size_child right)
  size (choice_pattern left right) = suc (size_child left + size_child right)
  size (one_or_more_pattern content) = suc (size_child content)
  size (zero_or_more_pattern content) = suc (size_child content)
  size (optional_pattern content) = suc (size_child content)
  size (mixed_pattern content) = suc (size_child content)
  size (data_pattern library type_name params except) = suc (size_child except)
  size (list_pattern content) = suc (size_child content)
  size (grammar_pattern start defines includes) = suc (size_child start + size_defines defines)
  size _ = 1

  pub size_child : Child → ℕ
  size_child null = 0
  size_child (node p) = size p

  pub size_defines : Defines → ℕ
  size_defines no_define = 0
  size_defines (define name combine body rest) = suc (size_child body + size_defines rest)
