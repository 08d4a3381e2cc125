-- ===== src/Rng/Language.antt =====
-- What RELAX NG patterns mean, from the sections of the specification that rng_simplify.cpp names, as an
-- independent description: not a translation of code.
use Prim.Native.String.{String}
use xb.Common.{ℕ, zero, suc, List, Bool, true, false, ◌&&◌, ◌⊎◌}
use xb.Rng.Pattern.{
  NameClass, DataParam, Pattern, Child, null, node, Defines, no_define, define, no_include,
  include_directive, element_pattern, attribute_pattern, group_pattern, interleave_pattern,
  choice_pattern, one_or_more_pattern, zero_or_more_pattern, optional_pattern, mixed_pattern,
  ref_pattern, parent_ref_pattern, empty_pattern, text_pattern, not_allowed_pattern, data_pattern,
  value_pattern, list_pattern, external_ref_pattern, grammar_pattern,
}
use xb.Rng.MergeLaws.{defined}

-- The pieces of documents that patterns are matched with, and how they are put together.
pub record Documents : Type 1 where
  pub Content : Type 0
  pub IsEmpty : Content → Type 0
  pub IsText : Content → Type 0
  -- the third is the first and then the second; the third is the two, mixed in some order
  pub Groups : Content → Content → Content → Type 0
  pub Interleaves : Content → Content → Content → Type 0
  -- the last is one element, one attribute, one list with a name of the class and the content
  pub IsElement : NameClass → Content → Content → Type 0
  pub IsAttribute : NameClass → Content → Content → Type 0
  pub IsList : Content → Content → Type 0
  pub IsData : (datatype_library type_name : String) → List DataParam → Content → Type 0
  pub IsValue : (datatype_library type_name value ns : String) → Content → Type 0
  pub IsExternal : (href ns : String) → Content → Type 0

-- Two contents, put together.
abbrev pub Both : {X : Type 0} → (X → X → X → Type 0) → (X → Type 0) → (X → Type 0) → X → Type 0
Both {X} join P Q x = (a : X) × (b : X) × join a b x × P a × Q b

-- A content with one inside it.
abbrev pub Inside : {X : Type 0} → (X → X → Type 0) → (X → Type 0) → X → Type 0
Inside {X} around P x = (a : X) × around a x × P a

-- One or more contents, one after the other.
pub data Repeats {X : Type 0} (join : X → X → X → Type 0) (P : X → Type 0) : X → Type 0 where
  once : {x : X} → P x → Repeats join P x
  again : {x : X} (a b : X) → join a b x → P a → Repeats join P b → Repeats join P x

module _ (d : Documents) where
  -- What a name means in a grammar with the definitions.
  abbrev pub Naming : Type 1
  Naming = Defines → String → d.Content → Type 0

  -- The contents that match a pattern of a grammar. A grammar inside has its own definitions.
  unfoldable mutual
    pub Matches : Naming → Defines → Pattern → d.Content → Type 0
    Matches names ds (element_pattern name content) x =
        Inside (d.IsElement name) (MatchesChild names ds content) x
    Matches names ds (attribute_pattern name content) x =
        Inside (d.IsAttribute name) (MatchesChild names ds content) x
    Matches names ds (group_pattern left right) x =
        Both d.Groups (MatchesChild names ds left) (MatchesChild names ds right) x
    Matches names ds (interleave_pattern left right) x =
        Both d.Interleaves (MatchesChild names ds left) (MatchesChild names ds right) x
    Matches names ds (choice_pattern left right) x =
        MatchesChild names ds left x ⊎ MatchesChild names ds right x
    Matches names ds (one_or_more_pattern content) x =
        Repeats d.Groups (MatchesChild names ds content) x
    Matches names ds (zero_or_more_pattern content) x =
        Repeats d.Groups (MatchesChild names ds content) x ⊎ d.IsEmpty x
    Matches names ds (optional_pattern content) x = MatchesChild names ds content x ⊎ d.IsEmpty x
    Matches names ds (mixed_pattern content) x =
        Both d.Interleaves (MatchesChild names ds content) d.IsText x
    Matches names ds (ref_pattern name) x = names ds name x
    Matches names ds (parent_ref_pattern name) x = ⊥
    Matches names ds empty_pattern x = d.IsEmpty x
    Matches names ds text_pattern x = d.IsText x
    Matches names ds not_allowed_pattern x = ⊥
    Matches names ds (data_pattern library type_name params except) x =
        d.IsData library type_name params x
    Matches names ds (value_pattern library type_name value ns) x =
        d.IsValue library type_name value ns x
    Matches names ds (list_pattern content) x = Inside d.IsList (MatchesChild names ds content) x
    Matches names ds (external_ref_pattern href ns) x = d.IsExternal href ns x
    Matches names ds (grammar_pattern start defines includes) x = MatchesChild names defines start x

    pub MatchesChild : Naming → Defines → Child → d.Content → Type 0
    MatchesChild names ds null x = ⊥
    MatchesChild names ds (node p) x = Matches names ds p x

  -- What a name means when references are followed to the depth: the combination of its bodies.
  abbrev pub Named : ℕ → Naming
  Named zero ds k x = ⊥
  Named (suc n) ds k x = MatchesChild (Named n) ds (defined k ds) x

-- A pattern without the nodes that the description leaves out: references to an outer grammar, exceptions
-- of data, includes.
unfoldable mutual
  pub is_plain : Pattern → Bool
  is_plain (element_pattern name content) = is_plain_child content
  is_plain (attribute_pattern name content) = is_plain_child content
  is_plain (group_pattern left right) = is_plain_child left && is_plain_child right
  is_plain (interleave_pattern left right) = is_plain_child left && is_plain_child right
  is_plain (choice_pattern left right) = is_plain_child left && is_plain_child right
  is_plain (one_or_more_pattern content) = is_plain_child content
  is_plain (zero_or_more_pattern content) = is_plain_child content
  is_plain (optional_pattern content) = is_plain_child content
  is_plain (mixed_pattern content) = is_plain_child content
  is_plain (parent_ref_pattern name) = false
  is_plain (data_pattern library type_name params (node except)) = false
  is_plain (list_pattern content) = is_plain_child content
  is_plain
        (grammar_pattern start defines
          (include_directive href ns overrides start_override includes)) =
      false
  is_plain (grammar_pattern start defines no_include) =
      is_plain_child start && is_plain_defines defines
  is_plain _ = true

  pub is_plain_child : Child → Bool
  is_plain_child null = true
  is_plain_child (node p) = is_plain p

  pub is_plain_defines : Defines → Bool
  is_plain_defines no_define = true
  is_plain_defines (define name combine body rest) = is_plain_child body && is_plain_defines rest
