-- ===== src/Rng/Examples.antt =====
-- A grammar of a document, with a definition in two parts and one that nothing refers to.
use Prim.Native.String.{String}
use xb.Common.{List, [], ◌∷◌, ◌++◌, true, ◌≡◌, refl}
use xb.Rng.Pattern.{
  NameClass, specific_name, none, choice, Pattern, Child, node, Defines, no_define, define, size,
  interleave_pattern, no_include, element_pattern, ref_pattern, mixed_pattern, zero_or_more_pattern,
  optional_pattern, empty_pattern, text_pattern, grammar_pattern, not_allowed_pattern,
  one_or_more_pattern, external_ref_pattern, choice_pattern,
}
use xb.Rng.Names.{contains}
use xb.Rng.Simplify.{
  merge_combines, reachable_names, remove_unreachable, rng_simplify, dereference, simplify_impl,
  RngFileResolver, call_resolver, simplify_child, keep_names, mark_reachable, mark_defines,
  collect_refs,
}
use xb.Rng.Returns.{has_alternatives}
use xb.Rng.MergeLaws.{entries, OneEntry, defined, entries-merge_combines}
use xb.Rng.Chains.{Reaches, entries-remove_unreachable}
use mathlib.Core.Option.{some}
use xb.Common.Result.{ok, err, runtime_error}
use xb.Rng.Language.{Documents, is_plain}
use xb.Rng.Simple.{is_simple, rng_simplify-is_simple}
use xb.Rng.Preserve.{KeepsLanguage, rng_simplify-Accepts}

-- The third is the first two, mixed in some order.
data Mixes : List String → List String → List String → Type 0 where
  done : Mixes [] [] []
  left : {w : String} {a b x : List String} → Mixes a b x → Mixes (w ∷ a) b (w ∷ x)
  right : {w : String} {a b x : List String} → Mixes a b x → Mixes a (w ∷ b) (w ∷ x)

abbrev IsNamed : NameClass → List String → List String → Type 0
IsNamed (specific_name ns local_name) a x = x ≡ ("start" ∷ local_name ∷ []) ++ a ++ ("end" ∷ [])
IsNamed _ a x = ⊥

-- Documents as lists of words.
abbrev words : Documents
words = record {
  Content = List String;
  IsEmpty = λ x. x ≡ [];
  IsText = λ x. x ≡ x;
  Groups = λ a b x. x ≡ a ++ b;
  Interleaves = Mixes;
  IsElement = IsNamed;
  IsAttribute = IsNamed;
  IsList = λ a x. a ≡ x;
  IsData = λ library type_name params x. (w : String) × (x ≡ w ∷ []);
  IsValue = λ library type_name value ns x. x ≡ value ∷ [];
  IsExternal = λ href ns x. ⊥;
}

abbrev title : NameClass
title = specific_name "" "title"

abbrev doc : NameClass
doc = specific_name "" "doc"

abbrev defines : Defines
defines = define "part" choice (node (element_pattern title (node text_pattern))) (
    define "unused" none (node (ref_pattern "part")) (
      define "part" none (node (optional_pattern (node (ref_pattern "inner")))) (
        define "inner" none (node (choice_pattern (node not_allowed_pattern) (node text_pattern)))
          no_define)))

abbrev start : Child
start = node (
    element_pattern doc
      (node (mixed_pattern (node (zero_or_more_pattern (node (ref_pattern "part")))))))

abbrev document_schema : Pattern
document_schema = grammar_pattern start defines no_include

-- A resolver that reads every file as an empty text.
abbrev reads_nothing : RngFileResolver
reads_nothing = some (λ href. ok "")

rng_simplify-Accepts_example : KeepsLanguage words reads_nothing document_schema
unfolding is_plain has_alternatives
rng_simplify-Accepts_example = rng_simplify-Accepts words reads_nothing document_schema refl refl

-- What the resolver throws leaves the simplifier.
file_missing :
    rng_simplify
      (some (λ href. err runtime_error))
      (optional_pattern (node (external_ref_pattern "parts.rng" "")))
    ≡ err runtime_error
unfolding rng_simplify simplify_impl simplify_child call_resolver size
file_missing = refl

rng_simplify-is_simple_example :
    is_simple (
      interleave_pattern
        (node (choice_pattern (node (ref_pattern "part")) (node empty_pattern)))
        (node text_pattern))
    ≡ true
unfolding rng_simplify dereference simplify_impl simplify_child size
rng_simplify-is_simple_example =
    rng_simplify-is_simple reads_nothing
      (mixed_pattern (node (optional_pattern (node (ref_pattern "part")))))
      (interleave_pattern (node (choice_pattern (node (ref_pattern "part")) (node empty_pattern)))
        (node text_pattern))
      refl

entries-merge_combines_example :
    OneEntry (entries "part" (merge_combines defines)) (defined "part" defines)
entries-merge_combines_example = entries-merge_combines "part" defines

-- The grammar when its bodies have been simplified.
abbrev simple_start : Child
simple_start = node (
    element_pattern doc (
      node (
        choice_pattern (node (one_or_more_pattern (node (ref_pattern "part"))))
          (node empty_pattern))))

abbrev simple_defines : Defines
simple_defines =
    define "part" choice (node (element_pattern title (node text_pattern)))
      (define "unused" none (node (ref_pattern "part")) no_define)

entries-remove_unreachable_example :
    (Reaches simple_start simple_defines "unused"
      → entries "unused" (remove_unreachable simple_start simple_defines)
        ≡ entries "unused" simple_defines)
    × (¬ Reaches simple_start simple_defines "unused"
        → entries "unused" (remove_unreachable simple_start simple_defines) ≡ [])
unfolding is_simple
entries-remove_unreachable_example =
    entries-remove_unreachable simple_start simple_defines "unused" refl refl

-- The definition that nothing refers to goes.
unused_goes : entries "unused" (remove_unreachable start defines) ≡ []
unfolding remove_unreachable keep_names contains reachable_names mark_reachable mark_defines
    collect_refs
unused_goes = refl
