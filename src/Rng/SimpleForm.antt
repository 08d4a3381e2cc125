-- ===== src/Rng/SimpleForm.antt =====
-- What the simplifier makes of a pattern when no resolver throws: a function without exceptions that the
-- code's one is compared with.
use xb.Common.{ℕ, zero, suc}
use xb.Rng.Pattern.{
  Pattern, Child, null, node, Defines, no_define, define, element_pattern, attribute_pattern,
  group_pattern, interleave_pattern, choice_pattern, one_or_more_pattern, zero_or_more_pattern,
  optional_pattern, mixed_pattern, empty_pattern, text_pattern, data_pattern, list_pattern,
  grammar_pattern,
}
use xb.Rng.Simplify.{merge_combines, single_node, pair_node, choice_node, grammar_node}

abbrev pub on_child : (Pattern → Child) → Child → Child
on_child simplify null = null
on_child simplify (node p) = simplify p

abbrev pub on_bodies : (Pattern → Child) → Defines → Defines
on_bodies simplify no_define = no_define
on_bodies simplify (define name combine body rest) =
    define name combine (on_child simplify body) (on_bodies simplify rest)

-- On fuel, of which the size of the pattern is enough.
unfoldable pub simple_form : ℕ → Pattern → Child
simple_form zero p = null
simple_form (suc f) (mixed_pattern content) =
    node (interleave_pattern (on_child (simple_form f) content) (node text_pattern))
simple_form (suc f) (optional_pattern content) =
    node (choice_pattern (on_child (simple_form f) content) (node empty_pattern))
simple_form (suc f) (zero_or_more_pattern content) = node (
    choice_pattern (node (one_or_more_pattern (on_child (simple_form f) content)))
      (node empty_pattern))
simple_form (suc f) (element_pattern name content) =
    node (element_pattern name (on_child (simple_form f) content))
simple_form (suc f) (attribute_pattern name content) =
    let simple = on_child (simple_form f) content in
    single_node (attribute_pattern name simple) simple
simple_form (suc f) (group_pattern left right) =
    let l = on_child (simple_form f) left in
    let r = on_child (simple_form f) right in pair_node (group_pattern l r) l r
simple_form (suc f) (interleave_pattern left right) =
    let l = on_child (simple_form f) left in
    let r = on_child (simple_form f) right in pair_node (interleave_pattern l r) l r
simple_form (suc f) (choice_pattern left right) =
    choice_node (on_child (simple_form f) left) (on_child (simple_form f) right)
simple_form (suc f) (one_or_more_pattern content) =
    let simple = on_child (simple_form f) content in single_node (one_or_more_pattern simple) simple
simple_form (suc f) (list_pattern content) =
    let simple = on_child (simple_form f) content in single_node (list_pattern simple) simple
simple_form (suc f) (data_pattern library type_name params except) =
    node (data_pattern library type_name params (on_child (simple_form f) except))
simple_form (suc f) (grammar_pattern start defines includes) =
    grammar_node (on_child (simple_form f) start)
      (on_bodies (simple_form f) (merge_combines defines)) includes
simple_form (suc f) p = node p
