-- ===== src/Rng/RefLaws.antt =====
-- The names that `collect_refs` adds do not depend on those that are there.
use Prim.Native.String.{String}
use xb.Common.{[], ◌||◌, ◌≡◌, refl, arith}
use xb.Rng.Pattern.{
  Pattern, Child, null, node, Defines, no_define, define, element_pattern, attribute_pattern,
  group_pattern, interleave_pattern, choice_pattern, one_or_more_pattern, zero_or_more_pattern,
  optional_pattern, mixed_pattern, ref_pattern, parent_ref_pattern, empty_pattern, text_pattern,
  not_allowed_pattern, data_pattern, value_pattern, list_pattern, external_ref_pattern,
  grammar_pattern,
}
use xb.Rng.Names.{Names, contains, insert, contains-insert}
use xb.Rng.Bools.{then_more}
use xb.Rng.Simplify.{collect_refs, collect_child, collect_defines}

mutual
  unfolding collect_refs contains insert

  pub refs_split :
      (k : String) (p : Pattern) (refs : Names)
      → contains k (collect_refs p refs) ≡ (contains k (collect_refs p []) || contains k refs)
  refs_split k (ref_pattern name) refs = ground (arith, contains-insert k name refs)
  refs_split k (element_pattern name content) refs = child_split k content refs
  refs_split k (attribute_pattern name content) refs = child_split k content refs
  refs_split k (group_pattern left right) refs =
      then_more _ _ _ _ _ _ (child_split k right (collect_child left refs))
        (child_split k left refs) (child_split k right (collect_child left []))
  refs_split k (interleave_pattern left right) refs =
      then_more _ _ _ _ _ _ (child_split k right (collect_child left refs))
        (child_split k left refs) (child_split k right (collect_child left []))
  refs_split k (choice_pattern left right) refs =
      then_more _ _ _ _ _ _ (child_split k right (collect_child left refs))
        (child_split k left refs) (child_split k right (collect_child left []))
  refs_split k (one_or_more_pattern content) refs = child_split k content refs
  refs_split k (list_pattern content) refs = child_split k content refs
  refs_split k (data_pattern library type_name params except) refs = child_split k except refs
  refs_split k (grammar_pattern start defines includes) refs =
      then_more _ _ _ _ _ _ (defines_split k defines (collect_child start refs))
        (child_split k start refs) (defines_split k defines (collect_child start []))
  refs_split k (zero_or_more_pattern content) refs = refl
  refs_split k (optional_pattern content) refs = refl
  refs_split k (mixed_pattern content) refs = refl
  refs_split k (parent_ref_pattern name) refs = refl
  refs_split k empty_pattern refs = refl
  refs_split k text_pattern refs = refl
  refs_split k not_allowed_pattern refs = refl
  refs_split k (value_pattern library type_name value ns) refs = refl
  refs_split k (external_ref_pattern href ns) refs = refl

  pub child_split :
      (k : String) (c : Child) (refs : Names)
      → contains k (collect_child c refs) ≡ (contains k (collect_child c []) || contains k refs)
  child_split k null refs = refl
  child_split k (node p) refs = refs_split k p refs

  pub defines_split :
      (k : String) (defines : Defines) (refs : Names)
      → contains k (collect_defines defines refs)
        ≡ (contains k (collect_defines defines []) || contains k refs)
  defines_split k no_define refs = refl
  defines_split k (define name combine body rest) refs =
      then_more _ _ _ _ _ _ (defines_split k rest (collect_child body refs))
        (child_split k body refs) (defines_split k rest (collect_child body []))

-- The names of two children are those of the one and those of the other.
pub pair_refs :
    (k : String) (left right : Child)
    → contains k (collect_child right (collect_child left []))
      ≡ (contains k (collect_child right []) || contains k (collect_child left []))
pair_refs k left right = child_split k right (collect_child left [])
