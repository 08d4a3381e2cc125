-- ===== src/Rng/Simple.antt =====
-- The form of a simplified pattern.
use xb.Common.{
  ℕ, zero, suc, ◌+◌, ◌≤◌, Bool, true, false, ◌&&◌, ◌||◌, ◌≡◌, inl, inr, refl, arith, Bool-cases,
}
use xb.Common.Result.{ok}
use xb.Rng.SimpleFormLaws.{simplify_impl-Gives}
use xb.Rng.Pattern.{
  Pattern, Child, null, node, Defines, no_define, define, size, size_child, size_defines,
  element_pattern, attribute_pattern, group_pattern, interleave_pattern, choice_pattern,
  one_or_more_pattern, zero_or_more_pattern, optional_pattern, mixed_pattern, data_pattern,
  list_pattern, grammar_pattern,
}
use xb.Rng.Names.{Names, contains}
use xb.Rng.Bools.{and_left, and_right, and_both}
use xb.Rng.Simplify.{
  RngFileResolver, is_not_allowed, merge_combines, remove_unreachable, keep_names, single_node,
  pair_node, choice_node, grammar_node, dereference, rng_simplify,
}
use xb.Rng.SimpleForm.{on_child, on_bodies, simple_form}
use xb.Rng.MergeLaws.{size-merge_combines}

-- No node of the pattern is of the kinds that 4.13, 4.14 and 4.15 remove.
unfoldable mutual
  pub is_simple : Pattern → Bool
  is_simple (mixed_pattern content) = false
  is_simple (optional_pattern content) = false
  is_simple (zero_or_more_pattern content) = false
  is_simple (element_pattern name content) = is_simple_child content
  is_simple (attribute_pattern name content) = is_simple_child content
  is_simple (group_pattern left right) = is_simple_child left && is_simple_child right
  is_simple (interleave_pattern left right) = is_simple_child left && is_simple_child right
  is_simple (choice_pattern left right) = is_simple_child left && is_simple_child right
  is_simple (one_or_more_pattern content) = is_simple_child content
  is_simple (data_pattern library type_name params except) = is_simple_child except
  is_simple (list_pattern content) = is_simple_child content
  is_simple (grammar_pattern start defines includes) =
      is_simple_child start && is_simple_defines defines
  is_simple _ = true

  pub is_simple_child : Child → Bool
  is_simple_child null = true
  is_simple_child (node p) = is_simple p

  pub is_simple_defines : Defines → Bool
  is_simple_defines no_define = true
  is_simple_defines (define name combine body rest) = is_simple_child body && is_simple_defines rest

single_node-is_simple :
    (p : Pattern) (c : Child) → is_simple p ≡ true → is_simple_child (single_node p c) ≡ true
unfolding is_simple single_node
single_node-is_simple p c h = elim (Bool-cases (is_not_allowed c)) [
  | inl e ↦ rw e refl
  | inr e ↦ rw e h
]

pair_node-is_simple :
    (p : Pattern) (l r : Child) → is_simple p ≡ true → is_simple_child (pair_node p l r) ≡ true
unfolding is_simple pair_node
pair_node-is_simple p l r h = elim (Bool-cases (is_not_allowed l || is_not_allowed r)) [
  | inl e ↦ rw e refl
  | inr e ↦ rw e h
]

choice_node-is_simple :
    (l r : Child)
    → is_simple_child l ≡ true
    → is_simple_child r ≡ true
    → is_simple_child (choice_node l r) ≡ true
unfolding is_simple choice_node
choice_node-is_simple l r h i = elim (Bool-cases (is_not_allowed l)) [
  | inl e ↦ rw e i
  | inr there ↦ elim (Bool-cases (is_not_allowed r)) [
    | inl e ↦ rw (there, e) h
    | inr e ↦ rw (there, e) (and_both _ _ h i)
  ]
]

keep_names-is_simple :
    (R : Names) (defines : Defines)
    → is_simple_defines defines ≡ true
    → is_simple_defines (keep_names R defines) ≡ true
unfolding is_simple keep_names
keep_names-is_simple R no_define h = refl
keep_names-is_simple R (define name combine body rest) h =
    let later = keep_names-is_simple R rest (and_right (is_simple_child body) _ h) in
    elim (Bool-cases (contains name R)) [
      | inl e ↦
          rw e (and_both _ _ (and_left (is_simple_child body) (is_simple_defines rest) h) later)
      | inr e ↦ rw e later
    ]

-- What simplifies all patterns up to a size does so to children and definitions.
abbrev Simplifies : ℕ → Type 0
Simplifies f = (p : Pattern) → size p ≤ f → is_simple_child (simple_form f p) ≡ true

simple_child :
    (f : ℕ) (c : Child)
    → Simplifies f
    → size_child c ≤ f
    → is_simple_child (on_child (simple_form f) c) ≡ true
unfolding size is_simple
simple_child f null h small = refl
simple_child f (node p) h small = h p small

simple_bodies :
    (f : ℕ) (defines : Defines)
    → Simplifies f
    → size_defines defines ≤ f
    → is_simple_defines (on_bodies (simple_form f) defines) ≡ true
unfolding size is_simple
simple_bodies f no_define h small = refl
simple_bodies f (define name combine body rest) h small =
    and_both _ _ (simple_child f body h (omega (arith, small)))
      (simple_bodies f rest h (omega (arith, small)))

simple_pair :
    (f : ℕ) (left right : Child)
    → Simplifies f
    → size_child left + size_child right ≤ f
    → (is_simple_child (on_child (simple_form f) left)
        && is_simple_child (on_child (simple_form f) right))
      ≡ true
simple_pair f left right h small =
    and_both _ _ (simple_child f left h (omega (arith, small)))
      (simple_child f right h (omega (arith, small)))

simple_form-is_simple : (f : ℕ) → Simplifies f
unfolding simple_form grammar_node remove_unreachable is_simple size
simple_form-is_simple zero p small = refl
simple_form-is_simple (suc f) (mixed_pattern content) small =
    and_both _ _ (simple_child f content (simple_form-is_simple f) (omega (arith, small))) refl
simple_form-is_simple (suc f) (optional_pattern content) small =
    and_both _ _ (simple_child f content (simple_form-is_simple f) (omega (arith, small))) refl
simple_form-is_simple (suc f) (zero_or_more_pattern content) small =
    and_both _ _ (simple_child f content (simple_form-is_simple f) (omega (arith, small))) refl
simple_form-is_simple (suc f) (element_pattern name content) small =
    simple_child f content (simple_form-is_simple f) (omega (arith, small))
simple_form-is_simple (suc f) (attribute_pattern name content) small =
    single_node-is_simple _ _
      (simple_child f content (simple_form-is_simple f) (omega (arith, small)))
simple_form-is_simple (suc f) (one_or_more_pattern content) small =
    single_node-is_simple _ _
      (simple_child f content (simple_form-is_simple f) (omega (arith, small)))
simple_form-is_simple (suc f) (list_pattern content) small =
    single_node-is_simple _ _
      (simple_child f content (simple_form-is_simple f) (omega (arith, small)))
simple_form-is_simple (suc f) (data_pattern library type_name params except) small =
    simple_child f except (simple_form-is_simple f) (omega (arith, small))
simple_form-is_simple (suc f) (group_pattern left right) small =
    pair_node-is_simple _ _ _
      (simple_pair f left right (simple_form-is_simple f) (omega (arith, small)))
simple_form-is_simple (suc f) (interleave_pattern left right) small =
    pair_node-is_simple _ _ _
      (simple_pair f left right (simple_form-is_simple f) (omega (arith, small)))
simple_form-is_simple (suc f) (choice_pattern left right) small =
    choice_node-is_simple _ _ (simple_child f left (simple_form-is_simple f) (omega (arith, small)))
      (simple_child f right (simple_form-is_simple f) (omega (arith, small)))
simple_form-is_simple (suc f) (grammar_pattern start defines includes) small =
    and_both _ _ (simple_child f start (simple_form-is_simple f) (omega (arith, small))) (
      keep_names-is_simple _ _ (
        simple_bodies f (merge_combines defines) (simple_form-is_simple f)
          (omega (arith, small, size-merge_combines defines))))
simple_form-is_simple (suc f) p small = refl

dereference-ok : (c : Child) (q : Pattern) → dereference c ≡ ok q → c ≡ node q
unfolding dereference
dereference-ok null q h = cc
dereference-ok (node p) q h = cc

-- A pattern that `rng_simplify` returns has no `mixed`, `optional` or `zeroOrMore` node in it or
-- in the starts and the definitions of its grammars; the definitions that an include overrides are
-- not looked at.
pub rng_simplify-is_simple :
    (resolver : RngFileResolver) (p q : Pattern)
    → rng_simplify resolver p ≡ ok q
    → is_simple q ≡ true
unfolding rng_simplify is_simple
rng_simplify-is_simple resolver p q h =
    elim (simplify_impl-Gives resolver (size p) p (omega arith)) [
      | inl given ↦
          rw (dereference-ok (simple_form (size p) p) q (rw given at h)) at
            (simple_form-is_simple (size p) p (omega arith))
      | inr (thrown, href, call, raised) ↦ cc (rw raised at h)
    ]
