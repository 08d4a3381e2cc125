-- ===== src/Rng/Returns.antt =====
-- When the simplifier returns a pattern, and the form that the pattern has.
use xb.Common.{
  ℕ, zero, suc, ◌≤◌, Bool, true, false, ◌&&◌, ◌||◌, ◌≡◌, inl, inr, refl, arith, Bool-cases,
}
use xb.Rng.Pattern.{
  Pattern, Child, null, node, size, attribute_pattern, group_pattern, interleave_pattern,
  choice_pattern, one_or_more_pattern, mixed_pattern, not_allowed_pattern, list_pattern,
}
use xb.Rng.Bools.{and_left, and_right}
use xb.Rng.Simplify.{is_not_allowed, single_node, pair_node, choice_node, grammar_node}
use xb.Rng.SimpleForm.{simple_form}

pub size-positive : (p : Pattern) → 1 ≤ size p
unfolding size
size-positive (mixed_pattern content) = omega arith
size-positive p = omega arith

-- No alternative of a choice that the pattern is, or that an alternative is, has a null pointer.
unfoldable mutual
  pub has_alternatives : Pattern → Bool
  has_alternatives (choice_pattern left right) = has_alternative left && has_alternative right
  has_alternatives _ = true

  pub has_alternative : Child → Bool
  has_alternative null = false
  has_alternative (node p) = has_alternatives p

IsNode : Child → Type 0
IsNode c = (q : Pattern) × (c ≡ node q)

choice_node-IsNode : (l r : Child) → IsNode l → IsNode r → IsNode (choice_node l r)
unfolding IsNode choice_node
choice_node-IsNode l r (p, e) (q, h) = elim (Bool-cases (is_not_allowed l)) [
  | inl gone ↦ rw gone (q, h)
  | inr there ↦ elim (Bool-cases (is_not_allowed r)) [
    | inl gone ↦ rw (there, gone) (p, e)
    | inr also ↦ rw (there, also) (choice_pattern l r, refl)
  ]
]

single_node-IsNode : (p : Pattern) (c : Child) → IsNode (single_node p c)
unfolding IsNode single_node
single_node-IsNode p c = elim (Bool-cases (is_not_allowed c)) [
  | inl e ↦ rw e (not_allowed_pattern, refl)
  | inr e ↦ rw e (p, refl)
]

pair_node-IsNode : (p : Pattern) (l r : Child) → IsNode (pair_node p l r)
unfolding IsNode pair_node
pair_node-IsNode p l r = elim (Bool-cases (is_not_allowed l || is_not_allowed r)) [
  | inl e ↦ rw e (not_allowed_pattern, refl)
  | inr e ↦ rw e (p, refl)
]

pub simple_form-node :
    (f : ℕ) (p : Pattern)
    → size p ≤ f
    → has_alternatives p ≡ true
    → (q : Pattern) × (simple_form f p ≡ node q)
unfolding simple_form has_alternatives size IsNode grammar_node
simple_form-node zero p small h = absurd (omega (arith, small, size-positive p))
simple_form-node (suc f) (choice_pattern (node a) (node b)) small h =
    choice_node-IsNode _ _ (simple_form-node f a (omega (arith, small)) (and_left _ _ h))
      (simple_form-node f b (omega (arith, small)) (and_right _ _ h))
simple_form-node (suc f) (choice_pattern null right) small h = cc
simple_form-node (suc f) (choice_pattern (node a) null) small h =
    cc (and_right (has_alternatives a) false h)
simple_form-node (suc f) (attribute_pattern name content) small h = single_node-IsNode _ _
simple_form-node (suc f) (one_or_more_pattern content) small h = single_node-IsNode _ _
simple_form-node (suc f) (list_pattern content) small h = single_node-IsNode _ _
simple_form-node (suc f) (group_pattern left right) small h = pair_node-IsNode _ _ _
simple_form-node (suc f) (interleave_pattern left right) small h = pair_node-IsNode _ _ _
simple_form-node (suc f) p small h = (_, refl)
