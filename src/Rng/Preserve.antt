-- ===== src/Rng/Preserve.antt =====
-- `simple_form` keeps the meaning of patterns, of grammars and of the grammars inside them.
use Prim.Native.String.{String}
use text.Mathlib.Text.{◌==◌ as same_name}
use text.Mathlib.TextEquality.{eq_iff}
use xb.Common.{ℕ, zero, suc, ◌+◌, ◌≤◌, [], true, ◌&&◌, ◌||◌, ◌≡◌, ◌⊎◌, inl, inr, refl, arith}
use xb.Common.Result.{Error, ok, err}
use xb.Rng.SimpleFormLaws.{simplify_impl-Gives}
use xb.Rng.Pattern.{
  Pattern, Child, null, node, Defines, no_define, no_include, size, size_child, size_defines,
  element_pattern, attribute_pattern, group_pattern, interleave_pattern, choice_pattern,
  one_or_more_pattern, zero_or_more_pattern, optional_pattern, mixed_pattern, ref_pattern,
  empty_pattern, text_pattern, not_allowed_pattern, data_pattern, value_pattern, list_pattern,
  external_ref_pattern, grammar_pattern,
}
use xb.Rng.Names.{Names, contains, insert}
use xb.Rng.Bools.{and_left, and_right, or_true}
use xb.Rng.Simplify.{
  RngFileResolver, call_resolver, collect_refs, collect_child, merge_combines, reachable_names,
  remove_unreachable, pair_node, grammar_node, dereference, rng_simplify,
}
use xb.Rng.SimpleForm.{on_child, on_bodies, simple_form}
use xb.Rng.MergeLaws.{defined, defined-kept}
use xb.Rng.RefLaws.{pair_refs}
use xb.Rng.Reach.{reachable_names-Closed}
use xb.Rng.Language.{
  Documents, Both, Inside, Repeats, Matches, MatchesChild, Named, is_plain, is_plain_child,
  is_plain_defines,
}
use xb.Rng.BodyLaws.{size-defined, is_plain-defined, defined-Closed}
use xb.Rng.Returns.{size-positive, has_alternatives, simple_form-node}
use xb.Rng.Kept.{
  Same, Inside-Same, Repeats-Same, Repeats-none, Kept, Kept-pair, Kept-choice, Kept-single,
  Kept-mixed, Kept-optional, Kept-zero_or_more,
}

module _ (d : Documents) where
  -- The names of the set mean the same with the one definitions and with the others.
  abbrev Agree : ℕ → Defines → Defines → Names → Type 0
  Agree n ds simple R =
      (k : String) → contains k R ≡ true → Same (Named d n ds k) (Named d n simple k)

  abbrev Preserves : ℕ → Type 0
  Preserves f =
      (n : ℕ) (p : Pattern) (ds simple : Defines) (R : Names)
      → size p ≤ f
      → is_plain p ≡ true
      → Agree n ds simple R
      → Kept d (Named d n) simple R (Matches d (Named d n) ds p) (simple_form f p)

  child_preserved :
      (f n : ℕ) (c : Child) (ds simple : Defines) (R : Names)
      → Preserves f
      → size_child c ≤ f
      → is_plain_child c ≡ true
      → Agree n ds simple R
      → Kept d (Named d n) simple R (MatchesChild d (Named d n) ds c) (on_child (simple_form f) c)
  unfolding size is_plain Matches
  child_preserved f n null ds simple R keep small plain agree s x = (λ m. m, λ m. m)
  child_preserved f n (node p) ds simple R keep small plain agree s x =
      keep n p ds simple R small plain agree s x

  -- What is left of the definitions of a grammar.
  abbrev kept_defines : ℕ → Child → Defines → Defines
  kept_defines f start defines =
      remove_unreachable (on_child (simple_form f) start)
        (on_bodies (simple_form f) (merge_combines defines))

  abbrev kept_names : ℕ → Child → Defines → Names
  kept_names f start defines =
      reachable_names (on_child (simple_form f) start)
        (on_bodies (simple_form f) (merge_combines defines))

  -- The names that can be reached mean the same when the grammar has been simplified.
  agreement :
      (f n : ℕ) (start : Child) (defines : Defines)
      → Preserves f
      → size_defines defines ≤ f
      → is_plain_defines defines ≡ true
      → Agree n defines (kept_defines f start defines) (kept_names f start defines)
  unfolding remove_unreachable
  agreement f zero start defines keep small plain k h x = (λ m. m, λ m. m)
  agreement f (suc n) start defines keep small plain k h x =
      let simple = on_bodies (simple_form f) (merge_combines defines) in
      let R = kept_names f start defines in
      let closed = (reachable_names-Closed (on_child (simple_form f) start) simple).0 in
      let body = defined k defines in
      let by_body =
        child_preserved f n body defines (kept_defines f start defines) R keep
          (omega (arith, small, size-defined k defines)) (is_plain-defined k defines plain)
          (agreement f n start defines keep small plain)
          (defined-Closed (simple_form f) R k defines closed h) x in
      rw (defined-kept (simple_form f) R k defines h) by_body

  pair_preserved :
      (f n : ℕ) (p : Pattern) (join : d.Content → d.Content → d.Content → Type 0)
      (left right : Child) (ds simple : Defines) (R : Names)
      → Preserves f
      → size_child left + size_child right ≤ f
      → (is_plain_child left && is_plain_child right) ≡ true
      → Agree n ds simple R
      → Same
          (Both join
            (MatchesChild d (Named d n) simple (on_child (simple_form f) left))
            (MatchesChild d (Named d n) simple (on_child (simple_form f) right)))
          (Matches d (Named d n) simple p)
      → ((k : String)
          → contains k (collect_refs p []) ≡ (
              contains k (collect_child (on_child (simple_form f) right) [])
              || contains k (collect_child (on_child (simple_form f) left) [])))
      → Kept d
          (Named d n)
          simple
          R
          (Both join (MatchesChild d (Named d n) ds left) (MatchesChild d (Named d n) ds right))
          (pair_node p (on_child (simple_form f) left) (on_child (simple_form f) right))
  unfolding Matches
  pair_preserved f n p join left right ds simple R keep small plain agree same refs =
      Kept-pair d (Named d n) simple R p join _ _ _ _ same refs
        (child_preserved f n left ds simple R keep (omega (arith, small)) (and_left _ _ plain)
          agree)
        (child_preserved f n right ds simple R keep (omega (arith, small)) (and_right _ _ plain)
          agree)

  preserves : (f : ℕ) → Preserves f
  unfolding size is_plain Matches simple_form grammar_node collect_refs contains insert
  preserves zero n p ds simple R small plain agree s x =
      absurd (omega (arith, small, size-positive p))
  preserves (suc f) n (mixed_pattern content) ds simple R small plain agree s x =
      Kept-mixed d (Named d n) simple R _ (on_child (simple_form f) content)
        (child_preserved f n content ds simple R (preserves f) (omega (arith, small)) plain agree) s
        x
  preserves (suc f) n (optional_pattern content) ds simple R small plain agree s x =
      Kept-optional d (Named d n) simple R _ (on_child (simple_form f) content)
        (child_preserved f n content ds simple R (preserves f) (omega (arith, small)) plain agree) s
        x
  preserves (suc f) n (zero_or_more_pattern content) ds simple R small plain agree s x =
      Kept-zero_or_more d (Named d n) simple R _ (on_child (simple_form f) content)
        (child_preserved f n content ds simple R (preserves f) (omega (arith, small)) plain agree) s
        x
  preserves (suc f) n (element_pattern name content) ds simple R small plain agree s x =
      Inside-Same (d.IsElement name) _ _
        (child_preserved f n content ds simple R (preserves f) (omega (arith, small)) plain agree s)
        x
  preserves (suc f) n (attribute_pattern name content) ds simple R small plain agree s x =
      Kept-single d (Named d n) simple R (attribute_pattern name (on_child (simple_form f) content))
        (Inside (d.IsAttribute name)) _ _ (Inside-Same (d.IsAttribute name)) (λ y m. m.2)
        (λ y. (λ m. m, λ m. m)) (λ k h. h)
        (child_preserved f n content ds simple R (preserves f) (omega (arith, small)) plain agree) s
        x
  preserves (suc f) n (list_pattern content) ds simple R small plain agree s x =
      Kept-single d (Named d n) simple R (list_pattern (on_child (simple_form f) content))
        (Inside d.IsList) _ _ (Inside-Same d.IsList) (λ y m. m.2) (λ y. (λ m. m, λ m. m)) (λ k h. h)
        (child_preserved f n content ds simple R (preserves f) (omega (arith, small)) plain agree) s
        x
  preserves (suc f) n (one_or_more_pattern content) ds simple R small plain agree s x =
      Kept-single d (Named d n) simple R (one_or_more_pattern (on_child (simple_form f) content))
        (Repeats d.Groups) _ _ (Repeats-Same d.Groups) (λ y. Repeats-none d.Groups)
        (λ y. (λ m. m, λ m. m)) (λ k h. h)
        (child_preserved f n content ds simple R (preserves f) (omega (arith, small)) plain agree) s
        x
  preserves (suc f) n (group_pattern left right) ds simple R small plain agree s x =
      pair_preserved f n
        (group_pattern (on_child (simple_form f) left) (on_child (simple_form f) right)) d.Groups
        left right ds simple R (preserves f) (omega (arith, small)) plain agree
        (λ y. (λ m. m, λ m. m))
        (λ k. pair_refs k (on_child (simple_form f) left) (on_child (simple_form f) right)) s x
  preserves (suc f) n (interleave_pattern left right) ds simple R small plain agree s x =
      pair_preserved f n
        (interleave_pattern (on_child (simple_form f) left) (on_child (simple_form f) right))
        d.Interleaves left right ds simple R (preserves f) (omega (arith, small)) plain agree
        (λ y. (λ m. m, λ m. m))
        (λ k. pair_refs k (on_child (simple_form f) left) (on_child (simple_form f) right)) s x
  preserves (suc f) n (choice_pattern left right) ds simple R small plain agree s x =
      Kept-choice d (Named d n) simple R _ _ _ _
        (child_preserved f n left ds simple R (preserves f) (omega (arith, small))
          (and_left _ _ plain) agree)
        (child_preserved f n right ds simple R (preserves f) (omega (arith, small))
          (and_right _ _ plain) agree)
        s x
  preserves (suc f) n (grammar_pattern start defines no_include) ds simple R small plain agree s x =
      child_preserved f n start defines (kept_defines f start defines) (kept_names f start defines)
        (preserves f) (omega (arith, small)) (and_left _ _ plain)
        (agreement f n start defines (preserves f) (omega (arith, small)) (and_right _ _ plain))
        (reachable_names-Closed (on_child (simple_form f) start)
          (on_bodies (simple_form f) (merge_combines defines))).1
        x
  preserves (suc f) n (ref_pattern name) ds simple R small plain agree s x =
      agree name (s name (or_true (same_name name name) ((eq_iff name name).1 refl))) x
  preserves (suc f) n empty_pattern ds simple R small plain agree s x = (λ m. m, λ m. m)
  preserves (suc f) n text_pattern ds simple R small plain agree s x = (λ m. m, λ m. m)
  preserves (suc f) n not_allowed_pattern ds simple R small plain agree s x = (λ m. m, λ m. m)
  preserves (suc f) n (data_pattern library type_name params null) ds simple R small plain agree s
        x =
      (λ m. m, λ m. m)
  preserves (suc f) n (value_pattern library type_name value ns) ds simple R small plain agree s x =
      (λ m. m, λ m. m)
  preserves (suc f) n (external_ref_pattern href ns) ds simple R small plain agree s x =
      (λ m. m, λ m. m)
  preserves (suc f) n p ds simple R small plain agree s x = cc

-- The language of a pattern when references are followed to the depth. A name that no grammar
-- around it defines matches nothing.
abbrev pub Accepts : (d : Documents) → ℕ → Pattern → d.Content → Type 0
Accepts d n p x = Matches d (Named d n) no_define p x

-- The simplifier returns a pattern, which accepts what the given one accepts, at each depth, or throws
-- what the resolver throws.
abbrev pub KeepsLanguage : Documents → RngFileResolver → Pattern → Type 0
KeepsLanguage d resolver p =
    ((q : Pattern) × (rng_simplify resolver p ≡ ok q)
      × ((n : ℕ) → Same (Accepts d n p) (Accepts d n q)))
    ⊎ ((thrown : Error) × (href : String) × (call_resolver resolver href ≡ err thrown)
        × (rng_simplify resolver p ≡ err thrown))

-- For a pattern without references to an outer grammar, exceptions of data or includes, in which
-- no alternative of a choice at its top is a null pointer, `rng_simplify` returns a pattern that
-- accepts exactly what the given one accepts, at every depth to which references are followed, or
-- it throws an exception that a call of the resolver throws.
pub rng_simplify-Accepts :
    (d : Documents) (resolver : RngFileResolver) (p : Pattern)
    → is_plain p ≡ true
    → has_alternatives p ≡ true
    → KeepsLanguage d resolver p
unfolding rng_simplify dereference Matches
rng_simplify-Accepts d resolver p plain whole =
    let (q, e) = simple_form-node (size p) p (omega arith) whole in
    elim (simplify_impl-Gives resolver (size p) p (omega arith)) [
      | inl given ↦ inl (
        q,
        rw (given, e) refl,
        λ n. rw e at (
            preserves d (size p) n p no_define no_define (collect_child (simple_form (size p) p) [])
              (omega arith) plain (λ k h x. (λ m. m, λ m. m)) (λ k h. h)),
      )
      | inr (thrown, href, call, raised) ↦ inr (thrown, href, call, rw raised refl)
    ]
