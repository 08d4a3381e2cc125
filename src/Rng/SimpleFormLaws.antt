-- ===== src/Rng/SimpleFormLaws.antt =====
-- `simplify_impl` gives the simple form, or throws what the resolver throws.
use Prim.Native.String.{String}
use xb.Common.{ℕ, zero, suc, ◌+◌, ◌≤◌, ◌≡◌, ◌⊎◌, inl, inr, refl, arith}
use xb.Common.Result.{Error, Result, ok, err, ◌>>=◌}
use xb.Rng.Pattern.{
  Pattern, Child, null, node, Defines, no_define, define, size, size_child, size_defines,
  element_pattern, attribute_pattern, group_pattern, interleave_pattern, choice_pattern,
  one_or_more_pattern, zero_or_more_pattern, optional_pattern, mixed_pattern, data_pattern,
  list_pattern, external_ref_pattern, grammar_pattern,
}
use xb.Rng.Simplify.{
  RngFileResolver, call_resolver, simplify_child, simplify_bodies, simplify_impl, merge_combines,
}
use xb.Rng.SimpleForm.{on_child, on_bodies, simple_form}
use xb.Rng.MergeLaws.{size-merge_combines}
use xb.Rng.Returns.{size-positive}

-- The result is the value, or the exception of a call of the resolver.
abbrev pub Gives : {X : Type 0} → RngFileResolver → Result X → X → Type 0
Gives {X} resolver result x =
    (result ≡ ok x)
    ⊎ ((thrown : Error) × (href : String) × (call_resolver resolver href ≡ err thrown)
        × (result ≡ err thrown))

Gives-bind :
    {X : Type 0} {Y : Type 0} (r : RngFileResolver) (first : Result X) (next : X → Result Y) (x : X)
    (y : Y)
    → Gives r first x
    → Gives r (next x) y
    → Gives r (first >>= next) y
Gives-bind r first next x y (inl e) later = rw e later
Gives-bind r first next x y (inr (thrown, href, call, e)) later =
    rw e (inr (thrown, href, call, refl))

call-Gives : (r : RngFileResolver) (href : String) → Gives r (call_resolver r href) tt
call-Gives r href = calls r href (call_resolver r href) refl
  where
    calls :
        (r : RngFileResolver) (href : String) (m : Result (Unit {0}))
        → call_resolver r href ≡ m
        → Gives r (call_resolver r href) tt
    calls r href (ok tt) e = inl e
    calls r href (err thrown) e = inr (thrown, href, e, e)

abbrev AllGive : RngFileResolver → ℕ → Type 0
AllGive r f = (p : Pattern) → size p ≤ f → Gives r (simplify_impl r f p) (simple_form f p)

child-Gives :
    (r : RngFileResolver) (f : ℕ) (c : Child)
    → AllGive r f
    → size_child c ≤ f
    → Gives r (simplify_child (simplify_impl r f) c) (on_child (simple_form f) c)
unfolding size simplify_child
child-Gives r f null h small = inl refl
child-Gives r f (node p) h small = h p small

bodies-Gives :
    (r : RngFileResolver) (f : ℕ) (defines : Defines)
    → AllGive r f
    → size_defines defines ≤ f
    → Gives r (simplify_bodies (simplify_impl r f) defines) (on_bodies (simple_form f) defines)
unfolding size simplify_bodies
bodies-Gives r f no_define h small = inl refl
bodies-Gives r f (define name combine body rest) h small =
    Gives-bind r _ _ _ _ (child-Gives r f body h (omega (arith, small)))
      (Gives-bind r _ _ _ _ (bodies-Gives r f rest h (omega (arith, small))) (inl refl))

-- A node with one child.
one-Gives :
    (r : RngFileResolver) (f : ℕ) (c : Child) (g : Child → Child)
    → AllGive r f
    → size_child c ≤ f
    → Gives r
        (simplify_child (simplify_impl r f) c >>= λ simple. ok (g simple))
        (g (on_child (simple_form f) c))
one-Gives r f c g h small = Gives-bind r _ _ _ _ (child-Gives r f c h small) (inl refl)

-- A node with two.
two-Gives :
    (r : RngFileResolver) (f : ℕ) (a b : Child) (g : Child → Child → Child)
    → AllGive r f
    → size_child a + size_child b ≤ f
    → Gives r
        (simplify_child (simplify_impl r f) a >>= λ x.
          (simplify_child (simplify_impl r f) b >>= λ y. ok (g x y)))
        (g (on_child (simple_form f) a) (on_child (simple_form f) b))
two-Gives r f a b g h small =
    Gives-bind r _ _ _ _ (child-Gives r f a h (omega (arith, small)))
      (Gives-bind r _ _ _ _ (child-Gives r f b h (omega (arith, small))) (inl refl))

-- With fuel for its size a pattern gets its simple form, unless the resolver throws.
pub simplify_impl-Gives : (r : RngFileResolver) (f : ℕ) → AllGive r f
unfolding simplify_impl simple_form size
simplify_impl-Gives r zero p small = absurd (omega (arith, small, size-positive p))
simplify_impl-Gives r (suc f) (mixed_pattern content) small =
    one-Gives r f content _ (simplify_impl-Gives r f) (omega (arith, small))
simplify_impl-Gives r (suc f) (optional_pattern content) small =
    one-Gives r f content _ (simplify_impl-Gives r f) (omega (arith, small))
simplify_impl-Gives r (suc f) (zero_or_more_pattern content) small =
    one-Gives r f content _ (simplify_impl-Gives r f) (omega (arith, small))
simplify_impl-Gives r (suc f) (element_pattern name content) small =
    one-Gives r f content _ (simplify_impl-Gives r f) (omega (arith, small))
simplify_impl-Gives r (suc f) (attribute_pattern name content) small =
    one-Gives r f content _ (simplify_impl-Gives r f) (omega (arith, small))
simplify_impl-Gives r (suc f) (one_or_more_pattern content) small =
    one-Gives r f content _ (simplify_impl-Gives r f) (omega (arith, small))
simplify_impl-Gives r (suc f) (list_pattern content) small =
    one-Gives r f content _ (simplify_impl-Gives r f) (omega (arith, small))
simplify_impl-Gives r (suc f) (data_pattern library type_name params except) small =
    one-Gives r f except _ (simplify_impl-Gives r f) (omega (arith, small))
simplify_impl-Gives r (suc f) (group_pattern left right) small =
    two-Gives r f left right _ (simplify_impl-Gives r f) (omega (arith, small))
simplify_impl-Gives r (suc f) (interleave_pattern left right) small =
    two-Gives r f left right _ (simplify_impl-Gives r f) (omega (arith, small))
simplify_impl-Gives r (suc f) (choice_pattern left right) small =
    two-Gives r f left right _ (simplify_impl-Gives r f) (omega (arith, small))
simplify_impl-Gives r (suc f) (external_ref_pattern href ns) small =
    Gives-bind r _ _ _ _ (call-Gives r href) (inl refl)
simplify_impl-Gives r (suc f) (grammar_pattern start defines includes) small =
    Gives-bind r _ _ _ _ (child-Gives r f start (simplify_impl-Gives r f) (omega (arith, small))) (
      Gives-bind r _ _ _ _
        (bodies-Gives r f (merge_combines defines) (simplify_impl-Gives r f)
          (omega (arith, small, size-merge_combines defines)))
        (inl refl))
simplify_impl-Gives r (suc f) p small = inl refl
