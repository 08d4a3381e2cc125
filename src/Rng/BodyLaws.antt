-- ===== src/Rng/BodyLaws.antt =====
-- The combined body of a name: its size, its nodes and its references, from those of the definitions.
use Prim.Native.String.{String}
use text.Mathlib.Text.{◌==◌ as same_name}
use text.Mathlib.TextEquality.{eq_iff}
use xb.Common.{◌≤◌, List, [], ◌∷◌, true, ◌&&◌, ◌≡◌, ◌⊎◌, inl, inr, refl, arith, Bool-cases}
use xb.Rng.Pattern.{
  CombineMethod, none, choice, interleave, Pattern, Child, null, Defines, no_define, define, size,
  size_child, size_defines,
}
use xb.Rng.Names.{Names, contains, Subset}
use xb.Rng.Bools.{and_first, and_second, and_third}
use xb.Rng.Simplify.{
  combine_method, combine_bodies, merge_define, merge_from, merge_combines, collect_refs,
  collect_child,
}
use xb.Rng.SimpleForm.{on_child, on_bodies}
use xb.Rng.MergeLaws.{
  Entry, entries, defined, entries-merge_combines, size-merge_combines, entries-on_bodies,
}
use xb.Rng.Reach.{Closed}
use xb.Rng.Sound.{Body, Closed-Body}
use xb.Rng.Language.{is_plain, is_plain_child, is_plain_defines}

entries-Body :
    (defines : Defines) (k : String) (c : CombineMethod) (b : Child) (es : List Entry)
    → entries k defines ≡ (c, b) ∷ es
    → Body defines k b
entries-Body no_define k c b es h = cc
entries-Body (define name combine body rest) k c b es h = elim (Bool-cases (same_name name k)) [
  | inl e ↦ inl ((eq_iff name k).0 e, cc (rw e at h))
  | inr e ↦ inr (entries-Body rest k c b es (rw e at h))
]

size-Body :
    (defines : Defines) (k : String) (b : Child)
    → Body defines k b
    → size_child b ≤ size_defines defines
unfolding size
size-Body no_define k b m = absurd m
size-Body (define name combine body rest) k b (inl (same_k, same_b)) = rw same_b (omega arith)
size-Body (define name combine body rest) k b (inr m) = omega (arith, size-Body rest k b m)

is_plain-Body :
    (defines : Defines) (k : String) (b : Child)
    → is_plain_defines defines ≡ true
    → Body defines k b
    → is_plain_child b ≡ true
unfolding is_plain
is_plain-Body no_define k b h m = absurd m
is_plain-Body (define name combine body rest) k b h (inl (same_k, same_b)) =
    let plain : is_plain_child body ≡ true = ground (arith, h) in rw same_b at plain
is_plain-Body (define name combine body rest) k b h (inr m) =
    is_plain-Body rest k b (ground (arith, h)) m

is_plain-combine_bodies :
    (c : CombineMethod) (a b : Child)
    → is_plain_child (combine_bodies c a b) ≡ (is_plain_child a && is_plain_child b)
unfolding combine_bodies is_plain
is_plain-combine_bodies none a b = refl
is_plain-combine_bodies choice a b = refl
is_plain-combine_bodies interleave a b = refl

is_plain-merge_define :
    (name : String) (c : CombineMethod) (b : Child) (merged : Defines)
    → is_plain_defines (merge_define name c b merged)
      ≡ (is_plain_child b && is_plain_defines merged)
unfolding merge_define is_plain
is_plain-merge_define name c b no_define = refl
is_plain-merge_define name c b (define n d body rest) = elim (Bool-cases (same_name n name)) [
  | inl here ↦ rw here (and_first _ _ _ _ (is_plain-combine_bodies (combine_method d c) body b))
  | inr there ↦ rw there (and_second _ _ _ _ (is_plain-merge_define name c b rest))
]

is_plain-merge_from :
    (merged defines : Defines)
    → is_plain_defines (merge_from merged defines)
      ≡ (is_plain_defines merged && is_plain_defines defines)
unfolding merge_from is_plain
is_plain-merge_from merged no_define = ground arith
is_plain-merge_from merged (define n c b rest) =
    and_third _ _ _ _ _ (is_plain-merge_from (merge_define n c b merged) rest)
      (is_plain-merge_define n c b merged)

is_plain-merge_combines :
    (defines : Defines) → is_plain_defines (merge_combines defines) ≡ is_plain_defines defines
unfolding merge_combines is_plain
is_plain-merge_combines defines = is_plain-merge_from no_define defines

-- A name has no body, or the body is one of the merged definitions.
defined-cases :
    (k : String) (defines : Defines)
    → (defined k defines ≡ null) ⊎ Body (merge_combines defines) k (defined k defines)
defined-cases k defines = elim (entries-merge_combines k defines) [
  | inl e ↦ inl e.1
  | inr e ↦ inr (entries-Body (merge_combines defines) k e.0 (defined k defines) [] e.1)
]

pub size-defined :
    (k : String) (defines : Defines) → size_child (defined k defines) ≤ size_defines defines
unfolding size
size-defined k defines = elim (defined-cases k defines) [
  | inl e ↦ rw e (omega arith)
  | inr m ↦ omega (
    arith,
    size-Body (merge_combines defines) k (defined k defines) m,
    size-merge_combines defines,
  )
]

pub is_plain-defined :
    (k : String) (defines : Defines)
    → is_plain_defines defines ≡ true
    → is_plain_child (defined k defines) ≡ true
unfolding is_plain
is_plain-defined k defines h = elim (defined-cases k defines) [
  | inl e ↦ rw e refl
  | inr m ↦
      is_plain-Body (merge_combines defines) k (defined k defines)
        (rw (is_plain-merge_combines defines) h) m
]

-- In a closed set of names, the simplified body of a name mentions names of the set.
pub defined-Closed :
    (g : Pattern → Child) (R : Names) (k : String) (defines : Defines)
    → Closed (on_bodies g (merge_combines defines)) R
    → contains k R ≡ true
    → Subset (collect_child (on_child g (defined k defines)) []) R
unfolding collect_refs contains
defined-Closed g R k defines closed h = elim (entries-merge_combines k defines) [
  | inl e ↦ rw e.1 (λ j in_null. cc)
  | inr e ↦
      let simplified = on_bodies g (merge_combines defines) in
      Closed-Body simplified R k (on_child g (defined k defines)) closed
        (entries-Body simplified k e.0 (on_child g (defined k defines)) []
          (rw (entries-on_bodies g k (merge_combines defines), e.1) refl))
        h
]
