-- ===== src/Rng/MergeLaws.antt =====
-- What `merge_combines` does to the definitions of one name.
use Prim.Native.String.{String}
use text.Mathlib.Text.{◌==◌ as same_name}
use text.Mathlib.TextEquality.{eq_iff}
use xb.Common.{
  suc, ◌+◌, List, [], ◌∷◌, map, true, if◌then◌else◌, ◌≡◌, ◌∙◌, refl, arith, Bool-cases, inl, inr,
  ◌⊎◌,
}
use xb.Rng.Pattern.{
  CombineMethod, none, choice, interleave, Pattern, Child, null, node, choice_pattern,
  interleave_pattern, Defines, no_define, define, size, size_child, size_defines,
}
use xb.Rng.Names.{Names, contains}
use xb.Rng.Simplify.{
  combine_method, combine_bodies, merge_define, merge_from, merge_combines, keep_names,
}
use xb.Rng.SimpleForm.{on_child, on_bodies}

abbrev pub Entry : Type 0
Entry = CombineMethod × Child

-- The definitions of a name, in their order.
abbrev pub entries : String → Defines → List Entry
entries k no_define = []
entries k (define name combine body rest) =
    let later = entries k rest in if same_name name k then (combine, body) ∷ later else later

-- 4.17, apart from the code: the method of definitions is the one that is stated, the last where there are
-- several, and a choice where none is.
abbrev stated_method : CombineMethod → CombineMethod → CombineMethod
stated_method none none = choice
stated_method choice none = choice
stated_method interleave none = interleave
stated_method none choice = choice
stated_method choice choice = choice
stated_method interleave choice = choice
stated_method none interleave = interleave
stated_method choice interleave = interleave
stated_method interleave interleave = interleave

-- Bodies become the branches of a choice or of an interleave.
abbrev joined : CombineMethod → Child → Child → Child
joined none a b = node (interleave_pattern a b)
joined choice a b = node (choice_pattern a b)
joined interleave a b = node (interleave_pattern a b)

-- The body that definitions stand for: each next one is combined with what the ones before it give.
abbrev pub combined_from : CombineMethod → Child → List Entry → Child
combined_from c b [] = b
combined_from c b (e ∷ es) = let m = stated_method c e.0 in combined_from m (joined m b e.1) es

abbrev pub combined : List Entry → Child
combined [] = null
combined (e ∷ es) = combined_from e.0 e.1 es

-- The body of a name in a grammar, and null where it has none.
abbrev pub defined : String → Defines → Child
defined k defines = combined (entries k defines)

abbrev push : List Entry → Entry → List Entry
push [] e = e ∷ []
push (x ∷ es) e = (combine_method x.0 e.0, combine_bodies (combine_method x.0 e.0) x.1 e.1) ∷ es

abbrev push_all : List Entry → List Entry → List Entry
push_all es [] = es
push_all es (e ∷ more) = push_all (push es e) more

combine_method-eq-stated_method : (c m : CombineMethod) → combine_method c m ≡ stated_method c m
unfolding combine_method
combine_method-eq-stated_method none none = refl
combine_method-eq-stated_method choice none = refl
combine_method-eq-stated_method interleave none = refl
combine_method-eq-stated_method none choice = refl
combine_method-eq-stated_method choice choice = refl
combine_method-eq-stated_method interleave choice = refl
combine_method-eq-stated_method none interleave = refl
combine_method-eq-stated_method choice interleave = refl
combine_method-eq-stated_method interleave interleave = refl

combine_bodies-eq-joined : (m : CombineMethod) (a b : Child) → combine_bodies m a b ≡ joined m a b
unfolding combine_bodies
combine_bodies-eq-joined none a b = refl
combine_bodies-eq-joined choice a b = refl
combine_bodies-eq-joined interleave a b = refl

entries-merge_define :
    (k name : String) (c : CombineMethod) (b : Child) (merged : Defines)
    → entries k (merge_define name c b merged)
      ≡ (if same_name name k then push (entries k merged) (c, b) else entries k merged)
unfolding merge_define
entries-merge_define k name c b no_define = refl
entries-merge_define k name c b (define n d body rest) = elim (Bool-cases (same_name n name)) [
  | inl here ↦ ground (arith, eq_iff n name)
  | inr there ↦
      ground (arith, eq_iff n name, eq_iff n k, eq_iff name k, entries-merge_define k name c b rest)
]

entries-merge_from :
    (k : String) (merged defines : Defines)
    → entries k (merge_from merged defines) ≡ push_all (entries k merged) (entries k defines)
unfolding merge_from
entries-merge_from k merged no_define = refl
entries-merge_from k merged (define n c b rest) =
    entries-merge_from k (merge_define n c b merged) rest
    ∙ rw (entries-merge_define k n c b merged)
        (elim (Bool-cases (same_name n k)) [ inl e ↦ rw e refl | inr e ↦ rw e refl ])

push_all-one :
    (c : CombineMethod) (b : Child) (es : List Entry)
    → (m : CombineMethod) × (push_all ((c, b) ∷ []) es ≡ (m, combined_from c b es) ∷ [])
push_all-one c b [] = (c, refl)
push_all-one c b (e ∷ es) =
    let m = stated_method c e.0 in
    rw (combine_method-eq-stated_method c e.0, combine_bodies-eq-joined m b e.1)
      (push_all-one m (joined m b e.1) es)

-- No definition, or one with the given body.
abbrev pub OneEntry : List Entry → Child → Type 0
OneEntry es body = ((es ≡ []) × (body ≡ null)) ⊎ ((m : CombineMethod) × (es ≡ (m, body) ∷ []))

collapse : (es : List Entry) → OneEntry (push_all [] es) (combined es)
collapse [] = inl (refl, refl)
collapse (e ∷ es) = inr (push_all-one e.0 e.1 es)

-- After `merge_combines` a name has no definition if it had none, and else exactly one, whose body
-- joins the bodies that the name had, in their order, each next one by the combine method that was
-- stated last up to there, as a choice where none was stated.
pub entries-merge_combines :
    (k : String) (defines : Defines)
    → OneEntry (entries k (merge_combines defines)) (defined k defines)
unfolding merge_combines
entries-merge_combines k defines =
    rw (entries-merge_from k no_define defines) (collapse (entries k defines))

size-combine_bodies :
    (c : CombineMethod) (a b : Child)
    → size_child (combine_bodies c a b) ≡ suc (size_child a + size_child b)
unfolding combine_bodies size
size-combine_bodies none a b = refl
size-combine_bodies choice a b = refl
size-combine_bodies interleave a b = refl

size-merge_define :
    (name : String) (c : CombineMethod) (b : Child) (merged : Defines)
    → size_defines (merge_define name c b merged) ≡ suc (size_child b + size_defines merged)
unfolding merge_define size
size-merge_define name c b no_define = omega arith
size-merge_define name c b (define n d body rest) = elim (Bool-cases (same_name n name)) [
  | inl here ↦ rw here (omega (arith, size-combine_bodies (combine_method d c) body b))
  | inr there ↦ rw there (omega (arith, size-merge_define name c b rest))
]

size-merge_from :
    (merged defines : Defines)
    → size_defines (merge_from merged defines) ≡ size_defines merged + size_defines defines
unfolding merge_from size
size-merge_from merged no_define = omega arith
size-merge_from merged (define n c b rest) =
    omega (arith, size-merge_from (merge_define n c b merged) rest, size-merge_define n c b merged)

-- Merging keeps the size.
pub size-merge_combines :
    (defines : Defines) → size_defines (merge_combines defines) ≡ size_defines defines
unfolding merge_combines size
size-merge_combines defines = omega (arith, size-merge_from no_define defines)

abbrev pub on_entry : (Pattern → Child) → Entry → Entry
on_entry g e = (e.0, on_child g e.1)

pub entries-on_bodies :
    (g : Pattern → Child) (k : String) (defines : Defines)
    → entries k (on_bodies g defines) ≡ map (on_entry g) (entries k defines)
entries-on_bodies g k no_define = refl
entries-on_bodies g k (define n c b rest) = elim (Bool-cases (same_name n k)) [
  | inl e ↦ rw (e, entries-on_bodies g k rest)
  | inr e ↦ rw (e, entries-on_bodies g k rest)
]

pub entries-keep_names :
    (R : Names) (k : String) (defines : Defines)
    → entries k (keep_names R defines) ≡ (if contains k R then entries k defines else [])
unfolding keep_names
entries-keep_names R k no_define = ground arith
entries-keep_names R k (define n c b rest) =
    let later = entries-keep_names R k rest in
    elim (Bool-cases (same_name n k)) [
      | inl e ↦
          let same : n ≡ k = (eq_iff n k).0 e in
          elim (Bool-cases (contains k R)) [
            | inl kept ↦ rw (same, kept, (eq_iff k k).1 refl, later, kept) refl
            | inr lost ↦ rw (same, lost, later, lost) refl
          ]
      | inr e ↦ elim (Bool-cases (contains n R)) [
        | inl kept ↦ rw (kept, e, later) refl
        | inr lost ↦ rw (lost, e, later) refl
      ]
    ]

-- After merging, simplifying the bodies and removing definitions, a name that is kept has the
-- simplified body.
pub defined-kept :
    (g : Pattern → Child) (R : Names) (k : String) (defines : Defines)
    → contains k R ≡ true
    → defined k (keep_names R (on_bodies g (merge_combines defines)))
      ≡ on_child g (defined k defines)
defined-kept g R k defines h =
    rw
      (
        entries-keep_names R k (on_bodies g (merge_combines defines)),
        h,
        entries-on_bodies g k (merge_combines defines),
      )
      (elim (entries-merge_combines k defines) [ inl e ↦ rw (e.0, e.1) refl | inr e ↦ rw e.1 refl ])
