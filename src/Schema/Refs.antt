-- ===== src/Schema/Refs.antt =====
-- References of a schema, collected by an independent description, and what the second phase of
-- `resolve` says of them.
use xb.Common.{
  List, [], ◌∷◌, ◌++◌, Bool, true, false, ◌||◌, Option, none, some, ◌≡◌, refl, All, All-append,
  Bool-cases, inl, inr,
}
use xb.Common.Result.{Result, ok, err, runtime_error, require, ◌>>◌}
use xb.Schema.Model.{
  QName, ElementDecl, AttributeUse, AttributeGroupDef, Term, element_decl_term, element_ref,
  group_ref, model_group_term, null_group, wildcard, Particles, no_particle, particle, ModelGroup,
  model_group, ModelGroupDef, ContentDetail, monostate, simple_content, complex_content, SimpleType,
  ComplexType, Schema,
}
use xb.Schema.Set.{
  is_builtin_type, is_known, is_blank, check_type_ref, check_ref, Tables, validate_particles,
  validate_term, validate_group, for_each,
}
use xb.Schema.Resolve.{
  check_given_type, check_optional_type, check_simple_type, check_attributes, check_content_model,
  check_content, check_complex_type, check_schema,
}

-- A reference, by what it refers to.
pub data Ref : Type 0 where
  to_type to_element to_group to_attr_group : QName → Ref

abbrev pub refs_in {ℓ} : {A : Type ℓ} → (A → List Ref) → List A → List Ref
refs_in refs [] = []
refs_in refs (x ∷ xs) = refs x ++ refs_in refs xs

unfoldable mutual
  pub particles_refs : Particles → List Ref
  particles_refs no_particle = []
  particles_refs (particle term occurs particles) = term_refs term ++ particles_refs particles

  pub term_refs : Term → List Ref
  term_refs (element_decl_term e) = to_type e.type_name ∷ []
  term_refs (element_ref ref) = to_element ref ∷ []
  term_refs (group_ref ref) = to_group ref ∷ []
  term_refs (model_group_term group) = group_refs group
  term_refs null_group = []
  term_refs wildcard = []

  pub group_refs : ModelGroup → List Ref
  group_refs (model_group compositor particles) = particles_refs particles

abbrev pub optional_refs {ℓ} : {A : Type ℓ} → (A → List Ref) → Option A → List Ref
optional_refs refs none = []
optional_refs refs (some x) = refs x

abbrev pub type_refs : QName → List Ref
type_refs q = to_type q ∷ []

abbrev pub attributes_refs : List AttributeUse → List QName → List Ref
attributes_refs attributes refs =
    refs_in (λ au. type_refs (AttributeUse.type_name au)) attributes
    ++ refs_in (λ q. to_attr_group q ∷ []) refs

abbrev pub simple_type_refs : SimpleType → List Ref
simple_type_refs st =
    (type_refs st.base_type_name ++ optional_refs type_refs st.item_type_name)
    ++ refs_in type_refs st.member_type_names

abbrev pub content_refs : ContentDetail → List Ref
content_refs monostate = []
content_refs (simple_content sc) = type_refs sc.base_type_name
content_refs (complex_content cc) =
    type_refs cc.base_type_name ++ optional_refs group_refs cc.content_model

abbrev pub complex_type_refs : ComplexType → List Ref
complex_type_refs ct =
    attributes_refs ct.attributes ct.attribute_group_refs ++ content_refs ct.content

-- The references of a schema that the second phase of `resolve` looks at. The types of top-level attributes
-- and the substitution groups of elements are none of them.
abbrev pub schema_refs : Schema → List Ref
schema_refs s =
    (((refs_in (λ e. type_refs (ElementDecl.type_name e)) s.elements
          ++ refs_in simple_type_refs s.simple_types)
        ++ refs_in complex_type_refs s.complex_types)
      ++ refs_in (λ g. group_refs (ModelGroupDef.group g)) s.model_group_defs)
    ++ refs_in
        (λ ag.
          attributes_refs (AttributeGroupDef.attributes ag)
            (AttributeGroupDef.attribute_group_refs ag))
        s.attribute_group_defs

-- The tables have the name, or it is one that needs no entry.
abbrev pub IsKnown : Tables → Ref → Type 0
IsKnown t (to_type q) = (is_blank q || is_builtin_type q || is_known t.known_types q) ≡ true
IsKnown t (to_element q) = (is_blank q || is_known t.known_elements q) ≡ true
IsKnown t (to_group q) = (is_blank q || is_known t.known_groups q) ≡ true
IsKnown t (to_attr_group q) = (is_blank q || is_known t.known_attr_groups q) ≡ true

require-ok : (test : Bool) → require test runtime_error ≡ ok tt → test ≡ true
require-ok true h = refl
require-ok false h = cc

>>-left : (first second : Result (Unit {0})) → (first >> second) ≡ ok tt → first ≡ ok tt
>>-left (ok x) second h = refl
>>-left (err e) second h = cc

>>-right : (first second : Result (Unit {0})) → (first >> second) ≡ ok tt → second ≡ ok tt
>>-right (ok x) second h = h
>>-right (err e) second h = cc

module _ (t : Tables) where
  abbrev Known : List Ref → Type 0
  Known refs = All (IsKnown t) refs

  for_each-Known :
      {A : Type 0} (body : A → Result (Unit {0})) (refs : A → List Ref) (xs : List A)
      → ((x : A) → body x ≡ ok tt → Known (refs x))
      → for_each body xs ≡ ok tt
      → Known (refs_in refs xs)
  unfolding for_each
  for_each-Known body refs [] step h = tt
  for_each-Known body refs (x ∷ xs) step h =
      All-append (IsKnown t) (refs x) (refs_in refs xs)
        (step x (>>-left (body x) (for_each body xs) h))
        (for_each-Known body refs xs step (>>-right (body x) (for_each body xs) h))

  both-Known :
      (first second : Result (Unit {0})) (a b : List Ref)
      → (first ≡ ok tt → Known a)
      → (second ≡ ok tt → Known b)
      → (first >> second) ≡ ok tt
      → Known (a ++ b)
  both-Known first second a b f g h =
      All-append (IsKnown t) a b (f (>>-left first second h)) (g (>>-right first second h))

  type-Known : (q : QName) → check_type_ref q t.known_types ≡ ok tt → Known (type_refs q)
  unfolding check_type_ref
  type-Known q h = (require-ok _ h, tt)

  given-Known : (q : QName) → check_given_type t q ≡ ok tt → Known (type_refs q)
  unfolding check_given_type
  given-Known q h = elim (Bool-cases (is_blank q)) [
    | inl blank ↦ (rw blank refl, tt)
    | inr there ↦ type-Known q (rw there at h)
  ]

  attr_group-Known :
      (q : QName) → check_ref q t.known_attr_groups ≡ ok tt → Known (to_attr_group q ∷ [])
  unfolding check_ref
  attr_group-Known q h = (require-ok _ h, tt)

  mutual
    unfolding validate_particles particles_refs check_ref

    particles-Known :
        (particles : Particles)
        → validate_particles particles t ≡ ok tt
        → Known (particles_refs particles)
    particles-Known no_particle h = tt
    particles-Known (particle term occurs particles) h =
        both-Known (validate_term term t) (validate_particles particles t) (term_refs term)
          (particles_refs particles) (term-Known term) (particles-Known particles) h

    term-Known : (term : Term) → validate_term term t ≡ ok tt → Known (term_refs term)
    term-Known (element_decl_term e) h = type-Known e.type_name h
    term-Known (element_ref ref) h = (require-ok _ h, tt)
    term-Known (group_ref ref) h = (require-ok _ h, tt)
    term-Known (model_group_term group) h = group-Known group h
    term-Known null_group h = tt
    term-Known wildcard h = tt

    group-Known : (group : ModelGroup) → validate_group group t ≡ ok tt → Known (group_refs group)
    group-Known (model_group compositor particles) h = particles-Known particles h

  optional_type-Known :
      (q : Option QName) → check_optional_type t q ≡ ok tt → Known (optional_refs type_refs q)
  unfolding check_optional_type
  optional_type-Known none h = tt
  optional_type-Known (some q) h = type-Known q h

  simple_type-Known :
      (st : SimpleType) → check_simple_type t st ≡ ok tt → Known (simple_type_refs st)
  unfolding check_simple_type
  simple_type-Known st h =
      both-Known _ _ (type_refs st.base_type_name ++ optional_refs type_refs st.item_type_name)
        (refs_in type_refs st.member_type_names)
        (both-Known (check_given_type t st.base_type_name) (check_optional_type t st.item_type_name)
          (type_refs st.base_type_name) (optional_refs type_refs st.item_type_name)
          (given-Known st.base_type_name) (optional_type-Known st.item_type_name))
        (for_each-Known (λ mt. check_type_ref mt t.known_types) type_refs st.member_type_names
          type-Known)
        h

  attributes-Known :
      (attributes : List AttributeUse) (refs : List QName)
      → check_attributes t attributes refs ≡ ok tt
      → Known (attributes_refs attributes refs)
  unfolding check_attributes
  attributes-Known attributes refs h =
      both-Known _ _ _ _
        (for_each-Known (λ au. check_given_type t (AttributeUse.type_name au))
          (λ au. type_refs (AttributeUse.type_name au)) attributes
          (λ au. given-Known (AttributeUse.type_name au)))
        (for_each-Known (λ agr. check_ref agr t.known_attr_groups) (λ q. to_attr_group q ∷ []) refs
          attr_group-Known)
        h

  content_model-Known :
      (group : Option ModelGroup)
      → check_content_model t group ≡ ok tt
      → Known (optional_refs group_refs group)
  unfolding check_content_model
  content_model-Known none h = tt
  content_model-Known (some group) h = group-Known group h

  content-Known :
      (content : ContentDetail) → check_content t content ≡ ok tt → Known (content_refs content)
  unfolding check_content
  content-Known monostate h = tt
  content-Known (simple_content sc) h = type-Known sc.base_type_name h
  content-Known (complex_content cc) h =
      both-Known (check_given_type t cc.base_type_name) (check_content_model t cc.content_model)
        (type_refs cc.base_type_name) (optional_refs group_refs cc.content_model)
        (given-Known cc.base_type_name) (content_model-Known cc.content_model) h

  complex_type-Known :
      (ct : ComplexType) → check_complex_type t ct ≡ ok tt → Known (complex_type_refs ct)
  unfolding check_complex_type
  complex_type-Known ct h =
      both-Known (check_attributes t ct.attributes ct.attribute_group_refs)
        (check_content t ct.content) (attributes_refs ct.attributes ct.attribute_group_refs)
        (content_refs ct.content) (attributes-Known ct.attributes ct.attribute_group_refs)
        (content-Known ct.content) h

  -- A schema that passes the second phase refers to names of the tables only.
  pub schema-Known : (s : Schema) → check_schema t s ≡ ok tt → Known (schema_refs s)
  unfolding check_schema
  schema-Known s h =
      both-Known _ _ _ _
        (both-Known _ _ _ _
          (both-Known _ _ _ _
            (both-Known _ _ _ _
              (for_each-Known (λ e. check_type_ref (ElementDecl.type_name e) t.known_types)
                (λ e. type_refs (ElementDecl.type_name e)) s.elements
                (λ e. type-Known (ElementDecl.type_name e)))
              (for_each-Known (check_simple_type t) simple_type_refs s.simple_types
                simple_type-Known))
            (for_each-Known (check_complex_type t) complex_type_refs s.complex_types
              complex_type-Known))
          (for_each-Known (λ g. validate_group (ModelGroupDef.group g) t)
            (λ g. group_refs (ModelGroupDef.group g)) s.model_group_defs
            (λ g. group-Known (ModelGroupDef.group g))))
        (for_each-Known
          (λ ag.
            check_attributes t (AttributeGroupDef.attributes ag)
              (AttributeGroupDef.attribute_group_refs ag))
          (λ ag.
            attributes_refs (AttributeGroupDef.attributes ag)
              (AttributeGroupDef.attribute_group_refs ag))
          s.attribute_group_defs
          (λ ag.
            attributes-Known (AttributeGroupDef.attributes ag)
              (AttributeGroupDef.attribute_group_refs ag)))
        h

  -- All schemas of a list.
  pub schemas-Known :
      (schemas : List Schema)
      → for_each (check_schema t) schemas ≡ ok tt
      → All (λ s. All (IsKnown t) (schema_refs s)) schemas
  unfolding for_each
  schemas-Known [] h = tt
  schemas-Known (s ∷ schemas) h = (
    schema-Known s (>>-left (check_schema t s) _ h),
    schemas-Known schemas (>>-right (check_schema t s) _ h),
  )
