-- ===== src/Schema/Checks.antt =====
-- The second phase of `resolve` returns where the tables have the names that the schemas refer to.
use xb.Common.{
  List, [], ◌∷◌, ◌++◌, Bool, true, false, Option, none, some, ◌≡◌, refl, All, Bool-cases, inl, inr,
}
use xb.Common.Result.{Result, ok, runtime_error, require, ◌>>◌}
use xb.Schema.Model.{
  QName, ElementDecl, AttributeUse, AttributeGroupDef, Term, element_decl_term, element_ref,
  group_ref, model_group_term, null_group, wildcard, Particles, no_particle, particle, ModelGroup,
  model_group, ModelGroupDef, ContentDetail, monostate, simple_content, complex_content, SimpleType,
  ComplexType, Schema,
}
use xb.Schema.Set.{
  is_blank, check_type_ref, check_ref, Tables, validate_particles, validate_term, validate_group,
  for_each,
}
use xb.Schema.Resolve.{
  check_given_type, check_optional_type, check_simple_type, check_attributes, check_content_model,
  check_content, check_complex_type, check_schema,
}
use xb.Schema.Refs.{
  Ref, to_attr_group, refs_in, particles_refs, term_refs, group_refs, optional_refs, type_refs,
  attributes_refs, simple_type_refs, content_refs, complex_type_refs, schema_refs, IsKnown,
}

require-true : (test : Bool) → test ≡ true → require test runtime_error ≡ ok tt
require-true true h = refl
require-true false h = cc

All-split : {A : Type 0} (P : A → Type 0) (xs ys : List A) → All P (xs ++ ys) → All P xs × All P ys
All-split P [] ys h = (tt, h)
All-split P (x ∷ xs) ys h = let rest = All-split P xs ys h.1 in ((h.0, rest.0), rest.1)

module _ (t : Tables) where
  abbrev Known : List Ref → Type 0
  Known refs = All (IsKnown t) refs

  both-ok :
      (first second : Result (Unit {0})) (a b : List Ref)
      → (Known a → first ≡ ok tt)
      → (Known b → second ≡ ok tt)
      → Known (a ++ b)
      → (first >> second) ≡ ok tt
  both-ok first second a b f g h =
      let parts = All-split (IsKnown t) a b h in rw (f parts.0) (g parts.1)

  for_each-ok :
      {A : Type 0} (body : A → Result (Unit {0})) (refs : A → List Ref) (xs : List A)
      → ((x : A) → Known (refs x) → body x ≡ ok tt)
      → Known (refs_in refs xs)
      → for_each body xs ≡ ok tt
  unfolding for_each
  for_each-ok body refs [] step h = refl
  for_each-ok body refs (x ∷ xs) step h =
      both-ok (body x) (for_each body xs) (refs x) (refs_in refs xs) (step x)
        (for_each-ok body refs xs step) h

  type-ok : (q : QName) → Known (type_refs q) → check_type_ref q t.known_types ≡ ok tt
  unfolding check_type_ref
  type-ok q h = require-true _ h.0

  given-ok : (q : QName) → Known (type_refs q) → check_given_type t q ≡ ok tt
  unfolding check_given_type
  given-ok q h = elim (Bool-cases (is_blank q)) [
    | inl blank ↦ rw blank refl
    | inr there ↦ rw there (type-ok q h)
  ]

  attr_group-ok :
      (q : QName) → Known (to_attr_group q ∷ []) → check_ref q t.known_attr_groups ≡ ok tt
  unfolding check_ref
  attr_group-ok q h = require-true _ h.0

  mutual
    unfolding validate_particles particles_refs check_ref

    particles-ok :
        (particles : Particles)
        → Known (particles_refs particles)
        → validate_particles particles t ≡ ok tt
    particles-ok no_particle h = refl
    particles-ok (particle term occurs particles) h =
        both-ok (validate_term term t) (validate_particles particles t) (term_refs term)
          (particles_refs particles) (term-ok term) (particles-ok particles) h

    term-ok : (term : Term) → Known (term_refs term) → validate_term term t ≡ ok tt
    term-ok (element_decl_term e) h = type-ok e.type_name h
    term-ok (element_ref ref) h = require-true _ h.0
    term-ok (group_ref ref) h = require-true _ h.0
    term-ok (model_group_term group) h = group-ok group h
    term-ok null_group h = refl
    term-ok wildcard h = refl

    group-ok : (group : ModelGroup) → Known (group_refs group) → validate_group group t ≡ ok tt
    group-ok (model_group compositor particles) h = particles-ok particles h

  optional_type-ok :
      (q : Option QName) → Known (optional_refs type_refs q) → check_optional_type t q ≡ ok tt
  unfolding check_optional_type
  optional_type-ok none h = refl
  optional_type-ok (some q) h = type-ok q h

  simple_type-ok : (st : SimpleType) → Known (simple_type_refs st) → check_simple_type t st ≡ ok tt
  unfolding check_simple_type
  simple_type-ok st h =
      both-ok _ _ (type_refs st.base_type_name ++ optional_refs type_refs st.item_type_name)
        (refs_in type_refs st.member_type_names)
        (both-ok (check_given_type t st.base_type_name) (check_optional_type t st.item_type_name)
          (type_refs st.base_type_name) (optional_refs type_refs st.item_type_name)
          (given-ok st.base_type_name) (optional_type-ok st.item_type_name))
        (for_each-ok (λ mt. check_type_ref mt t.known_types) type_refs st.member_type_names type-ok)
        h

  attributes-ok :
      (attributes : List AttributeUse) (refs : List QName)
      → Known (attributes_refs attributes refs)
      → check_attributes t attributes refs ≡ ok tt
  unfolding check_attributes
  attributes-ok attributes refs h =
      both-ok _ _ (refs_in (λ au. type_refs (AttributeUse.type_name au)) attributes)
        (refs_in (λ q. to_attr_group q ∷ []) refs)
        (for_each-ok (λ au. check_given_type t (AttributeUse.type_name au))
          (λ au. type_refs (AttributeUse.type_name au)) attributes
          (λ au. given-ok (AttributeUse.type_name au)))
        (for_each-ok (λ agr. check_ref agr t.known_attr_groups) (λ q. to_attr_group q ∷ []) refs
          attr_group-ok)
        h

  content_model-ok :
      (group : Option ModelGroup)
      → Known (optional_refs group_refs group)
      → check_content_model t group ≡ ok tt
  unfolding check_content_model
  content_model-ok none h = refl
  content_model-ok (some group) h = group-ok group h

  content-ok :
      (content : ContentDetail) → Known (content_refs content) → check_content t content ≡ ok tt
  unfolding check_content
  content-ok monostate h = refl
  content-ok (simple_content sc) h = type-ok sc.base_type_name h
  content-ok (complex_content cc) h =
      both-ok (check_given_type t cc.base_type_name) (check_content_model t cc.content_model)
        (type_refs cc.base_type_name) (optional_refs group_refs cc.content_model)
        (given-ok cc.base_type_name) (content_model-ok cc.content_model) h

  complex_type-ok :
      (ct : ComplexType) → Known (complex_type_refs ct) → check_complex_type t ct ≡ ok tt
  unfolding check_complex_type
  complex_type-ok ct h =
      both-ok (check_attributes t ct.attributes ct.attribute_group_refs)
        (check_content t ct.content) (attributes_refs ct.attributes ct.attribute_group_refs)
        (content_refs ct.content) (attributes-ok ct.attributes ct.attribute_group_refs)
        (content-ok ct.content) h

  schema-ok : (s : Schema) → Known (schema_refs s) → check_schema t s ≡ ok tt
  unfolding check_schema
  schema-ok s h =
      both-ok _ _ _ _
        (both-ok _ _ _ _
          (both-ok _ _ _ _
            (both-ok _ _ _ _
              (for_each-ok (λ e. check_type_ref (ElementDecl.type_name e) t.known_types)
                (λ e. type_refs (ElementDecl.type_name e)) s.elements
                (λ e. type-ok (ElementDecl.type_name e)))
              (for_each-ok (check_simple_type t) simple_type_refs s.simple_types simple_type-ok))
            (for_each-ok (check_complex_type t) complex_type_refs s.complex_types complex_type-ok))
          (for_each-ok (λ g. validate_group (ModelGroupDef.group g) t)
            (λ g. group_refs (ModelGroupDef.group g)) s.model_group_defs
            (λ g. group-ok (ModelGroupDef.group g))))
        (for_each-ok
          (λ ag.
            check_attributes t (AttributeGroupDef.attributes ag)
              (AttributeGroupDef.attribute_group_refs ag))
          (λ ag.
            attributes_refs (AttributeGroupDef.attributes ag)
              (AttributeGroupDef.attribute_group_refs ag))
          s.attribute_group_defs
          (λ ag.
            attributes-ok (AttributeGroupDef.attributes ag)
              (AttributeGroupDef.attribute_group_refs ag)))
        h

  -- The checks of all schemas.
  pub schemas-ok :
      (schemas : List Schema)
      → All (λ s. All (IsKnown t) (schema_refs s)) schemas
      → for_each (check_schema t) schemas ≡ ok tt
  unfolding for_each
  schemas-ok [] h = refl
  schemas-ok (s ∷ schemas) h = rw (schema-ok s h.0) (schemas-ok schemas h.1)
