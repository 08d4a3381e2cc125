-- ===== src/Schema/Resolved.antt =====
-- The references of a set whose names were registered lead to declarations.
use xb.Common.{List, Bool, true, false, ◌||◌, ◌≡◌, ◌⊎◌, inl, inr, refl}
use xb.Common.Result.{ok}
use xb.Schema.Model.{
  QName, ElementDecl, AttributeGroupDef, ModelGroupDef, SimpleType, ComplexType, Schema,
}
use xb.Schema.Set.{
  is_known, is_blank, is_builtin_type, Tables, register_names, register_schema, register_schemas,
}
use xb.Schema.Resolve.{
  find_named, find_in, SchemaSet, no_tables, find_simple_type, find_complex_type, find_element,
  find_model_group_def, find_attribute_group_def,
}
use xb.Schema.Refs.{Ref, to_type, to_element, to_group, to_attr_group, IsKnown}
use xb.Schema.Names.{register_names-cases}
use xb.Schema.Tables.{Found, find_in-Found, register_schemas-cases, register_schema-Registered}

-- The reference leads to a declaration that the lookups of the set find, or needs none.
abbrev pub IsResolved : SchemaSet → Ref → Type 0
IsResolved set (to_type q) =
    ((is_blank q || is_builtin_type q) ≡ true)
    ⊎ (Found (find_simple_type set q) ⊎ Found (find_complex_type set q))
IsResolved set (to_element q) = (is_blank q ≡ true) ⊎ Found (find_element set q)
IsResolved set (to_group q) = (is_blank q ≡ true) ⊎ Found (find_model_group_def set q)
IsResolved set (to_attr_group q) = (is_blank q ≡ true) ⊎ Found (find_attribute_group_def set q)

abbrev Declares : {A : Type 0} → (Schema → List A) → (A → QName) → Schema → QName → Type 0
Declares declared name_of s q = Found (find_named name_of q (declared s))

-- A name of a table that one kind of declarations enters is found.
one_kind :
    {A : Type 0} (declared : Schema → List A) (name_of : A → QName) (table : Tables → List QName)
    (schemas : List Schema) (after : Tables) (q : QName)
    → ((s : Schema) (t t' : Tables)
        → register_schema s t ≡ ok t'
        → register_names name_of (declared s) (table t) ≡ ok (table t'))
    → is_known (table no_tables) q ≡ false
    → register_schemas schemas no_tables ≡ ok after
    → is_known (table after) q ≡ true
    → Found (find_in declared name_of q schemas)
one_kind declared name_of table schemas after q step empty h k =
    elim (register_schemas-cases table (Declares declared name_of) schemas no_tables after q
      (λ s t t' e. register_names-cases name_of (declared s) (table t) (table t') q (step s t t' e))
      h k) [
        | inl before ↦ cc
        | inr (s, m, d) ↦ find_in-Found declared name_of table schemas s q m d
      ]

type_lookup :
    (schemas : List Schema) (after : Tables) (q : QName)
    → register_schemas schemas no_tables ≡ ok after
    → is_known after.known_types q ≡ true
    → Found (find_in Schema.simple_types SimpleType.name q schemas)
      ⊎ Found (find_in Schema.complex_types ComplexType.name q schemas)
unfolding is_known
type_lookup schemas after q h k =
    elim (register_schemas-cases Tables.known_types
      (λ s name.
        Declares Schema.simple_types SimpleType.name s name
        ⊎ Declares Schema.complex_types ComplexType.name s name)
      schemas no_tables after q type_cases h k) [
        | inl before ↦ cc
        | inr (s, m, inl d) ↦
            inl
              (find_in-Found Schema.simple_types SimpleType.name Tables.known_types schemas s q m d)
        | inr (s, m, inr d) ↦
            inr (
              find_in-Found Schema.complex_types ComplexType.name Tables.known_types schemas s q m
                d)
      ]
  where
    type_cases :
        (s : Schema) (t t' : Tables)
        → register_schema s t ≡ ok t'
        → is_known t'.known_types q ≡ true
        → (is_known t.known_types q ≡ true)
          ⊎ (Declares Schema.simple_types SimpleType.name s q
              ⊎ Declares Schema.complex_types ComplexType.name s q)
    type_cases s t t' e known =
        let types = (register_schema-Registered s t t' e).0 in
        elim (register_names-cases ComplexType.name s.complex_types types.0 t'.known_types q types.2
          known) [
            | inr found ↦ inr (inr found)
            | inl there ↦
                elim (register_names-cases SimpleType.name s.simple_types t.known_types types.0 q
                  types.1 there) [ inl before ↦ inl before | inr found ↦ inr (inl found) ]
          ]

left_or_right : (a b : Bool) → (a || b) ≡ true → (a ≡ true) ⊎ (b ≡ true)
left_or_right true b h = inl refl
left_or_right false b h = inr h

first_or_third : (a b c : Bool) → (a || b || c) ≡ true → ((a || b) ≡ true) ⊎ (c ≡ true)
first_or_third true b c h = inl refl
first_or_third false true c h = inl refl
first_or_third false false c h = inr h

module _ (set : SchemaSet) (after : Tables)
    (h : register_schemas set.schemas no_tables ≡ ok after) where
  pub known-IsResolved : (r : Ref) → IsKnown after r → IsResolved set r
  unfolding find_simple_type find_complex_type find_element find_model_group_def
      find_attribute_group_def is_known
  known-IsResolved (to_type q) k = elim (first_or_third (is_blank q) (is_builtin_type q) _ k) [
    | inl given ↦ inl given
    | inr known ↦ inr (type_lookup set.schemas after q h known)
  ]
  known-IsResolved (to_element q) k = elim (left_or_right (is_blank q) _ k) [
    | inl blank ↦ inl blank
    | inr known ↦ inr (
        one_kind Schema.elements ElementDecl.name Tables.known_elements set.schemas after q
          (λ s t t' e. (register_schema-Registered s t t' e).1) refl h known)
  ]
  known-IsResolved (to_group q) k = elim (left_or_right (is_blank q) _ k) [
    | inl blank ↦ inl blank
    | inr known ↦ inr (
        one_kind Schema.model_group_defs ModelGroupDef.name Tables.known_groups set.schemas after q
          (λ s t t' e. (register_schema-Registered s t t' e).3) refl h known)
  ]
  known-IsResolved (to_attr_group q) k = elim (left_or_right (is_blank q) _ k) [
    | inl blank ↦ inl blank
    | inr known ↦ inr (
        one_kind Schema.attribute_group_defs AttributeGroupDef.name Tables.known_attr_groups
          set.schemas after q (λ s t t' e. (register_schema-Registered s t t' e).4) refl h known)
  ]
