-- ===== src/Schema/Complete.antt =====
-- `resolve` returns where the names are distinct and the references lead to declarations.
use xb.Common.{List, [], ◌∷◌, Bool, true, ◌||◌, some, Option-cases, ◌≡◌, inl, inr, refl, All, arith}
use xb.Common.Result.{ok, >>=-eq-ok}
use xb.Schema.Model.{
  QName, ElementDecl, AttributeGroupDef, ModelGroupDef, SimpleType, ComplexType, Schema,
}
use xb.Schema.Set.{is_known, is_blank, is_builtin_type, Tables, register_schema, register_schemas}
use xb.Schema.Resolve.{
  find_named, or_else, find_in, SchemaSet, no_tables, resolve, find_simple_type, find_complex_type,
  find_element, find_model_group_def, find_attribute_group_def,
}
use xb.Schema.Refs.{Ref, to_type, to_element, to_group, to_attr_group, schema_refs, IsKnown}
use xb.Schema.Names.{register_names-kept, register_names-fresh, find_named_sound}
use xb.Schema.Tables.{IsWithin, Enters, register_schema-Registered}
use xb.Schema.Resolved.{IsResolved}
use xb.Schema.Fresh.{AllFresh, register_schemas-AllFresh}
use xb.Schema.Checks.{schemas-ok}
use xb.Schema.Laws.{All-map, single_kind, simple_types_enter, complex_types_enter}

module _ {A : Type 0} (declared : Schema → List A) (name_of : A → QName)
    (table : Tables → List QName) where
  schemas-IsWithin :
      (schemas : List Schema) (t after : Tables)
      → Enters declared name_of table
      → register_schemas schemas t ≡ ok after
      → IsWithin (table t) (table after)
  unfolding register_schemas
  schemas-IsWithin [] t after enters h q k = let same : t ≡ after = cc in rw same at k
  schemas-IsWithin (first ∷ schemas) t after enters h q k =
      let (t', one, rest) = >>=-eq-ok (register_schema first t) (register_schemas schemas) h in
      let (before, later, names, within, outside) = enters first t t' one in
      schemas-IsWithin schemas t' after enters rest q
        (outside q (register_names-kept name_of (declared first) before later q names (within q k)))

  -- A name that a lookup finds has been entered in the table.
  find_in-known :
      (schemas : List Schema) (t after : Tables) (q : QName) (x : A)
      → Enters declared name_of table
      → register_schemas schemas t ≡ ok after
      → find_in declared name_of q schemas ≡ some x
      → is_known (table after) q ≡ true
  unfolding register_schemas find_in or_else
  find_in-known [] t after q x enters h found = cc
  find_in-known (first ∷ schemas) t after q x enters h found =
      let (t', one, rest) = >>=-eq-ok (register_schema first t) (register_schemas schemas) h in
      let (before, later, names, within, outside) = enters first t t' one in
      elim (Option-cases (find_named name_of q (declared first))) [
        | inl none_here ↦ find_in-known schemas t' after q x enters rest (rw none_here at found)
        | inr (y, here) ↦
            let (same, mem) = find_named_sound name_of (declared first) q y here in
            let known =
              (register_names-fresh name_of (declared first) before later y names mem).1 in
            schemas-IsWithin schemas t' after enters rest q (rw same at (outside (name_of y) known))
      ]

or_last : (a b c : Bool) → c ≡ true → (a || b || c) ≡ true
or_last a b c h = ground (arith, h)

or_given : (a b c : Bool) → (a || b) ≡ true → (a || b || c) ≡ true
or_given a b c h = ground (arith, h)

or_left : (a b : Bool) → a ≡ true → (a || b) ≡ true
or_left a b h = ground (arith, h)

or_right : (a b : Bool) → b ≡ true → (a || b) ≡ true
or_right a b h = ground (arith, h)

module _ (set : SchemaSet) (after : Tables)
    (h : register_schemas set.schemas no_tables ≡ ok after) where
  resolved-IsKnown : (r : Ref) → IsResolved set r → IsKnown after r
  unfolding find_simple_type find_complex_type find_element find_model_group_def
      find_attribute_group_def
  resolved-IsKnown (to_type q) (inl given) = or_given (is_blank q) (is_builtin_type q) _ given
  resolved-IsKnown (to_type q) (inr (inl found)) = or_last (is_blank q) (is_builtin_type q) _ (
      find_in-known Schema.simple_types SimpleType.name Tables.known_types set.schemas no_tables
        after q found.0 simple_types_enter h found.1)
  resolved-IsKnown (to_type q) (inr (inr found)) = or_last (is_blank q) (is_builtin_type q) _ (
      find_in-known Schema.complex_types ComplexType.name Tables.known_types set.schemas no_tables
        after q found.0 complex_types_enter h found.1)
  resolved-IsKnown (to_element q) (inl blank) = or_left (is_blank q) _ blank
  resolved-IsKnown (to_element q) (inr found) = or_right (is_blank q) _ (
      find_in-known Schema.elements ElementDecl.name Tables.known_elements set.schemas no_tables
        after q found.0
        (single_kind Schema.elements ElementDecl.name Tables.known_elements
          (λ s t t' e. (register_schema-Registered s t t' e).1))
        h found.1)
  resolved-IsKnown (to_group q) (inl blank) = or_left (is_blank q) _ blank
  resolved-IsKnown (to_group q) (inr found) = or_right (is_blank q) _ (
      find_in-known Schema.model_group_defs ModelGroupDef.name Tables.known_groups set.schemas
        no_tables after q found.0
        (single_kind Schema.model_group_defs ModelGroupDef.name Tables.known_groups
          (λ s t t' e. (register_schema-Registered s t t' e).3))
        h found.1)
  resolved-IsKnown (to_attr_group q) (inl blank) = or_left (is_blank q) _ blank
  resolved-IsKnown (to_attr_group q) (inr found) = or_right (is_blank q) _ (
      find_in-known Schema.attribute_group_defs AttributeGroupDef.name Tables.known_attr_groups
        set.schemas no_tables after q found.0
        (single_kind Schema.attribute_group_defs AttributeGroupDef.name Tables.known_attr_groups
          (λ s t t' e. (register_schema-Registered s t t' e).4))
        h found.1)

-- If no two types, elements, attributes, groups or attribute groups of the schemas share a name,
-- and every reference of the listed kinds is blank, built in or the name of a declaration that a
-- lookup finds, then `resolve` returns the set with the same schemas and the flag set. The kinds
-- are the types of elements, of attribute uses and of simple types (base, item and members), the
-- base types of contents, and the elements, groups and attribute groups that content models,
-- groups, complex types and attribute groups refer to; the types of top-level attributes and the
-- substitution groups of elements, which `resolve` does not look at, are not among them.
pub resolve-returns :
    (set : SchemaSet)
    → AllFresh no_tables set.schemas
    → All (λ s. All (IsResolved set) (schema_refs s)) set.schemas
    → resolve set ≡ ok (record { schemas = set.schemas; resolved = true })
unfolding resolve
resolve-returns set distinct lead =
    let (after, registered) = register_schemas-AllFresh set.schemas no_tables distinct in
    let known =
      All-map (λ s. All (IsResolved set) (schema_refs s)) (λ s. All (IsKnown after) (schema_refs s))
        set.schemas
        (λ s k.
          All-map (IsResolved set) (IsKnown after) (schema_refs s)
            (resolved-IsKnown set after registered) k)
        lead in
    rw (registered, schemas-ok after set.schemas known) refl
