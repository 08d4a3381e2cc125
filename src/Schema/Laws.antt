-- ===== src/Schema/Laws.antt =====
-- What holds of a set of schemas that has been resolved, and of every set that the operations lead to.
use xb.Common.{List, [], ◌∷◌, true, false, some, ◌≡◌, sym, ap, All}
use xb.Common.Result.{ok, >>=-eq-ok}
use xb.Schema.Model.{
  QName, ElementDecl, AttributeDecl, AttributeGroupDef, ModelGroupDef, SimpleType, ComplexType,
  Schema,
}
use xb.Schema.Set.{Tables, for_each, register_names, register_schema, register_schemas}
use xb.Schema.Resolve.{
  SchemaSet, no_tables, check_schema, resolve, add, take_schemas, find_simple_type,
  find_complex_type, find_element, find_attribute, find_model_group_def, find_attribute_group_def,
}
use xb.Schema.Refs.{schema_refs, IsKnown, schemas-Known}
use xb.Schema.Names.{IsMember, register_names-kept}
use xb.Schema.Tables.{Enters, find_in-registered, register_schema-Registered}
use xb.Schema.Resolved.{IsResolved, known-IsResolved}

pub All-map :
    {A : Type 0} (P Q : A → Type 0) (xs : List A) → ((x : A) → P x → Q x) → All P xs → All Q xs
All-map P Q [] f h = tt
All-map P Q (x ∷ xs) f h = (f x h.0, All-map P Q xs f h.1)

-- Every declaration of a schema of the set is what a lookup of its name returns.
abbrev pub IsFindable : SchemaSet → Type 0
IsFindable set =
    (s : Schema)
    → IsMember s set.schemas
    → ((x : SimpleType) → IsMember x s.simple_types → find_simple_type set x.name ≡ some x)
      × ((x : ComplexType) → IsMember x s.complex_types → find_complex_type set x.name ≡ some x)
      × ((x : ElementDecl) → IsMember x s.elements → find_element set x.name ≡ some x)
      × ((x : AttributeDecl) → IsMember x s.attributes → find_attribute set x.name ≡ some x)
      × ((x : ModelGroupDef)
          → IsMember x s.model_group_defs
          → find_model_group_def set x.name ≡ some x)
      × ((x : AttributeGroupDef)
          → IsMember x s.attribute_group_defs
          → find_attribute_group_def set x.name ≡ some x)

pub single_kind :
    {A : Type 0} (declared : Schema → List A) (name_of : A → QName) (table : Tables → List QName)
    → ((s : Schema) (t t' : Tables)
        → register_schema s t ≡ ok t'
        → register_names name_of (declared s) (table t) ≡ ok (table t'))
    → Enters declared name_of table
single_kind declared name_of table step s t t' e =
    (table t, table t', step s t t' e, λ q k. k, λ q k. k)

pub simple_types_enter : Enters Schema.simple_types SimpleType.name Tables.known_types
simple_types_enter s t t' e =
    let types = (register_schema-Registered s t t' e).0 in
    (
      t.known_types,
      types.0,
      types.1,
      λ q k. k,
      λ q k.
          register_names-kept ComplexType.name s.complex_types types.0 t'.known_types q types.2 k,
    )

pub complex_types_enter : Enters Schema.complex_types ComplexType.name Tables.known_types
complex_types_enter s t t' e =
    let types = (register_schema-Registered s t t' e).0 in
    (
      types.0,
      t'.known_types,
      types.2,
      (λ q k. register_names-kept SimpleType.name s.simple_types t.known_types types.0 q types.1 k),
      λ q k. k,
    )

registered-IsFindable :
    (set : SchemaSet) (after : Tables)
    → register_schemas set.schemas no_tables ≡ ok after
    → IsFindable set
unfolding find_simple_type find_complex_type find_element find_attribute find_model_group_def
    find_attribute_group_def
registered-IsFindable set after h s m = (
  λ x n.
      (find_in-registered Schema.simple_types SimpleType.name Tables.known_types set.schemas
        no_tables after s x simple_types_enter h m n).1,
  λ x n.
      (find_in-registered Schema.complex_types ComplexType.name Tables.known_types set.schemas
        no_tables after s x complex_types_enter h m n).1,
  λ x n.
      (find_in-registered Schema.elements ElementDecl.name Tables.known_elements set.schemas
        no_tables after s x
        (single_kind Schema.elements ElementDecl.name Tables.known_elements
          (λ s t t' e. (register_schema-Registered s t t' e).1))
        h m n).1,
  λ x n.
      (find_in-registered Schema.attributes AttributeDecl.name Tables.known_attributes set.schemas
        no_tables after s x
        (single_kind Schema.attributes AttributeDecl.name Tables.known_attributes
          (λ s t t' e. (register_schema-Registered s t t' e).2))
        h m n).1,
  λ x n.
      (find_in-registered Schema.model_group_defs ModelGroupDef.name Tables.known_groups set.schemas
        no_tables after s x
        (single_kind Schema.model_group_defs ModelGroupDef.name Tables.known_groups
          (λ s t t' e. (register_schema-Registered s t t' e).3))
        h m n).1,
  λ x n.
      (find_in-registered Schema.attribute_group_defs AttributeGroupDef.name
        Tables.known_attr_groups set.schemas no_tables after s x
        (single_kind Schema.attribute_group_defs AttributeGroupDef.name Tables.known_attr_groups
          (λ s t t' e. (register_schema-Registered s t t' e).4))
        h m n).1,
)

-- The references of the schemas that `schema_refs` collects lead to declarations, and all declarations are
-- found.
abbrev pub IsConsistent : SchemaSet → Type 0
IsConsistent set = All (λ s. All (IsResolved set) (schema_refs s)) set.schemas × IsFindable set

resolve-ok :
    (set set' : SchemaSet)
    → resolve set ≡ ok set'
    → (t : Tables) × (register_schemas set.schemas no_tables ≡ ok t)
      × (for_each (check_schema t) set.schemas ≡ ok tt)
      × (record { schemas = set.schemas; resolved = true } ≡ set')
unfolding resolve
resolve-ok set set' h =
    let (t, registered, rest) = >>=-eq-ok (register_schemas set.schemas no_tables) _ h in
    let (unit, checked, same) = >>=-eq-ok (for_each (check_schema t) set.schemas) _ rest in
    (t, registered, checked, cc)

-- Where `resolve` returns, the schemas are those that were there, every reference of the listed
-- kinds is blank, built in or the name of a declaration that a lookup of the set finds, and each
-- of the six lookups returns the declaration of whose name it is asked. The kinds are the types of
-- elements, of attribute uses and of simple types (base, item and members), the base types of
-- contents, and the elements, groups and attribute groups that content models, groups, complex
-- types and attribute groups refer to; the types of top-level attributes and the substitution
-- groups of elements, which `resolve` does not look at, are not among them.
pub resolve-IsConsistent :
    (set resolved_set : SchemaSet)
    → resolve set ≡ ok resolved_set
    → IsConsistent resolved_set × (resolved_set.schemas ≡ set.schemas)
resolve-IsConsistent set resolved_set h =
    let (t, registered, checked, same) = resolve-ok set resolved_set h in
    let made : SchemaSet = record { schemas = set.schemas; resolved = true } in
    let refs : All (λ s. All (IsResolved made) (schema_refs s)) set.schemas =
      All-map (λ s. All (IsKnown t) (schema_refs s)) (λ s. All (IsResolved made) (schema_refs s))
        set.schemas
        (λ s k.
          All-map (IsKnown t) (IsResolved made) (schema_refs s) (known-IsResolved made t registered)
            k)
        (schemas-Known t set.schemas checked) in
    consistent_eq made resolved_set same (refs, registered-IsFindable made t registered)
  where
    consistent_eq :
        (made other : SchemaSet)
        → made ≡ other
        → IsConsistent made
        → IsConsistent other × (other.schemas ≡ made.schemas)
    consistent_eq made other same c = (rw same at c, ap SchemaSet.schemas (sym same))

-- The sets that the operations lead to. A `resolve` that throws leaves the set as it was.
pub data Reachable : SchemaSet → Type 0 where
  created : Reachable (record { schemas = []; resolved = false })
  added : (s : Schema) {set : SchemaSet} → Reachable set → Reachable (add s set)
  resolving :
      (set resolved_set : SchemaSet)
      → Reachable set
      → resolve set ≡ ok resolved_set
      → Reachable resolved_set
  taken : {set : SchemaSet} → Reachable set → Reachable (take_schemas set).0

-- A set that is the result of `resolve` is left as it is by another.
resolve-again :
    (set resolved_set : SchemaSet)
    → resolve set ≡ ok resolved_set
    → resolve resolved_set ≡ ok resolved_set
unfolding resolve
resolve-again set resolved_set h =
    let (t, registered, checked, same) = resolve-ok set resolved_set h in
    again_eq (record { schemas = set.schemas; resolved = true }) resolved_set same h
  where
    again_eq :
        (made other : SchemaSet) → made ≡ other → resolve made ≡ ok other → resolve other ≡ ok other
    again_eq made other same h = rw same at h

-- In every set that additions, successful calls of `resolve` and `take_schemas` lead to from the
-- empty set, if `resolved_` is set, every reference of the listed kinds is blank, built in or the
-- name of a declaration that a lookup of the set finds, every declaration is what the lookup of
-- its name returns, and `resolve` succeeds again without a change. The kinds are the types of
-- elements, of attribute uses and of simple types (base, item and members), the base types of
-- contents, and the elements, groups and attribute groups that content models, groups, complex
-- types and attribute groups refer to; the types of top-level attributes and the substitution
-- groups of elements, which `resolve` does not look at, are not among them.
pub Reachable-IsConsistent :
    (set : SchemaSet)
    → Reachable set
    → set.resolved ≡ true
    → IsConsistent set × (resolve set ≡ ok set)
unfolding add take_schemas
Reachable-IsConsistent set created h = cc
Reachable-IsConsistent set (added s r) h = cc
Reachable-IsConsistent set (resolving before resolved_set r e) h =
    ((resolve-IsConsistent before resolved_set e).0, resolve-again before resolved_set e)
Reachable-IsConsistent set (taken r) h = cc
