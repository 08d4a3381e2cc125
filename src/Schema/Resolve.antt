-- ===== src/Schema/Resolve.antt =====
-- src/lib/schema_set.cpp: `resolve`, the other operations of a set and its lookups. A pointer that a lookup
-- returns is the declaration that it points to, or `none`.
use xb.Common.{List, [], ◌∷◌, ◌++◌, Bool, true, false, Option, none, some, if◌then◌else◌}
use xb.Common.Result.{Result, ok, ◌>>=◌, ◌>>◌}
use xb.Schema.Model.{
  QName, same_qname, ElementDecl, AttributeDecl, AttributeUse, AttributeGroupDef, ModelGroup,
  ModelGroupDef, ContentDetail, monostate, simple_content, complex_content, SimpleType, ComplexType,
  Schema,
}
use xb.Schema.Set.{
  is_blank, check_type_ref, check_ref, Tables, validate_group, for_each, register_schemas,
}

-- `if (!name.local_name().empty()) check_type_ref(name, known_types);`
unfoldable pub check_given_type : Tables → QName → Result (Unit {0})
check_given_type t name = if is_blank name then ok tt else check_type_ref name t.known_types

unfoldable pub check_optional_type : Tables → Option QName → Result (Unit {0})
check_optional_type t none = ok tt
check_optional_type t (some name) = check_type_ref name t.known_types

unfoldable pub check_simple_type : Tables → SimpleType → Result (Unit {0})
check_simple_type t st =
    check_given_type t st.base_type_name
    >> check_optional_type t st.item_type_name
    >> for_each (λ mt. check_type_ref mt t.known_types) st.member_type_names

unfoldable pub check_attributes : Tables → List AttributeUse → List QName → Result (Unit {0})
check_attributes t attributes refs =
    for_each (λ au. check_given_type t (AttributeUse.type_name au)) attributes
    >> for_each (λ agr. check_ref agr t.known_attr_groups) refs

unfoldable pub check_content_model : Tables → Option ModelGroup → Result (Unit {0})
check_content_model t none = ok tt
check_content_model t (some group) = validate_group group t

unfoldable pub check_content : Tables → ContentDetail → Result (Unit {0})
check_content t monostate = ok tt
check_content t (simple_content sc) = check_type_ref sc.base_type_name t.known_types
check_content t (complex_content cc) =
    check_given_type t cc.base_type_name >> check_content_model t cc.content_model

unfoldable pub check_complex_type : Tables → ComplexType → Result (Unit {0})
check_complex_type t ct =
    check_attributes t ct.attributes ct.attribute_group_refs >> check_content t ct.content

-- The checks of one schema in the second phase.
unfoldable pub check_schema : Tables → Schema → Result (Unit {0})
check_schema t s =
    for_each (λ e. check_type_ref (ElementDecl.type_name e) t.known_types) s.elements
    >> for_each (check_simple_type t) s.simple_types
    >> for_each (check_complex_type t) s.complex_types
    >> for_each (λ g. validate_group (ModelGroupDef.group g) t) s.model_group_defs
    >> for_each
        (λ ag.
          check_attributes t (AttributeGroupDef.attributes ag)
            (AttributeGroupDef.attribute_group_refs ag))
        s.attribute_group_defs

pub record SchemaSet : Type 0 where
  pub schemas : List Schema
  pub resolved : Bool

abbrev pub no_tables : Tables
no_tables = record {
  known_types = [];
  known_elements = [];
  known_attributes = [];
  known_groups = [];
  known_attr_groups = [];
}

-- Both phases. Where one throws, the set stays as it was.
unfoldable pub resolve : SchemaSet → Result SchemaSet
resolve set = register_schemas set.schemas no_tables >>= λ t.
    for_each (check_schema t) set.schemas >> ok (record { schemas = set.schemas; resolved = true })

unfoldable pub add : Schema → SchemaSet → SchemaSet
add s set = record { schemas = set.schemas ++ (s ∷ []); resolved = false }

-- The set that is left, and the schemas.
unfoldable pub take_schemas : SchemaSet → SchemaSet × List Schema
take_schemas set = (record { schemas = []; resolved = false }, set.schemas)

-- The inner loop of a lookup.
unfoldable pub find_named {ℓ} : {A : Type ℓ} → (A → QName) → QName → List A → Option A
find_named name_of name [] = none
find_named name_of name (x ∷ xs) =
    let rest = find_named name_of name xs in if same_qname (name_of x) name then some x else rest

unfoldable pub or_else {ℓ} : {A : Type ℓ} → Option A → Option A → Option A
or_else (some x) other = some x
or_else none other = other

-- The outer loop: the declarations of each schema.
unfoldable pub find_in {ℓ} :
    {A : Type ℓ} → (Schema → List A) → (A → QName) → QName → List Schema → Option A
find_in declared name_of name [] = none
find_in declared name_of name (s ∷ schemas) =
    or_else (find_named name_of name (declared s)) (find_in declared name_of name schemas)

unfoldable pub find_simple_type : SchemaSet → QName → Option SimpleType
find_simple_type set name = find_in Schema.simple_types SimpleType.name name set.schemas

unfoldable pub find_complex_type : SchemaSet → QName → Option ComplexType
find_complex_type set name = find_in Schema.complex_types ComplexType.name name set.schemas

unfoldable pub find_element : SchemaSet → QName → Option ElementDecl
find_element set name = find_in Schema.elements ElementDecl.name name set.schemas

unfoldable pub find_attribute : SchemaSet → QName → Option AttributeDecl
find_attribute set name = find_in Schema.attributes AttributeDecl.name name set.schemas

unfoldable pub find_model_group_def : SchemaSet → QName → Option ModelGroupDef
find_model_group_def set name = find_in Schema.model_group_defs ModelGroupDef.name name set.schemas

unfoldable pub find_attribute_group_def : SchemaSet → QName → Option AttributeGroupDef
find_attribute_group_def set name =
    find_in Schema.attribute_group_defs AttributeGroupDef.name name set.schemas
