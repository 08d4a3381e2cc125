-- ===== src/Schema/Fresh.antt =====
-- The first phase of `resolve` returns where no two declarations of a kind share a name.
use xb.Common.{List, [], ◌∷◌, ◌++◌, map, false, ◌≡◌, refl}
use xb.Common.Result.{ok}
use xb.Schema.Model.{
  QName, ElementDecl, AttributeDecl, AttributeGroupDef, ModelGroupDef, SimpleType, ComplexType,
  Schema,
}
use xb.Schema.Set.{
  is_known, Tables, register_name, register_names, register_schema, register_schemas,
}

-- No name is one of those before it, nor of the given ones.
abbrev pub AreFresh : List QName → List QName → Type 0
AreFresh before [] = Unit
AreFresh before (name ∷ names) = (is_known before name ≡ false) × AreFresh (name ∷ before) names

-- The names, in front of those that were there.
abbrev pub entered : List QName → List QName → List QName
entered before [] = before
entered before (name ∷ names) = entered (name ∷ before) names

AreFresh-split :
    (before a b : List QName)
    → AreFresh before (a ++ b)
    → AreFresh before a × AreFresh (entered before a) b
AreFresh-split before [] b h = (tt, h)
AreFresh-split before (name ∷ a) b h =
    let (first, second) = AreFresh-split (name ∷ before) a b h.1 in ((h.0, first), second)

entered-append : (before a b : List QName) → entered before (a ++ b) ≡ entered (entered before a) b
entered-append before [] b = refl
entered-append before (name ∷ a) b = entered-append (name ∷ before) a b

register_name-fresh :
    (name : QName) (known : List QName)
    → is_known known name ≡ false
    → register_name name known ≡ ok (name ∷ known)
unfolding register_name
register_name-fresh name known h = rw h refl

register_names-AreFresh :
    {A : Type 0} (name_of : A → QName) (xs : List A) (known : List QName)
    → AreFresh known (map name_of xs)
    → register_names name_of xs known ≡ ok (entered known (map name_of xs))
unfolding register_names
register_names-AreFresh name_of [] known h = refl
register_names-AreFresh name_of (x ∷ xs) known h =
    rw (register_name-fresh (name_of x) known h.0)
      (register_names-AreFresh name_of xs (name_of x ∷ known) h.1)

-- The names of one kind of declarations in the schemas.
abbrev pub names_in : (Schema → List QName) → List Schema → List QName
names_in names [] = []
names_in names (s ∷ schemas) = names s ++ names_in names schemas

abbrev pub type_names : Schema → List QName
type_names s = map SimpleType.name s.simple_types ++ map ComplexType.name s.complex_types

abbrev pub element_names : Schema → List QName
element_names s = map ElementDecl.name s.elements

abbrev pub attribute_names : Schema → List QName
attribute_names s = map AttributeDecl.name s.attributes

abbrev pub group_names : Schema → List QName
group_names s = map ModelGroupDef.name s.model_group_defs

abbrev pub attr_group_names : Schema → List QName
attr_group_names s = map AttributeGroupDef.name s.attribute_group_defs

-- In each table, the names that the schemas declare are new.
abbrev pub AllFresh : Tables → List Schema → Type 0
AllFresh t schemas =
    AreFresh t.known_types (names_in type_names schemas)
    × AreFresh t.known_elements (names_in element_names schemas)
    × AreFresh t.known_attributes (names_in attribute_names schemas)
    × AreFresh t.known_groups (names_in group_names schemas)
    × AreFresh t.known_attr_groups (names_in attr_group_names schemas)

abbrev after_schema : Tables → Schema → Tables
after_schema t s = record {
  known_types = entered t.known_types (type_names s);
  known_elements = entered t.known_elements (element_names s);
  known_attributes = entered t.known_attributes (attribute_names s);
  known_groups = entered t.known_groups (group_names s);
  known_attr_groups = entered t.known_attr_groups (attr_group_names s);
}

register_schema-fresh :
    (s : Schema) (t : Tables)
    → AreFresh t.known_types (type_names s)
    → AreFresh t.known_elements (element_names s)
    → AreFresh t.known_attributes (attribute_names s)
    → AreFresh t.known_groups (group_names s)
    → AreFresh t.known_attr_groups (attr_group_names s)
    → register_schema s t ≡ ok (after_schema t s)
unfolding register_schema
register_schema-fresh s t types elements attributes groups attr_groups =
    let simple = map SimpleType.name s.simple_types in
    let (first, second) =
      AreFresh-split t.known_types simple (map ComplexType.name s.complex_types) types in
    rw
      (
        register_names-AreFresh SimpleType.name s.simple_types t.known_types first,
        register_names-AreFresh ComplexType.name s.complex_types (entered t.known_types simple)
            second,
        register_names-AreFresh ElementDecl.name s.elements t.known_elements elements,
        register_names-AreFresh AttributeDecl.name s.attributes t.known_attributes attributes,
        register_names-AreFresh ModelGroupDef.name s.model_group_defs t.known_groups groups,
        register_names-AreFresh AttributeGroupDef.name s.attribute_group_defs t.known_attr_groups
            attr_groups,
        entered-append t.known_types simple (map ComplexType.name s.complex_types),
      )
      refl

pub register_schemas-AllFresh :
    (schemas : List Schema) (t : Tables)
    → AllFresh t schemas
    → (after : Tables) × (register_schemas schemas t ≡ ok after)
unfolding register_schemas
register_schemas-AllFresh [] t h = (t, refl)
register_schemas-AllFresh (s ∷ schemas) t h =
    let types = AreFresh-split t.known_types (type_names s) (names_in type_names schemas) h.0 in
    let elements =
      AreFresh-split t.known_elements (element_names s) (names_in element_names schemas) h.1 in
    let attributes =
      AreFresh-split t.known_attributes (attribute_names s) (names_in attribute_names schemas)
        h.2 in
    let groups = AreFresh-split t.known_groups (group_names s) (names_in group_names schemas) h.3 in
    let attr_groups =
      AreFresh-split t.known_attr_groups (attr_group_names s) (names_in attr_group_names schemas)
        h.4 in
    rw (register_schema-fresh s t types.0 elements.0 attributes.0 groups.0 attr_groups.0) (
      register_schemas-AllFresh schemas (after_schema t s)
        (types.1, elements.1, attributes.1, groups.1, attr_groups.1))
