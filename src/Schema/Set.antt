-- ===== src/Schema/Set.antt =====
-- src/lib/schema_set.cpp. The five tables are lists of the names that they hold.
use Prim.Native.String.{String}
use text.Mathlib.Text.{◌==◌ as same_name}
use xb.Common.{List, [], ◌∷◌, Bool, false, not, ◌&&◌, ◌||◌}
use xb.Common.Result.{Result, ok, runtime_error, require, ◌>>=◌, ◌>>◌}
use xb.Schema.Model.{
  QName, same_qname, ElementDecl, AttributeDecl, AttributeGroupDef, Term, element_decl_term,
  element_ref, group_ref, model_group_term, null_group, wildcard, Particles, no_particle, particle,
  ModelGroup, model_group, ModelGroupDef, SimpleType, ComplexType, Schema,
}

abbrev pub xs_ns : String
xs_ns = "http://www.w3.org/2001/XMLSchema"

abbrev pub builtin_types : List String
builtin_types =
    "anyType" ∷ "anySimpleType" ∷ "string" ∷ "normalizedString" ∷ "token" ∷ "boolean" ∷ "float"
    ∷ "double" ∷ "decimal" ∷ "integer" ∷ "nonPositiveInteger" ∷ "negativeInteger"
    ∷ "nonNegativeInteger" ∷ "positiveInteger" ∷ "long" ∷ "int" ∷ "short" ∷ "byte" ∷ "unsignedLong"
    ∷ "unsignedInt" ∷ "unsignedShort" ∷ "unsignedByte" ∷ "dateTime" ∷ "date" ∷ "time" ∷ "duration"
    ∷ "hexBinary" ∷ "base64Binary" ∷ "anyURI" ∷ "QName" ∷ "ID" ∷ "IDREF" ∷ "NMTOKEN" ∷ "language"
    ∷ "NOTATION" ∷ "ENTITY" ∷ "ENTITIES" ∷ "IDREFS" ∷ "NMTOKENS" ∷ "Name" ∷ "NCName" ∷ "gYear"
    ∷ "gYearMonth" ∷ "gMonth" ∷ "gMonthDay" ∷ "gDay" ∷ []

unfoldable pub has_text : List String → String → Bool
has_text [] s = false
has_text (t ∷ texts) s = same_name t s || has_text texts s

unfoldable pub is_builtin_type : QName → Bool
is_builtin_type name = same_name name.namespace_uri xs_ns && has_text builtin_types name.local_name

-- `count(name) > 0`
unfoldable pub is_known : List QName → QName → Bool
is_known [] q = false
is_known (k ∷ known) q = same_qname k q || is_known known q

-- `local_name().empty()`
unfoldable pub is_blank : QName → Bool
is_blank q = same_name q.local_name ""

unfoldable pub check_type_ref : QName → List QName → Result (Unit {0})
check_type_ref type_name known_types =
    require (is_blank type_name || is_builtin_type type_name || is_known known_types type_name)
      runtime_error

-- `check_element_ref`, `check_group_ref` and `check_attr_group_ref`
unfoldable pub check_ref : QName → List QName → Result (Unit {0})
check_ref ref known = require (is_blank ref || is_known known ref) runtime_error

pub record Tables : Type 0 where
  pub known_types : List QName
  pub known_elements : List QName
  pub known_attributes : List QName
  pub known_groups : List QName
  pub known_attr_groups : List QName

unfoldable mutual
  pub validate_particles : Particles → Tables → Result (Unit {0})
  validate_particles no_particle t = ok tt
  validate_particles (particle term occurs particles) t =
      validate_term term t >> validate_particles particles t

  pub validate_term : Term → Tables → Result (Unit {0})
  validate_term (element_decl_term e) t = check_type_ref e.type_name t.known_types
  validate_term (element_ref ref) t = check_ref ref t.known_elements
  validate_term (group_ref ref) t = check_ref ref t.known_groups
  validate_term (model_group_term group) t = validate_group group t
  validate_term null_group t = ok tt
  validate_term wildcard t = ok tt

  pub validate_group : ModelGroup → Tables → Result (Unit {0})
  validate_group (model_group compositor particles) t = validate_particles particles t

-- A `for` loop over a statement that may throw.
unfoldable pub for_each {ℓ} : {A : Type ℓ} → (A → Result (Unit {0})) → List A → Result (Unit {0})
for_each body [] = ok tt
for_each body (x ∷ xs) = body x >> for_each body xs

unfoldable pub register_name : QName → List QName → Result (List QName)
register_name name known = require (not (is_known known name)) runtime_error >> ok (name ∷ known)

-- The loop over declarations, from the names that they have.
unfoldable pub register_names {ℓ} :
    {A : Type ℓ} → (A → QName) → List A → List QName → Result (List QName)
register_names name_of [] known = ok known
register_names name_of (x ∷ xs) known =
    register_name (name_of x) known >>= λ more. register_names name_of xs more

unfoldable pub register_schema : Schema → Tables → Result Tables
register_schema s t = do
  known_simple ← register_names SimpleType.name s.simple_types t.known_types
  known_types ← register_names ComplexType.name s.complex_types known_simple
  known_elements ← register_names ElementDecl.name s.elements t.known_elements
  known_attributes ← register_names AttributeDecl.name s.attributes t.known_attributes
  known_groups ← register_names ModelGroupDef.name s.model_group_defs t.known_groups
  known_attr_groups ←
      register_names AttributeGroupDef.name s.attribute_group_defs t.known_attr_groups
  ok (record {
    known_types = known_types;
    known_elements = known_elements;
    known_attributes = known_attributes;
    known_groups = known_groups;
    known_attr_groups = known_attr_groups;
  })

unfoldable pub register_schemas : List Schema → Tables → Result Tables
register_schemas [] t = ok t
register_schemas (s ∷ schemas) t = register_schema s t >>= λ more. register_schemas schemas more
