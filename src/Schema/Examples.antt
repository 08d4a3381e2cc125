-- ===== src/Schema/Examples.antt =====
-- A schema of orders: a code, a type with an attribute, a nested group and a reference, and an element.
use Prim.Native.String.{String}
use xb.Common.{inl, inr, [], ◌∷◌, Bool, true, false, none, some, ◌≡◌, refl}
use xb.Common.Result.{ok, err, runtime_error}
use xb.Schema.Model.{
  QName, same_qname, ElementDecl, element_decl_term, element_ref, model_group_term, wildcard,
  particle, no_particle, ModelGroup, model_group, complex_content, SimpleType, ComplexType, Schema,
  Occurrence, sequence, choice, atomic, restriction, element_only,
}
use xb.Schema.Set.{
  xs_ns, has_text, is_builtin_type, is_known, is_blank, check_type_ref, check_ref,
  validate_particles, for_each, register_name, register_names, register_schema, register_schemas,
}
use xb.Schema.Resolve.{
  find_simple_type, find_complex_type, find_element, find_in, find_named, or_else, check_given_type,
  check_optional_type, check_simple_type, check_attributes, check_content_model, check_content,
  check_complex_type, check_schema, SchemaSet, resolve, add,
}
use xb.Schema.Refs.{particles_refs}
use xb.Schema.Complete.{resolve-returns}
use xb.Schema.Laws.{
  IsConsistent, resolve-IsConsistent, created, added, resolving, Reachable-IsConsistent,
}

abbrev local : String → QName
local name = record { namespace_uri = "urn:orders"; local_name = name }

abbrev xs : String → QName
xs name = record { namespace_uri = xs_ns; local_name = name }

abbrev element_of : QName → QName → ElementDecl
element_of name type_name = record {
  name = name;
  type_name = type_name;
  nillable = false;
  abstract = false;
  default_value = none;
  fixed_value = none;
  substitution_group = none;
}

abbrev order_element : ElementDecl
order_element = element_of (local "order") (local "Order")

abbrev once : Occurrence
once = record { min_occurs = 1; max_occurs = 1 }

abbrev content_group : ModelGroup
content_group = model_group sequence (
    particle (element_decl_term (element_of (local "code") (local "Code"))) once (
      particle
        (model_group_term
          (model_group choice (particle (element_ref (local "order")) once no_particle)))
        once (particle wildcard once no_particle)))

abbrev code_type : SimpleType
code_type = record {
  name = local "Code";
  variety = atomic;
  base_type_name = xs "string";
  item_type_name = none;
  member_type_names = [];
}

abbrev order_type : ComplexType
order_type = record {
  name = local "Order";
  abstract = false;
  mixed = false;
  content_kind = element_only;
  content = complex_content (record {
    base_type_name = local "";
    derivation = restriction;
    content_model = some content_group;
  });
  attributes =
      record {
        name = local "id";
        type_name = xs "ID";
        required = true;
        default_value = none;
        fixed_value = none;
      }
      ∷ [];
  attribute_group_refs = [];
}

abbrev orders : Schema
orders = record {
  target_namespace = "urn:orders";
  simple_types = code_type ∷ [];
  complex_types = order_type ∷ [];
  elements = order_element ∷ [];
  attributes = [];
  model_group_defs = [];
  attribute_group_defs = [];
}

abbrev one_schema : Bool → SchemaSet
one_schema resolved = record { schemas = orders ∷ []; resolved = resolved }

orders_resolve : resolve (one_schema false) ≡ ok (one_schema true)
unfolding resolve register_schemas register_schema register_names register_name is_known same_qname
    for_each check_schema check_type_ref is_blank is_builtin_type has_text check_simple_type
    check_given_type check_optional_type check_complex_type check_attributes check_content
    check_content_model validate_particles check_ref
orders_resolve = refl

resolve-IsConsistent_example :
    IsConsistent (one_schema true) × ((one_schema true).schemas ≡ (one_schema false).schemas)
resolve-IsConsistent_example =
    resolve-IsConsistent (one_schema false) (one_schema true) orders_resolve

Reachable-IsConsistent_example :
    IsConsistent (one_schema true) × (resolve (one_schema true) ≡ ok (one_schema true))
unfolding add
Reachable-IsConsistent_example =
    Reachable-IsConsistent (one_schema true)
      (resolving (one_schema false) (one_schema true) (added orders created) orders_resolve) refl

resolve-returns_example : resolve (one_schema false) ≡ ok (one_schema true)
unfolding find_simple_type find_complex_type find_element find_in find_named or_else same_qname
    is_blank is_builtin_type has_text is_known particles_refs
resolve-returns_example =
    resolve-returns (one_schema false) ((refl, (refl, tt)), (refl, tt), tt, tt, tt)
      (
        (
          inr (inr (order_type, refl)),
          (
            inl refl,
            (inl refl, (inl refl, (inr (inl (code_type, refl)), (inr (order_element, refl), tt)))),
          ),
        ),
        tt,
      )

-- A schema that is added twice has no two declarations of a name.
orders_twice :
    resolve (record { schemas = orders ∷ orders ∷ []; resolved = false }) ≡ err runtime_error
unfolding resolve register_schemas register_schema register_names register_name is_known same_qname
    for_each check_schema check_type_ref is_blank is_builtin_type has_text check_simple_type
    check_given_type check_optional_type check_complex_type check_attributes check_content
    check_content_model validate_particles check_ref
orders_twice = refl
