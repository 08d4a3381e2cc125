-- ===== src/Schema/Model.antt =====
-- The schema model under src/include/xb: qname.hpp, occurrence.hpp, schema_fwd.hpp, element_decl.hpp,
-- attribute_decl.hpp, attribute_group_def.hpp, model_group.hpp, model_group_def.hpp, content_type.hpp,
-- simple_type.hpp, complex_type.hpp and schema.hpp. Facets, assertions, annotations, wildcards, type
-- alternatives and open content are left out: a set of schemas does not read them.
use Prim.Native.String.{String}
use text.Mathlib.Text.{◌==◌ as same_name}
use text.Mathlib.TextEquality.{eq_iff}
use xb.Common.{ℕ, List, Bool, true, ◌&&◌, Option, ◌≡◌, refl, arith}

pub record QName : Type 0 where
  pub namespace_uri : String
  pub local_name : String

-- `operator==`
unfoldable pub same_qname : QName → QName → Bool
same_qname a b = same_name a.namespace_uri b.namespace_uri && same_name a.local_name b.local_name

pub record Occurrence : Type 0 where
  pub min_occurs : ℕ
  pub max_occurs : ℕ

pub data CompositorKind : Type 0 where
  sequence choice all interleave : CompositorKind

pub data DerivationMethod : Type 0 where
  restriction extension : DerivationMethod

pub data SimpleTypeVariety : Type 0 where
  atomic list union_type : SimpleTypeVariety

pub data ContentKind : Type 0 where
  empty simple element_only mixed : ContentKind

pub record ElementDecl : Type 0 where
  pub name : QName
  pub type_name : QName
  pub nillable : Bool
  pub abstract : Bool
  pub default_value : Option String
  pub fixed_value : Option String
  pub substitution_group : Option QName

pub record AttributeDecl : Type 0 where
  pub name : QName
  pub type_name : QName
  pub default_value : Option String
  pub fixed_value : Option String

pub record AttributeUse : Type 0 where
  pub name : QName
  pub type_name : QName
  pub required : Bool
  pub default_value : Option String
  pub fixed_value : Option String

-- `attribute_group_ref` is the name that it holds.
pub record AttributeGroupDef : Type 0 where
  pub name : QName
  pub attributes : List AttributeUse
  pub attribute_group_refs : List QName

mutual
  -- The alternatives of `particle::term_type`; a pointer to a group may be null.
  pub data Term : Type 0 where
    element_decl_term : ElementDecl → Term
    element_ref group_ref : QName → Term
    model_group_term : ModelGroup → Term
    null_group wildcard : Term

  pub data Particles : Type 0 where
    no_particle : Particles
    particle : Term → Occurrence → Particles → Particles

  pub data ModelGroup : Type 0 where
    model_group : CompositorKind → Particles → ModelGroup

pub record ModelGroupDef : Type 0 where
  pub name : QName
  pub group : ModelGroup

pub record SimpleContent : Type 0 where
  pub base_type_name : QName
  pub derivation : DerivationMethod

pub record ComplexContent : Type 0 where
  pub base_type_name : QName
  pub derivation : DerivationMethod
  pub content_model : Option ModelGroup

pub data ContentDetail : Type 0 where
  monostate : ContentDetail
  simple_content : SimpleContent → ContentDetail
  complex_content : ComplexContent → ContentDetail

pub record SimpleType : Type 0 where
  pub name : QName
  pub variety : SimpleTypeVariety
  pub base_type_name : QName
  pub item_type_name : Option QName
  pub member_type_names : List QName

pub record ComplexType : Type 0 where
  pub name : QName
  pub abstract : Bool
  pub mixed : Bool
  pub content_kind : ContentKind
  pub content : ContentDetail
  pub attributes : List AttributeUse
  pub attribute_group_refs : List QName

pub record Schema : Type 0 where
  pub target_namespace : String
  pub simple_types : List SimpleType
  pub complex_types : List ComplexType
  pub elements : List ElementDecl
  pub attributes : List AttributeDecl
  pub model_group_defs : List ModelGroupDef
  pub attribute_group_defs : List AttributeGroupDef

pub same_qname_refl : (a : QName) → same_qname a a ≡ true
unfolding same_qname
same_qname_refl a = ground (
  arith,
  (eq_iff a.namespace_uri a.namespace_uri).1 refl,
  (eq_iff a.local_name a.local_name).1 refl,
)

pub same_qname-eq : (a b : QName) → same_qname a b ≡ true → a ≡ b
unfolding same_qname
same_qname-eq a b h =
    let same_ns : a.namespace_uri ≡ b.namespace_uri =
      ground (arith, h, eq_iff a.namespace_uri b.namespace_uri) in
    let same_local : a.local_name ≡ b.local_name =
      ground (arith, h, eq_iff a.local_name b.local_name) in
    cc
