-- ===== src/Schema/Tables.antt =====
-- The tables of `resolve` over the schemas of a set, and the lookups of a set.
use xb.Common.{
  List, [], ◌∷◌, true, false, Option, none, some, Option-cases, ◌≡◌, ◌⊎◌, inl, inr, refl, sym,
  Bool-cases, ◌∙◌, ap,
}
use xb.Common.Result.{ok, >>=-eq-ok}
use xb.Schema.Model.{
  QName, ElementDecl, AttributeDecl, AttributeGroupDef, ModelGroupDef, SimpleType, ComplexType,
  Schema,
}
use xb.Schema.Set.{is_known, Tables, register_names, register_schema, register_schemas}
use xb.Schema.Resolve.{find_named, or_else, find_in}
use xb.Schema.Names.{
  IsMember, register_names-kept, register_names-fresh, find_named_sound, find_named-registered,
}

abbrev pub Found : {A : Type 0} → Option A → Type 0
Found {A} o = (x : A) × (o ≡ some x)

-- What is known in the one table is known in the other.
abbrev pub IsWithin : List QName → List QName → Type 0
IsWithin a b = (q : QName) → is_known a q ≡ true → is_known b q ≡ true

-- Where one kind of declarations of a schema enters a table.
abbrev pub Enters : {A : Type 0} → (Schema → List A) → (A → QName) → (Tables → List QName) → Type 0
Enters declared name_of table =
    (s : Schema) (t t' : Tables)
    → register_schema s t ≡ ok t'
    → (before : List QName) × (after : List QName) × (register_names name_of (declared s) before
        ≡ ok after)
      × IsWithin (table t) before
      × IsWithin after (table t')

not_known :
    (a b : List QName) (q : QName) → IsWithin a b → is_known b q ≡ false → is_known a q ≡ false
not_known a b q h e = elim (Bool-cases (is_known a q)) [ inl k ↦ cc (h q k) | inr k ↦ k ]

module _ {A : Type 0} (declared : Schema → List A) (name_of : A → QName)
    (table : Tables → List QName) where
  -- In schemas whose names were registered, a lookup of a declaration's name finds the declaration.
  pub find_in-registered :
      (schemas : List Schema) (t after : Tables) (s : Schema) (x : A)
      → Enters declared name_of table
      → register_schemas schemas t ≡ ok after
      → IsMember s schemas
      → IsMember x (declared s)
      → (is_known (table t) (name_of x) ≡ false)
        × (find_in declared name_of (name_of x) schemas ≡ some x)
  unfolding register_schemas find_in or_else
  find_in-registered [] t after s x enters h m n = absurd m
  find_in-registered (first ∷ schemas) t after s x enters h (inl e) n =
      let (t', one, rest) = >>=-eq-ok (register_schema first t) (register_schemas schemas) h in
      let (before, later, names, within, outside) = enters first t t' one in
      let n' : IsMember x (declared first) = rw e n in
      let (fresh, known) = register_names-fresh name_of (declared first) before later x names n' in
      let found = find_named-registered name_of (declared first) before later x names n' in
      (not_known (table t) before (name_of x) within fresh, rw found refl)
  find_in-registered (first ∷ schemas) t after s x enters h (inr m) n =
      let (t', one, rest) = >>=-eq-ok (register_schema first t) (register_schemas schemas) h in
      let (before, later, names, within, outside) = enters first t t' one in
      let (fresh, found) = find_in-registered schemas t' after s x enters rest m n in
      let kept : IsWithin (table t) (table t') = λ q k.
        outside q
          (register_names-kept name_of (declared first) before later q names (within q k)) in
      elim (Option-cases (find_named name_of (name_of x) (declared first))) [
        | inl none_here ↦
            (not_known (table t) (table t') (name_of x) kept fresh, rw none_here found)
        | inr (y, here) ↦
            let (same, mem) = find_named_sound name_of (declared first) (name_of x) y here in
            let known =
              (register_names-fresh name_of (declared first) before later y names mem).1 in
            let known' : is_known (table t') (name_of x) ≡ true =
              rw same at (outside (name_of y) known) in
            cc (known', fresh)
      ]

  -- What a schema of the list declares is found.
  pub find_in-Found :
      (schemas : List Schema) (s : Schema) (q : QName)
      → IsMember s schemas
      → Found (find_named name_of q (declared s))
      → Found (find_in declared name_of q schemas)
  unfolding find_in or_else
  find_in-Found [] s q m found = absurd m
  find_in-Found (first ∷ schemas) s q m found =
      elim (Option-cases (find_named name_of q (declared first))) [
        | inr (y, here) ↦ rw here (y, refl)
        | inl none_here ↦ elim m [
          | inl e ↦
              let wrong : none ≡ some found.0 =
                sym none_here ∙ (ap (λ u. find_named name_of q (declared u)) e ∙ found.1) in
              cc wrong
          | inr later ↦ rw none_here (find_in-Found schemas s q later found)
        ]
      ]

module _ (table : Tables → List QName) (Declares : Schema → QName → Type 0) where
  -- Where the names of a table come from, one schema after the other.
  pub register_schemas-cases :
      (schemas : List Schema) (t after : Tables) (q : QName)
      → ((s : Schema) (t t' : Tables)
          → register_schema s t ≡ ok t'
          → is_known (table t') q ≡ true
          → (is_known (table t) q ≡ true) ⊎ Declares s q)
      → register_schemas schemas t ≡ ok after
      → is_known (table after) q ≡ true
      → (is_known (table t) q ≡ true) ⊎ ((s : Schema) × IsMember s schemas × Declares s q)
  unfolding register_schemas
  register_schemas-cases [] t after q step h k =
      let same : t ≡ after = cc in inl (rw (sym same) at k)
  register_schemas-cases (first ∷ schemas) t after q step h k =
      let (t', one, rest) = >>=-eq-ok (register_schema first t) (register_schemas schemas) h in
      elim (register_schemas-cases schemas t' after q step rest k) [
        | inr (s, m, d) ↦ inr (s, inr m, d)
        | inl known ↦ elim (step first t t' one known) [
          | inl before ↦ inl before
          | inr d ↦ inr (first, inl refl, d)
        ]
      ]

-- The tables that one schema leaves, table by table.
abbrev pub Registered : Schema → Tables → Tables → Type 0
Registered s t t' =
    ((middle : List QName) × (register_names SimpleType.name s.simple_types t.known_types
        ≡ ok middle)
      × (register_names ComplexType.name s.complex_types middle ≡ ok t'.known_types))
    × (register_names ElementDecl.name s.elements t.known_elements ≡ ok t'.known_elements)
    × (register_names AttributeDecl.name s.attributes t.known_attributes ≡ ok t'.known_attributes)
    × (register_names ModelGroupDef.name s.model_group_defs t.known_groups ≡ ok t'.known_groups)
    × (register_names AttributeGroupDef.name s.attribute_group_defs t.known_attr_groups
        ≡ ok t'.known_attr_groups)

Registered-eq :
    (s : Schema) (t made t' : Tables) → made ≡ t' → Registered s t made → Registered s t t'
Registered-eq s t made t' same parts = rw same at parts

pub register_schema-Registered :
    (s : Schema) (t t' : Tables) → register_schema s t ≡ ok t' → Registered s t t'
unfolding register_schema
register_schema-Registered s t t' h =
    let (simple, e1, h1) =
      >>=-eq-ok (register_names SimpleType.name s.simple_types t.known_types) _ h in
    let (types, e2, h2) = >>=-eq-ok (register_names ComplexType.name s.complex_types simple) _ h1 in
    let (elements, e3, h3) =
      >>=-eq-ok (register_names ElementDecl.name s.elements t.known_elements) _ h2 in
    let (attributes, e4, h4) =
      >>=-eq-ok (register_names AttributeDecl.name s.attributes t.known_attributes) _ h3 in
    let (groups, e5, h5) =
      >>=-eq-ok (register_names ModelGroupDef.name s.model_group_defs t.known_groups) _ h4 in
    let (attr_groups, e6, h6) =
      >>=-eq-ok (register_names AttributeGroupDef.name s.attribute_group_defs t.known_attr_groups) _
        h5 in
    let made : Tables = record {
      known_types = types;
      known_elements = elements;
      known_attributes = attributes;
      known_groups = groups;
      known_attr_groups = attr_groups;
    } in
    let same : made ≡ t' = cc in Registered-eq s t made t' same ((simple, e1, e2), e3, e4, e5, e6)
