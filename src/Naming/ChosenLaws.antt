-- ===== src/Naming/ChosenLaws.antt =====
-- `default_namespace_for` of src/lib/naming.cpp, beside a description of the name that it chooses.
use xb.Common.{
  ℕ, ◌+◌, ◌-◌, ◌≤◌, ◌<◌, List, [], ◌∷◌, ◌++◌, length, length-append, Bool, true, none, leb, ◌≡◌,
  ◌≢◌, ◌⊎◌, ◌∙◌, ◌&&◌, ◌||◌, refl, sym, ap, arith, Bool-cases, inl, inr, All,
}
use xb.Common.Text.{Bytes}
use xb.Naming.Identifier.{same_bytes, to_cpp_identifier}
use xb.Naming.IdentifierLaws.{to_cpp_identifier-ne-nil, same_bytes-eq, same_bytes-same}
use xb.Naming.JoinedNames.{joined, names_onto, names_onto-joined}
use xb.Naming.Namespace.{
  uri_segments, lookup, join_names, candidate_at, collides, other_segments, default_namespace_for,
  append_name,
}
use xb.Naming.NamespaceLaws.{
  IsNotNil, uri_segments-IsNotNil, drop-append, default_namespace_for-IsFirstFree,
}

-- The name that segments give.
abbrev pub name_of : List Bytes → Bytes
name_of segments = joined to_cpp_identifier segments

-- A namespace whose last segments, of the number, give the name.
abbrev pub SharesName : ℕ → Bytes → Bytes → Type 0
SharesName depth name ns =
    (front : List Bytes) × (last : List Bytes) × (uri_segments ns ≡ front ++ last)
    × (length last ≡ depth)
    × (name_of last ≡ name)

-- One of the namespaces, other than the given one, shares the name.
abbrev pub IsTaken : Bytes → List Bytes → ℕ → Bytes → Type 0
IsTaken xml_namespace [] depth name = ⊥
IsTaken xml_namespace (other ∷ namespaces) depth name =
    ((other ≢ xml_namespace) × SharesName depth name other)
    ⊎ IsTaken xml_namespace namespaces depth name

-- The name of the last segments of the namespace, one or more: all of them, or some whose name no other
-- namespace shares. The name of fewer segments is taken.
abbrev pub IsChosen : Bytes → List Bytes → Bytes → Type 0
IsChosen xml_namespace namespaces chosen =
    (front : List Bytes) × (last : List Bytes) × (uri_segments xml_namespace ≡ front ++ last)
    × (last ≢ [])
    × (chosen ≡ name_of last)
    × ((front ≡ []) ⊎ (¬ IsTaken xml_namespace namespaces (length last) chosen))
    × ((longer : List Bytes) (fewer : List Bytes)
        → uri_segments xml_namespace ≡ longer ++ fewer
        → fewer ≢ []
        → length fewer < length last
        → IsTaken xml_namespace namespaces (length fewer) (name_of fewer))

join_names-names_onto :
    (r : Bytes) (segments : List Bytes)
    → join_names r segments ≡ names_onto to_cpp_identifier r segments
unfolding join_names
join_names-names_onto r [] = refl
join_names-names_onto r (s ∷ segments) =
    join_names-names_onto (append_name r (to_cpp_identifier s)) segments

All-back : (front last : List Bytes) → All IsNotNil (front ++ last) → All IsNotNil last
All-back [] last h = h
All-back (s ∷ front) last h = All-back front last h.1

-- The code's candidate is the name of the last segments.
candidate_at-name_of :
    (front last segments : List Bytes)
    → segments ≡ front ++ last
    → All IsNotNil segments
    → candidate_at (length last) segments ≡ name_of last
unfolding candidate_at
candidate_at-name_of front last segments split h =
    let size : length (front ++ last) - length last ≡ length front =
      omega (arith, length-append front last) in
    let filled : All IsNotNil (front ++ last) = rw split at h in
    rw (split, size, drop-append front last)
      (join_names-names_onto [] last
        ∙ names_onto-joined to_cpp_identifier last to_cpp_identifier-ne-nil
            (All-back front last filled))

-- The last segments of a number.
split_at :
    (depth : ℕ) (segments : List Bytes)
    → depth ≤ length segments
    → (front : List Bytes) × (last : List Bytes) × (segments ≡ front ++ last)
      × (length last ≡ depth)
split_at depth [] h = ([], [], refl, omega (arith, h))
split_at depth (s ∷ segments) h = elim (Bool-cases (leb depth (length segments))) [
  | inl e ↦
      let (front, last, split, size) = split_at depth segments (ground arith) in
      (s ∷ front, last, ap (λ l. s ∷ l) split, size)
  | inr e ↦ ([], s ∷ segments, refl, ground arith)
]

-- The test of one namespace
abbrev shares : ℕ → Bytes → Bytes → Bool
shares depth name ns =
    leb depth (length (uri_segments ns)) && same_bytes (candidate_at depth (uri_segments ns)) name

shares-SharesName :
    (depth : ℕ) (name ns : Bytes) → shares depth name ns ≡ true → SharesName depth name ns
shares-SharesName depth name ns h =
    let fits : depth ≤ length (uri_segments ns) = ground (arith, h) in
    let same : same_bytes (candidate_at depth (uri_segments ns)) name ≡ true = ground (arith, h) in
    let (front, last, split, size) = split_at depth (uri_segments ns) fits in
    let named =
      candidate_at-name_of front last (uri_segments ns) split (uri_segments-IsNotNil ns) in
    (front, last, split, size, sym (rw size at named) ∙ same_bytes-eq _ name same)

SharesName-shares :
    (depth : ℕ) (name ns : Bytes) → SharesName depth name ns → shares depth name ns ≡ true
SharesName-shares depth name ns (front, last, split, size, named) =
    let here = candidate_at-name_of front last (uri_segments ns) split (uri_segments-IsNotNil ns) in
    let same : candidate_at depth (uri_segments ns) ≡ name = (rw size at here) ∙ named in
    let long : length (uri_segments ns) ≡ length front + length last =
      ap length split ∙ length-append front last in
    let fits : leb depth (length (uri_segments ns)) ≡ true = ground (arith, long, size) in
    rw (fits, same) (same_bytes-same name)

or_last : (a b : Bool) → b ≡ true → (a || b) ≡ true
or_last a b h = ground arith

positive : (l : List Bytes) → l ≢ [] → 1 ≤ length l
positive [] h = absurd (h refl)
positive (s ∷ l) h = omega arith

front_nil :
    (front last segments : List Bytes)
    → segments ≡ front ++ last
    → length last ≡ length segments
    → front ≡ []
front_nil [] last segments split size = refl
front_nil (s ∷ front) last segments split size =
    absurd (omega (arith, size, ap length split, length-append front last))

collides-IsTaken :
    (xml_namespace : Bytes) (namespaces : List Bytes) (depth : ℕ) (name : Bytes)
    → (collides (other_segments xml_namespace namespaces) depth name ≡ true
        → IsTaken xml_namespace namespaces depth name)
      × (IsTaken xml_namespace namespaces depth name
          → collides (other_segments xml_namespace namespaces) depth name ≡ true)
unfolding collides other_segments
collides-IsTaken x [] depth name = (λ h. cc, λ h. absurd h)
collides-IsTaken x (other ∷ namespaces) depth name =
    let later = collides-IsTaken x namespaces depth name in
    elim (Bool-cases (same_bytes other x)) [
      | inl e ↦ rw e (
        λ h. inr (later.0 h),
        λ h. elim h [ inl taken ↦ absurd (taken.0 (same_bytes-eq other x e)) | inr t ↦ later.1 t ],
      )
      | inr e ↦
          let differs : other ≢ x = λ same. cc (rw same at e, same_bytes-same x) in
          rw e (
            λ h. elim (Bool-cases (shares depth name other)) [
              | inl here ↦ inl (differs, shares-SharesName depth name other here)
              | inr there ↦ inr (later.0 (rw there at h))
            ],
            λ h. elim h [
              | inl taken ↦ rw (SharesName-shares depth name other taken.1) refl
              | inr t ↦ or_last _ _ (later.1 t)
            ],
          )
    ]

-- For a namespace that is not empty, has no explicit mapping and has a segment,
-- `default_namespace_for` returns the identifiers of its last segments, one or more, with `::`
-- between them: all its segments, or so few that no other namespace of the schemas has this name
-- for as many of its last segments; for every smaller number of segments another namespace shares
-- the name.
pub default_namespace_for-IsChosen :
    (xml_namespace : Bytes) (all_namespaces : List Bytes) (namespace_map : List (Bytes × Bytes))
    → uri_segments xml_namespace ≢ []
    → lookup xml_namespace namespace_map ≡ none
    → xml_namespace ≢ []
    → IsChosen xml_namespace all_namespaces
        (default_namespace_for xml_namespace all_namespaces namespace_map)
default_namespace_for-IsChosen x all namespace_map h unmapped some_uri =
    let chosen = default_namespace_for x all namespace_map in
    let (depth, one, small, named, free, below) =
      default_namespace_for-IsFirstFree x all namespace_map h unmapped some_uri in
    let (front, last, split, size) = split_at depth (uri_segments x) small in
    let filled = uri_segments-IsNotNil x in
    (
      front,
      last,
      split,
      λ e. absurd (omega (arith, one, size, ap length e)),
      named ∙ rw size at (candidate_at-name_of front last (uri_segments x) split filled),
      elim free [
        | inl whole ↦ inl (front_nil front last (uri_segments x) split (size ∙ whole))
        | inr unique ↦
            inr (λ taken. cc (unique, (collides-IsTaken x all depth chosen).1 (rw size at taken)))
      ],
      λ longer fewer cut some_left less. (collides-IsTaken x all (length fewer) (name_of fewer)).0 (
          rw (candidate_at-name_of longer fewer (uri_segments x) cut filled) at
            (below (length fewer) (positive fewer some_left) (omega (arith, less, size)))),
    )
