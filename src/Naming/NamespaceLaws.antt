-- ===== src/Naming/NamespaceLaws.antt =====
-- What `default_namespace_for` and `cpp_namespace_for` choose.
use xb.Common.{
  if◌then◌else◌, ◌==◌, ◌||◌, ℕ, suc, ◌-◌, ◌≤◌, ◌<◌, List, [], ◌∷◌, ◌++◌, length, length-append,
  Bool, true, false, none, leb, ◌≡◌, ◌≢◌, ◌⊎◌, ◌∙◌, refl, sym, ap, arith, Bool-cases, inl, inr, All,
  append_assoc, append-nil,
}
use xb.Common.Text.{Bytes}
use xb.Naming.Style.{to_snake_case, push_word, pieces_from}
use xb.Naming.Identifier.{to_cpp_identifier}
use xb.Naming.IdentifierLaws.{to_cpp_identifier-ne-nil}
use xb.Naming.SnakeLaws.{to_snake_case-ne-nil}
use xb.Naming.JoinedNames.{joined, names_onto, names_onto-joined}
use xb.Naming.Namespace.{
  without_scheme, without_www, strip_scheme, strip_www, separates, uri_segments, lookup,
  append_name, append_segment, derive_namespace, cpp_namespace_for, drop, join_names, candidate_at,
  collides, prepend_until_unique, other_segments, reverse_onto, choose_namespace,
  default_namespace_for, value_or,
}

abbrev pub IsNotNil : Bytes → Type 0
IsNotNil s = s ≢ []

push_word-IsNotNil :
    (word : Bytes) (words : List Bytes) → All IsNotNil words → All IsNotNil (push_word word words)
unfolding push_word
push_word-IsNotNil [] words h = h
push_word-IsNotNil (c ∷ word) words h = (λ e. cc, h)

pieces_from-IsNotNil :
    (separates : ℕ → Bool) (word s : Bytes) → All IsNotNil (pieces_from separates word s)
unfolding pieces_from
pieces_from-IsNotNil separates word [] = push_word-IsNotNil word [] tt
pieces_from-IsNotNil separates word (c ∷ s) = elim (Bool-cases (separates c)) [
  | inl e ↦ rw e (push_word-IsNotNil word _ (pieces_from-IsNotNil separates [] s))
  | inr e ↦ rw e (pieces_from-IsNotNil separates (word ++ (c ∷ [])) s)
]

pub uri_segments-IsNotNil : (uri : Bytes) → All IsNotNil (uri_segments uri)
unfolding uri_segments
uri_segments-IsNotNil uri = pieces_from-IsNotNil separates [] (strip_www (strip_scheme uri))

names_onto-push_word :
    (result word : Bytes) (words : List Bytes)
    → names_onto to_snake_case result (push_word word words)
      ≡ names_onto to_snake_case (append_segment result word) words
unfolding push_word append_segment
names_onto-push_word result [] words = refl
names_onto-push_word result (c ∷ word) words = refl

-- The two tests of the loop are those of `uri_segments`.
two_tests :
    {X : Type 0} (c : ℕ) (x y : X)
    → (if c == b'/' || c == b':' then x else if c == b'.' then x else y)
      ≡ (if separates c then x else y)
unfolding separates
two_tests c x y = ground arith

derive_namespace-pieces_from :
    (result segment s : Bytes)
    → derive_namespace result segment s
      ≡ names_onto to_snake_case result (pieces_from separates segment s)
unfolding derive_namespace pieces_from
derive_namespace-pieces_from result segment [] = sym (names_onto-push_word result segment [])
derive_namespace-pieces_from result segment (c ∷ s) =
    let ended = append_segment result segment in
    let longer = segment ++ (c ∷ []) in
    rw (two_tests c ended result, two_tests {X = Bytes} c [] longer)
      (elim (Bool-cases (separates c)) [
        | inl e ↦
            rw (e, derive_namespace-pieces_from (append_segment result segment) [] s)
              (sym (names_onto-push_word result segment (pieces_from separates [] s)))
        | inr e ↦ rw e (derive_namespace-pieces_from result (segment ++ (c ∷ [])) s)
      ])

-- For a namespace that is not empty and has no explicit mapping, `cpp_namespace_for` returns the
-- segments that `uri_segments` cuts, each in snake case, with `::` between them.
pub cpp_namespace_for-uri_segments :
    (xml_namespace : Bytes) (namespace_map : List (Bytes × Bytes))
    → xml_namespace ≢ []
    → lookup xml_namespace namespace_map ≡ none
    → cpp_namespace_for xml_namespace namespace_map
      ≡ joined to_snake_case (uri_segments xml_namespace)
unfolding cpp_namespace_for uri_segments without_scheme without_www strip_scheme strip_www value_or
    derive_namespace
cpp_namespace_for-uri_segments [] namespace_map h unmapped = absurd (h refl)
cpp_namespace_for-uri_segments (c ∷ s) namespace_map h unmapped =
    let uri = strip_www (strip_scheme (c ∷ s)) in
    rw unmapped (
      derive_namespace-pieces_from [] [] uri
      ∙ names_onto-joined to_snake_case (pieces_from separates [] uri) to_snake_case-ne-nil
          (pieces_from-IsNotNil separates [] uri))

append_name-append :
    (r x name : Bytes) → x ≢ [] → append_name (r ++ x) name ≡ r ++ append_name x name
unfolding append_name
append_name-append r [] name h = absurd (h refl)
append_name-append [] (c ∷ x) name h = refl
append_name-append (d ∷ r) (c ∷ x) name h = append_assoc (d ∷ r) (c ∷ x) (b':' ∷ b':' ∷ name)

append_name-ne-nil : (x name : Bytes) → x ≢ [] → append_name x name ≢ []
unfolding append_name
append_name-ne-nil [] name h e = h refl
append_name-ne-nil (c ∷ x) name h e = cc

join_names-append :
    (r x : Bytes) (segments : List Bytes)
    → x ≢ []
    → join_names (r ++ x) segments ≡ r ++ join_names x segments
unfolding join_names
join_names-append r x [] h = refl
join_names-append r x (segment ∷ segments) h =
    rw (append_name-append r x (to_cpp_identifier segment) h) (
      join_names-append r (append_name x (to_cpp_identifier segment)) segments
        (append_name-ne-nil x (to_cpp_identifier segment) h))

append_name-nil : (name : Bytes) → append_name [] name ≡ name
unfolding append_name
append_name-nil name = refl

append_name-double_colon :
    (r name : Bytes) → r ≢ [] → append_name r name ≡ (r ++ (b':' ∷ b':' ∷ [])) ++ name
unfolding append_name
append_name-double_colon [] name h = absurd (h refl)
append_name-double_colon (c ∷ r) name h = sym (append_assoc (c ∷ r) (b':' ∷ b':' ∷ []) name)

-- Prepending a segment to the name of the segments behind it.
join_names-prepend :
    (segment next : Bytes) (segments : List Bytes)
    → segment ≢ []
    → next ≢ []
    → join_names [] (segment ∷ next ∷ segments)
      ≡ to_cpp_identifier segment ++ (b':' ∷ b':' ∷ join_names [] (next ∷ segments))
unfolding join_names
join_names-prepend segment next segments h i =
    let first = to_cpp_identifier segment in
    let name = to_cpp_identifier next in
    rw
      (
        append_name-nil first,
        append_name-nil name,
        append_name-double_colon first name (to_cpp_identifier-ne-nil segment h),
        join_names-append (first ++ (b':' ∷ b':' ∷ [])) name segments
            (to_cpp_identifier-ne-nil next i),
      )
      (append_assoc first (b':' ∷ b':' ∷ []) (join_names name segments))

pub drop-append : (a l : List Bytes) → drop (length a) (a ++ l) ≡ l
unfolding drop
drop-append [] l = refl
drop-append (s ∷ a) l = drop-append a l

reverse_onto-append : (rr l : List Bytes) → reverse_onto rr l ≡ reverse_onto rr [] ++ l
unfolding reverse_onto
reverse_onto-append [] l = refl
reverse_onto-append (s ∷ rr) l =
    reverse_onto-append rr (s ∷ l)
    ∙ (sym (append_assoc (reverse_onto rr []) (s ∷ []) l)
        ∙ ap (λ a. a ++ l) (sym (reverse_onto-append rr (s ∷ []))))

-- The last segments are those that are given.
candidate_at-suffix :
    (rr l : List Bytes) → candidate_at (length l) (reverse_onto rr l) ≡ join_names [] l
unfolding candidate_at
candidate_at-suffix rr l =
    let front = reverse_onto rr [] in
    let size : length (front ++ l) - length l ≡ length front =
      omega (arith, length-append front l) in
    rw (reverse_onto-append rr l, size, drop-append front l) refl

-- The name of the last segments, as few as make it unlike those of the others at the same depth, or of
-- all segments where every depth collides.
abbrev pub IsFirstFree : List (List Bytes) → List Bytes → Bytes → Type 0
IsFirstFree others segments chosen =
    (depth : ℕ) × (1 ≤ depth)
    × (depth ≤ length segments)
    × (chosen ≡ candidate_at depth segments)
    × ((depth ≡ length segments) ⊎ (collides others depth chosen ≡ false))
    × ((e : ℕ) → 1 ≤ e → e < depth → collides others e (candidate_at e segments) ≡ true)

abbrev AllCollide : List (List Bytes) → List Bytes → ℕ → Type 0
AllCollide others segments depth =
    (e : ℕ) → 1 ≤ e → e ≤ depth → collides others e (candidate_at e segments) ≡ true

one_more :
    (others : List (List Bytes)) (segments : List Bytes) (depth : ℕ)
    → AllCollide others segments depth
    → collides others (suc depth) (candidate_at (suc depth) segments) ≡ true
    → AllCollide others segments (suc depth)
one_more others segments depth below taken e one less = elim (Bool-cases (leb e depth)) [
  | inl before ↦ below e one (ground arith)
  | inr after ↦ let last : e ≡ suc depth = ground arith in rw last taken
]

length-reverse_onto : (rr l : List Bytes) → length l ≤ length (reverse_onto rr l)
unfolding reverse_onto
length-reverse_onto [] l = omega arith
length-reverse_onto (s ∷ rr) l = omega (arith, length-reverse_onto rr (s ∷ l))

join_names-single : (name : Bytes) → join_names [] (name ∷ []) ≡ to_cpp_identifier name
unfolding join_names append_name
join_names-single name = refl

prepend_until_unique-IsFirstFree :
    (others : List (List Bytes)) (rr l : List Bytes) (next : Bytes)
    → All IsNotNil rr
    → next ≢ []
    → AllCollide others (reverse_onto rr (next ∷ l)) (suc (length l))
    → IsFirstFree others
        (reverse_onto rr (next ∷ l))
        (prepend_until_unique others (suc (length l)) (join_names [] (next ∷ l)) rr)
unfolding prepend_until_unique reverse_onto
prepend_until_unique-IsFirstFree others [] l next h i below = (
  suc (length l),
  omega arith,
  omega arith,
  sym (candidate_at-suffix [] (next ∷ l)),
  inl refl,
  λ e one less. below e one (omega (arith, less)),
)
prepend_until_unique-IsFirstFree others (segment ∷ rr) l next h i below =
    let longer = join_names [] (segment ∷ next ∷ l) in
    let here = candidate_at-suffix rr (segment ∷ next ∷ l) in
    let room = length-reverse_onto rr (segment ∷ next ∷ l) in
    rw (sym (join_names-prepend segment next l h.0 i))
      (elim (Bool-cases (collides others (suc (suc (length l))) longer)) [
        | inl taken ↦ rw taken (
            prepend_until_unique-IsFirstFree others rr (next ∷ l) segment h.1 h.0 (
              one_more others (reverse_onto rr (segment ∷ next ∷ l)) (suc (length l)) below
                (rw here taken)))
        | inr free ↦ rw free (
          suc (suc (length l)),
          omega arith,
          omega (arith, room),
          sym here,
          inr free,
          λ e one less. below e one (omega (arith, less)),
        )
      ])

choose_namespace-IsFirstFree :
    (others : List (List Bytes)) (last : Bytes) (rr : List Bytes)
    → All IsNotNil rr
    → last ≢ []
    → IsFirstFree others (reverse_onto rr (last ∷ [])) (choose_namespace others (last ∷ rr))
unfolding choose_namespace
choose_namespace-IsFirstFree others last rr h i =
    let here = candidate_at-suffix rr (last ∷ []) in
    let room = length-reverse_onto rr (last ∷ []) in
    let name : join_names [] (last ∷ []) ≡ to_cpp_identifier last = join_names-single last in
    rw (sym name) (elim (Bool-cases (collides others 1 (join_names [] (last ∷ [])))) [
      | inl taken ↦ rw taken (
          prepend_until_unique-IsFirstFree others rr [] last h i (
            one_more others (reverse_onto rr (last ∷ [])) 0
              (λ e one none_left. absurd (omega arith)) (rw here taken)))
      | inr free ↦ rw free (
        1,
        omega arith,
        omega (arith, room),
        sym here,
        inr free,
        λ e one less. absurd (omega arith),
      )
    ])

reverse_onto-reverse_onto :
    (segments done l : List Bytes)
    → reverse_onto (reverse_onto segments done) l ≡ reverse_onto done (segments ++ l)
unfolding reverse_onto
reverse_onto-reverse_onto [] done l = refl
reverse_onto-reverse_onto (s ∷ segments) done l = reverse_onto-reverse_onto segments (s ∷ done) l

All-reverse_onto :
    (segments done : List Bytes)
    → All IsNotNil segments
    → All IsNotNil done
    → All IsNotNil (reverse_onto segments done)
unfolding reverse_onto
All-reverse_onto [] done h i = i
All-reverse_onto (s ∷ segments) done h i = All-reverse_onto segments (s ∷ done) h.1 (h.0, i)

-- The same, with the segments in their order.
choose_namespace-reverse :
    (others : List (List Bytes)) (segments reversed : List Bytes)
    → reverse_onto segments [] ≡ reversed
    → All IsNotNil segments
    → segments ≢ []
    → IsFirstFree others segments (choose_namespace others reversed)
unfolding reverse_onto
choose_namespace-reverse others segments [] e h i =
    let back : reverse_onto [] [] ≡ segments ++ [] =
      rw e at (reverse_onto-reverse_onto segments [] []) in
    absurd (i (sym (back ∙ append-nil segments)))
choose_namespace-reverse others segments (last ∷ rr) e h i =
    let back : reverse_onto (last ∷ rr) [] ≡ segments ++ [] =
      rw e at (reverse_onto-reverse_onto segments [] []) in
    let all : All IsNotNil (last ∷ rr) = rw e at (All-reverse_onto segments [] h tt) in
    rw (back ∙ append-nil segments) at (choose_namespace-IsFirstFree others last rr all.1 all.0)

-- The same of the code.
pub default_namespace_for-IsFirstFree :
    (xml_namespace : Bytes) (all_namespaces : List Bytes) (namespace_map : List (Bytes × Bytes))
    → uri_segments xml_namespace ≢ []
    → lookup xml_namespace namespace_map ≡ none
    → xml_namespace ≢ []
    → IsFirstFree
        (other_segments xml_namespace all_namespaces)
        (uri_segments xml_namespace)
        (default_namespace_for xml_namespace all_namespaces namespace_map)
unfolding default_namespace_for value_or
default_namespace_for-IsFirstFree [] all_namespaces namespace_map h unmapped some_uri =
    absurd (some_uri refl)
default_namespace_for-IsFirstFree (c ∷ s) all_namespaces namespace_map h unmapped some_uri =
    rw unmapped (
      choose_namespace-reverse (other_segments (c ∷ s) all_namespaces) (uri_segments (c ∷ s))
        (reverse_onto (uri_segments (c ∷ s)) []) refl (uri_segments-IsNotNil (c ∷ s)) h)
