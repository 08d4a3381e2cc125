-- ===== src/Naming/Namespace.antt =====
-- src/lib/naming.cpp: C++ namespaces for the namespaces of a schema. A `std::set` or a
-- `std::unordered_map` of strings is a list of its members.
use xb.Common.{
  ℕ, zero, suc, ◌-◌, List, [], ◌∷◌, ◌++◌, length, Bool, false, ◌&&◌, ◌||◌, Option, none, some, leb,
  ◌==◌, if◌then◌else◌,
}
use xb.Common.Text.{Bytes, codes}
use xb.Naming.Style.{to_snake_case, pieces_from}
use xb.Naming.Identifier.{same_bytes, to_cpp_identifier}

-- `starts_with(prefix)` and `substr(prefix.size())`
unfoldable pub strip_prefix : Bytes → Bytes → Option Bytes
strip_prefix [] s = some s
strip_prefix (p ∷ prefix) [] = none
strip_prefix (p ∷ prefix) (c ∷ s) =
    let rest = strip_prefix prefix s in if p == c then rest else none

unfoldable pub or_else : Option Bytes → Option Bytes → Option Bytes
or_else (some s) other = some s
or_else none other = other

unfoldable pub value_or : Option Bytes → Bytes → Bytes
value_or (some s) other = s
value_or none other = other

-- What is behind the first occurrence of a text.
unfoldable pub after_text : Bytes → Bytes → Option Bytes
after_text text [] = strip_prefix text []
after_text text (c ∷ s) = or_else (strip_prefix text (c ∷ s)) (after_text text s)

unfoldable pub strip_scheme : Bytes → Bytes
strip_scheme uri =
    value_or (or_else (after_text (codes "://") uri) (strip_prefix (codes "urn:") uri)) uri

unfoldable pub strip_www : Bytes → Bytes
strip_www uri = value_or (strip_prefix (codes "www.") uri) uri

-- `cpp_namespace_for` has these steps in its own words.
unfoldable pub without_scheme : Bytes → Bytes
without_scheme uri =
    value_or (or_else (after_text (codes "://") uri) (strip_prefix (codes "urn:") uri)) uri

unfoldable pub without_www : Bytes → Bytes
without_www uri = value_or (strip_prefix (codes "www.") uri) uri

unfoldable pub separates : ℕ → Bool
separates c = (c == b'/') || (c == b':') || (c == b'.')

unfoldable pub uri_segments : Bytes → List Bytes
uri_segments uri = pieces_from separates [] (strip_www (strip_scheme uri))

-- `namespace_map.find(…)`
unfoldable pub lookup : Bytes → List (Bytes × Bytes) → Option Bytes
lookup key [] = none
lookup key (entry ∷ entries) =
    let rest = lookup key entries in if same_bytes entry.0 key then some entry.1 else rest

-- `if (!result.empty()) result += "::"; result += name;`
unfoldable pub append_name : Bytes → Bytes → Bytes
append_name [] name = name
append_name (c ∷ result) name = (c ∷ result) ++ (b':' ∷ b':' ∷ name)

-- A segment that ends.
unfoldable pub append_segment : Bytes → Bytes → Bytes
append_segment result [] = result
append_segment result (c ∷ segment) = append_name result (to_snake_case (c ∷ segment))

-- The loop of `cpp_namespace_for`, with its tests of `/` and `:` and then of `.`
unfoldable pub derive_namespace : Bytes → Bytes → Bytes → Bytes
derive_namespace result segment [] = append_segment result segment
derive_namespace result segment (c ∷ uri) =
    let ended = append_segment result segment in
    let longer = segment ++ (c ∷ []) in
    let next = if c == b'/' || c == b':' then ended else if c == b'.' then ended else result in
    let left = if c == b'/' || c == b':' then [] else if c == b'.' then [] else longer in
    derive_namespace next left uri

unfoldable pub cpp_namespace_for : Bytes → List (Bytes × Bytes) → Bytes
cpp_namespace_for [] namespace_map = []
cpp_namespace_for (c ∷ xml_namespace) namespace_map =
    value_or (lookup (c ∷ xml_namespace) namespace_map)
      (derive_namespace [] [] (without_www (without_scheme (c ∷ xml_namespace))))

-- The last `depth` segments
unfoldable pub drop : ℕ → List Bytes → List Bytes
drop zero segments = segments
drop (suc n) [] = []
drop (suc n) (segment ∷ segments) = drop n segments

unfoldable pub join_names : Bytes → List Bytes → Bytes
join_names result [] = result
join_names result (segment ∷ segments) =
    join_names (append_name result (to_cpp_identifier segment)) segments

-- `other_candidate`, of `depth` segments
unfoldable pub candidate_at : ℕ → List Bytes → Bytes
candidate_at depth segments = join_names [] (drop (length segments - depth) segments)

-- The loops over the other namespaces, whose segments are given.
unfoldable pub collides : List (List Bytes) → ℕ → Bytes → Bool
collides [] depth candidate = false
collides (other ∷ others) depth candidate =
    (leb depth (length other) && same_bytes (candidate_at depth other) candidate)
    || collides others depth candidate

-- The loop that prepends segments, given from the last but one down.
unfoldable pub prepend_until_unique : List (List Bytes) → ℕ → Bytes → List Bytes → Bytes
prepend_until_unique others depth candidate [] = candidate
prepend_until_unique others depth candidate (segment ∷ segments) =
    let longer = to_cpp_identifier segment ++ (b':' ∷ b':' ∷ candidate) in
    let rest = prepend_until_unique others (suc depth) longer segments in
    if collides others (suc depth) longer then rest else longer

-- `other_ns != xml_namespace`
unfoldable pub other_segments : Bytes → List Bytes → List (List Bytes)
other_segments xml_namespace [] = []
other_segments xml_namespace (other ∷ namespaces) =
    let rest = other_segments xml_namespace namespaces in
    if same_bytes other xml_namespace then rest else uri_segments other ∷ rest

unfoldable pub reverse_onto : List Bytes → List Bytes → List Bytes
reverse_onto [] done = done
reverse_onto (segment ∷ segments) done = reverse_onto segments (segment ∷ done)

-- The segments are given from the last one down.
unfoldable pub choose_namespace : List (List Bytes) → List Bytes → Bytes
choose_namespace others [] = []
choose_namespace others (last ∷ segments) =
    let candidate = to_cpp_identifier last in
    let longer = prepend_until_unique others 1 candidate segments in
    if collides others 1 candidate then longer else candidate

unfoldable pub default_namespace_for : Bytes → List Bytes → List (Bytes × Bytes) → Bytes
default_namespace_for [] all_namespaces namespace_map = []
default_namespace_for (c ∷ xml_namespace) all_namespaces namespace_map =
    value_or (lookup (c ∷ xml_namespace) namespace_map) (
      choose_namespace (other_segments (c ∷ xml_namespace) all_namespaces)
        (reverse_onto (uri_segments (c ∷ xml_namespace)) []))
