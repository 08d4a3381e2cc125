-- ===== src/Rng/Simplify.antt =====
-- src/lib/rng_simplify.cpp. `std::visit` is the match on a pattern.
use Prim.Native.String.{String}
use text.Mathlib.Text.{◌==◌ as same_name}
use mathlib.Core.Option.{Option, none as absent, some}
use xb.Common.{ℕ, zero, suc, [], ◌∷◌, length, Bool, true, false, not, ◌||◌, if◌then◌else◌}
use xb.Common.Result.{Result, ok, err, undefined, ◌>>=◌, ◌>>◌}
use xb.Rng.Pattern.{
  CombineMethod, none, choice, Pattern, Child, null, node, Defines, no_define, define, Includes,
  size, element_pattern, attribute_pattern, group_pattern, interleave_pattern, choice_pattern,
  one_or_more_pattern, zero_or_more_pattern, optional_pattern, mixed_pattern, ref_pattern,
  empty_pattern, text_pattern, not_allowed_pattern, data_pattern, list_pattern,
  external_ref_pattern, grammar_pattern,
}
use xb.Rng.Names.{Names, contains, insert}

unfoldable pub is_not_allowed : Child → Bool
is_not_allowed (node not_allowed_pattern) = true
is_not_allowed _ = false

-- `cm`: the method of the new definition, else that of the first, else a choice
unfoldable pub combine_method : CombineMethod → CombineMethod → CombineMethod
combine_method none none = choice
combine_method existing none = existing
combine_method existing new = new

unfoldable pub combine_bodies : CombineMethod → Child → Child → Child
combine_bodies choice existing new = node (choice_pattern existing new)
combine_bodies _ existing new = node (interleave_pattern existing new)

-- One round of `merge_combines`. `first_index` finds the entry of a name in `merged`, where a name
-- stands once: it is the first one here.
unfoldable pub merge_define : String → CombineMethod → Child → Defines → Defines
merge_define name combine body no_define = define name combine body no_define
merge_define name combine body (define n c b rest) =
    let later = merge_define name combine body rest in
    let cm = combine_method c combine in
    if same_name n name then define n cm (combine_bodies cm b body) rest else define n c b later

unfoldable pub merge_from : Defines → Defines → Defines
merge_from merged no_define = merged
merge_from merged (define n c b rest) = merge_from (merge_define n c b merged) rest

unfoldable pub merge_combines : Defines → Defines
merge_combines defines = merge_from no_define defines

-- The names are added to the set `refs`.
unfoldable mutual
  pub collect_refs : Pattern → Names → Names
  collect_refs (ref_pattern name) refs = insert name refs
  collect_refs (element_pattern name content) refs = collect_child content refs
  collect_refs (attribute_pattern name content) refs = collect_child content refs
  collect_refs (group_pattern left right) refs = collect_child right (collect_child left refs)
  collect_refs (interleave_pattern left right) refs = collect_child right (collect_child left refs)
  collect_refs (choice_pattern left right) refs = collect_child right (collect_child left refs)
  collect_refs (one_or_more_pattern content) refs = collect_child content refs
  collect_refs (list_pattern content) refs = collect_child content refs
  collect_refs (data_pattern library type_name params except) refs = collect_child except refs
  collect_refs (grammar_pattern start defines includes) refs =
      collect_defines defines (collect_child start refs)
  collect_refs _ refs = refs

  pub collect_child : Child → Names → Names
  collect_child null refs = refs
  collect_child (node p) refs = collect_refs p refs

  pub collect_defines : Defines → Names → Names
  collect_defines no_define refs = refs
  collect_defines (define name combine body rest) refs =
      collect_defines rest (collect_child body refs)

-- `reachable` and `changed`
pub record Marking : Type 0 where
  pub reachable : Names
  pub changed : Bool

-- `for (const auto& r : new_refs) if (reachable.insert(r).second) changed = true;`
unfoldable pub mark_all : Names → Marking → Marking
mark_all [] m = m
mark_all (r ∷ refs) m = mark_all refs (record {
  reachable = insert r m.reachable;
  changed = not (contains r m.reachable) || m.changed;
})

-- The loop over the definitions. A null body adds no name.
unfoldable pub mark_defines : Defines → Marking → Marking
mark_defines no_define m = m
mark_defines (define name combine body rest) m =
    mark_defines rest (if contains name m.reachable then mark_all (collect_child body []) m else m)

-- `while (changed)`. Each round that goes on has a new name; fuel above the number of the names in the
-- bodies is enough.
unfoldable pub mark_reachable : ℕ → Defines → Names → Names
mark_reachable zero defines reachable = reachable
mark_reachable (suc f) defines reachable =
    let m = mark_defines defines (record { reachable = reachable; changed = false }) in
    let more = mark_reachable f defines m.reachable in if m.changed then more else m.reachable

unfoldable pub body_names : Defines → Names
body_names defines = collect_defines defines []

-- The set `reachable` when the loop is done.
unfoldable pub reachable_names : Child → Defines → Names
reachable_names start defines =
    mark_reachable (suc (length (body_names defines))) defines (collect_child start [])

-- `erase(remove_if(…))`
unfoldable pub keep_names : Names → Defines → Defines
keep_names reachable no_define = no_define
keep_names reachable (define name combine body rest) =
    let later = keep_names reachable rest in
    if contains name reachable then define name combine body later else later

unfoldable pub remove_unreachable : Child → Defines → Defines
remove_unreachable start defines = keep_names (reachable_names start defines) defines

-- What 4.20 makes of the nodes with simplified children.
unfoldable pub single_node : Pattern → Child → Child
single_node p content = if is_not_allowed content then node not_allowed_pattern else node p

unfoldable pub pair_node : Pattern → Child → Child → Child
pair_node p left right =
    if is_not_allowed left || is_not_allowed right then node not_allowed_pattern else node p

unfoldable pub choice_node : Child → Child → Child
choice_node left right =
    if is_not_allowed left
    then right
    else if is_not_allowed right
    then left
    else node (choice_pattern left right)

unfoldable pub grammar_node : Child → Defines → Includes → Child
grammar_node start defines includes =
    node (grammar_pattern start (remove_unreachable start defines) includes)

-- An empty resolver, or a function that reads a file and may throw.
abbrev pub RngFileResolver : Type 0
RngFileResolver = Option (String → Result String)

-- `if (resolver) auto content = resolver(href);`: the text is not used.
unfoldable pub call_resolver : RngFileResolver → String → Result (Unit {0})
call_resolver absent href = ok tt
call_resolver (some resolver) href = do content ← resolver href; ok tt

-- `simplify_child`, over `simplify_impl`
unfoldable pub simplify_child : (Pattern → Result Child) → Child → Result Child
simplify_child simplify null = ok null
simplify_child simplify (node p) = simplify p

-- `for (auto& d : node.defines)`
unfoldable pub simplify_bodies : (Pattern → Result Child) → Defines → Result Defines
simplify_bodies simplify no_define = ok no_define
simplify_bodies simplify (define name combine body rest) = do
  simple ← simplify_child simplify body
  later ← simplify_bodies simplify rest
  ok (define name combine simple later)

-- A grammar's bodies are simplified when they have been merged, so the recursion is on fuel: the size of the
-- pattern is enough.
unfoldable pub simplify_impl : RngFileResolver → ℕ → Pattern → Result Child
simplify_impl resolver zero p = err undefined
simplify_impl resolver (suc f) (mixed_pattern content) = do
  simple ← simplify_child (simplify_impl resolver f) content
  ok (node (interleave_pattern simple (node text_pattern)))
simplify_impl resolver (suc f) (optional_pattern content) = do
  simple ← simplify_child (simplify_impl resolver f) content
  ok (node (choice_pattern simple (node empty_pattern)))
simplify_impl resolver (suc f) (zero_or_more_pattern content) = do
  simple ← simplify_child (simplify_impl resolver f) content
  ok (node (choice_pattern (node (one_or_more_pattern simple)) (node empty_pattern)))
simplify_impl resolver (suc f) (element_pattern name content) = do
  simple ← simplify_child (simplify_impl resolver f) content
  ok (node (element_pattern name simple))
simplify_impl resolver (suc f) (attribute_pattern name content) = do
  simple ← simplify_child (simplify_impl resolver f) content
  ok (single_node (attribute_pattern name simple) simple)
simplify_impl resolver (suc f) (group_pattern left right) = do
  l ← simplify_child (simplify_impl resolver f) left
  r ← simplify_child (simplify_impl resolver f) right
  ok (pair_node (group_pattern l r) l r)
simplify_impl resolver (suc f) (interleave_pattern left right) = do
  l ← simplify_child (simplify_impl resolver f) left
  r ← simplify_child (simplify_impl resolver f) right
  ok (pair_node (interleave_pattern l r) l r)
simplify_impl resolver (suc f) (choice_pattern left right) = do
  l ← simplify_child (simplify_impl resolver f) left
  r ← simplify_child (simplify_impl resolver f) right
  ok (choice_node l r)
simplify_impl resolver (suc f) (one_or_more_pattern content) = do
  simple ← simplify_child (simplify_impl resolver f) content
  ok (single_node (one_or_more_pattern simple) simple)
simplify_impl resolver (suc f) (list_pattern content) = do
  simple ← simplify_child (simplify_impl resolver f) content
  ok (single_node (list_pattern simple) simple)
simplify_impl resolver (suc f) (data_pattern library type_name params except) = do
  simple ← simplify_child (simplify_impl resolver f) except
  ok (node (data_pattern library type_name params simple))
simplify_impl resolver (suc f) (external_ref_pattern href ns) = do
  call_resolver resolver href
  ok (node (external_ref_pattern href ns))
simplify_impl resolver (suc f) (grammar_pattern start defines includes) = do
  simple ← simplify_child (simplify_impl resolver f) start
  bodies ← simplify_bodies (simplify_impl resolver f) (merge_combines defines)
  ok (grammar_node simple bodies includes)
simplify_impl resolver (suc f) p = ok (node p)

-- `*result`, where a null pointer has no meaning
unfoldable pub dereference : Child → Result Pattern
dereference null = err undefined
dereference (node p) = ok p

unfoldable pub rng_simplify : RngFileResolver → Pattern → Result Pattern
rng_simplify resolver p = do result ← simplify_impl resolver (size p) p; dereference result
