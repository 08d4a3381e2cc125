-- ===== src/Rng/Chains.antt =====
-- `remove_unreachable`, beside a description of references that does not use the code's sets.
use Prim.Native.String.{String}
use xb.Common.{[], Bool, true, false, ◌||◌, ◌≡◌, ◌↔◌, ◌⊎◌, inl, inr, refl, arith}
use text.Mathlib.TextEquality.{eq_iff}
use xb.Rng.Pattern.{
  Pattern, Child, null, node, Defines, no_define, define, element_pattern, attribute_pattern,
  group_pattern, interleave_pattern, choice_pattern, one_or_more_pattern, zero_or_more_pattern,
  optional_pattern, mixed_pattern, ref_pattern, parent_ref_pattern, empty_pattern, text_pattern,
  not_allowed_pattern, data_pattern, value_pattern, list_pattern, external_ref_pattern,
  grammar_pattern,
}
use xb.Rng.Names.{contains, insert}
use xb.Rng.Bools.{and_left, and_right}
use xb.Rng.Simplify.{collect_refs, collect_child, collect_defines, remove_unreachable}
use xb.Rng.RefLaws.{pair_refs, defines_split}
use xb.Rng.MergeLaws.{entries}
use xb.Rng.Simple.{is_simple, is_simple_child, is_simple_defines}
use xb.Rng.Sound.{Body, Leads, start_leads, body_leads, entries-Leads}

-- A reference to the name stands in the pattern: in any node, and in the grammars inside it. References to an
-- outer grammar and what an include holds are not looked at.
mutual
  pub Mentions : String → Pattern → Type 0
  Mentions k (ref_pattern name) = name ≡ k
  Mentions k (element_pattern name content) = MentionsChild k content
  Mentions k (attribute_pattern name content) = MentionsChild k content
  Mentions k (group_pattern left right) = MentionsChild k left ⊎ MentionsChild k right
  Mentions k (interleave_pattern left right) = MentionsChild k left ⊎ MentionsChild k right
  Mentions k (choice_pattern left right) = MentionsChild k left ⊎ MentionsChild k right
  Mentions k (one_or_more_pattern content) = MentionsChild k content
  Mentions k (zero_or_more_pattern content) = MentionsChild k content
  Mentions k (optional_pattern content) = MentionsChild k content
  Mentions k (mixed_pattern content) = MentionsChild k content
  Mentions k (list_pattern content) = MentionsChild k content
  Mentions k (data_pattern library type_name params except) = MentionsChild k except
  Mentions k (grammar_pattern start defines includes) =
      MentionsChild k start ⊎ MentionsDefines k defines
  Mentions k (parent_ref_pattern name) = ⊥
  Mentions k empty_pattern = ⊥
  Mentions k text_pattern = ⊥
  Mentions k not_allowed_pattern = ⊥
  Mentions k (value_pattern library type_name value ns) = ⊥
  Mentions k (external_ref_pattern href ns) = ⊥

  pub MentionsChild : String → Child → Type 0
  MentionsChild k null = ⊥
  MentionsChild k (node p) = Mentions k p

  pub MentionsDefines : String → Defines → Type 0
  MentionsDefines k no_define = ⊥
  MentionsDefines k (define name combine body rest) = MentionsChild k body ⊎ MentionsDefines k rest

-- A chain of references from the start to a name.
pub data Reaches (start : Child) (defines : Defines) : String → Type 0 where
  from_start : {k : String} → MentionsChild k start → Reaches start defines k
  through :
      {j k : String} (b : Child)
      → Reaches start defines j
      → Body defines j b
      → MentionsChild k b
      → Reaches start defines k

or_iff :
    (P : Type 0) (Q : Type 0) (a b : Bool)
    → (a ≡ true) ↔ P
    → (b ≡ true) ↔ Q
    → ((b || a) ≡ true) ↔ (P ⊎ Q)
or_iff P Q true b p q = (λ e. inl (p.0 refl), λ m. ground (arith))
or_iff P Q false true p q = (λ e. inr (q.0 refl), λ m. refl)
or_iff P Q false false p q = (λ e. cc, λ m. elim m [ inl x ↦ p.1 x | inr y ↦ q.1 y ])

never : {P : Type 0} → (P → ⊥) → (false ≡ true) ↔ P
never none_there = (λ e. cc, λ m. absurd (none_there m))

-- The names of two children
pair-Mentions :
    (k : String) (left right : Child) (P : Type 0) (Q : Type 0)
    → (contains k (collect_child left []) ≡ true) ↔ P
    → (contains k (collect_child right []) ≡ true) ↔ Q
    → (contains k (collect_child right (collect_child left [])) ≡ true) ↔ (P ⊎ Q)
pair-Mentions k left right P Q l r = rw (pair_refs k left right) (or_iff P Q _ _ l r)

mutual
  unfolding collect_refs contains insert is_simple Mentions

  -- In a simple pattern `collect_refs` finds the names that are mentioned.
  pattern-Mentions :
      (k : String) (p : Pattern)
      → is_simple p ≡ true
      → (contains k (collect_refs p []) ≡ true) ↔ Mentions k p
  pattern-Mentions k (ref_pattern name) h =
      (λ e. (eq_iff name k).0 (ground (arith, e)), λ e. ground (arith, (eq_iff name k).1 e))
  pattern-Mentions k (element_pattern name content) h = child-Mentions k content h
  pattern-Mentions k (attribute_pattern name content) h = child-Mentions k content h
  pattern-Mentions k (one_or_more_pattern content) h = child-Mentions k content h
  pattern-Mentions k (list_pattern content) h = child-Mentions k content h
  pattern-Mentions k (data_pattern library type_name params except) h = child-Mentions k except h
  pattern-Mentions k (group_pattern left right) h =
      pair-Mentions k left right _ _ (child-Mentions k left (and_left _ _ h))
        (child-Mentions k right (and_right (is_simple_child left) _ h))
  pattern-Mentions k (interleave_pattern left right) h =
      pair-Mentions k left right _ _ (child-Mentions k left (and_left _ _ h))
        (child-Mentions k right (and_right (is_simple_child left) _ h))
  pattern-Mentions k (choice_pattern left right) h =
      pair-Mentions k left right _ _ (child-Mentions k left (and_left _ _ h))
        (child-Mentions k right (and_right (is_simple_child left) _ h))
  pattern-Mentions k (grammar_pattern start defines includes) h =
      rw (defines_split k defines (collect_child start [])) (
        or_iff _ _ _ _ (child-Mentions k start (and_left _ _ h))
          (defines-Mentions k defines (and_right (is_simple_child start) _ h)))
  pattern-Mentions k (zero_or_more_pattern content) h = cc
  pattern-Mentions k (optional_pattern content) h = cc
  pattern-Mentions k (mixed_pattern content) h = cc
  pattern-Mentions k (parent_ref_pattern name) h = never (λ m. m)
  pattern-Mentions k empty_pattern h = never (λ m. m)
  pattern-Mentions k text_pattern h = never (λ m. m)
  pattern-Mentions k not_allowed_pattern h = never (λ m. m)
  pattern-Mentions k (value_pattern library type_name value ns) h = never (λ m. m)
  pattern-Mentions k (external_ref_pattern href ns) h = never (λ m. m)

  child-Mentions :
      (k : String) (c : Child)
      → is_simple_child c ≡ true
      → (contains k (collect_child c []) ≡ true) ↔ MentionsChild k c
  child-Mentions k null h = never (λ m. m)
  child-Mentions k (node p) h = pattern-Mentions k p h

  defines-Mentions :
      (k : String) (defines : Defines)
      → is_simple_defines defines ≡ true
      → (contains k (collect_defines defines []) ≡ true) ↔ MentionsDefines k defines
  defines-Mentions k no_define h = never (λ m. m)
  defines-Mentions k (define name combine body rest) h =
      rw (defines_split k rest (collect_child body [])) (
        or_iff _ _ _ _ (child-Mentions k body (and_left _ _ h))
          (defines-Mentions k rest (and_right (is_simple_child body) _ h)))

is_simple-Body :
    (defines : Defines) (j : String) (b : Child)
    → is_simple_defines defines ≡ true
    → Body defines j b
    → is_simple_child b ≡ true
unfolding is_simple
is_simple-Body no_define j b h m = absurd m
is_simple-Body (define name combine body rest) j b h (inl (same_j, same_b)) =
    rw same_b at (and_left (is_simple_child body) _ h)
is_simple-Body (define name combine body rest) j b h (inr m) =
    is_simple-Body rest j b (and_right (is_simple_child body) _ h) m

module _ (start : Child) (defines : Defines) (simple_start : is_simple_child start ≡ true)
    (simple_defines : is_simple_defines defines ≡ true) where
  leads : {k : String} → Reaches start defines k → Leads start defines k
  leads (from_start {k} m) = start_leads ((child-Mentions k start simple_start).1 m)
  leads (through {j} {k} b r d m) =
      body_leads b (leads r) d
        ((child-Mentions k b (is_simple-Body defines j b simple_defines d)).1 m)

  reaches : {k : String} → Leads start defines k → Reaches start defines k
  reaches (start_leads {k} m) = from_start ((child-Mentions k start simple_start).0 m)
  reaches (body_leads {j} {k} b r d m) =
      through b (reaches r) d
        ((child-Mentions k b (is_simple-Body defines j b simple_defines d)).0 m)

-- In a grammar whose start and bodies have no `mixed`, `optional` or `zeroOrMore` node, which is
-- the form that they have when `remove_unreachable` is called, it leaves a name all its
-- definitions in their order if a chain of references leads to it from the start, and none if no
-- chain does. A reference is a `ref` node anywhere in a start or a body, in the grammars inside it
-- too; a `parentRef` is not followed, and neither is what an include holds.
pub entries-remove_unreachable :
    (start : Child) (defines : Defines) (k : String)
    → is_simple_child start ≡ true
    → is_simple_defines defines ≡ true
    → (Reaches start defines k → entries k (remove_unreachable start defines) ≡ entries k defines)
      × (¬ Reaches start defines k → entries k (remove_unreachable start defines) ≡ [])
entries-remove_unreachable start defines k hs hd =
    let (stays, goes) = entries-Leads start defines k in
    (λ r. stays (leads start defines hs hd r), λ no. goes (λ l. no (reaches start defines hs hd l)))
