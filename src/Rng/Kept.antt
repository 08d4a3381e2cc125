-- ===== src/Rng/Kept.antt =====
-- The sections 4.13 to 4.20 that the cases of `simplify_impl` implement, node by node: what a node
-- becomes matches what the node matched, when the same holds of its children.
use Prim.Native.String.{String}
use xb.Common.{[], true, ◌||◌, ◌≡◌, ◌⊎◌, inl, inr, refl, Bool-cases}
use xb.Rng.Pattern.{
  Pattern, Child, node, Defines, interleave_pattern, choice_pattern, one_or_more_pattern,
  empty_pattern, text_pattern, not_allowed_pattern,
}
use xb.Rng.Names.{Names, contains, Subset}
use xb.Rng.Bools.{or_first, or_second}
use xb.Rng.Simplify.{
  is_not_allowed, collect_refs, collect_child, single_node, pair_node, choice_node,
}
use xb.Rng.RefLaws.{pair_refs}
use xb.Rng.Language.{Documents, Both, Inside, Repeats, once, again, Naming, Matches, MatchesChild}

abbrev pub Same : {X : Type 0} → (X → Type 0) → (X → Type 0) → Type 0
Same {X} P Q = (x : X) → (P x → Q x) × (Q x → P x)

pub Both-Same :
    {X : Type 0} (join : X → X → X → Type 0) (P P' Q Q' : X → Type 0)
    → Same P P'
    → Same Q Q'
    → Same (Both join P Q) (Both join P' Q')
Both-Same join P P' Q Q' p q x = (
  λ m. (m.0, m.1, m.2, (p m.0).0 m.3, (q m.1).0 m.4),
  λ m. (m.0, m.1, m.2, (p m.0).1 m.3, (q m.1).1 m.4),
)

pub Inside-Same :
    {X : Type 0} (around : X → X → Type 0) (P Q : X → Type 0)
    → Same P Q
    → Same (Inside around P) (Inside around Q)
Inside-Same around P Q h x = (λ m. (m.0, m.1, (h m.0).0 m.2), λ m. (m.0, m.1, (h m.0).1 m.2))

Repeats-map :
    {X : Type 0} (join : X → X → X → Type 0) (P Q : X → Type 0)
    → ((x : X) → P x → Q x)
    → {x : X} → Repeats join P x
    → Repeats join Q x
Repeats-map join P Q h (once {x} m) = once (h x m)
Repeats-map join P Q h (again a b j m more) = again a b j (h a m) (Repeats-map join P Q h more)

pub Repeats-Same :
    {X : Type 0} (join : X → X → X → Type 0) (P Q : X → Type 0)
    → Same P Q
    → Same (Repeats join P) (Repeats join Q)
Repeats-Same join P Q h x =
    (Repeats-map join P Q (λ y. (h y).0), Repeats-map join Q P (λ y. (h y).1))

pub Repeats-none : {X : Type 0} (join : X → X → X → Type 0) {x : X} → Repeats join (λ y. ⊥) x → ⊥
Repeats-none join (once m) = m
Repeats-none join (again a b j m more) = m

is_not_allowed-eq : (c : Child) → is_not_allowed c ≡ true → c ≡ node not_allowed_pattern
unfolding is_not_allowed
is_not_allowed-eq (node not_allowed_pattern) h = refl
is_not_allowed-eq c h = cc

module _ (d : Documents) (names : Naming d) (ds : Defines) (R : Names) where
  abbrev Means : Child → d.Content → Type 0
  Means c = MatchesChild d names ds c

  -- Where the names that `c` mentions are in the set, `c` matches the contents that `P` says.
  abbrev pub Kept : (d.Content → Type 0) → Child → Type 0
  Kept P c = Subset (collect_child c []) R → Same P (Means c)

  Kept-not_allowed :
      (P : d.Content → Type 0) (c : Child)
      → Kept P c
      → is_not_allowed c ≡ true
      → (x : d.Content) → P x
      → ⊥
  unfolding Matches collect_refs contains
  Kept-not_allowed P c k h x m =
      let gone = is_not_allowed-eq c h in
      let here : Kept P (node not_allowed_pattern) = rw gone at k in (here (λ j e. cc) x).0 m

  pub Kept-pair :
      (p : Pattern) (join : d.Content → d.Content → d.Content → Type 0) (P Q : d.Content → Type 0)
      (l r : Child)
      → Same (Both join (Means l) (Means r)) (Means (node p))
      → ((k : String)
          → contains k (collect_refs p [])
            ≡ (contains k (collect_child r []) || contains k (collect_child l [])))
      → Kept P l
      → Kept Q r
      → Kept (Both join P Q) (pair_node p l r)
  unfolding Matches pair_node collect_refs
  Kept-pair p join P Q l r same refs left right s x = elim (Bool-cases (is_not_allowed l)) [
    | inl gone ↦ rw gone (λ m. Kept-not_allowed P l left gone m.0 m.3, λ m. absurd m)
    | inr there ↦ elim (Bool-cases (is_not_allowed r)) [
      | inl gone ↦ rw (there, gone) (λ m. Kept-not_allowed Q r right gone m.1 m.4, λ m. absurd m)
      | inr also ↦
          let s' : (k : String) → contains k (collect_refs p []) ≡ true → contains k R ≡ true =
            rw (there, also) at s in
          let in_l : Subset (collect_child l []) R = λ k e. s' k (or_second _ _ _ (refs k) e) in
          let in_r : Subset (collect_child r []) R = λ k e. s' k (or_first _ _ _ (refs k) e) in
          let inner = Both-Same join P (Means l) Q (Means r) (left in_l) (right in_r) x in
          rw (there, also) (λ m. (same x).0 (inner.0 m), λ m. inner.1 ((same x).1 m))
    ]
  ]

  -- A choice drops an alternative that is not allowed.
  pub Kept-choice :
      (P Q : d.Content → Type 0) (l r : Child)
      → Kept P l
      → Kept Q r
      → Kept (λ x. P x ⊎ Q x) (choice_node l r)
  unfolding Matches choice_node collect_refs
  Kept-choice P Q l r left right s x = elim (Bool-cases (is_not_allowed l)) [
    | inl gone ↦
        let s' : Subset (collect_child r []) R = rw gone at s in
        rw gone (
          λ m. elim m [
            | inl p ↦ absurd (Kept-not_allowed P l left gone x p)
            | inr q ↦ (right s' x).0 q
          ],
          λ m. inr ((right s' x).1 m),
        )
    | inr there ↦ elim (Bool-cases (is_not_allowed r)) [
      | inl gone ↦
          let s' : Subset (collect_child l []) R = rw (there, gone) at s in
          rw (there, gone)
            (
              λ m. elim m [
                | inl p ↦ (left s' x).0 p
                | inr q ↦ absurd (Kept-not_allowed Q r right gone x q)
              ],
              λ m. inl ((left s' x).1 m),
            )
      | inr also ↦
          let s' : Subset (collect_child r (collect_child l [])) R = rw (there, also) at s in
          let in_l : Subset (collect_child l []) R =
            λ k e. s' k (or_second _ _ _ (pair_refs k l r) e) in
          let in_r : Subset (collect_child r []) R =
            λ k e. s' k (or_first _ _ _ (pair_refs k l r) e) in
          rw (there, also)
            (
              λ m. elim m [ inl p ↦ inl ((left in_l x).0 p) | inr q ↦ inr ((right in_r x).0 q) ],
              λ m. elim m [ inl p ↦ inl ((left in_l x).1 p) | inr q ↦ inr ((right in_r x).1 q) ],
            )
    ]
  ]

  -- `F`: what the node means, from what its child means.
  pub Kept-single :
      (p : Pattern) (F : (d.Content → Type 0) → d.Content → Type 0) (P : d.Content → Type 0)
      (c : Child)
      → ((P Q : d.Content → Type 0) → Same P Q → Same (F P) (F Q))
      → ((x : d.Content) → F (λ y. ⊥) x → ⊥)
      → Same (F (Means c)) (Means (node p))
      → Subset (collect_child c []) (collect_refs p [])
      → Kept P c
      → Kept (F P) (single_node p c)
  unfolding Matches single_node collect_refs contains
  Kept-single p F P c mono strict same refs child s x = elim (Bool-cases (is_not_allowed c)) [
    | inl gone ↦
        let none_in : Same P (λ y. ⊥) =
          λ y. (λ m. Kept-not_allowed P c child gone y m, λ m. absurd m) in
        rw gone (λ m. strict x ((mono P (λ y. ⊥) none_in x).0 m), λ m. absurd m)
    | inr there ↦
        let s' : (k : String) → contains k (collect_refs p []) ≡ true → contains k R ≡ true =
          rw there at s in
        let inner = mono P (Means c) (child (λ k e. s' k (refs k e))) x in
        rw there (λ m. (same x).0 (inner.0 m), λ m. inner.1 ((same x).1 m))
  ]

  -- 4.13
  pub Kept-mixed :
      (P : d.Content → Type 0) (c : Child)
      → Kept P c
      → Kept (Both d.Interleaves P d.IsText) (node (interleave_pattern c (node text_pattern)))
  unfolding Matches collect_refs
  Kept-mixed P c child s =
      Both-Same d.Interleaves P (Means c) d.IsText d.IsText (child s) (λ x. (λ m. m, λ m. m))

  -- 4.14
  pub Kept-optional :
      (P : d.Content → Type 0) (c : Child)
      → Kept P c
      → Kept (λ x. P x ⊎ d.IsEmpty x) (node (choice_pattern c (node empty_pattern)))
  unfolding Matches collect_refs
  Kept-optional P c child s x = (
    λ m. elim m [ inl p ↦ inl ((child s x).0 p) | inr e ↦ inr e ],
    λ m. elim m [ inl p ↦ inl ((child s x).1 p) | inr e ↦ inr e ],
  )

  -- 4.15
  pub Kept-zero_or_more :
      (P : d.Content → Type 0) (c : Child)
      → Kept P c
      → Kept
          (λ x. Repeats d.Groups P x ⊎ d.IsEmpty x)
          (node (choice_pattern (node (one_or_more_pattern c)) (node empty_pattern)))
  unfolding Matches collect_refs
  Kept-zero_or_more P c child s x =
      let more = Repeats-Same d.Groups P (Means c) (child s) x in
      (
        λ m. elim m [ inl p ↦ inl (more.0 p) | inr e ↦ inr e ],
        λ m. elim m [ inl p ↦ inl (more.1 p) | inr e ↦ inr e ],
      )
