-- ===== src/Rng/Reach.antt =====
-- The loop of `remove_unreachable`: it ends, and what it marks is closed under references.
use Prim.Native.String.{String}
use xb.Common.{
  ℕ, zero, suc, ◌<◌, [], length, Bool, true, false, ◌||◌, if◌then◌else◌, ◌≡◌, ◌⊎◌, inl, inr, ◌∙◌,
  refl, sym, ap, arith, Bool-cases,
}
use xb.Rng.Pattern.{CombineMethod, Child, Defines, no_define, define}
use xb.Rng.Names.{Names, contains, Subset}
use xb.Rng.Simplify.{
  Marking, collect_refs, collect_child, mark_all, mark_defines, mark_reachable, body_names,
  reachable_names,
}
use xb.Rng.RefLaws.{defines_split}
use xb.Rng.Marking.{
  missing, missing_less, missing-le-length, contains-mark_all, changed-mark_all, steady-mark_all,
}

-- The bodies of marked names mention marked names only.
abbrev pub Closed : Defines → Names → Type 0
Closed no_define R = Unit
Closed (define name combine body rest) R =
    (contains name R ≡ true → Subset (collect_child body []) R) × Closed rest R

pub visit-marked :
    (name : String) (c : CombineMethod) (body : Child) (rest : Defines) (m : Marking)
    → contains name m.reachable ≡ true
    → mark_defines (define name c body rest) m
      ≡ mark_defines rest (mark_all (collect_child body []) m)
unfolding mark_defines
visit-marked name c body rest m h =
    ap (λ t. mark_defines rest (if t then mark_all (collect_child body []) m else m)) h

pub visit-unmarked :
    (name : String) (c : CombineMethod) (body : Child) (rest : Defines) (m : Marking)
    → contains name m.reachable ≡ false
    → mark_defines (define name c body rest) m ≡ mark_defines rest m
unfolding mark_defines
visit-unmarked name c body rest m h =
    ap (λ t. mark_defines rest (if t then mark_all (collect_child body []) m else m)) h

pub visit-none : (m : Marking) → mark_defines no_define m ≡ m
unfolding mark_defines
visit-none m = refl

body_names-define :
    (k name : String) (c : CombineMethod) (body : Child) (rest : Defines)
    → contains k (body_names (define name c body rest))
      ≡ (contains k (body_names rest) || contains k (collect_child body []))
unfolding body_names collect_refs
body_names-define k name c body rest = defines_split k rest (collect_child body [])

between_wider :
    (m b next r out : Bool)
    → next ≡ (b || m)
    → (next ≡ true → out ≡ true) × (out ≡ true → (r || next) ≡ true)
    → (m ≡ true → out ≡ true) × (out ≡ true → ((r || b) || m) ≡ true)
between_wider m b next r out e h = ground (arith, e, h)

between_more :
    (m b r out : Bool)
    → (m ≡ true → out ≡ true) × (out ≡ true → (r || m) ≡ true)
    → (m ≡ true → out ≡ true) × (out ≡ true → ((r || b) || m) ≡ true)
between_more m b r out h = ground (arith, h)

-- A round keeps what is marked, and marks only names of bodies.
mark_defines-bounds :
    (k : String) (defines : Defines) (m : Marking)
    → (contains k m.reachable ≡ true → contains k (mark_defines defines m).reachable ≡ true)
      × (contains k (mark_defines defines m).reachable ≡ true
          → (contains k (body_names defines) || contains k m.reachable) ≡ true)
mark_defines-bounds k no_define m = rw (visit-none m) (λ h. h, λ h. ground arith)
mark_defines-bounds k (define name combine body rest) m =
    elim (Bool-cases (contains name m.reachable)) [
      | inl marked ↦
          rw
            (
              visit-marked name combine body rest m marked,
              body_names-define k name combine body rest,
            )
            (between_wider _ _ _ _ _ (contains-mark_all k (collect_child body []) m)
              (mark_defines-bounds k rest (mark_all (collect_child body []) m)))
      | inr not_marked ↦
          rw
            (
              visit-unmarked name combine body rest m not_marked,
              body_names-define k name combine body rest,
            )
            (between_more _ _ _ _ (mark_defines-bounds k rest m))
    ]

-- A round that changed the set marked a new name of a body.
mark_defines-changed :
    (defines : Defines) (m : Marking)
    → (mark_defines defines m).changed ≡ true
    → (m.changed ≡ true)
      ⊎ ((k : String) × (contains k m.reachable ≡ false)
          × (contains k (mark_defines defines m).reachable ≡ true)
          × (contains k (body_names defines) ≡ true))
unfolding body_names collect_refs
mark_defines-changed no_define m h = inl (rw (visit-none m) at h)
mark_defines-changed (define name combine body rest) m h =
    elim (Bool-cases (contains name m.reachable)) [
      | inr not_marked ↦
          let step = visit-unmarked name combine body rest m not_marked in
          elim (mark_defines-changed rest m (rw step at h)) [
            | inl before ↦ inl before
            | inr (k, new, marked, named) ↦ inr (
              k,
              new,
              rw step marked,
              ground (arith, named, defines_split k rest (collect_child body [])),
            )
          ]
      | inl marked ↦
          let step = visit-marked name combine body rest m marked in
          let next = mark_all (collect_child body []) m in
          elim (mark_defines-changed rest next (rw step at h)) [
            | inr (k, new, in_rest, named) ↦ inr (
              k,
              ground (arith, new, contains-mark_all k (collect_child body []) m),
              rw step in_rest,
              ground (arith, named, defines_split k rest (collect_child body [])),
            )
            | inl by_body ↦ elim (changed-mark_all (collect_child body []) m by_body) [
              | inl before ↦ inl before
              | inr (k, named, new) ↦ inr (
                k,
                new,
                rw step (
                    (mark_defines-bounds k rest next).0
                      (ground (arith, named, contains-mark_all k (collect_child body []) m))),
                ground (arith, named, defines_split k rest (collect_child body [])),
              )
            ]
          ]
    ]

abbrev SameNames : Names → Names → Type 0
SameNames a b = (k : String) → contains k a ≡ contains k b

Closed-same :
    (defines : Defines) (a b : Names) → SameNames a b → Closed defines a → Closed defines b
Closed-same no_define a b h c = tt
Closed-same (define name combine body rest) a b h c = (
  λ e k in_body. ground (arith, c.0 (ground (arith, h name)) k in_body, h k),
  Closed-same rest a b h c.1,
)

-- A round that changed nothing found the set closed.
mark_defines-steady :
    (defines : Defines) (m : Marking)
    → (mark_defines defines m).changed ≡ false
    → (m.changed ≡ false)
      × SameNames (mark_defines defines m).reachable m.reachable
      × Closed defines m.reachable
mark_defines-steady no_define m h = let none = visit-none m in (rw none at h, λ k. rw none, tt)
mark_defines-steady (define name combine body rest) m h =
    elim (Bool-cases (contains name m.reachable)) [
      | inr not_marked ↦
          let step = visit-unmarked name combine body rest m not_marked in
          let (calm, same, closed) = mark_defines-steady rest m (rw step at h) in
          (calm, λ k. rw step (same k), (λ e. cc, closed))
      | inl marked ↦
          let step = visit-marked name combine body rest m marked in
          let next = mark_all (collect_child body []) m in
          let (calm, same, closed) = mark_defines-steady rest next (rw step at h) in
          let (before, inside) = steady-mark_all (collect_child body []) m calm in
          let equal : SameNames next.reachable m.reachable =
            λ k. ground (arith, inside k, contains-mark_all k (collect_child body []) m) in
          (
            before,
            λ k. rw step (same k ∙ equal k),
            (λ e. inside, Closed-same rest next.reachable m.reachable equal closed),
          )
    ]

-- With fuel above the number of names that can still be marked, the loop ends with a closed set, which
-- has all that was marked before.
mark_reachable-Closed :
    (f : ℕ) (defines : Defines) (reachable : Names)
    → missing (body_names defines) reachable < f
    → Closed defines (mark_reachable f defines reachable)
      × Subset reachable (mark_reachable f defines reachable)
unfolding mark_reachable
mark_reachable-Closed zero defines reachable h = absurd (omega arith)
mark_reachable-Closed (suc f) defines reachable h =
    let m : Marking = record { reachable = reachable; changed = false } in
    let next = mark_defines defines m in
    let grows : Subset reachable next.reachable = λ k. (mark_defines-bounds k defines m).0 in
    elim (Bool-cases next.changed) [
      | inr calm ↦
          let (before, same, closed) = mark_defines-steady defines m calm in
          rw calm (Closed-same defines reachable next.reachable (λ k. sym (same k)) closed, grows)
      | inl changed ↦ elim (mark_defines-changed defines m changed) [
        | inl impossible ↦ cc
        | inr (k, new, marked, named) ↦
            let less =
              missing_less (body_names defines) reachable next.reachable k grows named new marked in
            let (closed, more) =
              mark_reachable-Closed f defines next.reachable (omega (arith, less)) in
            rw changed (closed, λ j e. more j (grows j e))
      ]
    ]

pub reachable_names-Closed :
    (start : Child) (defines : Defines)
    → Closed defines (reachable_names start defines)
      × Subset (collect_child start []) (reachable_names start defines)
unfolding reachable_names
reachable_names-Closed start defines =
    mark_reachable-Closed (suc (length (body_names defines))) defines (collect_child start [])
      (omega (arith, missing-le-length (body_names defines) (collect_child start [])))
