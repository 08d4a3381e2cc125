-- ===== src/Rng/Sound.antt =====
-- The set of `remove_unreachable` is the set of names that references lead to.
use Prim.Native.String.{String}
use xb.Common.{ℕ, zero, suc, [], true, false, ◌≡◌, ◌⊎◌, inl, inr, refl, arith, length, Bool-cases}
use xb.Rng.Pattern.{Child, Defines, no_define, define}
use xb.Rng.Names.{Names, contains, Subset}
use xb.Rng.Simplify.{
  Marking, collect_child, mark_all, mark_defines, mark_reachable, body_names, reachable_names,
  keep_names, remove_unreachable,
}
use xb.Rng.Marking.{contains-mark_all}
use xb.Rng.MergeLaws.{entries, entries-keep_names}
use xb.Rng.Reach.{Closed, visit-none, visit-marked, visit-unmarked, reachable_names-Closed}

-- The grammar has a definition of the name with the body.
abbrev pub Body : Defines → String → Child → Type 0
Body no_define j b = ⊥
Body (define name combine body rest) j b = ((name ≡ j) × (body ≡ b)) ⊎ Body rest j b

-- A chain of names from the start, in the code's own sets of references.
pub data Leads (start : Child) (defines : Defines) : String → Type 0 where
  start_leads : {k : String} → contains k (collect_child start []) ≡ true → Leads start defines k
  body_leads :
      {j k : String} (b : Child)
      → Leads start defines j
      → Body defines j b
      → contains k (collect_child b []) ≡ true
      → Leads start defines k

module _ (start : Child) (all : Defines) where
  abbrev AllReach : Names → Type 0
  AllReach R = (k : String) → contains k R ≡ true → Leads start all k

  mark_defines-AllReach :
      (defines : Defines) (m : Marking)
      → ((j : String) (b : Child) → Body defines j b → Body all j b)
      → AllReach m.reachable
      → AllReach (mark_defines defines m).reachable
  mark_defines-AllReach no_define m within h = rw (visit-none m) h
  mark_defines-AllReach (define name combine body rest) m within h =
      elim (Bool-cases (contains name m.reachable)) [
        | inr not_marked ↦
            rw (visit-unmarked name combine body rest m not_marked)
              (mark_defines-AllReach rest m (λ j b d. within j b (inr d)) h)
        | inl marked ↦
            let reached = h name marked in
            let next = mark_all (collect_child body []) m in
            let from_next : AllReach next.reachable = λ k e.
              elim (Bool-cases (contains k (collect_child body []))) [
                | inl named ↦ body_leads body reached (within name body (inl (refl, refl))) named
                | inr other ↦
                    h k (ground (arith, e, other, contains-mark_all k (collect_child body []) m))
              ] in
            rw (visit-marked name combine body rest m marked)
              (mark_defines-AllReach rest next (λ j b d. within j b (inr d)) from_next)
      ]

  mark_reachable-AllReach :
      (f : ℕ) (reachable : Names) → AllReach reachable → AllReach (mark_reachable f all reachable)
  unfolding mark_reachable
  mark_reachable-AllReach zero reachable h = h
  mark_reachable-AllReach (suc f) reachable h =
      let m : Marking = record { reachable = reachable; changed = false } in
      let after = mark_defines-AllReach all m (λ j b d. d) h in
      elim (Bool-cases (mark_defines all m).changed) [
        | inl changed ↦ rw changed (mark_reachable-AllReach f (mark_defines all m).reachable after)
        | inr calm ↦ rw calm after
      ]

pub Closed-Body :
    (defines : Defines) (R : Names) (j : String) (b : Child)
    → Closed defines R
    → Body defines j b
    → contains j R ≡ true
    → Subset (collect_child b []) R
Closed-Body no_define R j b c d h = absurd d
Closed-Body (define name combine body rest) R j b c (inl (same_j, same_b)) h =
    rw same_b at (c.0 (rw same_j h))
Closed-Body (define name combine body rest) R j b c (inr d) h = Closed-Body rest R j b c.1 d h

marked_if_reached :
    (start : Child) (defines : Defines) {k : String}
    → Leads start defines k
    → contains k (reachable_names start defines) ≡ true
marked_if_reached start defines (start_leads {k} h) = (reachable_names-Closed start defines).1 k h
marked_if_reached start defines (body_leads {j} {k} b r d h) =
    Closed-Body defines (reachable_names start defines) j b (reachable_names-Closed start defines).0
      d (marked_if_reached start defines r) k h

-- The names that are marked in the end are those that a chain of references leads to.
pub reachable_names-Leads :
    (start : Child) (defines : Defines) (k : String)
    → (contains k (reachable_names start defines) ≡ true → Leads start defines k)
      × (Leads start defines k → contains k (reachable_names start defines) ≡ true)
unfolding reachable_names
reachable_names-Leads start defines k = (
  mark_reachable-AllReach start defines (suc (length (body_names defines))) (collect_child start [])
      (λ k h. start_leads h) k,
  marked_if_reached start defines,
)

-- The definitions of the names that are led to stay, and no others.
pub entries-Leads :
    (start : Child) (defines : Defines) (k : String)
    → (Leads start defines k → entries k (remove_unreachable start defines) ≡ entries k defines)
      × (¬ Leads start defines k → entries k (remove_unreachable start defines) ≡ [])
unfolding remove_unreachable
entries-Leads start defines k =
    let kept = entries-keep_names (reachable_names start defines) k defines in
    let marks = reachable_names-Leads start defines k in
    elim (Bool-cases (contains k (reachable_names start defines))) [
      | inl marked ↦
          let stays : entries k (keep_names (reachable_names start defines) defines)
              ≡ entries k defines =
            rw marked at kept in
          (λ r. stays, λ unreached. absurd (unreached (marks.0 marked)))
      | inr unmarked ↦
          let goes : entries k (keep_names (reachable_names start defines) defines) ≡ [] =
            rw unmarked at kept in
          (λ r. cc (marks.1 r), λ unreached. goes)
    ]
