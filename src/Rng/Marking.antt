-- ===== src/Rng/Marking.antt =====
-- The loop over the definitions in `remove_unreachable`: the marking of a set of names.
use Prim.Native.String.{String}
use text.Mathlib.Text.{◌==◌ as same_name}
use text.Mathlib.TextEquality.{eq_iff}
use xb.Common.{
  ℕ, suc, ◌≤◌, ◌<◌, [], ◌∷◌, length, true, false, not, ◌||◌, if◌then◌else◌, ◌≡◌, ◌⊎◌, inl, inr,
  refl, arith, Bool-cases,
}
use xb.Rng.Names.{Names, contains, insert, contains-insert, Subset}
use xb.Rng.Simplify.{Marking, mark_all}

-- The names of `all` that are not in the set.
pub missing : Names → Names → ℕ
missing [] reachable = 0
missing (k ∷ all) reachable =
    let later = missing all reachable in if contains k reachable then later else suc later

missing_more : (all a b : Names) → Subset a b → missing all b ≤ missing all a
unfolding missing
missing_more [] a b h = omega arith
missing_more (k ∷ all) a b h = ground (arith, h k, missing_more all a b h)

pub missing_less :
    (all a b : Names) (k : String)
    → Subset a b
    → contains k all ≡ true
    → contains k a ≡ false
    → contains k b ≡ true
    → missing all b < missing all a
unfolding missing contains
missing_less [] a b k h m out in_b = cc
missing_less (j ∷ all) a b k h m out in_b = elim (Bool-cases (same_name j k)) [
  | inl e ↦
      let same : j ≡ k = (eq_iff j k).0 e in
      rw (same, out, in_b) (omega (arith, missing_more all a b h))
  | inr e ↦
      let rest = missing_less all a b k h (rw e at m) out in_b in
      ground (arith, h j, missing_more all a b h)
]

pub missing-le-length : (all reachable : Names) → missing all reachable ≤ length all
unfolding missing
missing-le-length [] reachable = omega arith
missing-le-length (k ∷ all) reachable = ground (arith, missing-le-length all reachable)

pub contains-mark_all :
    (k : String) (refs : Names) (m : Marking)
    → contains k (mark_all refs m).reachable ≡ (contains k refs || contains k m.reachable)
unfolding mark_all contains
contains-mark_all k [] m = refl
contains-mark_all k (r ∷ refs) m = ground (
  arith,
  contains-insert k r m.reachable,
  contains-mark_all k refs (record {
    reachable = insert r m.reachable;
    changed = not (contains r m.reachable) || m.changed;
  }),
)

-- A new name that a set of names brings.
abbrev pub NewName : Names → Names → Type 0
NewName refs reachable = (k : String) × (contains k refs ≡ true) × (contains k reachable ≡ false)

pub changed-mark_all :
    (refs : Names) (m : Marking)
    → (mark_all refs m).changed ≡ true
    → (m.changed ≡ true) ⊎ NewName refs m.reachable
unfolding mark_all contains
changed-mark_all [] m h = inl h
changed-mark_all (r ∷ refs) m h = elim (Bool-cases (contains r m.reachable)) [
  | inr new ↦ inr (r, rw ((eq_iff r r).1 refl) refl, new)
  | inl old ↦
      let next : Marking = record {
        reachable = insert r m.reachable;
        changed = not (contains r m.reachable) || m.changed;
      } in
      elim (changed-mark_all refs next h) [
        | inl before ↦ inl (rw old at before)
        | inr (k, mem, new) ↦
            inr (k, ground (arith, mem), ground (arith, new, contains-insert k r m.reachable))
      ]
]

-- Where nothing changed, nothing was new.
pub steady-mark_all :
    (refs : Names) (m : Marking)
    → (mark_all refs m).changed ≡ false
    → (m.changed ≡ false) × Subset refs m.reachable
unfolding mark_all contains
steady-mark_all [] m h = (h, λ k e. cc)
steady-mark_all (r ∷ refs) m h =
    let next : Marking = record {
      reachable = insert r m.reachable;
      changed = not (contains r m.reachable) || m.changed;
    } in
    let (calm, inside) = steady-mark_all refs next h in
    let old : contains r m.reachable ≡ true = ground (arith, calm) in
    (
      ground (arith, calm),
      λ k e. ground (arith, e, old, eq_iff r k, inside k, contains-insert k r m.reachable),
    )
