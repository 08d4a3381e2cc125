-- ===== src/Rng/Names.antt =====
-- Sets of names. A `std::set<std::string>` is a list without repetitions; what the simplifier does with
-- one does not depend on its order.
use Prim.Native.String.{String}
use text.Mathlib.Text.{◌==◌ as same_name}
use text.Mathlib.TextEquality.{eq_iff}
use xb.Common.{List, [], ◌∷◌, Bool, true, false, ◌||◌, if◌then◌else◌, ◌≡◌, arith}

abbrev pub Names : Type 0
Names = List String

-- `count(name) > 0`
unfoldable pub contains : String → Names → Bool
contains k [] = false
contains k (j ∷ names) = same_name j k || contains k names

-- `insert(name)`
unfoldable pub insert : String → Names → Names
insert k names = if contains k names then names else k ∷ names

abbrev pub Subset : Names → Names → Type 0
Subset a b = (k : String) → contains k a ≡ true → contains k b ≡ true

pub contains-insert :
    (k j : String) (names : Names)
    → contains k (insert j names) ≡ (same_name j k || contains k names)
unfolding insert contains
contains-insert k j names = ground (arith, eq_iff j k)
