-- ===== src/Naming/JoinedNames.antt =====
-- Names with `::` between them, apart from the loops of src/lib/naming.cpp that build them.
use xb.Common.{List, [], ◌∷◌, ◌++◌, ◌≡◌, ◌≢◌, ◌∙◌, refl, All, append_assoc}
use xb.Common.Text.{Bytes}
use xb.Naming.Namespace.{append_name}

abbrev pub joined : (Bytes → Bytes) → List Bytes → Bytes
joined f [] = []
joined f (s ∷ []) = f s
joined f (s ∷ t ∷ segments) = f s ++ (b':' ∷ b':' ∷ joined f (t ∷ segments))

-- The loops: each name is appended to what is there.
abbrev pub names_onto : (Bytes → Bytes) → Bytes → List Bytes → Bytes
names_onto f result [] = result
names_onto f result (s ∷ segments) = names_onto f (append_name result (f s)) segments

append_name-ne-nil : (r name : Bytes) → r ≢ [] → append_name r name ≢ []
unfolding append_name
append_name-ne-nil [] name h e = h refl
append_name-ne-nil (c ∷ r) name h e = cc

append_name-double_colon :
    (r name : Bytes) → r ≢ [] → append_name r name ≡ r ++ (b':' ∷ b':' ∷ name)
unfolding append_name
append_name-double_colon [] name h = absurd (h refl)
append_name-double_colon (c ∷ r) name h = refl

names_onto-double_colon :
    (f : Bytes → Bytes) (r s : Bytes) (segments : List Bytes)
    → r ≢ []
    → names_onto f r (s ∷ segments) ≡ r ++ (b':' ∷ b':' ∷ joined f (s ∷ segments))
names_onto-double_colon f r s [] h = append_name-double_colon r (f s) h
names_onto-double_colon f r s (t ∷ segments) h =
    let later = names_onto-double_colon f (append_name r (f s)) t segments in
    let tail = b':' ∷ b':' ∷ joined f (t ∷ segments) in
    later (append_name-ne-nil r (f s) h)
    ∙ rw (append_name-double_colon r (f s) h) (append_assoc r (b':' ∷ b':' ∷ f s) tail)

-- From an empty result the loops give the joined names, where no name is empty.
pub names_onto-joined :
    (f : Bytes → Bytes) (segments : List Bytes)
    → ((s : Bytes) → s ≢ [] → f s ≢ [])
    → All (λ s. s ≢ []) segments
    → names_onto f [] segments ≡ joined f segments
unfolding append_name
names_onto-joined f [] h i = refl
names_onto-joined f (s ∷ []) h i = refl
names_onto-joined f (s ∷ t ∷ segments) h i = names_onto-double_colon f (f s) t segments (h s i.0)
