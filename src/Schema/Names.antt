-- ===== src/Schema/Names.antt =====
-- The first phase of `resolve`: the tables have the names of the declarations, and each once.
use xb.Common.{List, [], ◌∷◌, true, false, some, ◌≡◌, ◌⊎◌, inl, inr, refl, sym, arith, Bool-cases}
use xb.Common.Result.{ok, >>=-eq-ok}
use xb.Schema.Model.{QName, same_qname, same_qname_refl, same_qname-eq}
use xb.Schema.Set.{is_known, register_name, register_names}
use xb.Schema.Resolve.{find_named}

abbrev pub IsMember : {A : Type 0} → A → List A → Type 0
IsMember x [] = ⊥
IsMember x (y ∷ ys) = (y ≡ x) ⊎ IsMember x ys

pub register_name-ok :
    (name : QName) (known after : List QName)
    → register_name name known ≡ ok after
    → (is_known known name ≡ false) × (name ∷ known ≡ after)
unfolding register_name
register_name-ok name known after h = elim (Bool-cases (is_known known name)) [
  | inl e ↦ cc (rw e at h)
  | inr e ↦ let same : ok (name ∷ known) ≡ ok after = rw e at h in (e, cc)
]

module _ {A : Type 0} (name_of : A → QName) where
  register_names-step :
      (x : A) (xs : List A) (known after : List QName)
      → register_names name_of (x ∷ xs) known ≡ ok after
      → (is_known known (name_of x) ≡ false)
        × (register_names name_of xs (name_of x ∷ known) ≡ ok after)
  unfolding register_names
  register_names-step x xs known after h =
      let (more, first, rest) =
        >>=-eq-ok (register_name (name_of x) known) (register_names name_of xs) h in
      let (fresh, same) = register_name-ok (name_of x) known more first in
      (fresh, rw (sym same) at rest)

  -- The names that were there stay.
  pub register_names-kept :
      (xs : List A) (known after : List QName) (q : QName)
      → register_names name_of xs known ≡ ok after
      → is_known known q ≡ true
      → is_known after q ≡ true
  unfolding register_names is_known
  register_names-kept [] known after q h k = let same : known ≡ after = cc in rw same at k
  register_names-kept (x ∷ xs) known after q h k =
      let (fresh, rest) = register_names-step x xs known after h in
      register_names-kept xs (name_of x ∷ known) after q rest (ground (arith, k))

  -- The declarations get a name that was not there, and it is there in the end.
  pub register_names-fresh :
      (xs : List A) (known after : List QName) (x : A)
      → register_names name_of xs known ≡ ok after
      → IsMember x xs
      → (is_known known (name_of x) ≡ false) × (is_known after (name_of x) ≡ true)
  unfolding is_known
  register_names-fresh [] known after x h m = absurd m
  register_names-fresh (y ∷ xs) known after x h (inl e) =
      let (fresh, rest) = register_names-step y xs known after h in
      let here : is_known (name_of y ∷ known) (name_of y) ≡ true =
        ground (arith, same_qname_refl (name_of y)) in
      let there = register_names-kept xs (name_of y ∷ known) after (name_of y) rest here in
      (rw e at fresh, rw e at there)
  register_names-fresh (y ∷ xs) known after x h (inr m) =
      let (fresh, rest) = register_names-step y xs known after h in
      let (later, there) = register_names-fresh xs (name_of y ∷ known) after x rest m in
      (ground (arith, later), there)

  -- A name of the table was there before, or it is that of a declaration.
  pub register_names-cases :
      (xs : List A) (known after : List QName) (q : QName)
      → register_names name_of xs known ≡ ok after
      → is_known after q ≡ true
      → (is_known known q ≡ true) ⊎ ((x : A) × (find_named name_of q xs ≡ some x))
  unfolding register_names is_known find_named
  register_names-cases [] known after q h k =
      let same : known ≡ after = cc in inl (rw (sym same) at k)
  register_names-cases (y ∷ xs) known after q h k = elim (Bool-cases (same_qname (name_of y) q)) [
    | inl e ↦ inr (y, rw e refl)
    | inr e ↦
        let (fresh, rest) = register_names-step y xs known after h in
        elim (register_names-cases xs (name_of y ∷ known) after q rest k) [
          | inl before ↦ inl (rw e at before)
          | inr (x, found) ↦ inr (x, rw e found)
        ]
  ]

  -- What a lookup finds has the name, and is a declaration of the list.
  pub find_named_sound :
      (xs : List A) (q : QName) (x : A)
      → find_named name_of q xs ≡ some x
      → (name_of x ≡ q) × IsMember x xs
  unfolding find_named
  find_named_sound [] q x h = cc
  find_named_sound (y ∷ xs) q x h = elim (Bool-cases (same_qname (name_of y) q)) [
    | inl e ↦
        let same : some y ≡ some x = rw e at h in
        let equal : y ≡ x = cc in (rw equal at (same_qname-eq (name_of y) q e), inl equal)
    | inr e ↦ let (name, m) = find_named_sound xs q x (rw e at h) in (name, inr m)
  ]

  -- Where the declarations were registered, a lookup of a declaration's name finds it.
  pub find_named-registered :
      (xs : List A) (known after : List QName) (x : A)
      → register_names name_of xs known ≡ ok after
      → IsMember x xs
      → find_named name_of (name_of x) xs ≡ some x
  unfolding find_named is_known
  find_named-registered [] known after x h m = absurd m
  find_named-registered (y ∷ xs) known after x h (inl e) = rw (e, same_qname_refl (name_of x)) refl
  find_named-registered (y ∷ xs) known after x h (inr m) =
      let (fresh, rest) = register_names-step y xs known after h in
      let (other, there) = register_names-fresh xs (name_of y ∷ known) after x rest m in
      let differs : same_qname (name_of y) (name_of x) ≡ false = ground (arith, other) in
      rw differs (find_named-registered xs (name_of y ∷ known) after x rest m)
