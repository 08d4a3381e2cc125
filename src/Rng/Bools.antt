-- ===== src/Rng/Bools.antt =====
-- The steps on Boolean tests that the proofs about patterns repeat.
use xb.Common.{Bool, true, false, ◌&&◌, ◌||◌, ◌≡◌, arith}

pub and_left : (a b : Bool) → (a && b) ≡ true → a ≡ true
and_left a b h = ground (arith, h)

pub and_right : (a b : Bool) → (a && b) ≡ true → b ≡ true
and_right a b h = ground (arith, h)

pub and_first : (x a b c : Bool) → x ≡ (a && b) → (x && c) ≡ (b && (a && c))
and_first x a b c h = ground (arith, h)

pub and_second : (x a b c : Bool) → x ≡ (a && b) → (c && x) ≡ (a && (c && b))
and_second x a b c h = ground (arith, h)

pub and_third : (x m b n r : Bool) → x ≡ (m && r) → m ≡ (b && n) → x ≡ (n && (b && r))
and_third x m b n r h i = ground (arith, h, i)

pub and_both : (a b : Bool) → a ≡ true → b ≡ true → (a && b) ≡ true
and_both a b h i = ground (arith, h, i)

pub or_first : (x a b : Bool) → x ≡ (a || b) → a ≡ true → x ≡ true
or_first x a b h e = ground (arith, h, e)

pub or_second : (x a b : Bool) → x ≡ (a || b) → b ≡ true → x ≡ true
or_second x a b h e = ground (arith, h, e)

pub or_true : (a : Bool) → a ≡ true → (a || false) ≡ true
or_true a h = ground (arith, h)

-- Two steps that add names, one after the other.
pub then_more : (x y z a b w : Bool) → x ≡ (a || y) → y ≡ (b || z) → w ≡ (a || b) → x ≡ (w || z)
then_more x y z a b w p q r = ground (arith, p, q, r)
