-- ===== src/Bytes/Order.antt =====
-- Laws of the equality and the order of byte strings.
use pelican_q.Base.{◌≡◌, ◌≢◌, refl, ap, true, false, [], ◌∷◌, arith, length, Bool-cases, inl, inr}
use pelican_q.Bytes.{Bytes, same, precedes}

pub same→eq : (a b : Bytes) → same a b ≡ true → a ≡ b
unfolding same
same→eq [] [] h = refl
same→eq [] (y ∷ ys) h = cc
same→eq (x ∷ xs) [] h = cc
same→eq (x ∷ xs) (y ∷ ys) h = ground (arith, same→eq xs ys)

pub same_refl : (a : Bytes) → same a a ≡ true
unfolding same
same_refl [] = refl
same_refl (x ∷ xs) = ground (arith, same_refl xs)

pub eq→same : (a b : Bytes) → a ≡ b → same a b ≡ true
eq→same a b h = rw h (same_refl b)

-- Names of different lengths differ.
pub same_of_length : (a b : Bytes) → length a ≢ length b → same a b ≡ false
same_of_length a b h = elim (Bool-cases (same a b)) [
  | inl e ↦ absurd (h (ap length (same→eq a b e)))
  | inr e ↦ e
]

pub precedes_irrefl : (a : Bytes) → precedes a a ≡ false
unfolding precedes
precedes_irrefl [] = refl
precedes_irrefl (x ∷ xs) = ground (arith, precedes_irrefl xs)

pub precedes_trans :
    (a b c : Bytes) → precedes a b ≡ true → precedes b c ≡ true → precedes a c ≡ true
unfolding precedes
precedes_trans a b [] h k = cc
precedes_trans a [] (z ∷ zs) h k = ground arith
precedes_trans [] (y ∷ ys) (z ∷ zs) h k = refl
precedes_trans (x ∷ xs) (y ∷ ys) (z ∷ zs) h k = ground (arith, precedes_trans xs ys zs)

pub precedes_total : (a b : Bytes) → same a b ≡ false → precedes a b ≡ false → precedes b a ≡ true
unfolding same precedes
precedes_total [] [] h k = cc
precedes_total [] (y ∷ ys) h k = cc
precedes_total (x ∷ xs) [] h k = refl
precedes_total (x ∷ xs) (y ∷ ys) h k = ground (arith, precedes_total xs ys)
