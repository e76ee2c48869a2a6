-- ===== src/Engine/Keys/Order.antt =====
-- The order of the keys is the order of delivery.
use pelican_q.Base.{
  ℕ, ◌<◌, ◌≡◌, ◌&&◌, ◌||◌, [], ◌∷◌, ◌++◌, arith, ◌==◌, ltb, min, length, Bool-cases, inl, inr, ap,
  sym, ◌∙◌, if◌then◌else◌,
}
use pelican_q.Bytes.{Bytes, same, precedes, to_be_bytes, from_be_bytes}
use pelican_q.Bytes.Order.{same→eq, same_refl}
use pelican_q.Bytes.RoundTrip.{
  u64_mod, precedes-to_be_bytes, from_be_bytes-to_be_bytes, length-to_be_bytes,
}
use pelican_q.Engine.Keys.{encode_key, encode_scheduled_key}

-- Keys of the main tree: the higher priority first (9 stands for all above it), then the lower id.
pub precedes-encode_key :
    (p q i j : ℕ)
    → i < u64_mod
    → j < u64_mod
    → precedes (encode_key p i) (encode_key q j)
      ≡ (ltb (min q 9) (min p 9) || ((min p 9 == min q 9) && ltb i j))
unfolding encode_key precedes
precedes-encode_key p q i j h k = ground (arith, precedes-to_be_bytes i j h k)

pub same-to_be_bytes :
    (i j : ℕ) → i < u64_mod → j < u64_mod → same (to_be_bytes i) (to_be_bytes j) ≡ (i == j)
same-to_be_bytes i j h k = elim (Bool-cases (same (to_be_bytes i) (to_be_bytes j))) [
  | inl e ↦
      let equal : i ≡ j =
        sym (from_be_bytes-to_be_bytes i h)
        ∙ ap (from_be_bytes 0) (same→eq _ _ e)
        ∙ from_be_bytes-to_be_bytes j k in
      ground arith
  | inr e ↦ elim (Bool-cases (i == j)) [
    | inl f ↦
        let equal : i ≡ j = ground arith in
        ground (
          arith,
          ap (λ (n : ℕ). same (to_be_bytes i) (to_be_bytes n)) equal,
          same_refl (to_be_bytes i),
        )
    | inr f ↦ ground arith
  ]
]

precedes-append :
    (a b x y : Bytes)
    → length a ≡ length b
    → precedes (a ++ x) (b ++ y) ≡ (if same a b then precedes x y else precedes a b)
unfolding precedes same
precedes-append [] [] x y h = ground arith
precedes-append [] (d ∷ b) x y h = absurd (omega arith)
precedes-append (c ∷ a) [] x y h = absurd (omega arith)
precedes-append (c ∷ a) (d ∷ b) x y h = ground (arith, precedes-append a b x y (omega arith))

-- Keys of the scheduled tree: the earlier time first, then the lower id.
pub precedes-encode_scheduled_key :
    (s t i j : ℕ)
    → s < u64_mod
    → t < u64_mod
    → i < u64_mod
    → j < u64_mod
    → precedes (encode_scheduled_key s i) (encode_scheduled_key t j)
      ≡ (ltb s t || ((s == t) && ltb i j))
unfolding encode_scheduled_key
precedes-encode_scheduled_key s t i j hs ht hi hj = ground (
  arith,
  precedes-append (to_be_bytes s) (to_be_bytes t) (to_be_bytes i) (to_be_bytes j)
      (length-to_be_bytes s ∙ sym (length-to_be_bytes t)),
  same-to_be_bytes s t hs ht,
  precedes-to_be_bytes s t hs ht,
  precedes-to_be_bytes i j hi hj,
)
