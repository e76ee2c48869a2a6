-- ===== src/Engine/Sound/Trees.antt =====
-- Predicates of all entries under writes, and fresh ids.
use pelican_q.Base.{
  ℕ, ◌≤◌, ◌<◌, ◌≡◌, refl, sym, ap, ◌∙◌, true, false, List, [], ◌∷◌, none, arith, drop, All,
  Bool-cases, inl, inr,
}
use pelican_q.Bytes.{Bytes, same, precedes, to_be_bytes, from_be_bytes}
use pelican_q.Bytes.Order.{same→eq}
use pelican_q.Bytes.RoundTrip.{u64_mod, from_be_bytes-to_be_bytes}
use pelican_q.Tree.{Tree, Entry, lookup, put, without}
use pelican_q.Engine.Sound.{MainKey, TagKey, DueKey}

pub All-map {ℓ κ μ} :
    {A : Type ℓ} {P : A → Type κ} {Q : A → Type μ} (xs : List A)
    → ((a : A) → P a → Q a)
    → All P xs
    → All Q xs
All-map [] f h = tt
All-map (x ∷ xs) f h = (f x h.0, All-map xs f h.1)

module _ (P : Entry → Type 0) (k v : Bytes) where
  pub All-put : (t : Tree) → P (k, v) → All P t → All P (put k v t)
  unfolding put
  All-put [] h a = (h, tt)
  All-put ((j, w) ∷ t) h a = elim (Bool-cases (same j k)) [
    | inl e ↦ rw e (h, a.1)
    | inr e ↦ elim (Bool-cases (precedes k j)) [
      | inl f ↦ rw (e, f) (h, a)
      | inr f ↦ rw (e, f) (a.0, All-put t h a.1)
    ]
  ]

module _ (P : Entry → Type 0) (k : Bytes) where
  pub All-without : (t : Tree) → All P t → All P (without k t)
  unfolding without
  All-without [] a = tt
  All-without ((j, w) ∷ t) a = elim (Bool-cases (same j k)) [
    | inl e ↦ rw e a.1
    | inr e ↦ rw e (a.0, All-without t a.1)
  ]

pub lookup-none-without :
    (k j : Bytes) (t : Tree) → lookup k t ≡ none → lookup k (without j t) ≡ none
unfolding lookup without
lookup-none-without k j [] h = refl
lookup-none-without k j ((i, w) ∷ t) h = ground (arith, lookup-none-without k j t)

pub MainKey-mono : (m n : ℕ) → m ≤ n → (e : Entry) → MainKey m e → MainKey n e
MainKey-mono m n h e k = (k.0, k.1, k.2, omega arith)

pub TagKey-mono : (m n : ℕ) → m ≤ n → (e : Entry) → TagKey m e → TagKey n e
TagKey-mono m n h e k = (k.0, k.1, omega arith)

pub DueKey-mono : (m n : ℕ) → m ≤ n → (e : Entry) → DueKey m e → DueKey n e
DueKey-mono m n h e k = (k.0, k.1, k.2, omega arith)

-- Two u64 ids with the same bytes are one.
same_ids :
    (i j : ℕ) → i < u64_mod → j < u64_mod → same (to_be_bytes i) (to_be_bytes j) ≡ true → i ≡ j
same_ids i j h k e =
    sym (from_be_bytes-to_be_bytes i h)
    ∙ ap (from_be_bytes 0) (same→eq _ _ e)
    ∙ from_be_bytes-to_be_bytes j k

pub fresh_bytes : (i j : ℕ) → i < j → j < u64_mod → same (to_be_bytes i) (to_be_bytes j) ≡ false
fresh_bytes i j h k = elim (Bool-cases (same (to_be_bytes i) (to_be_bytes j))) [
  | inl e ↦ absurd (omega (arith, same_ids i j (omega arith) k e))
  | inr e ↦ e
]

-- A new id is not in flight.
pub lookup_fresh :
    (n id : ℕ) (t : Tree)
    → n ≤ id
    → id < u64_mod
    → All (TagKey n) t
    → lookup (to_be_bytes id) t ≡ none
unfolding lookup
lookup_fresh n id [] h k a = refl
lookup_fresh n id ((j, w) ∷ t) h k a =
    rw a.0.1 (rw (fresh_bytes a.0.0 id (omega (arith, a.0.2)) k) (lookup_fresh n id t h k a.1))

-- Nor is it the id of an entry.
pub ids_fresh :
    (n id : ℕ) (t : Tree)
    → n ≤ id
    → id < u64_mod
    → All (MainKey n) t
    → All (λ g. same (drop 1 g.0) (to_be_bytes id) ≡ false) t
ids_fresh n id [] h k a = tt
ids_fresh n id (e ∷ t) h k a =
    (rw a.0.2 (fresh_bytes a.0.1 id (omega (arith, a.0.3)) k), ids_fresh n id t h k a.1)
