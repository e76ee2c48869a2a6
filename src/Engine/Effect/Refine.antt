-- ===== src/Engine/Effect/Refine.antt =====
-- What `publish` and `consume` promise together: a queue by priority, the older message first
-- among equals. The abstract queue forgets the keys, the ids and the encoding.
pub mod Run
pub mod Drain
use pelican_q.Base.{
  ℕ, ◌≤◌, ◌<◌, ◌≡◌, refl, ap, ◌∙◌, true, false, Bool-cases, inl, inr, List, [], ◌∷◌, Option, none,
  some, arith, min, ltb, if◌then◌else◌,
}
use pelican_q.Bytes.{Bytes, same, precedes}
use pelican_q.Bytes.RoundTrip.{u64_mod}
use pelican_q.Tree.{Tree, Entry, put}
use pelican_q.Failure.{done}
use pelican_q.Message.{Message}
use pelican_q.Platform.{Platform}
use pelican_q.Engine.Keys.{encode_key}
use pelican_q.Engine.Keys.Order.{precedes-encode_key}
use pelican_q.Engine.Sound.Trees.{fresh_bytes}

abbrev pub Waiting : Type 0
Waiting = List Message

-- Behind all of its priority or a higher one; 9 stands for all priorities above it.
unfoldable pub enqueue_by_priority : Message → Waiting → Waiting
enqueue_by_priority m [] = m ∷ []
enqueue_by_priority m (x ∷ ms) =
    let rest = enqueue_by_priority m ms in
    if ltb (min x.priority 9) (min m.priority 9) then m ∷ x ∷ ms else x ∷ rest

same-encode_key :
    (p q i j : ℕ) → i < j → j < u64_mod → same (encode_key p i) (encode_key q j) ≡ false
unfolding encode_key same
same-encode_key p q i j h k = ground (arith, fresh_bytes i j h k)

precedes-later_key :
    (p q i j : ℕ)
    → i < j
    → j < u64_mod
    → precedes (encode_key p j) (encode_key q i) ≡ ltb (min q 9) (min p 9)
precedes-later_key p q i j h k = ground (arith, precedes-encode_key p q j i k (omega arith))

module _ ⦃p : Platform⦄ where
  open p use {deserialize_message}

  -- The entry of a message, under its priority and an id below `n`.
  abbrev pub Holds : ℕ → Message → Entry → Type 0
  Holds n m e =
      (i : ℕ) × (e.0 ≡ encode_key m.priority i) × (i < n) × (deserialize_message e.1 ≡ done m)

  -- A main tree holds the messages of an abstract queue, in its order.
  abbrev pub Represents : ℕ → Waiting → Tree → Type 0
  Represents n [] [] = Unit
  Represents n [] (e ∷ t) = ⊥
  Represents n (m ∷ ms) [] = ⊥
  Represents n (m ∷ ms) (e ∷ t) = Holds n m e × Represents n ms t

  pub Represents-mono :
      (n k : ℕ) (ms : Waiting) (t : Tree) → n ≤ k → Represents n ms t → Represents k ms t
  Represents-mono n k [] [] h r = tt
  Represents-mono n k [] (e ∷ t) h r = absurd r
  Represents-mono n k (m ∷ ms) [] h r = absurd r
  Represents-mono n k (m ∷ ms) (e ∷ t) h r =
      ((r.0.0, r.0.1, omega (arith, r.0.2), r.0.3), Represents-mono n k ms t h r.1)

  pub put-Represents :
      (n k id : ℕ) (m : Message) (b : Bytes) (ms : Waiting) (t : Tree)
      → n ≤ id
      → id < k
      → id < u64_mod
      → deserialize_message b ≡ done m
      → Represents n ms t
      → Represents k (enqueue_by_priority m ms) (put (encode_key m.priority id) b t)
  unfolding put enqueue_by_priority
  put-Represents n k id m b [] [] above below small decodes r = ((id, refl, below, decodes), tt)
  put-Represents n k id m b [] (e ∷ t) above below small decodes r = absurd r
  put-Represents n k id m b (x ∷ ms) [] above below small decodes r = absurd r
  put-Represents n k id m b (x ∷ ms) ((j, v) ∷ t) above below small decodes r =
      let older : r.0.0 < id = omega (arith, r.0.2) in
      let mine = encode_key m.priority id in
      let other : same j mine ≡ false =
        ap (λ (c : Bytes). same c mine) r.0.1
        ∙ same-encode_key x.priority m.priority r.0.0 id older small in
      let order : precedes mine j ≡ ltb (min x.priority 9) (min m.priority 9) =
        ap (precedes mine) r.0.1 ∙ precedes-later_key m.priority x.priority r.0.0 id older small in
      elim (Bool-cases (ltb (min x.priority 9) (min m.priority 9))) [
        | inl e ↦
            rw (other, order, e)
              (
                (id, refl, below, decodes),
                Represents-mono n k (x ∷ ms) ((j, v) ∷ t) (omega arith) r,
              )
        | inr e ↦
            rw (other, order, e)
              (
                (r.0.0, r.0.1, omega (arith, r.0.2), r.0.3),
                put-Represents n k id m b ms t above below small decodes r.1,
              )
      ]
