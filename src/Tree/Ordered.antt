-- ===== src/Tree/Ordered.antt =====
-- Writes keep the order of the keys.
use pelican_q.Base.{◌≡◌, refl, true, [], ◌∷◌, none, arith, Bool-cases, inl, inr}
use pelican_q.Bytes.{Bytes, same, precedes}
use pelican_q.Bytes.Order.{same→eq, precedes_trans, precedes_total, precedes_irrefl}
use pelican_q.Tree.{Tree, put, without, lookup, Above, IsOrdered}

pub Above-trans : (k j : Bytes) (t : Tree) → precedes k j ≡ true → Above j t → Above k t
Above-trans k j [] h a = tt
Above-trans k j ((i, w) ∷ t) h a = (precedes_trans k j i h a.0, Above-trans k j t h a.1)

Above-put : (k j v : Bytes) (t : Tree) → precedes j k ≡ true → Above j t → Above j (put k v t)
unfolding put
Above-put k j v [] h a = (h, tt)
Above-put k j v ((i, w) ∷ t) h a = ground (arith, Above-put k j v t h a.1)

pub put-IsOrdered : (k v : Bytes) (t : Tree) → IsOrdered t → IsOrdered (put k v t)
unfolding put
put-IsOrdered k v [] o = (tt, tt)
put-IsOrdered k v ((j, w) ∷ t) o = ground (
  arith,
  same→eq j k,
  precedes_total k j,
  precedes_total j k,
  Above-trans k j t,
  Above-put k j v t,
  put-IsOrdered k v t o.1,
)

Above-without : (k j : Bytes) (t : Tree) → Above j t → Above j (without k t)
unfolding without
Above-without k j [] a = tt
Above-without k j ((i, w) ∷ t) a = ground (arith, Above-without k j t a.1)

pub without-IsOrdered : (k : Bytes) (t : Tree) → IsOrdered t → IsOrdered (without k t)
unfolding without
without-IsOrdered k [] o = tt
without-IsOrdered k ((j, w) ∷ t) o =
    ground (arith, Above-without k j t o.0, without-IsOrdered k t o.1)

-- A key below all others is not in the tree.
pub lookup-Above : (k : Bytes) (t : Tree) → Above k t → lookup k t ≡ none
unfolding lookup
lookup-Above k [] a = refl
lookup-Above k ((j, v) ∷ t) a = elim (Bool-cases (same j k)) [
  | inl e ↦ ground (arith, same→eq j k e, precedes_irrefl j, precedes_irrefl k)
  | inr e ↦ rw e (lookup-Above k t a.1)
]
