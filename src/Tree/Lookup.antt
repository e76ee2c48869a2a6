-- ===== src/Tree/Lookup.antt =====
-- What a lookup finds after a write.
use pelican_q.Base.{◌≡◌, refl, [], ◌∷◌, none, some, arith, if◌then◌else◌}
use pelican_q.Bytes.{Bytes, same}
use pelican_q.Bytes.Order.{same→eq, same_refl}
use pelican_q.Tree.{Tree, put, without, lookup, IsOrdered}
use pelican_q.Tree.Ordered.{lookup-Above}

pub lookup-put :
    (k j v : Bytes) (t : Tree) → lookup j (put k v t) ≡ (if same k j then some v else lookup j t)
unfolding lookup put
lookup-put k j v [] = refl
lookup-put k j v ((i, w) ∷ t) =
    ground
      (arith, same→eq i k, same→eq i j, same→eq k j, same_refl k, same_refl i, lookup-put k j v t)

pub lookup-without :
    (k j : Bytes) (t : Tree)
    → IsOrdered t
    → lookup j (without k t) ≡ (if same k j then none else lookup j t)
unfolding lookup without
lookup-without k j [] o = ground arith
lookup-without k j ((i, w) ∷ t) o = ground (
  arith,
  same→eq i k,
  same→eq i j,
  same→eq k j,
  same_refl k,
  same_refl i,
  lookup-Above i t o.0,
  lookup-without k j t o.1,
)

pub without-first : (k v : Bytes) (s t : Tree) → s ≡ (k, v) ∷ t → without k s ≡ t
unfolding without
without-first k v s t e = rw (e, same_refl k) refl
