-- ===== src/Tree/Weight.antt =====
-- Sizes of trees under writes.
use pelican_q.Base.{◌+◌, ◌≡◌, [], ◌∷◌, none, some, arith, length}
use pelican_q.Bytes.{Bytes}
use pelican_q.Tree.{Tree, put, without, lookup, weight}

module _ (k v : Bytes) where
  pub weight-put_new : (t : Tree) → lookup k t ≡ none → weight (put k v t) ≡ weight t + length v
  unfolding lookup put weight
  weight-put_new [] h = omega arith
  weight-put_new ((j, w) ∷ t) h = ground (arith, weight-put_new t)

  pub length-put_new : (t : Tree) → lookup k t ≡ none → length (put k v t) ≡ length t + 1
  unfolding lookup put
  length-put_new [] h = omega arith
  length-put_new ((j, w) ∷ t) h = ground (arith, length-put_new t)

  pub weight-without : (t : Tree) → lookup k t ≡ some v → weight (without k t) + length v ≡ weight t
  unfolding lookup without weight
  weight-without [] h = cc
  weight-without ((j, w) ∷ t) h = ground (arith, weight-without t)

  pub length-without : (t : Tree) → lookup k t ≡ some v → length (without k t) + 1 ≡ length t
  unfolding lookup without
  length-without [] h = cc
  length-without ((j, w) ∷ t) h = ground (arith, length-without t)
