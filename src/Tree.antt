-- ===== src/Tree.antt =====
-- The contents of a sled tree: its keys in lexicographic order, each with its value.
-- The operations say what the documentation of sled promises of `iter`, `insert` and `remove`.
pub mod Lookup
pub mod Ordered
pub mod Weight
use pelican_q.Base.{
  ℕ, ◌+◌, ◌≡◌, Bool, true, List, [], ◌∷◌, Option, none, some, length, All, if◌then◌else◌,
}
use pelican_q.Bytes.{Bytes, same, precedes}

abbrev pub Entry : Type 0
Entry = Bytes × Bytes

abbrev pub Tree : Type 0
Tree = List Entry

unfoldable pub lookup : Bytes → Tree → Option Bytes
lookup k [] = none
lookup k ((j, v) ∷ m) = if same j k then some v else lookup k m

unfoldable pub put : Bytes → Bytes → Tree → Tree
put k v [] = (k, v) ∷ []
put k v ((j, w) ∷ m) =
    if same j k
    then (k, v) ∷ m
    else (if precedes k j then (k, v) ∷ (j, w) ∷ m else (j, w) ∷ put k v m)

unfoldable pub without : Bytes → Tree → Tree
without k [] = []
without k ((j, w) ∷ m) = if same j k then m else (j, w) ∷ without k m

-- Every key of the tree comes after `k`.
abbrev pub Above : Bytes → Tree → Type 0
Above k = All (λ e. precedes k e.0 ≡ true)

abbrev pub IsOrdered : Tree → Type 0
IsOrdered [] = Unit
IsOrdered ((k, v) ∷ m) = Above k m × IsOrdered m

-- The bytes of all values.
unfoldable pub weight : Tree → ℕ
weight [] = 0
weight ((k, v) ∷ m) = length v + weight m
