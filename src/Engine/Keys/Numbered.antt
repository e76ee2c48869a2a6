-- ===== src/Engine/Keys/Numbered.antt =====
-- Trees whose keys are the eight bytes of a number, as those of messages in flight and of the log.
use pelican_q.Base.{ℕ, suc, ◌≤◌, ◌<◌, ◌≡◌, refl, false, [], ◌∷◌, ◌++◌, arith, All}
use pelican_q.Bytes.{Bytes, same, precedes, to_be_bytes}
use pelican_q.Bytes.RoundTrip.{u64_mod, precedes-to_be_bytes}
use pelican_q.Tree.{Tree, put}
use pelican_q.Engine.Keys.Order.{same-to_be_bytes}

-- The entries of the tree are those of indices below `n`.
abbrev pub Below : ℕ → Tree → Type 0
Below n = All (λ e. (i : ℕ) × (e.0 ≡ to_be_bytes i) × (i < n))

pub put-last :
    (n i : ℕ) (v : Bytes) (t : Tree)
    → n ≤ i
    → i < u64_mod
    → Below n t
    → put (to_be_bytes i) v t ≡ t ++ ((to_be_bytes i, v) ∷ [])
unfolding put
put-last n i v [] h k a = refl
put-last n i v ((j, w) ∷ t) h k a =
    let apart : same j (to_be_bytes i) ≡ false =
      rw (a.0.1, same-to_be_bytes a.0.0 i (omega (arith, a.0.2)) k) (ground (arith, a.0.2)) in
    let before : precedes (to_be_bytes i) j ≡ false =
      rw (a.0.1, precedes-to_be_bytes i a.0.0 k (omega (arith, a.0.2))) (ground (arith, a.0.2)) in
    rw (apart, before, put-last n i v t h k a.1) refl

pub Below-append :
    (n i : ℕ) (v : Bytes) (t : Tree)
    → n ≤ i
    → Below n t
    → Below (suc i) (t ++ ((to_be_bytes i, v) ∷ []))
Below-append n i v [] h a = ((i, refl, omega arith), tt)
Below-append n i v (e ∷ t) h a = ((a.0.0, a.0.1, omega (arith, a.0.2)), Below-append n i v t h a.1)
