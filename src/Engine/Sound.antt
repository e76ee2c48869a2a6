-- ===== src/Engine/Sound.antt =====
-- The invariant of a queue: the shape of its keys, and no delivery tag used twice.
pub mod Trees
pub mod Writes
pub mod Calls
pub mod Consume
pub mod Publish
pub mod Requeue
pub mod Recount
pub mod Retain
pub mod Declare
use pelican_q.Base.{ℕ, ◌<◌, ◌≡◌, ◌⊎◌, false, [], ◌∷◌, ◌++◌, none, length, drop, All}
use pelican_q.Bytes.{Bytes, same, to_be_bytes}
use pelican_q.Bytes.RoundTrip.{u64_mod}
use pelican_q.Tree.{Tree, Entry, lookup}
use pelican_q.Engine.View.{View}

-- A key of a main or dead-letter tree: a byte and an id below `n`.
abbrev pub MainKey : ℕ → Entry → Type 0
MainKey n e = (b : ℕ) × (i : ℕ) × (e.0 ≡ b ∷ to_be_bytes i) × (i < n)

abbrev pub TagKey : ℕ → Entry → Type 0
TagKey n e = (i : ℕ) × (e.0 ≡ to_be_bytes i) × (i < n)

abbrev pub DueKey : ℕ → Entry → Type 0
DueKey n e = (at : ℕ) × (i : ℕ) × (e.0 ≡ to_be_bytes at ++ to_be_bytes i) × (i < n)

-- The id bytes of a main key are the tag of its delivery. No two entries have the same, and none is
-- in flight.
abbrev pub NoClash : Tree → Tree → Type 0
NoClash inflight [] = Unit
NoClash inflight (e ∷ t) =
    (lookup (drop 1 e.0) inflight ≡ none)
    × All (λ g. same (drop 1 e.0) (drop 1 g.0) ≡ false) t
    × NoClash inflight t

-- Tags are told apart until the ids have run through all of u64.
pub record IsSound (v : View) : Type 0 where
  pub main : All (MainKey v.bound) v.main
  pub inflight : All (TagKey v.bound) v.inflight
  pub dead : All (MainKey v.bound) v.dead
  pub scheduled : All (DueKey v.bound) v.scheduled
  pub dedup : All (λ e. length e.1 ≡ 8) v.dedup
  pub fresh : (u64_mod < v.bound) ⊎ NoClash v.inflight v.main
