-- ===== src/Engine/Effect.antt =====
-- What the methods of the engine do when no call of sled fails.
pub mod Deliver
pub mod Declared
pub mod Settle
pub mod Store
pub mod Through
pub mod Balance
pub mod Trim
pub mod Promotion
pub mod Refine
use pelican_q.Base.{[], Option, ◌≡◌, some}
use pelican_q.Bytes.{Bytes}
use pelican_q.Platform.{Platform}
use pelican_q.Exec.{Manager}
use pelican_q.Engine.Keys.{meta_queues_tree}

-- The manager, in an environment without failures.
abbrev pub calm : {Db : Type 0} → Manager Db → Manager Db
calm w = record w { faults = [] }

abbrev pub IsDeclared : ⦃p : Platform⦄ → Bytes → p.Db → Type 0
IsDeclared ⦃p⦄ q d = (v : Bytes) × (p.get meta_queues_tree q d ≡ some v)
