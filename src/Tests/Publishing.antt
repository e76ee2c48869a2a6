-- ===== src/Tests/Publishing.antt =====
-- Witnesses of the theorems on `publish`.
use pelican_q.Base.{ℕ, ◌+◌, ◌*◌, ◌<◌, ◌≤◌, ◌≡◌, refl, [], ◌∷◌, some, length, arith}
use pelican_q.Bytes.{Bytes, codes, same}
use pelican_q.Tree.{lookup, put}
use pelican_q.Word.{wrapping_add, signed_lt}
use pelican_q.Failure.{ok, err, storage_limit_exceeded}
use pelican_q.Message.{Message}
use pelican_q.Platform.Memory.{MemoryDb, memory}
use pelican_q.Exec.{Manager}
use pelican_q.Engine.Keys.{dedup_tree_name, encode_key, encode_scheduled_key}
use pelican_q.Engine.Calls.{policy_or_default}
use pelican_q.Engine.Publish.{stored, deduplicated, publish}
use pelican_q.Engine.View.{view}
use pelican_q.Engine.Effect.{calm}
use pelican_q.Engine.Effect.Store.{publish_enqueues, publish_schedules, publish_over_limit}
use pelican_q.Engine.Effect.Store.Duplicates.{publish_once}
use pelican_q.Tests.{jobs, job, job_bytes, declared_db, strict, managed, declared_db-IsDeclared}

abbrev later_job : Message
later_job = record job { deliver_at = some 9000 }

abbrev keyed_job : Message
keyed_job = record job { dedup_key = some (codes "k") }

abbrev keyed_bytes : Bytes
keyed_bytes = 77 ∷ 1000 ∷ 0 ∷ 5 ∷ 0 ∷ 2 ∷ codes "kresize"

publish_enqueues_example :
    let w = managed declared_db in
    let r = publish ⦃p = memory⦄ jobs job (calm w) in
    (r.0 ≡ ok (stored 77))
    × (view ⦃p = memory⦄ jobs r.1.db ≡ record (view ⦃p = memory⦄ jobs w.db) {
      main = put (encode_key 5 0) job_bytes (view ⦃p = memory⦄ jobs w.db).main;
      bound = 1;
    })
    × (r.1.current_bytes ≡ wrapping_add 12 (length job_bytes))
unfolding wrapping_add
publish_enqueues_example =
    publish_enqueues ⦃p = memory⦄ jobs (managed declared_db) job job_bytes declared_db-IsDeclared
      refl refl refl (omega arith)

publish_schedules_example :
    let w = managed declared_db in
    let b = 77 ∷ 1000 ∷ 0 ∷ 5 ∷ 9001 ∷ 0 ∷ codes "resize" in
    let r = publish ⦃p = memory⦄ jobs later_job (calm w) in
    (r.0 ≡ ok (stored 77))
    × (view ⦃p = memory⦄ jobs r.1.db ≡ record (view ⦃p = memory⦄ jobs w.db) {
      scheduled = put (encode_scheduled_key 9000 0) b (view ⦃p = memory⦄ jobs w.db).scheduled;
      bound = 1;
    })
    × (r.1.current_bytes ≡ wrapping_add 12 (length b))
unfolding wrapping_add signed_lt
publish_schedules_example =
    publish_schedules ⦃p = memory⦄ jobs (managed declared_db) later_job
      (77 ∷ 1000 ∷ 0 ∷ 5 ∷ 9001 ∷ 0 ∷ codes "resize") 9000 declared_db-IsDeclared refl refl refl
      refl (omega arith)

-- A store with ten bytes left.
abbrev nearly_full : Manager MemoryDb
nearly_full = record (managed declared_db) { current_bytes = 990 }

publish_over_limit_example :
    (share : ℕ) × (publish ⦃p = memory⦄ jobs job (calm nearly_full)
      ≡ (err (storage_limit_exceeded share 100), calm nearly_full))
    × (share * 1000 ≤ 990 * 100)
    × (990 * 100 < (share + 1) * 1000)
unfolding wrapping_add
publish_over_limit_example =
    publish_over_limit ⦃p = memory⦄ jobs nearly_full job job_bytes 1000 declared_db-IsDeclared refl
      refl refl (omega arith) (omega arith) (omega arith) (omega arith) (omega arith)

publish_once_example :
    let w = managed (strict declared_db) in
    let first = publish ⦃p = memory⦄ jobs keyed_job (calm w) in
    let second = publish ⦃p = memory⦄ jobs keyed_job first.1 in
    (first.0 ≡ ok (stored 77))
    × (second.0 ≡ ok deduplicated)
    × (second.1.db ≡ first.1.db)
    × (second.1.current_bytes ≡ first.1.current_bytes)
unfolding put lookup same policy_or_default wrapping_add dedup_tree_name
publish_once_example =
    publish_once ⦃p = memory⦄ jobs (managed (strict declared_db)) keyed_job keyed_job (codes "k")
      keyed_bytes 10 refl refl ([], refl) refl refl refl refl refl refl (omega arith) (omega arith)
      (omega arith) (omega arith) (omega arith)
