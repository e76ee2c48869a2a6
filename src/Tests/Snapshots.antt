-- ===== src/Tests/Snapshots.antt =====
-- The witness of the theorem on the tags in a snapshot.
use pelican_q.Base.{◌≡◌, refl, List, [], ◌∷◌, arith}
use pelican_q.Failure.{ok}
use pelican_q.Platform.Memory.{empty_db, memory}
use pelican_q.Engine.Keys.{inflight_tree_name}
use pelican_q.Engine.Effect.{calm}
use pelican_q.Snapshot.{read_tagged, restore_tagged}
use pelican_q.Snapshot.RoundTrip.{Tagged, read_tagged-restore_tagged}
use pelican_q.Tests.{jobs, job, job_bytes, managed}

abbrev two_tagged : List Tagged
two_tagged = ((2, job), job_bytes) ∷ ((5, job), job_bytes) ∷ []

read_tagged-restore_tagged_example :
    let n = inflight_tree_name jobs in
    let r = restore_tagged ⦃p = memory⦄ n ((2, job) ∷ (5, job) ∷ []) (calm (managed empty_db)) in
    (r.0 ≡ ok tt)
    × (read_tagged ⦃p = memory⦄ (memory.entries n r.1.db) r.1
        ≡ (ok ((2, job) ∷ (5, job) ∷ []), r.1))
read_tagged-restore_tagged_example =
    read_tagged-restore_tagged ⦃p = memory⦄ (inflight_tree_name jobs) two_tagged (managed empty_db)
      refl (omega arith, omega arith, refl, (omega arith, omega arith, refl, tt))
