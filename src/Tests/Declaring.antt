-- ===== src/Tests/Declaring.antt =====
-- A witness of the theorem on declaring a queue.
use pelican_q.Base.{◌≡◌, refl, [], ◌∷◌, some}
use pelican_q.Tree.{lookup}
use pelican_q.Failure.{ok, err, queue_not_found, queue_already_exists}
use pelican_q.Message.{RetentionPolicy, default_policy}
use pelican_q.Platform.Memory.{empty_db, memory}
use pelican_q.Engine.Declare.{declare_queue_with_retention}
use pelican_q.Engine.Publish.{publish}
use pelican_q.Engine.Consume.{consume}
use pelican_q.Engine.View.{view}
use pelican_q.Engine.Effect.{calm, IsDeclared}
use pelican_q.Engine.Effect.Store.{policy_of}
use pelican_q.Engine.Effect.Declared.{declare_once}
use pelican_q.Tests.{jobs, job, managed, jobs-ne-queues, jobs-ne-retention}

abbrev three_attempts : RetentionPolicy
three_attempts = record default_policy { max_delivery_attempts = some 3 }

declare_once_example :
    let w = managed empty_db in
    let r = declare_queue_with_retention ⦃p = memory⦄ jobs three_attempts (calm w) in
    (publish ⦃p = memory⦄ jobs job (calm w) ≡ (err (queue_not_found jobs), calm w))
    × (consume ⦃p = memory⦄ jobs (calm w) ≡ (err (queue_not_found jobs), calm w))
    × (r.0 ≡ ok tt)
    × IsDeclared ⦃p = memory⦄ jobs r.1.db
    × (policy_of ⦃p = memory⦄ jobs r.1.db ≡ three_attempts)
    × (view ⦃p = memory⦄ jobs r.1.db ≡ view ⦃p = memory⦄ jobs empty_db)
    × (r.1.current_bytes ≡ 12)
    × (declare_queue_with_retention ⦃p = memory⦄ jobs default_policy r.1
        ≡ (err (queue_already_exists jobs), r.1))
unfolding lookup
declare_once_example =
    declare_once ⦃p = memory⦄ jobs (managed empty_db) three_attempts default_policy
      (0 ∷ 0 ∷ 4 ∷ 0 ∷ []) job jobs-ne-queues jobs-ne-retention refl refl
