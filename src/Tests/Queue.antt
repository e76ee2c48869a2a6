-- ===== src/Tests/Queue.antt =====
-- Witnesses of the theorems on a queue.
use pelican_q.Base.{◌-◌, ◌≡◌, refl, [], ◌∷◌, some, length, arith}
use pelican_q.Bytes.{codes, same, to_be_bytes}
use pelican_q.Tree.{lookup, put, without}
use pelican_q.Failure.{ok, err, done, invalid_delivery_tag}
use pelican_q.Platform.Memory.{memory}
use pelican_q.Exec.Ensures.{Settles}
use pelican_q.Engine.Keys.{inflight_tree_name, encode_key}
use pelican_q.Engine.Calls.{policy_or_default}
use pelican_q.Engine.Consume.{consume, ack}
use pelican_q.Engine.Nack.{nack}
use pelican_q.Engine.View.{view}
use pelican_q.Engine.Sound.Calls.{SoundAt}
use pelican_q.Engine.Sound.Consume.{consume-IsSound}
use pelican_q.Engine.Effect.{calm}
use pelican_q.Engine.Effect.Deliver.{consume_delivers}
use pelican_q.Engine.Effect.Settle.{again, ack_once, nack_dead_letters}
use pelican_q.Replica.{apply_operation, consume_batch_op}
use pelican_q.Replica.Sound.{apply_operation-IsSound}
use pelican_q.Tests.{
  jobs-ne-queues, jobs-ne-retention, jobs, job, job_bytes, job_again_bytes, stocked_db, held_db,
  strict, managed, failing, stocked_db-IsDeclared, held_db-IsDeclared, stocked_db-IsSound,
}

apply_operation-IsSound_example :
    Settles
      (SoundAt ⦃p = memory⦄ jobs)
      (apply_operation ⦃p = memory⦄ (consume_batch_op jobs 3) (failing stocked_db))
apply_operation-IsSound_example =
    apply_operation-IsSound ⦃p = memory⦄ jobs jobs-ne-queues jobs-ne-retention
      (consume_batch_op jobs 3) (failing stocked_db) refl (omega arith) stocked_db-IsSound

consume-IsSound_example :
    Settles (SoundAt ⦃p = memory⦄ jobs) (consume ⦃p = memory⦄ jobs (failing stocked_db))
consume-IsSound_example = consume-IsSound ⦃p = memory⦄ jobs (failing stocked_db) stocked_db-IsSound

consume_delivers_example :
    let w = managed stocked_db in
    let r = consume ⦃p = memory⦄ jobs (calm w) in
    (r.0 ≡ ok (some (0, job)))
    × (view ⦃p = memory⦄ jobs r.1.db ≡ record (view ⦃p = memory⦄ jobs w.db) {
      main = [];
      inflight = put (to_be_bytes 0) job_bytes (view ⦃p = memory⦄ jobs w.db).inflight;
    })
    × (r.1.current_bytes ≡ 12)
unfolding put same encode_key
consume_delivers_example =
    consume_delivers ⦃p = memory⦄ jobs (managed stocked_db) 5 0 job_bytes [] job
      stocked_db-IsDeclared refl (omega arith) refl

ack_once_example :
    let w = managed held_db in
    let r = ack ⦃p = memory⦄ jobs 0 (calm w) in
    (r.0 ≡ ok tt)
    × (view ⦃p = memory⦄ jobs r.1.db ≡ record (view ⦃p = memory⦄ jobs w.db) {
      inflight = without (to_be_bytes 0) (view ⦃p = memory⦄ jobs w.db).inflight;
    })
    × (r.1.current_bytes ≡ 12 - length job_bytes)
    × ((ack ⦃p = memory⦄ jobs 0 r.1).0 ≡ err (invalid_delivery_tag 0))
unfolding put lookup same inflight_tree_name to_be_bytes
ack_once_example = ack_once ⦃p = memory⦄ jobs (managed held_db) 0 job_bytes held_db-IsDeclared refl

nack_dead_letters_example :
    let w = managed (strict held_db) in
    let tried = record job { delivery_attempts = 1 } in
    let twice = 77 ∷ 1000 ∷ 2 ∷ 5 ∷ 0 ∷ 0 ∷ codes "resize" in
    let d = memory.insert (inflight_tree_name jobs) (to_be_bytes 0) job_again_bytes w.db in
    let r = nack ⦃p = memory⦄ jobs 0 (calm (managed d)) in
    (r.0 ≡ ok tt)
    × (view ⦃p = memory⦄ jobs r.1.db ≡ record (view ⦃p = memory⦄ jobs d) {
      inflight = without (to_be_bytes 0) (view ⦃p = memory⦄ jobs d).inflight;
      dead = put (encode_key 5 1) twice (view ⦃p = memory⦄ jobs d).dead;
      bound = 2;
    })
    × (memory.deserialize_message twice ≡ done (again tried))
    × (r.1.current_bytes ≡ 12)
unfolding put lookup same inflight_tree_name to_be_bytes policy_or_default
nack_dead_letters_example =
    nack_dead_letters ⦃p = memory⦄ jobs
      (managed
        (memory.insert (inflight_tree_name jobs) (to_be_bytes 0) job_again_bytes (strict held_db)))
      0 job_again_bytes (77 ∷ 1000 ∷ 2 ∷ 5 ∷ 0 ∷ 0 ∷ codes "resize")
      (record job { delivery_attempts = 1 }) 2 ([], refl) refl refl refl refl (omega arith)
      (omega arith) (omega arith)
