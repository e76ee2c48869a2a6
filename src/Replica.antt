-- ===== src/Replica.antt =====
-- pelicanq-raft/src/requests.rs and state_machine.rs: the operations of the replicated log, and
-- what a replica does with each of them.
pub mod Sound
use pelican_q.Base.{
  ℕ, zero, suc, Bool, true, false, List, [], ◌∷◌, Option, none, some, ◌==◌, ◌&&◌, ◌≡◌, ◌*◌, ltb,
  if◌then◌else◌,
}
use pelican_q.Bytes.{Bytes}
use pelican_q.Failure.{PelicanError, Outcome, ok, err, panic, diverges, Fallible, done, failed}
use pelican_q.Message.{Message, DeliveryTag, RetentionPolicy, default_policy}
use pelican_q.Platform.{Platform}
use pelican_q.Exec.{Manager, Exec, ◌>>=◌, ◌>>◌, pure, panics, encoded}
use pelican_q.Engine.Declare.{declare_queue, declare_queue_with_retention}
use pelican_q.Engine.Publish.{PublishOutcome, publish}
use pelican_q.Engine.Consume.{Delivery, consume, ack}
use pelican_q.Engine.Nack.{nack}
use pelican_q.Engine.Promote.{promote_scheduled}
use pelican_q.Engine.Retain.{apply_retention}
use pelican_q.Snapshot.{QueueManagerSnapshot, export_snapshot, restore_from_snapshot}

pub data QueueOperation : Type 0 where
  declare_queue_op : Bytes → RetentionPolicy → QueueOperation
  publish_op : Bytes → Message → QueueOperation
  publish_batch_op : Bytes → List Message → QueueOperation
  consume_op : Bytes → QueueOperation
  consume_batch_op : Bytes → ℕ → QueueOperation
  ack_op : Bytes → DeliveryTag → QueueOperation
  nack_op : Bytes → DeliveryTag → QueueOperation
  apply_retention_op : Bytes → QueueOperation
  promote_scheduled_op : Bytes → QueueOperation

-- The `Result` of a call.
pub data Answer (A : Type 0) : Type 0 where
  success : A → Answer A
  failure : PelicanError → Answer A

pub data QueueOperationResponse : Type 0 where
  declare_queue_resp : Answer (Unit {0}) → QueueOperationResponse
  publish_resp : Answer PublishOutcome → QueueOperationResponse
  publish_batch_resp : Answer (List PublishOutcome) → QueueOperationResponse
  consume_resp : Answer (Option Delivery) → QueueOperationResponse
  consume_batch_resp : Answer (List Delivery) → QueueOperationResponse
  ack_resp : Answer (Unit {0}) → QueueOperationResponse
  nack_resp : Answer (Unit {0}) → QueueOperationResponse
  apply_retention_resp : Answer ℕ → QueueOperationResponse
  promote_scheduled_resp : Answer ℕ → QueueOperationResponse

unfoldable pub same_limit : Option ℕ → Option ℕ → Bool
same_limit none none = true
same_limit none (some b) = false
same_limit (some a) none = false
same_limit (some a) (some b) = a == b

-- The derived `PartialEq` of the policy.
unfoldable pub same_policy : RetentionPolicy → RetentionPolicy → Bool
unfolding same_limit
same_policy r s =
    same_limit r.max_age_secs s.max_age_secs
    && same_limit r.max_messages s.max_messages
    && same_limit r.max_delivery_attempts s.max_delivery_attempts
    && same_limit r.dedup_window_secs s.dedup_window_secs

module _ ⦃p : Platform⦄ where
  open p use {Db, delivery_size}

  unfoldable pub declare : Bytes → RetentionPolicy → Exec Db Unit
  unfolding same_policy declare_queue declare_queue_with_retention
  declare name policy =
      if same_policy policy default_policy
      then declare_queue name
      else declare_queue_with_retention name policy

  -- The first error ends the batch, and what was stored before it stays.
  unfoldable pub publish_each : Bytes → List Message → Exec Db (List PublishOutcome)
  unfolding publish
  publish_each queue [] = pure []
  publish_each queue (message ∷ messages) = do
    outcome ← publish queue message
    outcomes ← publish_each queue messages
    pure (outcome ∷ outcomes)

  -- `None` leaves the loop, a message goes before those of the rounds to come.
  unfoldable pub collect_delivery :
      Exec Db (List Delivery) → Option Delivery → Exec Db (List Delivery)
  collect_delivery rounds none = pure []
  collect_delivery rounds (some delivery) = do results ← rounds; pure (delivery ∷ results)

  -- At most `max` messages; the first error ends the batch.
  unfoldable pub consume_each : Bytes → ℕ → Exec Db (List Delivery)
  unfolding consume collect_delivery
  consume_each queue zero = pure []
  consume_each queue (suc max) = do
    delivered ← consume queue
    collect_delivery (consume_each queue max) delivered

  -- `Vec::with_capacity` panics if the items take more than `isize::MAX` bytes.
  unfoldable pub with_capacity : ℕ → Exec Db Unit
  with_capacity max = if ltb 9223372036854775807 (max * delivery_size) then panics else pure tt

  unfoldable pub consume_batch : Bytes → ℕ → Exec Db (List Delivery)
  unfolding with_capacity consume_each
  consume_batch queue max = do with_capacity max; consume_each queue max

  abbrev pub answer_of :
      {A R : Type 0} → (Answer A → R) → Outcome A × Manager Db → Outcome R × Manager Db
  answer_of f (ok a, w) = (ok (f (success a)), w)
  answer_of f (err e, w) = (ok (f (failure e)), w)
  answer_of f (panic, w) = (panic, w)
  answer_of f (diverges, w) = (diverges, w)

  -- The result of the call, error or not, is what the response holds.
  unfoldable pub respond : {A R : Type 0} → (Answer A → R) → Exec Db A → Exec Db R
  respond f m w = answer_of f (m w)

  unfoldable pub apply_operation : QueueOperation → Exec Db QueueOperationResponse
  unfolding respond declare publish_each consume_batch
  apply_operation (declare_queue_op name policy) = respond declare_queue_resp (declare name policy)
  apply_operation (publish_op queue message) = respond publish_resp (publish queue message)
  apply_operation (publish_batch_op queue messages) =
      respond publish_batch_resp (publish_each queue messages)
  apply_operation (consume_op queue) = respond consume_resp (consume queue)
  apply_operation (consume_batch_op queue max) =
      respond consume_batch_resp (consume_batch queue max)
  apply_operation (ack_op queue tag) = respond ack_resp (ack queue tag)
  apply_operation (nack_op queue tag) = respond nack_resp (nack queue tag)
  apply_operation (apply_retention_op queue) = respond apply_retention_resp (apply_retention queue)
  apply_operation (promote_scheduled_op queue) =
      respond promote_scheduled_resp (promote_scheduled queue)

-- The JSON encoding of snapshots by `serde_json`.
pub record SnapshotJson : Type 0 where
  pub to_vec : QueueManagerSnapshot → Fallible Bytes
  pub from_slice : Bytes → Fallible QueueManagerSnapshot
  pub json_round_trip :
      (s : QueueManagerSnapshot) (b : Bytes) → to_vec s ≡ done b → from_slice b ≡ done s

module _ ⦃p : Platform⦄ ⦃j : SnapshotJson⦄ where
  open p use {Db}
  open j use {to_vec, from_slice}

  unfoldable pub build_snapshot : Exec Db Bytes
  build_snapshot = do snapshot ← export_snapshot; encoded (to_vec snapshot)

  unfoldable pub install_snapshot : Bytes → Exec Db Unit
  install_snapshot data_bytes = do
    snapshot ← encoded (from_slice data_bytes)
    restore_from_snapshot snapshot
