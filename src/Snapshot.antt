-- ===== src/Snapshot.antt =====
-- pelicanq-core/src/snapshot.rs: a snapshot of all queues, taken and restored.
pub mod RoundTrip
use pelican_q.Base.{ℕ, List, [], ◌∷◌, Option, none, some, if◌then◌else◌}
use pelican_q.Bytes.{Bytes, same, precedes, to_be_bytes}
use pelican_q.Tree.{Tree}
use pelican_q.Message.{Message, RetentionPolicy}
use pelican_q.Platform.{Platform}
use pelican_q.Exec.{Exec, ◌>>=◌, ◌>>◌, pure, encoded, check, now_ms, set_bytes, open_tree}
use pelican_q.Engine.Keys.{
  meta_queues_tree, meta_retention_tree, inflight_tree_name, dlq_tree_name, scheduled_tree_name,
  dedup_tree_name, encode_key, encode_scheduled_key,
}
use pelican_q.Engine.Calls.{read_be64, read_policy, new_id, insert_into, scan}
use pelican_q.Engine.Declare.{list_queues}
use pelican_q.Engine.Recover.{recalculate_bytes}

pub record QueueSnapshot : Type 0 where
  pub policy : RetentionPolicy
  pub messages : List Message
  pub scheduled : List Message
  pub inflight : List (ℕ × Message)
  pub dead_letter : List Message

-- A `BTreeMap` of queue names: its entries in the order of the names.
abbrev pub QueueManagerSnapshot : Type 0
QueueManagerSnapshot = List (Bytes × QueueSnapshot)

unfoldable pub insert_queue : Bytes → QueueSnapshot → QueueManagerSnapshot → QueueManagerSnapshot
insert_queue name qs [] = (name, qs) ∷ []
insert_queue name qs ((n, s) ∷ rest) =
    if same n name
    then (name, qs) ∷ rest
    else (if precedes name n
        then (name, qs) ∷ (n, s) ∷ rest
        else (n, s) ∷ insert_queue name qs rest)

module _ ⦃p : Platform⦄ where
  open p use {Db, serialize_policy, serialize_message, deserialize_message}

  unfoldable pub read_messages : Tree → Exec Db (List Message)
  read_messages [] = pure []
  read_messages ((k, v) ∷ es) = do
    check
    msg ← encoded (deserialize_message v)
    rest ← read_messages es
    pure (msg ∷ rest)

  unfoldable pub read_tagged : Tree → Exec Db (List (ℕ × Message))
  unfolding read_be64
  read_tagged [] = pure []
  read_tagged ((k, v) ∷ es) = do
    check
    tag ← read_be64 k
    msg ← encoded (deserialize_message v)
    rest ← read_tagged es
    pure ((tag, msg) ∷ rest)

  unfoldable pub export_queue : Bytes → Exec Db QueueSnapshot
  unfolding read_policy scan read_messages read_tagged
  export_queue name = do
    policy ← read_policy name
    tree ← open_tree name
    es ← scan tree
    messages ← read_messages es
    sched_tree ← open_tree (scheduled_tree_name name)
    es ← scan sched_tree
    scheduled ← read_messages es
    inflight_tree ← open_tree (inflight_tree_name name)
    es ← scan inflight_tree
    inflight ← read_tagged es
    dlq_tree ← open_tree (dlq_tree_name name)
    es ← scan dlq_tree
    dead_letter ← read_messages es
    pure (record {
      policy = policy;
      messages = messages;
      scheduled = scheduled;
      inflight = inflight;
      dead_letter = dead_letter;
    })

  unfoldable pub export_queues : List Bytes → QueueManagerSnapshot → Exec Db QueueManagerSnapshot
  unfolding export_queue
  export_queues [] queues = pure queues
  export_queues (name ∷ names) queues = do
    qs ← export_queue name
    export_queues names (insert_queue name qs queues)

  unfoldable pub export_snapshot : Exec Db QueueManagerSnapshot
  unfolding list_queues export_queues
  export_snapshot = do names ← list_queues; export_queues names []

  -- The loop over the messages of the main tree, and over those of the dead-letter tree.
  unfoldable pub restore_keyed : Bytes → List Message → Exec Db Unit
  unfolding new_id insert_into
  restore_keyed n [] = pure tt
  restore_keyed n (msg ∷ msgs) = do
    value ← encoded (serialize_message msg)
    id ← new_id
    insert_into n (encode_key msg.priority id) value
    restore_keyed n msgs

  -- `unwrap_or_else(now_ms)`: the clock is read when there is no time.
  unfoldable pub due_time : Option ℕ → Exec Db ℕ
  due_time none = now_ms
  due_time (some deliver_at) = pure deliver_at

  unfoldable pub restore_scheduled : Bytes → List Message → Exec Db Unit
  unfolding new_id insert_into due_time
  restore_scheduled n [] = pure tt
  restore_scheduled n (msg ∷ msgs) = do
    value ← encoded (serialize_message msg)
    id ← new_id
    deliver_at ← due_time msg.deliver_at
    insert_into n (encode_scheduled_key deliver_at id) value
    restore_scheduled n msgs

  unfoldable pub restore_tagged : Bytes → List (ℕ × Message) → Exec Db Unit
  unfolding insert_into
  restore_tagged n [] = pure tt
  restore_tagged n ((tag, msg) ∷ msgs) = do
    value ← encoded (serialize_message msg)
    insert_into n (to_be_bytes tag) value
    restore_tagged n msgs

  unfoldable pub restore_queue : Bytes → QueueSnapshot → Exec Db Unit
  unfolding insert_into restore_keyed restore_scheduled restore_tagged
  restore_queue name qs = do
    insert_into meta_queues_tree name []
    policy_bytes ← encoded (serialize_policy qs.policy)
    insert_into meta_retention_tree name policy_bytes
    open_tree name
    open_tree (inflight_tree_name name)
    open_tree (dlq_tree_name name)
    open_tree (scheduled_tree_name name)
    open_tree (dedup_tree_name name)
    tree ← open_tree name
    restore_keyed tree qs.messages
    sched_tree ← open_tree (scheduled_tree_name name)
    restore_scheduled sched_tree qs.scheduled
    inflight_tree ← open_tree (inflight_tree_name name)
    restore_tagged inflight_tree qs.inflight
    dlq_tree ← open_tree (dlq_tree_name name)
    restore_keyed dlq_tree qs.dead_letter

  unfoldable pub restore_queues : QueueManagerSnapshot → Exec Db Unit
  unfolding restore_queue
  restore_queues [] = pure tt
  restore_queues ((name, qs) ∷ queues) = do restore_queue name qs; restore_queues queues

  unfoldable pub restore_from_snapshot : QueueManagerSnapshot → Exec Db Unit
  unfolding restore_queues recalculate_bytes
  restore_from_snapshot snapshot = do
    restore_queues snapshot
    total ← recalculate_bytes
    set_bytes total
