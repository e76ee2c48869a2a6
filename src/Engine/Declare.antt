-- ===== src/Engine/Declare.antt =====
-- pelicanq-core/src/queue.rs: declaring queues, and the methods that only read.
use pelican_q.Base.{ℕ, not, List, [], length, map}
use pelican_q.Bytes.{Bytes}
use pelican_q.Failure.{queue_already_exists}
use pelican_q.Message.{RetentionPolicy, default_policy}
use pelican_q.Platform.{Platform}
use pelican_q.Exec.{Exec, ◌>>=◌, ◌>>◌, pure, require, encoded, open_tree}
use pelican_q.Engine.Keys.{
  meta_queues_tree, meta_retention_tree, inflight_tree_name, dlq_tree_name, scheduled_tree_name,
  dedup_tree_name,
}
use pelican_q.Engine.Calls.{contains_queue, expect_queue, insert_into, scan, collect_ok}

module _ ⦃p : Platform⦄ where
  open p use {Db, serialize_policy}

  unfoldable pub declare_queue_with_retention : Bytes → RetentionPolicy → Exec Db Unit
  unfolding contains_queue insert_into
  declare_queue_with_retention name policy = do
    declared ← contains_queue name
    require (not declared) (queue_already_exists name)
    insert_into meta_queues_tree name []
    open_tree name
    open_tree (inflight_tree_name name)
    open_tree (dlq_tree_name name)
    open_tree (scheduled_tree_name name)
    open_tree (dedup_tree_name name)
    policy_bytes ← encoded (serialize_policy policy)
    insert_into meta_retention_tree name policy_bytes

  unfoldable pub declare_queue : Bytes → Exec Db Unit
  unfolding declare_queue_with_retention
  declare_queue name = declare_queue_with_retention name default_policy

  -- The names are keys that `declare_queue` wrote from texts, so `from_utf8` keeps each of them.
  unfoldable pub list_queues : Exec Db (List Bytes)
  unfolding scan collect_ok
  list_queues = do es ← scan meta_queues_tree; read ← collect_ok es; pure (map (λ e. e.0) read)

  -- `len` of one tree of a declared queue.
  unfoldable pub count_in : Bytes → Bytes → Exec Db ℕ
  unfolding expect_queue scan
  count_in queue n = do expect_queue queue; t ← open_tree n; es ← scan t; pure (length es)

  unfoldable pub depth : Bytes → Exec Db ℕ
  unfolding count_in
  depth queue = count_in queue queue

  unfoldable pub scheduled_depth : Bytes → Exec Db ℕ
  unfolding count_in scheduled_tree_name
  scheduled_depth queue = count_in queue (scheduled_tree_name queue)

  unfoldable pub dead_letter_count : Bytes → Exec Db ℕ
  unfolding count_in dlq_tree_name
  dead_letter_count queue = count_in queue (dlq_tree_name queue)
