-- ===== src/Engine/Recover.antt =====
-- pelicanq-core/src/queue.rs: opening a store, the byte count and crash recovery.
use pelican_q.Base.{ℕ, List, [], ◌∷◌, length}
use pelican_q.Bytes.{Bytes}
use pelican_q.Tree.{Tree}
use pelican_q.Word.{wrapping_add}
use pelican_q.Platform.{Platform}
use pelican_q.Exec.{Exec, ◌>>=◌, ◌>>◌, pure, encoded, check, set_bytes, open_tree}
use pelican_q.Engine.Keys.{
  meta_queues_tree, meta_retention_tree, inflight_tree_name, dlq_tree_name, scheduled_tree_name,
  dedup_tree_name, encode_key,
}
use pelican_q.Engine.Calls.{new_id, insert_into, remove_from, scan, collect_ok}
use pelican_q.Engine.Declare.{list_queues}

module _ ⦃p : Platform⦄ where
  open p use {Db, deserialize_message}

  unfoldable pub sum_entries : ℕ → Tree → Exec Db ℕ
  sum_entries total [] = pure total
  sum_entries total ((k, v) ∷ es) = do check; sum_entries (wrapping_add total (length v)) es

  unfoldable pub sum_tree : Bytes → ℕ → Exec Db ℕ
  unfolding scan sum_entries
  sum_tree n total = do t ← open_tree n; es ← scan t; sum_entries total es

  unfoldable pub sum_queues : ℕ → List Bytes → Exec Db ℕ
  unfolding sum_tree
  sum_queues total [] = pure total
  sum_queues total (name ∷ names) = do
    total ← sum_tree name total
    total ← sum_tree (inflight_tree_name name) total
    total ← sum_tree (dlq_tree_name name) total
    total ← sum_tree (scheduled_tree_name name) total
    total ← sum_tree (dedup_tree_name name) total
    sum_queues total names

  unfoldable pub recalculate_bytes : Exec Db ℕ
  unfolding list_queues sum_queues
  recalculate_bytes = do names ← list_queues; sum_queues 0 names

  unfoldable pub reinsert_each : Bytes → Tree → Exec Db Unit
  unfolding new_id insert_into
  reinsert_each queue [] = pure tt
  reinsert_each queue ((k, v) ∷ es) = do
    message ← encoded (deserialize_message v)
    id ← new_id
    insert_into queue (encode_key message.priority id) v
    reinsert_each queue es

  unfoldable pub remove_each : Bytes → Tree → Exec Db Unit
  unfolding remove_from
  remove_each n [] = pure tt
  remove_each n ((k, v) ∷ es) = do remove_from n k; remove_each n es

  -- With no entries both loops do nothing, as `continue` does.
  unfoldable pub recover_queue : Bytes → Exec Db Unit
  unfolding scan collect_ok reinsert_each remove_each
  recover_queue name = do
    inflight ← open_tree (inflight_tree_name name)
    t ← open_tree name
    es ← scan inflight
    read ← collect_ok es
    reinsert_each t read
    remove_each inflight read

  unfoldable pub recover_queues : List Bytes → Exec Db Unit
  unfolding recover_queue
  recover_queues [] = pure tt
  recover_queues (name ∷ names) = do recover_queue name; recover_queues names

  unfoldable pub recover_inflight : Exec Db Unit
  unfolding list_queues recover_queues
  recover_inflight = do names ← list_queues; recover_queues names

  -- `open`, on the manager that the opened database makes: its fields are set here.
  unfoldable pub open_manager : Exec Db Unit
  unfolding recalculate_bytes recover_inflight
  open_manager = do
    check
    open_tree meta_queues_tree
    open_tree meta_retention_tree
    set_bytes 0
    total ← recalculate_bytes
    set_bytes total
    recover_inflight
