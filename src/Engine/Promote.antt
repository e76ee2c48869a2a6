-- ===== src/Engine/Promote.antt =====
-- pelicanq-core/src/queue.rs: `promote_scheduled`.
use pelican_q.Base.{ℕ, suc, [], ◌∷◌, if◌then◌else◌}
use pelican_q.Bytes.{Bytes}
use pelican_q.Tree.{Tree}
use pelican_q.Word.{signed_lt}
use pelican_q.Platform.{Platform}
use pelican_q.Exec.{Exec, ◌>>=◌, ◌>>◌, pure, encoded, check, now_ms, update_db, open_tree}
use pelican_q.Engine.Keys.{scheduled_tree_name, encode_key}
use pelican_q.Engine.Calls.{read_be64, expect_queue, new_id, scan}

module _ ⦃p : Platform⦄ where
  open p use {Db, insert, remove, deserialize_message}

  -- The entries up to the first that is not due.
  unfoldable pub collect_due : ℕ → Tree → Exec Db Tree
  unfolding read_be64
  collect_due now [] = pure []
  collect_due now ((k, v) ∷ es) = do
    check
    deliver_at ← read_be64 k
    if signed_lt now deliver_at then pure [] else do rest ← collect_due now es; pure ((k, v) ∷ rest)

  unfoldable pub promote_each : Bytes → Bytes → Tree → Exec Db ℕ
  unfolding new_id
  promote_each scheduled queue [] = pure 0
  promote_each scheduled queue ((k, v) ∷ es) = do
    message ← encoded (deserialize_message v)
    id ← new_id
    check
    update_db (λ d. insert queue (encode_key message.priority id) v (remove scheduled k d))
    promoted ← promote_each scheduled queue es
    pure (suc promoted)

  unfoldable pub promote_scheduled : Bytes → Exec Db ℕ
  unfolding expect_queue scan collect_due promote_each
  promote_scheduled queue = do
    expect_queue queue
    scheduled ← open_tree (scheduled_tree_name queue)
    t ← open_tree queue
    now ← now_ms
    es ← scan scheduled
    to_promote ← collect_due now es
    promote_each scheduled t to_promote
