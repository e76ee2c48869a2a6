-- ===== src/Engine/Retain.antt =====
-- pelicanq-core/src/queue.rs: `apply_retention`.
use pelican_q.Base.{
  ℕ, zero, suc, ◌+◌, ◌-◌, Bool, true, false, [], ◌∷◌, Option, none, some, ltb, length,
  if◌then◌else◌,
}
use pelican_q.Bytes.{Bytes}
use pelican_q.Tree.{Tree}
use pelican_q.Word.{wrapping_sub, wrapping_mul, signed_lt}
use pelican_q.Message.{Message}
use pelican_q.Platform.{Platform}
use pelican_q.Exec.{Exec, ◌>>=◌, ◌>>◌, pure, encoded, check, now_ms, set_bytes, open_tree}
use pelican_q.Engine.Calls.{expect_queue, read_policy, scan}
use pelican_q.Engine.Recover.{remove_each, recalculate_bytes}

-- The age of the message has reached the limit.
unfoldable pub is_young : ℕ → ℕ → Message → Bool
is_young now max_age_ms m = signed_lt (wrapping_sub now m.timestamp) max_age_ms

module _ ⦃p : Platform⦄ where
  open p use {Db, deserialize_message}

  unfoldable pub collect_old : ℕ → ℕ → Tree → Exec Db Tree
  collect_old now max_age_ms [] = pure []
  collect_old now max_age_ms ((k, v) ∷ es) = do
    check
    m ← encoded (deserialize_message v)
    rest ← collect_old now max_age_ms es
    pure (if is_young now max_age_ms m then rest else (k, v) ∷ rest)

  unfoldable pub remove_old : Bytes → Option ℕ → Exec Db ℕ
  unfolding scan collect_old remove_each
  remove_old queue none = pure 0
  remove_old queue (some max_age_secs) = do
    now ← now_ms
    es ← scan queue
    old ← collect_old now (wrapping_mul max_age_secs 1000) es
    remove_each queue old
    pure (length old)

  -- The first entries of the tree, as many as are asked for.
  unfoldable pub collect_first : ℕ → Tree → Exec Db Tree
  collect_first zero es = pure []
  collect_first (suc n) [] = pure []
  collect_first (suc n) ((k, v) ∷ es) = do check; rest ← collect_first n es; pure ((k, v) ∷ rest)

  unfoldable pub remove_first : Bytes → ℕ → Tree → Exec Db ℕ
  unfolding collect_first remove_each
  remove_first queue excess es = do
    first ← collect_first excess es
    remove_each queue first
    pure (length first)

  unfoldable pub remove_excess : Bytes → Option ℕ → Exec Db ℕ
  unfolding scan remove_first
  remove_excess queue none = pure 0
  remove_excess queue (some max_messages) = do
    es ← scan queue
    if ltb max_messages (length es)
        then remove_first queue (length es - max_messages) es
        else pure 0

  unfoldable pub recount_if : Bool → Exec Db Unit
  unfolding recalculate_bytes
  recount_if false = pure tt
  recount_if true = do total ← recalculate_bytes; set_bytes total

  unfoldable pub retain_by : Bytes → Option ℕ → Option ℕ → Exec Db ℕ
  unfolding remove_old remove_excess recount_if
  retain_by queue none none = pure 0
  retain_by queue max_age_secs max_messages = do
    t ← open_tree queue
    by_age ← remove_old t max_age_secs
    by_count ← remove_excess t max_messages
    recount_if (ltb 0 (by_age + by_count))
    pure (by_age + by_count)

  unfoldable pub apply_retention : Bytes → Exec Db ℕ
  unfolding expect_queue read_policy retain_by
  apply_retention queue = do
    expect_queue queue
    policy ← read_policy queue
    retain_by queue policy.max_age_secs policy.max_messages
