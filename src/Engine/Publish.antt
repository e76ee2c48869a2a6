-- ===== src/Engine/Publish.antt =====
-- pelicanq-core/src/queue.rs: `publish`, with deduplication, the storage limit and scheduling.
use pelican_q.Base.{ℕ, ◌*◌, ◌/◌, ◌%◌, Bool, false, Option, none, some, ltb, length, if◌then◌else◌}
use pelican_q.Bytes.{Bytes, to_be_bytes}
use pelican_q.Bytes.RoundTrip.{u64_mod}
use pelican_q.Word.{wrapping_add, wrapping_sub, wrapping_mul, signed_lt}
use pelican_q.Failure.{storage_limit_exceeded}
use pelican_q.Message.{Message, RetentionPolicy}
use pelican_q.Platform.{Platform}
use pelican_q.Exec.{
  Exec, ◌>>=◌, ◌>>◌, pure, raise, gets, encoded, check, now_ms, set_bytes, open_tree,
}
use pelican_q.Engine.Keys.{dedup_tree_name, scheduled_tree_name, encode_key, encode_scheduled_key}
use pelican_q.Engine.Calls.{read_be64, expect_queue, read_policy, new_id, insert_into}

pub data PublishOutcome : Type 0 where
  stored : ℕ → PublishOutcome
  deduplicated : PublishOutcome

-- The percentage in the error, `as u8`.
unfoldable pub used_pct : ℕ → ℕ → ℕ
used_pct current_bytes max = if ltb 0 max then current_bytes * 100 % u64_mod / max % 256 else 100

module _ ⦃p : Platform⦄ where
  open p use {Db, get, serialize_message}

  unfoldable pub is_recent : ℕ → Option Bytes → Exec Db Bool
  unfolding read_be64
  is_recent window_secs none = pure false
  is_recent window_secs (some recorded) = do
    recorded_ms ← read_be64 recorded
    now ← now_ms
    pure (signed_lt (wrapping_sub now (wrapping_mul window_secs 1000)) recorded_ms)

  unfoldable pub seen_within : Bytes → ℕ → Bytes → Exec Db Bool
  unfolding is_recent
  seen_within queue window_secs key = do
    n ← open_tree (dedup_tree_name queue)
    check
    recorded ← gets (λ w. get n key w.db)
    is_recent window_secs recorded

  -- The check is made if the queue has a window above 0 and the message a key.
  unfoldable pub is_duplicate : Bytes → Option ℕ → Option Bytes → Exec Db Bool
  unfolding seen_within
  is_duplicate queue none key = pure false
  is_duplicate queue (some window_secs) none = pure false
  is_duplicate queue (some window_secs) (some key) =
      if ltb 0 window_secs then seen_within queue window_secs key else pure false

  unfoldable pub check_limit_of : Option ℕ → ℕ → ℕ → Exec Db Unit
  unfolding used_pct
  check_limit_of none current_bytes msg_len = pure tt
  check_limit_of (some max) current_bytes msg_len =
      if ltb max (wrapping_add current_bytes msg_len)
      then raise (storage_limit_exceeded (used_pct current_bytes max) 100)
      else pure tt

  unfoldable pub check_limit : ℕ → Exec Db Unit
  unfolding check_limit_of
  check_limit msg_len w = check_limit_of w.max_bytes w.current_bytes msg_len w

  unfoldable pub record_dedup_at : Bytes → Option ℕ → Option Bytes → Exec Db Unit
  unfolding insert_into
  record_dedup_at queue none key = pure tt
  record_dedup_at queue (some window_secs) none = pure tt
  record_dedup_at queue (some window_secs) (some key) = do
    n ← open_tree (dedup_tree_name queue)
    now ← now_ms
    insert_into n key (to_be_bytes now)

  unfoldable pub record_dedup_key : Bytes → Message → RetentionPolicy → Exec Db Unit
  unfolding record_dedup_at
  record_dedup_key queue message policy =
      record_dedup_at queue policy.dedup_window_secs message.dedup_key

  -- The delivery time, if it is still to come.
  unfoldable pub future_delivery : Option ℕ → Exec Db (Option ℕ)
  future_delivery none = pure none
  future_delivery (some deliver_at) = do
    now ← now_ms
    pure (if signed_lt now deliver_at then some deliver_at else none)

  abbrev pub target_tree : Bytes → Option ℕ → Bytes
  target_tree queue none = queue
  target_tree queue (some deliver_at) = scheduled_tree_name queue

  abbrev pub target_key : ℕ → ℕ → Option ℕ → Bytes
  target_key priority id none = encode_key priority id
  target_key priority id (some deliver_at) = encode_scheduled_key deliver_at id

  -- The two endings of `publish` differ in the tree and the key alone.
  unfoldable pub store_message : Bytes → Message → RetentionPolicy → Exec Db PublishOutcome
  unfolding check_limit new_id insert_into record_dedup_key future_delivery
  store_message queue message policy = do
    value ← encoded (serialize_message message)
    check_limit (length value)
    id ← new_id
    later ← future_delivery message.deliver_at
    n ← open_tree (target_tree queue later)
    insert_into n (target_key message.priority id later) value
    current_bytes ← gets (λ w. w.current_bytes)
    set_bytes (wrapping_add current_bytes (length value))
    record_dedup_key queue message policy
    pure (stored message.id)

  unfoldable pub publish : Bytes → Message → Exec Db PublishOutcome
  unfolding expect_queue read_policy is_duplicate store_message
  publish queue message = do
    expect_queue queue
    policy ← read_policy queue
    duplicate ← is_duplicate queue policy.dedup_window_secs message.dedup_key
    if duplicate then pure deduplicated else store_message queue message policy
