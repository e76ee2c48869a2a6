-- ===== src/Engine/Nack.antt =====
-- pelicanq-core/src/queue.rs: `nack`, which requeues a message or routes it to the dead letters.
use pelican_q.Base.{ℕ, ◌+◌, ◌%◌, Bool, false, ◌&&◌, Option, none, some, ltb, leb, if◌then◌else◌}
use pelican_q.Bytes.{Bytes, to_be_bytes}
use pelican_q.Failure.{invalid_delivery_tag, done, failed}
use pelican_q.Message.{Message, DeliveryTag}
use pelican_q.Platform.{Platform}
use pelican_q.Exec.{Exec, ◌>>=◌, ◌>>◌, raise, gets, check, update_db, open_tree}
use pelican_q.Engine.Keys.{inflight_tree_name, dlq_tree_name, encode_key}
use pelican_q.Engine.Calls.{expect_queue, read_policy, new_id}

-- `delivery_attempts += 1` on u32.
unfoldable pub attempted_again : Message → Message
attempted_again m = record m { delivery_attempts = (m.delivery_attempts + 1) % 4294967296 }

-- The message has reached a limit that is above 0.
unfoldable pub is_dead : Option ℕ → Message → Bool
is_dead none m = false
is_dead (some max) m = ltb 0 max && leb max m.delivery_attempts

module _ ⦃p : Platform⦄ where
  open p use {Db, get, insert, remove, serialize_message, deserialize_message}

  -- What the transaction writes: the message and its new value. `none` where it aborts.
  unfoldable pub next_attempt : Option Bytes → Option (Message × Bytes)
  unfolding attempted_again
  next_attempt none = none
  next_attempt (some value) = elim (deserialize_message value) [
    | failed e ↦ none
    | done m ↦ elim (serialize_message (attempted_again m)) [
      | failed e ↦ none
      | done new_value ↦ some (attempted_again m, new_value)
    ]
  ]

  abbrev pub requeue_tree : Bytes → Option ℕ → Message → Bytes
  requeue_tree queue max_attempts m = if is_dead max_attempts m then dlq_tree_name queue else queue

  unfoldable pub settle_nack :
      Bytes → DeliveryTag → Option ℕ → ℕ → Option (Message × Bytes) → Exec Db Unit
  settle_nack queue tag max_attempts id none = raise (invalid_delivery_tag tag)
  settle_nack queue tag max_attempts id (some (m, new_value)) = update_db (λ d.
      insert (requeue_tree queue max_attempts m) (encode_key m.priority id) new_value
        (remove (inflight_tree_name queue) (to_be_bytes tag) d))

  unfoldable pub nack : Bytes → DeliveryTag → Exec Db Unit
  unfolding expect_queue read_policy new_id next_attempt settle_nack
  nack queue tag = do
    expect_queue queue
    policy ← read_policy queue
    open_tree queue
    n ← open_tree (inflight_tree_name queue)
    open_tree (dlq_tree_name queue)
    id ← new_id
    check
    old ← gets (λ w. get n (to_be_bytes tag) w.db)
    settle_nack queue tag policy.max_delivery_attempts id (next_attempt old)
