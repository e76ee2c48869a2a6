-- ===== src/Engine/Keys.antt =====
-- pelicanq-core/src/queue.rs: the names of the trees of a queue and the keys of their entries.
pub mod Names
pub mod Order
pub mod Numbered
use pelican_q.Base.{ℕ, ◌-◌, List, ◌∷◌, ◌++◌, min}
use pelican_q.Bytes.{Bytes, codes, to_be_bytes}

abbrev pub meta_queues_tree : Bytes
meta_queues_tree = codes "__meta__queues"

abbrev pub meta_retention_tree : Bytes
meta_retention_tree = codes "__meta__retention"

unfoldable pub inflight_tree_name : Bytes → Bytes
inflight_tree_name name = codes "inflight:" ++ name

unfoldable pub dlq_tree_name : Bytes → Bytes
dlq_tree_name name = codes "dlq:" ++ name

unfoldable pub scheduled_tree_name : Bytes → Bytes
scheduled_tree_name name = codes "scheduled:" ++ name

unfoldable pub dedup_tree_name : Bytes → Bytes
dedup_tree_name name = codes "dedup:" ++ name

-- One byte of priority, the highest first, and the id.
unfoldable pub encode_key : ℕ → ℕ → Bytes
encode_key priority id = (9 - min priority 9) ∷ to_be_bytes id

unfoldable pub encode_scheduled_key : ℕ → ℕ → Bytes
encode_scheduled_key deliver_at_ms id = to_be_bytes deliver_at_ms ++ to_be_bytes id
