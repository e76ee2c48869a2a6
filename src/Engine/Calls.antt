-- ===== src/Engine/Calls.antt =====
-- pelicanq-core/src/queue.rs: the calls of sled and bincode that the methods share, and the checks
-- that begin each method.
use pelican_q.Base.{
  ℕ, Bool, true, false, [], ◌∷◌, Option, none, some, ltb, length, take, if◌then◌else◌,
}
use pelican_q.Bytes.{Bytes, from_be_bytes}
use pelican_q.Tree.{Tree}
use pelican_q.Failure.{queue_not_found, done, failed}
use pelican_q.Message.{RetentionPolicy, default_policy}
use pelican_q.Platform.{Platform}
use pelican_q.Exec.{Exec, ◌>>=◌, ◌>>◌, pure, panics, gets, attempt, require, check, update_db}
use pelican_q.Engine.Keys.{meta_queues_tree, meta_retention_tree}

abbrev pub is_some {ℓ} : {A : Type ℓ} → Option A → Bool
is_some none = false
is_some (some a) = true

-- The eight bytes that `[..8]` takes, as a number; a shorter slice panics.
unfoldable pub read_be64 : {Db : Type 0} → Bytes → Exec Db ℕ
read_be64 b = if ltb (length b) 8 then panics else pure (from_be_bytes 0 (take 8 b))

module _ ⦃p : Platform⦄ where
  open p use {Db, entries, get, insert, remove, generate_id, deserialize_policy}

  -- `contains_key` on the tree of declared queues.
  unfoldable pub contains_queue : Bytes → Exec Db Bool
  contains_queue q = do check; found ← gets (λ w. get meta_queues_tree q w.db); pure (is_some found)

  unfoldable pub expect_queue : Bytes → Exec Db Unit
  unfolding contains_queue
  expect_queue q = do declared ← contains_queue q; require declared (queue_not_found q)

  unfoldable pub policy_or_default : Option Bytes → RetentionPolicy
  policy_or_default none = default_policy
  policy_or_default (some b) = elim (deserialize_policy b) [
    | done r ↦ r
    | failed e ↦ default_policy
  ]

  unfoldable pub read_policy : Bytes → Exec Db RetentionPolicy
  unfolding policy_or_default
  read_policy q = do
    check
    stored ← gets (λ w. get meta_retention_tree q w.db)
    pure (policy_or_default stored)

  unfoldable pub new_id : Exec Db ℕ
  new_id = do
    check
    id ← gets (λ w. (generate_id w.db).0)
    update_db (λ d. (generate_id d).1)
    pure id

  unfoldable pub insert_into : Bytes → Bytes → Bytes → Exec Db Unit
  insert_into n k v = do check; update_db (insert n k v)

  unfoldable pub remove_from : Bytes → Bytes → Exec Db Unit
  remove_from n k = do check; update_db (remove n k)

  unfoldable pub scan : Bytes → Exec Db Tree
  scan n = gets (λ w. entries n w.db)

  -- `filter_map(|e| e.ok())`: entries that cannot be read are left out.
  unfoldable pub collect_ok : Tree → Exec Db Tree
  collect_ok [] = pure []
  collect_ok (e ∷ es) = do
    read ← attempt check
    rest ← collect_ok es
    pure (if is_some read then e ∷ rest else rest)
