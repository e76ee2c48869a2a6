-- ===== src/Engine/Sound/Declare.antt =====
-- `declare_queue` keeps the invariant of the queue.
use pelican_q.Base.{◌≡◌, sym, subst, false, not, []}
use pelican_q.Bytes.{Bytes, same}
use pelican_q.Message.{RetentionPolicy}
use pelican_q.Platform.{Platform}
use pelican_q.Exec.{Manager}
use pelican_q.Exec.Ensures.{Ensures, Settles, next, encoded-Ensures, require-Ensures, open_then}
use pelican_q.Engine.Keys.{
  meta_queues_tree, meta_retention_tree, inflight_tree_name, dlq_tree_name, scheduled_tree_name,
  dedup_tree_name,
}
use pelican_q.Engine.Declare.{declare_queue_with_retention}
use pelican_q.Engine.View.{view}
use pelican_q.Engine.Sound.{IsSound}
use pelican_q.Engine.Sound.Calls.{SoundAt, contains_queue-Ensures, insert_into-Ensures}
use pelican_q.Engine.Sound.Recount.{Any}

-- A write to a metadata tree is none to the trees of a queue that is not named as it.
module _ ⦃p : Platform⦄ (q : Bytes) where
  open p use {Db, entries, insert, entries-insert, issued-insert, serialize_policy}

  pub view-insert_queues :
      (k v : Bytes) (d : Db)
      → same meta_queues_tree q ≡ false
      → view q (insert meta_queues_tree k v d) ≡ view q d
  unfolding same inflight_tree_name dlq_tree_name scheduled_tree_name dedup_tree_name
  view-insert_queues k v d h = simp (entries-insert, issued-insert, h)

  pub view-insert_retention :
      (k v : Bytes) (d : Db)
      → same meta_retention_tree q ≡ false
      → view q (insert meta_retention_tree k v d) ≡ view q d
  unfolding same inflight_tree_name dlq_tree_name scheduled_tree_name dedup_tree_name
  view-insert_retention k v d h = simp (entries-insert, issued-insert, h)

  module _ (queues : same meta_queues_tree q ≡ false)
      (retention : same meta_retention_tree q ≡ false) where
    declare-Ensures :
        (name : Bytes) (policy : RetentionPolicy)
        → Ensures (SoundAt q) (λ d. Unit {0}) (declare_queue_with_retention name policy) Any
    unfolding declare_queue_with_retention
    declare-Ensures name policy = next (contains_queue-Ensures q name) (λ declared.
        next (require-Ensures (not declared) _) (λ _.
          next
            (insert_into-Ensures q (λ d. Unit {0}) meta_queues_tree name []
              (λ d i x. (subst IsSound (sym (view-insert_queues name [] d queues)) i, tt)))
            (λ _. open_then name _ (
              open_then (inflight_tree_name name) _ (
                open_then (dlq_tree_name name) _ (
                  open_then (scheduled_tree_name name) _ (
                    open_then (dedup_tree_name name) _ (
                      next (encoded-Ensures (serialize_policy policy)) (λ policy_bytes.
                        insert_into-Ensures q (λ d. Unit {0}) meta_retention_tree name _
                          (λ d i x. (
                            subst IsSound (sym (view-insert_retention name _ d retention)) i,
                            tt,
                          )))))))))))

    -- `declare_queue_with_retention` of any queue, whichever calls of sled fail, keeps a sound
    -- queue sound that is not named as a metadata tree, and the call returns or reports an error.
    pub declare_queue_with_retention-IsSound :
        (name : Bytes) (policy : RetentionPolicy) (w : Manager Db)
        → IsSound (view q w.db)
        → Settles (SoundAt q) (declare_queue_with_retention name policy w)
    declare_queue_with_retention-IsSound name policy w i = (declare-Ensures name policy).at w i tt
