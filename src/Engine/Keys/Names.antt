-- ===== src/Engine/Keys/Names.antt =====
-- The five trees of one queue have five names, and none of the four made names is a meta tree's.
use pelican_q.Base.{◌≡◌, refl, false, arith, length-append}
use pelican_q.Bytes.{Bytes, same, codes}
use pelican_q.Bytes.Order.{same_of_length}
use pelican_q.Engine.Keys.{
  meta_queues_tree, meta_retention_tree, inflight_tree_name, dlq_tree_name, scheduled_tree_name,
  dedup_tree_name,
}

module _ (q : Bytes) where
  pub main-ne-inflight : same q (inflight_tree_name q) ≡ false
  unfolding inflight_tree_name
  main-ne-inflight = same_of_length _ _ (omega (arith, length-append (codes "inflight:") q))

  pub main-ne-dead : same q (dlq_tree_name q) ≡ false
  unfolding dlq_tree_name
  main-ne-dead = same_of_length _ _ (omega (arith, length-append (codes "dlq:") q))

  pub main-ne-scheduled : same q (scheduled_tree_name q) ≡ false
  unfolding scheduled_tree_name
  main-ne-scheduled = same_of_length _ _ (omega (arith, length-append (codes "scheduled:") q))

  pub main-ne-dedup : same q (dedup_tree_name q) ≡ false
  unfolding dedup_tree_name
  main-ne-dedup = same_of_length _ _ (omega (arith, length-append (codes "dedup:") q))

  pub inflight-ne-main : same (inflight_tree_name q) q ≡ false
  unfolding inflight_tree_name
  inflight-ne-main = same_of_length _ _ (omega (arith, length-append (codes "inflight:") q))

  pub inflight-ne-dead : same (inflight_tree_name q) (dlq_tree_name q) ≡ false
  unfolding inflight_tree_name dlq_tree_name
  inflight-ne-dead =
      same_of_length _ _
        (omega (arith, length-append (codes "inflight:") q, length-append (codes "dlq:") q))

  pub inflight-ne-scheduled : same (inflight_tree_name q) (scheduled_tree_name q) ≡ false
  unfolding inflight_tree_name scheduled_tree_name
  inflight-ne-scheduled =
      same_of_length _ _
        (omega (arith, length-append (codes "inflight:") q, length-append (codes "scheduled:") q))

  pub inflight-ne-dedup : same (inflight_tree_name q) (dedup_tree_name q) ≡ false
  unfolding inflight_tree_name dedup_tree_name
  inflight-ne-dedup =
      same_of_length _ _
        (omega (arith, length-append (codes "inflight:") q, length-append (codes "dedup:") q))

  pub dead-ne-main : same (dlq_tree_name q) q ≡ false
  unfolding dlq_tree_name
  dead-ne-main = same_of_length _ _ (omega (arith, length-append (codes "dlq:") q))

  pub dead-ne-inflight : same (dlq_tree_name q) (inflight_tree_name q) ≡ false
  unfolding dlq_tree_name inflight_tree_name
  dead-ne-inflight =
      same_of_length _ _
        (omega (arith, length-append (codes "dlq:") q, length-append (codes "inflight:") q))

  pub dead-ne-scheduled : same (dlq_tree_name q) (scheduled_tree_name q) ≡ false
  unfolding dlq_tree_name scheduled_tree_name
  dead-ne-scheduled =
      same_of_length _ _
        (omega (arith, length-append (codes "dlq:") q, length-append (codes "scheduled:") q))

  pub dead-ne-dedup : same (dlq_tree_name q) (dedup_tree_name q) ≡ false
  unfolding dlq_tree_name dedup_tree_name
  dead-ne-dedup =
      same_of_length _ _
        (omega (arith, length-append (codes "dlq:") q, length-append (codes "dedup:") q))

  pub scheduled-ne-main : same (scheduled_tree_name q) q ≡ false
  unfolding scheduled_tree_name
  scheduled-ne-main = same_of_length _ _ (omega (arith, length-append (codes "scheduled:") q))

  pub scheduled-ne-inflight : same (scheduled_tree_name q) (inflight_tree_name q) ≡ false
  unfolding scheduled_tree_name inflight_tree_name
  scheduled-ne-inflight =
      same_of_length _ _
        (omega (arith, length-append (codes "scheduled:") q, length-append (codes "inflight:") q))

  pub scheduled-ne-dead : same (scheduled_tree_name q) (dlq_tree_name q) ≡ false
  unfolding scheduled_tree_name dlq_tree_name
  scheduled-ne-dead =
      same_of_length _ _
        (omega (arith, length-append (codes "scheduled:") q, length-append (codes "dlq:") q))

  pub scheduled-ne-dedup : same (scheduled_tree_name q) (dedup_tree_name q) ≡ false
  unfolding scheduled_tree_name dedup_tree_name
  scheduled-ne-dedup =
      same_of_length _ _
        (omega (arith, length-append (codes "scheduled:") q, length-append (codes "dedup:") q))

  pub dedup-ne-main : same (dedup_tree_name q) q ≡ false
  unfolding dedup_tree_name
  dedup-ne-main = same_of_length _ _ (omega (arith, length-append (codes "dedup:") q))

  pub dedup-ne-inflight : same (dedup_tree_name q) (inflight_tree_name q) ≡ false
  unfolding dedup_tree_name inflight_tree_name
  dedup-ne-inflight =
      same_of_length _ _
        (omega (arith, length-append (codes "dedup:") q, length-append (codes "inflight:") q))

  pub dedup-ne-dead : same (dedup_tree_name q) (dlq_tree_name q) ≡ false
  unfolding dedup_tree_name dlq_tree_name
  dedup-ne-dead =
      same_of_length _ _
        (omega (arith, length-append (codes "dedup:") q, length-append (codes "dlq:") q))

  pub dedup-ne-scheduled : same (dedup_tree_name q) (scheduled_tree_name q) ≡ false
  unfolding dedup_tree_name scheduled_tree_name
  dedup-ne-scheduled =
      same_of_length _ _
        (omega (arith, length-append (codes "dedup:") q, length-append (codes "scheduled:") q))

  -- The names that the engine makes are not those of the meta trees.
  pub inflight-ne-meta : same (inflight_tree_name q) meta_queues_tree ≡ false
  unfolding same inflight_tree_name
  inflight-ne-meta = refl

  pub dead-ne-meta : same (dlq_tree_name q) meta_queues_tree ≡ false
  unfolding same dlq_tree_name
  dead-ne-meta = refl

  pub scheduled-ne-meta : same (scheduled_tree_name q) meta_queues_tree ≡ false
  unfolding same scheduled_tree_name
  scheduled-ne-meta = refl

  pub dedup-ne-meta : same (dedup_tree_name q) meta_queues_tree ≡ false
  unfolding same dedup_tree_name
  dedup-ne-meta = refl

  pub inflight-ne-retention : same (inflight_tree_name q) meta_retention_tree ≡ false
  unfolding same inflight_tree_name
  inflight-ne-retention = refl

  pub dedup-ne-retention : same (dedup_tree_name q) meta_retention_tree ≡ false
  unfolding same dedup_tree_name
  dedup-ne-retention = refl

  pub scheduled-ne-retention : same (scheduled_tree_name q) meta_retention_tree ≡ false
  unfolding same scheduled_tree_name
  scheduled-ne-retention = refl

pub ruleset tree_names = (
  main-ne-inflight, main-ne-dead, main-ne-scheduled, main-ne-dedup, inflight-ne-main,
  inflight-ne-dead, inflight-ne-scheduled, inflight-ne-dedup, dead-ne-main, dead-ne-inflight,
  dead-ne-scheduled, dead-ne-dedup, scheduled-ne-main, scheduled-ne-inflight, scheduled-ne-dead,
  scheduled-ne-dedup, dedup-ne-main, dedup-ne-inflight, dedup-ne-dead, dedup-ne-scheduled,
)
