-- ===== src/Engine/View/Writes.antt =====
-- A write to one tree of a queue changes that tree of its view, and nothing else.
use pelican_q.Base.{◌≡◌}
use pelican_q.Bytes.{Bytes}
use pelican_q.Bytes.Order.{same_refl}
use pelican_q.Tree.{put, without}
use pelican_q.Platform.{Platform}
use pelican_q.Engine.Keys.{inflight_tree_name, dlq_tree_name, scheduled_tree_name, dedup_tree_name}
use pelican_q.Engine.Keys.Names.{tree_names}
use pelican_q.Engine.View.{view}

module _ ⦃p : Platform⦄ (q : Bytes) where
  open p use {
    Db, insert, remove, generate_id, issued, entries-insert, entries-remove, entries-generate_id,
    issued-insert, issued-remove,
  }

  pub view-generate_id :
      (d : Db) → view q (generate_id d).1 ≡ record (view q d) { bound = issued (generate_id d).1 }
  view-generate_id d = simp entries-generate_id

  pub view-insert_main :
      (k v : Bytes) (d : Db)
      → view q (insert q k v d) ≡ record (view q d) { main = put k v (view q d).main }
  view-insert_main k v d = simp (entries-insert, issued-insert, same_refl, tree_names)

  pub view-insert_inflight :
      (k v : Bytes) (d : Db)
      → view q (insert (inflight_tree_name q) k v d)
        ≡ record (view q d) { inflight = put k v (view q d).inflight }
  view-insert_inflight k v d = simp (entries-insert, issued-insert, same_refl, tree_names)

  pub view-insert_dead :
      (k v : Bytes) (d : Db)
      → view q (insert (dlq_tree_name q) k v d)
        ≡ record (view q d) { dead = put k v (view q d).dead }
  view-insert_dead k v d = simp (entries-insert, issued-insert, same_refl, tree_names)

  pub view-insert_scheduled :
      (k v : Bytes) (d : Db)
      → view q (insert (scheduled_tree_name q) k v d)
        ≡ record (view q d) { scheduled = put k v (view q d).scheduled }
  view-insert_scheduled k v d = simp (entries-insert, issued-insert, same_refl, tree_names)

  pub view-insert_dedup :
      (k v : Bytes) (d : Db)
      → view q (insert (dedup_tree_name q) k v d)
        ≡ record (view q d) { dedup = put k v (view q d).dedup }
  view-insert_dedup k v d = simp (entries-insert, issued-insert, same_refl, tree_names)

  pub view-remove_main :
      (k : Bytes) (d : Db)
      → view q (remove q k d) ≡ record (view q d) { main = without k (view q d).main }
  view-remove_main k d = simp (entries-remove, issued-remove, same_refl, tree_names)

  pub view-remove_inflight :
      (k : Bytes) (d : Db)
      → view q (remove (inflight_tree_name q) k d)
        ≡ record (view q d) { inflight = without k (view q d).inflight }
  view-remove_inflight k d = simp (entries-remove, issued-remove, same_refl, tree_names)

  pub view-remove_scheduled :
      (k : Bytes) (d : Db)
      → view q (remove (scheduled_tree_name q) k d)
        ≡ record (view q d) { scheduled = without k (view q d).scheduled }
  view-remove_scheduled k d = simp (entries-remove, issued-remove, same_refl, tree_names)
