-- ===== src/Engine/View.antt =====
-- The state of one queue: its five trees, and the bound under which all ids lie. The methods of
-- the engine are described by what they do to it.
pub mod Writes
use pelican_q.Base.{ℕ}
use pelican_q.Bytes.{Bytes}
use pelican_q.Tree.{Tree}
use pelican_q.Platform.{Platform}
use pelican_q.Engine.Keys.{inflight_tree_name, dlq_tree_name, scheduled_tree_name, dedup_tree_name}

pub record View : Type 0 where
  pub main : Tree
  pub inflight : Tree
  pub dead : Tree
  pub scheduled : Tree
  pub dedup : Tree
  pub bound : ℕ

module _ ⦃p : Platform⦄ where
  open p use {Db, entries, issued}

  abbrev pub view : Bytes → Db → View
  view q d = record {
    main = entries q d;
    inflight = entries (inflight_tree_name q) d;
    dead = entries (dlq_tree_name q) d;
    scheduled = entries (scheduled_tree_name q) d;
    dedup = entries (dedup_tree_name q) d;
    bound = issued d;
  }
