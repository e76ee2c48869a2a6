-- ===== src/Engine/Sound/Recount.antt =====
-- Counting the bytes keeps the invariant of the queue.
use pelican_q.Base.{ℕ, List, [], ◌∷◌, length}
use pelican_q.Bytes.{Bytes}
use pelican_q.Tree.{Tree}
use pelican_q.Platform.{Platform}
use pelican_q.Exec.Ensures.{
  Ensures, next, from_less, pure-Ensures, gets-Ensures, check-Ensures, attempt-Ensures, open_then,
}
use pelican_q.Engine.Keys.{
  meta_queues_tree, inflight_tree_name, dlq_tree_name, scheduled_tree_name, dedup_tree_name,
}
use pelican_q.Engine.Calls.{scan, collect_ok}
use pelican_q.Engine.Declare.{list_queues}
use pelican_q.Engine.Recover.{sum_entries, sum_tree, sum_queues, recalculate_bytes}
use pelican_q.Engine.Sound.Calls.{SoundAt}
use pelican_q.Word.{wrapping_add}

abbrev pub Any : {Db A : Type 0} → A → Db → Type 0
Any a d = Unit {0}

module _ ⦃p : Platform⦄ (q : Bytes) where
  open p use {Db, entries}

  collect_ok-Ensures : (es : Tree) → Ensures (SoundAt q) (λ d. Unit {0}) (collect_ok es) Any
  unfolding collect_ok
  collect_ok-Ensures [] = pure-Ensures Any [] (λ d i x. tt)
  collect_ok-Ensures (e ∷ es) =
      next attempt-Ensures
        (λ read. next (collect_ok-Ensures es) (λ rest. pure-Ensures Any _ (λ d i x. tt)))

  sum_entries-Ensures :
      (total : ℕ) (es : Tree) → Ensures (SoundAt q) (λ d. Unit {0}) (sum_entries total es) Any
  unfolding sum_entries
  sum_entries-Ensures total [] = pure-Ensures Any total (λ d i x. tt)
  sum_entries-Ensures total ((k, v) ∷ es) =
      next check-Ensures (λ _. sum_entries-Ensures (wrapping_add total (length v)) es)

  sum_tree-Ensures :
      (n : Bytes) (total : ℕ) → Ensures (SoundAt q) (λ d. Unit {0}) (sum_tree n total) Any
  unfolding sum_tree scan
  sum_tree-Ensures n total = open_then n _ (
      next (gets-Ensures (entries n))
        (λ es. from_less (λ d i x. tt) (sum_entries-Ensures total es)))

  sum_queues-Ensures :
      (total : ℕ) (names : List Bytes)
      → Ensures (SoundAt q) (λ d. Unit {0}) (sum_queues total names) Any
  unfolding sum_queues
  sum_queues-Ensures total [] = pure-Ensures Any total (λ d i x. tt)
  sum_queues-Ensures total (name ∷ names) = next (sum_tree-Ensures name total) (λ main.
      next (sum_tree-Ensures (inflight_tree_name name) main) (λ inflight.
        next (sum_tree-Ensures (dlq_tree_name name) inflight) (λ dead.
          next (sum_tree-Ensures (scheduled_tree_name name) dead) (λ scheduled.
            next (sum_tree-Ensures (dedup_tree_name name) scheduled)
              (λ all. sum_queues-Ensures all names)))))

  pub list_queues-Ensures : Ensures (SoundAt q) (λ d. Unit {0}) list_queues Any
  unfolding list_queues
  list_queues-Ensures = next (gets-Ensures (entries meta_queues_tree)) (λ es.
      next (from_less (λ d i x. tt) (collect_ok-Ensures es))
        (λ read. pure-Ensures Any _ (λ d i x. tt)))

  pub recalculate_bytes-Ensures : Ensures (SoundAt q) (λ d. Unit {0}) recalculate_bytes Any
  unfolding recalculate_bytes
  recalculate_bytes-Ensures = next list_queues-Ensures (λ names. sum_queues-Ensures 0 names)
