-- ===== src/Engine/Effect/Declared.antt =====
-- What declaring a queue changes.
use pelican_q.Base.{◌≡◌, refl, ◌∙◌, false, [], none, some}
use pelican_q.Bytes.{Bytes, same}
use pelican_q.Bytes.Order.{same_refl}
use pelican_q.Tree.Lookup.{lookup-put}
use pelican_q.Failure.{ok, err, done, queue_not_found, queue_already_exists}
use pelican_q.Message.{Message, RetentionPolicy}
use pelican_q.Platform.{Platform}
use pelican_q.Exec.{Manager, ◌>>=◌, open_tree}
use pelican_q.Engine.Keys.{meta_queues_tree, meta_retention_tree}
use pelican_q.Engine.Calls.{policy_or_default}
use pelican_q.Engine.Declare.{declare_queue_with_retention}
use pelican_q.Engine.Publish.{publish}
use pelican_q.Engine.Consume.{consume}
use pelican_q.Engine.View.{view}
use pelican_q.Engine.Sound.Declare.{view-insert_queues, view-insert_retention}
use pelican_q.Engine.Effect.{calm, IsDeclared}
use pelican_q.Engine.Effect.Store.{policy_of}

module _ ⦃p : Platform⦄ (q : Bytes) where
  open p use {
    Db, get, insert, get-entries, entries-insert, serialize_policy, deserialize_policy,
    policy_round_trip,
  }

  abbrev declared_db : Bytes → Db → Db
  declared_db b d = insert meta_retention_tree q b (insert meta_queues_tree q [] d)

  IsDeclared-declared_db : (b : Bytes) (d : Db) → IsDeclared q (declared_db b d)
  unfolding same
  IsDeclared-declared_db b d = ([], simp (get-entries, entries-insert, lookup-put, same_refl) refl)

  policy_of-declared_db :
      (policy : RetentionPolicy) (b : Bytes) (d : Db)
      → serialize_policy policy ≡ done b
      → policy_of q (declared_db b d) ≡ policy
  unfolding policy_or_default
  policy_of-declared_db policy b d encodes =
      let held : get meta_retention_tree q (declared_db b d) ≡ some b =
        simp (get-entries, entries-insert, lookup-put, same_refl) refl in
      rw held (rw (policy_round_trip policy b encodes, policy_or_default) refl)

  declare-inserts :
      (w : Manager Db) (policy : RetentionPolicy) (b : Bytes)
      → get meta_queues_tree q w.db ≡ none
      → serialize_policy policy ≡ done b
      → declare_queue_with_retention q policy (calm w)
        ≡ (ok tt, record (calm w) { db = declared_db b w.db })
  unfolding declare_queue_with_retention open_tree ◌>>=◌
  declare-inserts w policy b missing encodes = rw missing (rw encodes refl)

  declare-again :
      (w : Manager Db) (policy : RetentionPolicy)
      → IsDeclared q w.db
      → declare_queue_with_retention q policy (calm w) ≡ (err (queue_already_exists q), calm w)
  unfolding declare_queue_with_retention ◌>>=◌
  declare-again w policy declared = rw declared.1 refl

  -- On a queue that is not declared and not named as a metadata tree, when no call of sled fails:
  -- `publish` and `consume` report that there is no such queue and change nothing. When it is
  -- declared with a policy that encodes, it is there with that policy, and its five trees and the
  -- byte count are as they were. To declare it a second time, with any policy, is refused and
  -- changes nothing.
  pub declare_once :
      (w : Manager Db) (policy policy' : RetentionPolicy) (b : Bytes) (m : Message)
      → same meta_queues_tree q ≡ false
      → same meta_retention_tree q ≡ false
      → get meta_queues_tree q w.db ≡ none
      → serialize_policy policy ≡ done b
      → let r = declare_queue_with_retention q policy (calm w) in
        (publish q m (calm w) ≡ (err (queue_not_found q), calm w))
        × (consume q (calm w) ≡ (err (queue_not_found q), calm w))
        × (r.0 ≡ ok tt)
        × IsDeclared q r.1.db
        × (policy_of q r.1.db ≡ policy)
        × (view q r.1.db ≡ view q w.db)
        × (r.1.current_bytes ≡ w.current_bytes)
        × (declare_queue_with_retention q policy' r.1 ≡ (err (queue_already_exists q), r.1))
  unfolding publish consume ◌>>=◌
  declare_once w policy policy' b m queues retention missing encodes =
      let after = record w { db = declared_db b w.db } in
      rw (declare-inserts w policy b missing encodes) (
        rw missing refl,
        rw missing refl,
        refl,
        IsDeclared-declared_db b w.db,
        policy_of-declared_db policy b w.db encodes,
        view-insert_retention q q b (insert meta_queues_tree q [] w.db) retention
            ∙ view-insert_queues q q [] w.db queues,
        refl,
        declare-again after policy' (IsDeclared-declared_db b w.db),
      )
