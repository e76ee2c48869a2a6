-- ===== src/Engine/Sound/Requeue.antt =====
-- `nack` and `promote_scheduled` keep the invariant of the queue on every ending, and do not panic.
use pelican_q.Base.{
  ℕ, ◌<◌, ◌≡◌, refl, sym, subst, [], ◌∷◌, Option, none, some, All, Bool-cases, inl, inr,
}
use pelican_q.Bytes.{Bytes, to_be_bytes, from_be_bytes}
use pelican_q.Tree.{Tree}
use pelican_q.Word.{signed_lt}
use pelican_q.Message.{Message, DeliveryTag}
use pelican_q.Failure.{ok}
use pelican_q.Platform.{Platform}
use pelican_q.Exec.{Manager, pure}
use pelican_q.Exec.Ensures.{
  Ends, Ensures, Settles, next, from_less, pure-Ensures, if-Ensures, raise-Ensures, encoded-Ensures,
  gets-Ensures, check-Ensures, now_ms-Ensures, update_db-Ensures, open_then,
}
use pelican_q.Engine.Keys.{inflight_tree_name, dlq_tree_name, scheduled_tree_name, encode_key}
use pelican_q.Engine.Calls.{read_be64, scan}
use pelican_q.Engine.Nack.{is_dead, next_attempt, requeue_tree, settle_nack, nack}
use pelican_q.Engine.Promote.{collect_due, promote_each, promote_scheduled}
use pelican_q.Engine.View.{View, view}
use pelican_q.Engine.View.Writes.{
  view-insert_main, view-insert_dead, view-remove_inflight, view-remove_scheduled,
}
use pelican_q.Engine.Sound.{IsSound, DueKey}
use pelican_q.Engine.Sound.Writes.{
  IsSound-enqueue, IsSound-bury, IsSound-settle, IsSound-unschedule,
}
use pelican_q.Engine.Sound.Calls.{
  SoundAt, IsNew, expect_queue-Ensures, read_policy-Ensures, new_id-Ensures,
}

abbrev Any : {Db A : Type 0} → A → Db → Type 0
Any a d = Unit {0}

module _ ⦃p : Platform⦄ (q : Bytes) where
  open p use {Db, entries, get, insert, remove, issued, issued-remove}

  -- A new id stays new when a delivery ends, or a scheduled entry is taken.
  settle-IsNew :
      (id : ℕ) (k : Bytes) (d : Db) → IsNew q id d → IsNew q id (remove (inflight_tree_name q) k d)
  settle-IsNew id k d n = (
    n.0,
    subst (λ (v : View). IsSound (record v { bound = n.0 })) (sym (view-remove_inflight q k d))
        (IsSound-settle (record (view q d) { bound = n.0 }) n.1 k),
    n.2,
    subst (λ b. id < b) (sym (issued-remove (inflight_tree_name q) k d)) n.3,
  )

  pub unschedule-IsNew :
      (id : ℕ) (k : Bytes) (d : Db) → IsNew q id d → IsNew q id (remove (scheduled_tree_name q) k d)
  unschedule-IsNew id k d n = (
    n.0,
    subst (λ (v : View). IsSound (record v { bound = n.0 })) (sym (view-remove_scheduled q k d))
        (IsSound-unschedule (record (view q d) { bound = n.0 }) n.1 k),
    n.2,
    subst (λ b. id < b) (sym (issued-remove (scheduled_tree_name q) k d)) n.3,
  )

  pub enqueue-IsNew :
      (priority id : ℕ) (value : Bytes) (d : Db)
      → IsNew q id d
      → SoundAt q (insert q (encode_key priority id) value d)
  unfolding encode_key
  enqueue-IsNew priority id value d n =
      subst IsSound (sym (view-insert_main q _ value d))
        (IsSound-enqueue (record (view q d) { bound = n.0 }) n.1 _ id (issued d) value n.2 n.3)

  bury-IsNew :
      (priority id : ℕ) (value : Bytes) (d : Db)
      → IsNew q id d
      → SoundAt q (insert (dlq_tree_name q) (encode_key priority id) value d)
  unfolding encode_key
  bury-IsNew priority id value d n =
      subst IsSound (sym (view-insert_dead q _ value d))
        (IsSound-bury (record (view q d) { bound = n.0 }) n.1 _ id (issued d) value n.2 n.3)

  requeue-IsNew :
      (max : Option ℕ) (m : Message) (id : ℕ) (value : Bytes) (d : Db)
      → IsNew q id d
      → SoundAt q (insert (requeue_tree q max m) (encode_key m.priority id) value d)
  requeue-IsNew max m id value d n = elim (Bool-cases (is_dead max m)) [
    | inl e ↦ rw e (bury-IsNew m.priority id value d n)
    | inr e ↦ rw e (enqueue-IsNew m.priority id value d n)
  ]

  settle_nack-Ensures :
      (tag : DeliveryTag) (max : Option ℕ) (id : ℕ) (o : Option (Message × Bytes))
      → Ensures (SoundAt q) (IsNew q id) (settle_nack q tag max id o) Any
  unfolding settle_nack
  settle_nack-Ensures tag max id none = raise-Ensures Any _
  settle_nack-Ensures tag max id (some (m, value)) =
      update_db-Ensures (λ d. Unit {0}) _
        (λ d i n. (requeue-IsNew max m id value _ (settle-IsNew id (to_be_bytes tag) d n), tt))

  nack-Ensures : (tag : DeliveryTag) → Ensures (SoundAt q) (λ d. Unit {0}) (nack q tag) Any
  unfolding nack
  nack-Ensures tag = next (expect_queue-Ensures q q) (λ _. next (read_policy-Ensures q q) (λ policy.
      open_then q _ (
        open_then (inflight_tree_name q) _ (
          open_then (dlq_tree_name q) _ (
            next (new_id-Ensures q) (λ id. next check-Ensures (λ _.
              next (gets-Ensures (get (inflight_tree_name q) (to_be_bytes tag))) (λ old.
                from_less (λ d i x. x.1)
                  (settle_nack-Ensures tag policy.max_delivery_attempts id
                    (next_attempt old))))))))))

  -- `nack` on a sound queue, whichever calls of sled fail: the queue stays sound, and the call
  -- returns or reports an error.
  pub nack-IsSound :
      (tag : DeliveryTag) (w : Manager Db)
      → IsSound (view q w.db)
      → Settles (SoundAt q) (nack q tag w)
  nack-IsSound tag w i = (nack-Ensures tag).at w i tt

  -- The key of a scheduled entry has its eight bytes of time.
  read_be64-DueKey :
      (n : ℕ) (k v : Bytes) (w : Manager Db)
      → DueKey n (k, v)
      → (t : ℕ) × (read_be64 k w ≡ (ok t, w))
  unfolding read_be64 to_be_bytes pure
  read_be64-DueKey n k v w e = (from_be_bytes 0 (to_be_bytes e.0), rw e.2 refl)

  read_due-Ensures :
      (n : ℕ) (k v : Bytes)
      → DueKey n (k, v)
      → Ensures (SoundAt q) (λ d. Unit {0}) (read_be64 k) Any
  read_due-Ensures n k v e = record {
    at = λ w i x.
        let r = read_be64-DueKey n k v w e in subst (Ends (SoundAt q) Any) (sym r.1) (i, tt);
  }

  collect_due-Ensures :
      (n now : ℕ) (es : Tree)
      → All (DueKey n) es
      → Ensures (SoundAt q) (λ d. Unit {0}) (collect_due now es) Any
  unfolding collect_due
  collect_due-Ensures n now [] a = pure-Ensures Any [] (λ d i x. tt)
  collect_due-Ensures n now ((k, v) ∷ es) a = next check-Ensures (λ _.
      next (read_due-Ensures n k v a.0) (λ t.
        if-Ensures (signed_lt now t) _ _ (pure-Ensures Any [] (λ d i x. tt))
          (next (collect_due-Ensures n now es a.1) (λ rest. pure-Ensures Any _ (λ d i x. tt)))))

  promote_each-Ensures :
      (es : Tree)
      → Ensures (SoundAt q) (λ d. Unit {0}) (promote_each (scheduled_tree_name q) q es) Any
  unfolding promote_each
  promote_each-Ensures [] = pure-Ensures Any 0 (λ d i x. tt)
  promote_each-Ensures ((k, v) ∷ es) = next (encoded-Ensures _) (λ m. next (new_id-Ensures q) (λ id.
      next check-Ensures (λ _.
        next
          (update_db-Ensures (λ d. Unit {0}) _
            (λ d i n. (enqueue-IsNew m.priority id v _ (unschedule-IsNew id k d n), tt)))
          (λ _. next (promote_each-Ensures es) (λ promoted. pure-Ensures Any _ (λ d i x. tt))))))

  due_then-Ensures :
      (now : ℕ) (es : Tree)
      → Ensures
          (SoundAt q)
          (λ d. (es ≡ entries (scheduled_tree_name q) d) × Unit {0})
          (collect_due now es)
          Any
  due_then-Ensures now es = record {
    at = λ w i x.
        (collect_due-Ensures (issued w.db) now es
            (subst (All (DueKey (issued w.db))) (sym x.0) i.scheduled)).at
          w i tt;
  }

  promote-Ensures : Ensures (SoundAt q) (λ d. Unit {0}) (promote_scheduled q) Any
  unfolding promote_scheduled scan
  promote-Ensures = next (expect_queue-Ensures q q) (λ _. open_then (scheduled_tree_name q) _ (
      open_then q _ (
        next now_ms-Ensures (λ now.
          next (gets-Ensures (entries (scheduled_tree_name q)))
            (λ es. next (due_then-Ensures now es) (λ due. promote_each-Ensures due))))))

  -- `promote_scheduled` on a sound queue, whichever calls of sled fail: the queue stays sound, and
  -- the call returns or reports an error. In particular no key is too short for its time.
  pub promote_scheduled-IsSound :
      (w : Manager Db) → IsSound (view q w.db) → Settles (SoundAt q) (promote_scheduled q w)
  promote_scheduled-IsSound w i = promote-Ensures.at w i tt
