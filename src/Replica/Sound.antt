-- ===== src/Replica/Sound.antt =====
-- What a replica does with the operations of the log keeps a queue sound.
use pelican_q.Base.{
  ℕ, zero, suc, ◌≡◌, ◌*◌, ◌≤◌, ◌<◌, arith, ltb, Bool-cases, inl, inr, refl, false, List, [], ◌∷◌,
  Option, none, some,
}
use pelican_q.Bytes.{Bytes, same}
use pelican_q.Failure.{Outcome, ok, err, panic, diverges}
use pelican_q.Message.{Message, RetentionPolicy, default_policy}
use pelican_q.Platform.{Platform}
use pelican_q.Exec.{Manager, Exec, ◌>>=◌, pure}
use pelican_q.Exec.Ensures.{Ensures, Settles, next, if-Ensures, pure-Ensures}
use pelican_q.Engine.Keys.{meta_queues_tree, meta_retention_tree}
use pelican_q.Engine.Declare.{declare_queue}
use pelican_q.Engine.Consume.{Delivery}
use pelican_q.Engine.View.{view}
use pelican_q.Engine.Sound.{IsSound}
use pelican_q.Engine.Sound.Calls.{SoundAt}
use pelican_q.Engine.Sound.Recount.{Any}
use pelican_q.Engine.Sound.Consume.{consume-IsSound, ack-IsSound}
use pelican_q.Engine.Sound.Publish.{publish-IsSound}
use pelican_q.Engine.Sound.Requeue.{nack-IsSound, promote_scheduled-IsSound}
use pelican_q.Engine.Sound.Retain.{apply_retention-IsSound}
use pelican_q.Engine.Sound.Declare.{declare_queue_with_retention-IsSound}
use pelican_q.Replica.{
  QueueOperation, declare_queue_op, publish_op, publish_batch_op, consume_op, consume_batch_op,
  ack_op, nack_op, apply_retention_op, promote_scheduled_op, declare_queue_resp, publish_resp,
  publish_batch_resp, consume_resp, consume_batch_resp, ack_resp, nack_resp, apply_retention_resp,
  promote_scheduled_resp, Answer, same_policy, declare, publish_each, collect_delivery,
  consume_each, with_capacity, consume_batch, respond, apply_operation,
}

-- The operation is on the queue, or declares any.
abbrev pub IsOn : Bytes → QueueOperation → Type 0
IsOn q (declare_queue_op name policy) = Unit
IsOn q (publish_op queue message) = queue ≡ q
IsOn q (publish_batch_op queue messages) = queue ≡ q
IsOn q (consume_op queue) = queue ≡ q
IsOn q (consume_batch_op queue max) = queue ≡ q
IsOn q (ack_op queue tag) = queue ≡ q
IsOn q (nack_op queue tag) = queue ≡ q
IsOn q (apply_retention_op queue) = queue ≡ q
IsOn q (promote_scheduled_op queue) = queue ≡ q

module _ ⦃p : Platform⦄ where
  open p use {Db, delivery_size}

  -- The messages that a batch asks for are within the bytes that a `Vec` may have.
  abbrev pub HasRoom : QueueOperation → Type 0
  HasRoom (consume_batch_op queue max) = max * delivery_size ≤ 9223372036854775807
  HasRoom _ = Unit

  pub with_capacity-room :
      (max : ℕ) (w : Manager Db)
      → max * delivery_size ≤ 9223372036854775807
      → with_capacity max w ≡ (ok tt, w)
  unfolding with_capacity pure
  with_capacity-room max w room =
      elim (Bool-cases (ltb 9223372036854775807 (max * delivery_size))) [
        | inl e ↦ absurd (ground arith)
        | inr e ↦ rw e refl
      ]

  pub consume_batch-each :
      (queue : Bytes) (max : ℕ) (w : Manager Db)
      → max * delivery_size ≤ 9223372036854775807
      → consume_batch queue max w ≡ consume_each queue max w
  unfolding consume_batch ◌>>=◌
  consume_batch-each queue max w room = rw (with_capacity-room max w room) refl

  -- A batch that asks for more ends the replica, and takes no message.
  pub apply_operation-overflow :
      (queue : Bytes) (max : ℕ) (w : Manager Db)
      → 9223372036854775807 < max * delivery_size
      → apply_operation (consume_batch_op queue max) w ≡ (panic, w)
  unfolding apply_operation consume_batch with_capacity ◌>>=◌
  apply_operation-overflow queue max w over =
      elim (Bool-cases (ltb 9223372036854775807 (max * delivery_size))) [
        | inl e ↦ rw e refl
        | inr e ↦ absurd (ground arith)
      ]

  -- An answer is no error, whatever the call said.
  answer_ends :
      {A R : Type 0} (I : Db → Type 0) (f : Answer A → R) (m : Exec Db A) (w : Manager Db)
      (r : Outcome A × Manager Db)
      → m w ≡ r
      → Settles I r
      → Settles I (respond f m w)
  unfolding respond
  answer_ends I f m w (ok a, w') e h = rw e h
  answer_ends I f m w (err e', w') e h = rw e (h, tt)
  answer_ends I f m w (panic, w') e h = absurd h
  answer_ends I f m w (diverges, w') e h = absurd h

module _ ⦃p : Platform⦄ (q : Bytes) where
  open p use {Db, delivery_size}

  pub called :
      {A : Type 0} {m : Exec Db A}
      → ((w : Manager Db) → IsSound (view q w.db) → Settles (SoundAt q) (m w))
      → Ensures (SoundAt q) (λ d. Unit {0}) m Any
  called h = record { at = λ w i x. h w i }

  pub responds :
      {A R : Type 0} (f : Answer A → R) (m : Exec Db A)
      → Ensures (SoundAt q) (λ d. Unit {0}) m Any
      → Ensures (SoundAt q) (λ d. Unit {0}) (respond f m) Any
  responds f m h = record { at = λ w i x. answer_ends (SoundAt q) f m w (m w) refl (h.at w i tt) }

  pub publish_each-Ensures :
      (messages : List Message) → Ensures (SoundAt q) (λ d. Unit {0}) (publish_each q messages) Any
  unfolding publish_each
  publish_each-Ensures [] = pure-Ensures Any [] (λ d i x. tt)
  publish_each-Ensures (message ∷ messages) = next (called (publish-IsSound q message)) (λ outcome.
      next (publish_each-Ensures messages) (λ outcomes. pure-Ensures Any _ (λ d i x. tt)))

  collect_delivery-Ensures :
      (rounds : Exec Db (List Delivery)) (delivered : Option Delivery)
      → Ensures (SoundAt q) (λ d. Unit {0}) rounds Any
      → Ensures (SoundAt q) (λ d. Unit {0}) (collect_delivery rounds delivered) Any
  unfolding collect_delivery
  collect_delivery-Ensures rounds none h = pure-Ensures Any [] (λ d i x. tt)
  collect_delivery-Ensures rounds (some delivery) h =
      next h (λ results. pure-Ensures Any _ (λ d i x. tt))

  pub consume_each-Ensures :
      (max : ℕ) → Ensures (SoundAt q) (λ d. Unit {0}) (consume_each q max) Any
  unfolding consume_each
  consume_each-Ensures zero = pure-Ensures Any [] (λ d i x. tt)
  consume_each-Ensures (suc max) =
      next (called (consume-IsSound q))
        (λ delivered. collect_delivery-Ensures _ delivered (consume_each-Ensures max))

  consume_batch-Ensures :
      (max : ℕ)
      → max * delivery_size ≤ 9223372036854775807
      → Ensures (SoundAt q) (λ d. Unit {0}) (consume_batch q max) Any
  consume_batch-Ensures max room = record {
    at = λ w i x. rw (consume_batch-each q max w room) ((consume_each-Ensures max).at w i x);
  }

  module _ (queues : same meta_queues_tree q ≡ false)
      (retention : same meta_retention_tree q ≡ false) where
    pub declare-Ensures :
        (name : Bytes) (policy : RetentionPolicy)
        → Ensures (SoundAt q) (λ d. Unit {0}) (declare name policy) Any
    unfolding declare declare_queue
    declare-Ensures name policy =
        if-Ensures (same_policy policy default_policy) _ _
          (called (declare_queue_with_retention-IsSound q queues retention name default_policy))
          (called (declare_queue_with_retention-IsSound q queues retention name policy))

    pub apply_operation-Ensures :
        (op : QueueOperation)
        → IsOn q op
        → HasRoom op
        → Ensures (SoundAt q) (λ d. Unit {0}) (apply_operation op) Any
    unfolding apply_operation
    apply_operation-Ensures (declare_queue_op name policy) e room =
        responds declare_queue_resp _ (declare-Ensures name policy)
    apply_operation-Ensures (publish_op queue message) e room =
        rw e (responds publish_resp _ (called (publish-IsSound q message)))
    apply_operation-Ensures (publish_batch_op queue messages) e room =
        rw e (responds publish_batch_resp _ (publish_each-Ensures messages))
    apply_operation-Ensures (consume_op queue) e room =
        rw e (responds consume_resp _ (called (consume-IsSound q)))
    apply_operation-Ensures (consume_batch_op queue max) e room =
        rw e (responds consume_batch_resp _ (consume_batch-Ensures max room))
    apply_operation-Ensures (ack_op queue tag) e room =
        rw e (responds ack_resp _ (called (ack-IsSound q tag)))
    apply_operation-Ensures (nack_op queue tag) e room =
        rw e (responds nack_resp _ (called (nack-IsSound q tag)))
    apply_operation-Ensures (apply_retention_op queue) e room =
        rw e (responds apply_retention_resp _ (called (apply_retention-IsSound q)))
    apply_operation-Ensures (promote_scheduled_op queue) e room =
        rw e (responds promote_scheduled_resp _ (called (promote_scheduled-IsSound q)))

    -- Each operation of the replicated log that is on the queue, or declares one, batches
    -- included, whichever calls of sled fail: a sound queue that is not named as a metadata tree
    -- stays sound, and the replica gives a response. A batch of messages to take has to ask for no
    -- more of them than a `Vec` may have room for.
    pub apply_operation-IsSound :
        (op : QueueOperation) (w : Manager Db)
        → IsOn q op
        → HasRoom op
        → IsSound (view q w.db)
        → Settles (SoundAt q) (apply_operation op w)
    apply_operation-IsSound op w e room i = (apply_operation-Ensures op e room).at w i tt
