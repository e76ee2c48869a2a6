-- ===== src/Server/Agree/Rpc.antt =====
-- The gRPC interface on either engine.
use pelican_q.Base.{
  ℕ, ◌*◌, ◌<◌, ◌≤◌, arith, ◌≡◌, refl, subst, Bool-cases, inl, inr, true, ◌&&◌, Option, none, some,
  map,
}
use pelican_q.Bytes.{Bytes}
use pelican_q.Failure.{ok}
use pelican_q.Message.{RetentionPolicy, default_policy}
use pelican_q.Platform.{Platform}
use pelican_q.Exec.{Manager, Exec}
use pelican_q.Engine.Declare.{declare_queue, declare_queue_with_retention}
use pelican_q.Replica.Sound.{consume_batch-each}
use pelican_q.Replica.{
  respond, Answer, consume_batch, declare_queue_resp, publish_resp, publish_batch_resp,
  consume_resp, consume_batch_resp, ack_resp, nack_resp, declare_queue_op, same_limit, same_policy,
  declare, publish_each, consume_each, apply_operation,
}
use pelican_q.Server.{Consensus, solo, IsLeading, Formats}
use pelican_q.Server.Agree.{AnswersAs, Ends, read_engine-agrees, write_engine-agrees}
use pelican_q.Server.Agree.Batches.{respond-mapped, publish_results-each, consume_messages-each}
use pelican_q.Server.Proto.{declare_request_to_policy, consumed_message}
use pelican_q.Server.Rpc.{
  RpcResult, unexpected_response_type, answered, declare_answer, unit_answer, declare_rpc_written,
  ack_rpc_written, nack_rpc_written, publish_response, consume_response, publish_rpc_written,
  publish_batch_written, consume_rpc_written, consume_batch_written,
}
use pelican_q.Server.Rpc.Handlers.{
  RpcCall, declare_queue_call, list_queues_call, publish_call, publish_batch_call, consume_call,
  consume_batch_call, ack_call, nack_call, Reply, info_list, messages_to_core, publish_results,
  consume_messages, rpc_serve,
}

default-of-same_policy :
    (r : RetentionPolicy) → same_policy r default_policy ≡ true → r ≡ default_policy
unfolding same_policy
default-of-same_policy r h =
    go r.max_age_secs r.max_messages r.max_delivery_attempts r.dedup_window_secs h
  where
    go :
        (a m d w : Option ℕ)
        → (same_limit a none && same_limit m none && same_limit d none && same_limit w none) ≡ true
        → record {
          max_age_secs = a;
          max_messages = m;
          max_delivery_attempts = d;
          dedup_window_secs = w;
        }
          ≡ default_policy
    go none none none none g = refl
    go (some n) m d w g = cc
    go none (some n) d w g = cc
    go none none (some n) w g = cc
    go none none none (some n) g = cc

module _ ⦃p : Platform⦄ where
  open p use {Db}

  -- A default policy makes no difference to how a replica declares a queue.
  declare-with_retention :
      (name : Bytes) (policy : RetentionPolicy)
      → declare name policy ≡ declare_queue_with_retention name policy
  unfolding declare declare_queue
  declare-with_retention name policy = elim (Bool-cases (same_policy policy default_policy)) [
    | inl e ↦ rw e (rw (default-of-same_policy policy e) refl)
    | inr e ↦ rw e refl
  ]

module _ ⦃p : Platform⦄ ⦃s : Consensus p.Db⦄ ⦃f : Formats⦄ where
  open p use {Db, delivery_size, delivery_size-fits}
  open s use {Cluster, local}

  respond-same :
      {A R : Type 0} (f : Answer A → R) (m n : Exec Db A) (v : Manager Db)
      → m v ≡ n v
      → respond f m v ≡ respond f n v
  unfolding respond
  respond-same f m n v h = rw h refl

  -- The size of a batch over gRPC is a u32, for which there is room.
  room_u32 : (max : ℕ) → max < 4294967296 → max * delivery_size ≤ 9223372036854775807
  room_u32 max small = grind (arith, delivery_size-fits)

  -- A node that leads its cluster, at any call of the queue service but the stream: if a single
  -- manager in the state of the node's gives a response or a status, the node gives the same one,
  -- and its manager ends in the same state.
  pub rpc_serve-agrees :
      (call : RpcCall) (c : Cluster) (r : RpcResult (Reply call)) (w : Manager Db)
      → IsLeading
      → rpc_serve call (solo (local c)) ≡ (ok r, solo w)
      → AnswersAs (rpc_serve call) c r w
  unfolding rpc_serve apply_operation unit_answer
  rpc_serve-agrees (declare_queue_call req) c r w l h =
      let policy = declare_request_to_policy req in
      write_engine-agrees (declare_queue_with_retention req.name policy) declare_answer
        (declare_queue_op req.name policy) declare_rpc_written declare_queue_resp c r w l
        (λ v. rw (declare-with_retention req.name policy) refl) (λ a. refl) h
  rpc_serve-agrees list_queues_call c r w l h = read_engine-agrees info_list c r w h
  rpc_serve-agrees (publish_call new_v4 queue none) c r w l h = (c, cc, cc)
  rpc_serve-agrees (publish_call new_v4 queue (some msg)) c r w l h =
      write_engine-agrees _ (answered publish_response) _ publish_rpc_written publish_resp c r w l
        (λ v. refl) (λ a. refl) h
  rpc_serve-agrees (publish_batch_call new_v4 queue messages) c r w l h =
      let batch = messages_to_core new_v4 messages in
      write_engine-agrees (publish_each queue batch) (answered (map publish_response)) _
        publish_batch_written publish_batch_resp c r w l (λ v. refl) (λ a. refl)
        (subst (λ x. Ends x.0 x.1 r w)
          (respond-mapped (map publish_response) (publish_each queue batch)
            (publish_results queue batch) (local c) (publish_results-each queue batch (local c)))
          h)
  rpc_serve-agrees (consume_call queue) c r w l h =
      write_engine-agrees _ (answered consume_response) _ consume_rpc_written consume_resp c r w l
        (λ v. refl) (λ a. refl) h
  rpc_serve-agrees (consume_batch_call queue max small) c r w l h =
      let room : max * delivery_size ≤ 9223372036854775807 = room_u32 max small in
      write_engine-agrees (consume_each queue max) (answered (map consumed_message)) _
        consume_batch_written consume_batch_resp c r w l
        (λ v.
          respond-same consume_batch_resp (consume_batch queue max) (consume_each queue max) v
            (consume_batch-each queue max v room))
        (λ a. refl)
        (subst (λ x. Ends x.0 x.1 r w)
          (respond-mapped (map consumed_message) (consume_each queue max)
            (consume_messages queue max) (local c) (consume_messages-each queue max (local c)))
          h)
  rpc_serve-agrees (ack_call queue tag) c r w l h =
      write_engine-agrees _ unit_answer _ (ack_rpc_written unexpected_response_type) ack_resp c r w
        l (λ v. refl) (λ a. refl) h
  rpc_serve-agrees (nack_call queue tag) c r w l h =
      write_engine-agrees _ unit_answer _ (nack_rpc_written unexpected_response_type) nack_resp c r
        w l (λ v. refl) (λ a. refl) h
