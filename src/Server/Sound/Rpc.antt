-- ===== src/Server/Sound/Rpc.antt =====
-- gRPC calls on a queue keep it sound.
use pelican_q.Base.{ℕ, zero, suc, ◌≡◌, false, List, [], ◌∷◌, Option, none, some}
use pelican_q.Bytes.{Bytes, same}
use pelican_q.Message.{Message}
use pelican_q.Platform.{Platform}
use pelican_q.Exec.{Manager, Exec}
use pelican_q.Exec.Ensures.{Ensures, next, pure-Ensures}
use pelican_q.Engine.Keys.{meta_queues_tree, meta_retention_tree}
use pelican_q.Engine.Consume.{Delivery}
use pelican_q.Engine.View.{view}
use pelican_q.Engine.Sound.{IsSound}
use pelican_q.Engine.Sound.Calls.{SoundAt}
use pelican_q.Engine.Sound.Recount.{Any, list_queues-Ensures}
use pelican_q.Engine.Sound.Consume.{consume-IsSound, ack-IsSound}
use pelican_q.Engine.Sound.Publish.{publish-IsSound}
use pelican_q.Engine.Sound.Requeue.{nack-IsSound}
use pelican_q.Engine.Sound.Declare.{declare_queue_with_retention-IsSound}
use pelican_q.Replica.Sound.{called}
use pelican_q.Server.{Consensus, solo, Formats}
use pelican_q.Server.Sound.{
  ServerSettles, respond-Settles, read_engine-Settles, catch-Ensures, depth-Ensures,
  scheduled_depth-Ensures,
}
use pelican_q.Server.Proto.{ConsumedMessage, declare_request_to_policy}
use pelican_q.Server.Rpc.{answered, declare_answer, unit_answer, publish_response, consume_response}
use pelican_q.Server.Rpc.Handlers.{
  RpcCall, declare_queue_call, list_queues_call, publish_call, publish_batch_call, consume_call,
  consume_batch_call, ack_call, nack_call, queue_infos, info_list, messages_to_core,
  publish_results, collect_consumed, consume_messages, rpc_serve,
}

-- The call is on the queue, or declares any, or only reads.
abbrev pub CallsQueue : Bytes → RpcCall → Type 0
CallsQueue q (publish_call new_v4 queue message) = queue ≡ q
CallsQueue q (publish_batch_call new_v4 queue messages) = queue ≡ q
CallsQueue q (consume_call queue) = queue ≡ q
CallsQueue q (consume_batch_call queue max small) = queue ≡ q
CallsQueue q (ack_call queue tag) = queue ≡ q
CallsQueue q (nack_call queue tag) = queue ≡ q
CallsQueue q _ = Unit

module _ ⦃p : Platform⦄ (q : Bytes) where
  open p use {Db}

  queue_infos-Ensures :
      (names : List Bytes) → Ensures (SoundAt q) (λ d. Unit {0}) (queue_infos names) Any
  unfolding queue_infos
  queue_infos-Ensures [] = pure-Ensures Any [] (λ d i x. tt)
  queue_infos-Ensures (name ∷ names) = next (catch-Ensures q (depth-Ensures q name)) (λ counted.
      next (catch-Ensures q (scheduled_depth-Ensures q name)) (λ scheduled.
        next (queue_infos-Ensures names) (λ queues. pure-Ensures Any _ (λ d i x. tt))))

  info_list-Ensures : Ensures (SoundAt q) (λ d. Unit {0}) info_list Any
  unfolding info_list
  info_list-Ensures =
      next (list_queues-Ensures q)
        (λ names. next (queue_infos-Ensures names) (λ queues. pure-Ensures Any _ (λ d i x. tt)))

module _ ⦃p : Platform⦄ ⦃f : Formats⦄ (q : Bytes) where
  open p use {Db}

  publish_results-Ensures :
      (messages : List Message)
      → Ensures (SoundAt q) (λ d. Unit {0}) (publish_results q messages) Any
  unfolding publish_results
  publish_results-Ensures [] = pure-Ensures Any [] (λ d i x. tt)
  publish_results-Ensures (message ∷ messages) =
      next (called q (publish-IsSound q message)) (λ outcome.
        next (publish_results-Ensures messages) (λ results. pure-Ensures Any _ (λ d i x. tt)))

  collect_consumed-Ensures :
      (rounds : Exec Db (List ConsumedMessage)) (delivered : Option Delivery)
      → Ensures (SoundAt q) (λ d. Unit {0}) rounds Any
      → Ensures (SoundAt q) (λ d. Unit {0}) (collect_consumed rounds delivered) Any
  unfolding collect_consumed
  collect_consumed-Ensures rounds none h = pure-Ensures Any [] (λ d i x. tt)
  collect_consumed-Ensures rounds (some delivery) h =
      next h (λ messages. pure-Ensures Any _ (λ d i x. tt))

  consume_messages-Ensures :
      (max : ℕ) → Ensures (SoundAt q) (λ d. Unit {0}) (consume_messages q max) Any
  unfolding consume_messages
  consume_messages-Ensures zero = pure-Ensures Any [] (λ d i x. tt)
  consume_messages-Ensures (suc max) =
      next (called q (consume-IsSound q))
        (λ delivered. collect_consumed-Ensures _ delivered (consume_messages-Ensures max))

module _ ⦃p : Platform⦄ ⦃s : Consensus p.Db⦄ ⦃f : Formats⦄ (q : Bytes)
    (queues : same meta_queues_tree q ≡ false)
    (retention : same meta_retention_tree q ≡ false) where
  open p use {Db}

  -- A call of the queue service on the queue, batches included, or one that declares a queue or
  -- only reads, on a server of a single manager, whichever calls of sled fail: a sound queue that is
  -- not named as a metadata tree stays sound, and the call ends without a panic.
  pub rpc_serve-IsSound :
      (call : RpcCall) (w : Manager Db)
      → CallsQueue q call
      → IsSound (view q w.db)
      → ServerSettles q (rpc_serve call (solo w))
  unfolding rpc_serve
  rpc_serve-IsSound (declare_queue_call req) w e i =
      let policy = declare_request_to_policy req in
      respond-Settles q declare_answer _ w
        (called q (declare_queue_with_retention-IsSound q queues retention req.name policy)) i
  rpc_serve-IsSound list_queues_call w e i =
      read_engine-Settles q info_list w (info_list-Ensures q) i
  rpc_serve-IsSound (publish_call new_v4 queue none) w e i = (i, tt)
  rpc_serve-IsSound (publish_call new_v4 queue (some msg)) w e i =
      rw e (respond-Settles q (answered publish_response) _ w (called q (publish-IsSound q _)) i)
  rpc_serve-IsSound (publish_batch_call new_v4 queue messages) w e i =
      let batch = messages_to_core new_v4 messages in
      rw e (
        respond-Settles q (answered (λ results. results)) (publish_results q batch) w
          (publish_results-Ensures q batch) i)
  rpc_serve-IsSound (consume_call queue) w e i =
      rw e (respond-Settles q (answered consume_response) _ w (called q (consume-IsSound q)) i)
  rpc_serve-IsSound (consume_batch_call queue max small) w e i = rw e (
      respond-Settles q (answered (λ messages. messages)) (consume_messages q max) w
        (consume_messages-Ensures q max) i)
  rpc_serve-IsSound (ack_call queue tag) w e i =
      rw e (respond-Settles q unit_answer _ w (called q (ack-IsSound q tag)) i)
  rpc_serve-IsSound (nack_call queue tag) w e i =
      rw e (respond-Settles q unit_answer _ w (called q (nack-IsSound q tag)) i)
