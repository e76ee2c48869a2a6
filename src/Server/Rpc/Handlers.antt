-- ===== src/Server/Rpc/Handlers.antt =====
-- pelicanqd/src/grpc/queue_service.rs and admin_service.rs: the methods of the gRPC services.
use pelican_q.Base.{
  ℕ, zero, suc, ◌==◌, ◌+◌, ◌<◌, Bool, true, false, List, [], ◌∷◌, Option, none, some,
}
use pelican_q.Bytes.{Bytes}
use pelican_q.Failure.{ok}
use pelican_q.Message.{Message, DeliveryTag}
use pelican_q.Platform.{Platform}
use pelican_q.Exec.{Exec, ◌>>=◌, pure, attempt}
use pelican_q.Engine.Declare.{declare_queue_with_retention, list_queues, depth, scheduled_depth}
use pelican_q.Engine.Publish.{publish}
use pelican_q.Engine.Consume.{Delivery, consume, ack}
use pelican_q.Engine.Nack.{nack}
use pelican_q.Replica.{
  declare_queue_op, publish_op, publish_batch_op, consume_op, consume_batch_op, ack_op, nack_op,
}
use pelican_q.Server.{
  Consensus, AppEngine, solo, flock, Handler, Formats, read_engine, write_engine,
}
use pelican_q.Server.Http.Handlers.{or_zero}
use pelican_q.Server.Proto.{
  PbMessage, ConsumedMessage, PublishResponse, DeclareQueueRequest, QueueInfo,
  proto_message_to_core, consumed_message, declare_request_to_policy,
}
use pelican_q.Server.Rpc.{
  invalid_argument, message_is_required, RpcResult, response, rejected, status, StatusText,
  unexpected_response_type, unexpected_ack_response, unexpected_nack_response, answered,
  declare_answer, unit_answer, declare_rpc_written, ack_rpc_written, nack_rpc_written,
  delivery_if_ok, consume_one_written, publish_response, consume_response, publish_rpc_written,
  publish_batch_written, consume_rpc_written, consume_batch_written,
}
use pelican_q.Cluster.{ClusterConfig, NodeConfig}

module _ ⦃p : Platform⦄ where
  open p use {Db}

  unfoldable pub queue_infos : List Bytes → Exec Db (List QueueInfo)
  unfolding depth scheduled_depth or_zero
  queue_infos [] = pure []
  queue_infos (name ∷ names) = do
    counted ← attempt (depth name)
    scheduled ← attempt (scheduled_depth name)
    queues ← queue_infos names
    pure (
        record { name = name; depth = or_zero counted; scheduled_depth = or_zero scheduled }
        ∷ queues)

  unfoldable pub info_list : Exec Db (RpcResult (List QueueInfo))
  unfolding list_queues queue_infos
  info_list = do names ← list_queues; queues ← queue_infos names; pure (response queues)

module _ ⦃p : Platform⦄ ⦃f : Formats⦄ where
  open p use {Db}

  -- The loop of `publish_batch` on a manager.
  unfoldable pub publish_results : Bytes → List Message → Exec Db (List PublishResponse)
  unfolding publish publish_response
  publish_results queue [] = pure []
  publish_results queue (msg ∷ messages) = do
    outcome ← publish queue msg
    results ← publish_results queue messages
    pure (publish_response outcome ∷ results)

  unfoldable pub collect_consumed :
      Exec Db (List ConsumedMessage) → Option Delivery → Exec Db (List ConsumedMessage)
  unfolding consumed_message
  collect_consumed rounds none = pure []
  collect_consumed rounds (some delivery) = do
    messages ← rounds
    pure (consumed_message delivery ∷ messages)

  -- The loop of `consume_batch` on a manager.
  unfoldable pub consume_messages : Bytes → ℕ → Exec Db (List ConsumedMessage)
  unfolding consume collect_consumed
  consume_messages queue zero = pure []
  consume_messages queue (suc max) = do
    delivered ← consume queue
    collect_consumed (consume_messages queue max) delivered

-- The messages of a batch, each with the UUID that it gets if it has none.
unfoldable pub messages_to_core : ⦃f : Formats⦄ → (ℕ → ℕ) → List PbMessage → List Message
unfolding proto_message_to_core
messages_to_core new_v4 [] = []
messages_to_core new_v4 (msg ∷ messages) =
    proto_message_to_core (new_v4 0) msg ∷ messages_to_core (λ n. new_v4 (n + 1)) messages

module _ ⦃p : Platform⦄ ⦃s : Consensus p.Db⦄ where
  open p use {Db}
  open s use {Cluster}

  unfoldable pub consume_one : Bytes → Handler Db Cluster (Option Delivery)
  unfolding write_engine consume delivery_if_ok consume_one_written
  consume_one queue =
      write_engine (consume queue) delivery_if_ok (consume_op queue) consume_one_written

  unfoldable pub ack_as : StatusText → Bytes → DeliveryTag → Handler Db Cluster (RpcResult Unit)
  unfolding write_engine ack unit_answer ack_rpc_written
  ack_as text queue tag =
      write_engine (ack queue tag) unit_answer (ack_op queue tag) (ack_rpc_written text)

  unfoldable pub nack_as : StatusText → Bytes → DeliveryTag → Handler Db Cluster (RpcResult Unit)
  unfolding write_engine nack unit_answer nack_rpc_written
  nack_as text queue tag =
      write_engine (nack queue tag) unit_answer (nack_op queue tag) (nack_rpc_written text)

  unfoldable pub stream_ack : Bytes → DeliveryTag → Handler Db Cluster (RpcResult Unit)
  unfolding ack_as
  stream_ack = ack_as unexpected_ack_response

  unfoldable pub stream_nack : Bytes → DeliveryTag → Handler Db Cluster (RpcResult Unit)
  unfolding nack_as
  stream_nack = nack_as unexpected_nack_response

  unfoldable pub rpc_declare_queue : DeclareQueueRequest → Handler Db Cluster (RpcResult Bool)
  unfolding write_engine declare_queue_with_retention declare_request_to_policy declare_answer
      declare_rpc_written
  rpc_declare_queue req =
      write_engine (declare_queue_with_retention req.name (declare_request_to_policy req))
        declare_answer (declare_queue_op req.name (declare_request_to_policy req))
        declare_rpc_written

  unfoldable pub rpc_list_queues : Handler Db Cluster (RpcResult (List QueueInfo))
  unfolding read_engine info_list
  rpc_list_queues = read_engine info_list

  unfoldable pub rpc_ack : Bytes → DeliveryTag → Handler Db Cluster (RpcResult Unit)
  unfolding ack_as
  rpc_ack = ack_as unexpected_response_type

  unfoldable pub rpc_nack : Bytes → DeliveryTag → Handler Db Cluster (RpcResult Unit)
  unfolding nack_as
  rpc_nack = nack_as unexpected_response_type

module _ ⦃p : Platform⦄ ⦃s : Consensus p.Db⦄ ⦃f : Formats⦄ where
  open p use {Db}
  open s use {Cluster}

  unfoldable pub rpc_publish_message :
      Bytes → Message → Handler Db Cluster (RpcResult PublishResponse)
  unfolding write_engine publish answered publish_response publish_rpc_written
  rpc_publish_message queue msg =
      write_engine (publish queue msg) (answered publish_response) (publish_op queue msg)
        publish_rpc_written

  -- `new_v4` is the UUID of a message that has none.
  unfoldable pub rpc_publish :
      ℕ → Bytes → Option PbMessage → Handler Db Cluster (RpcResult PublishResponse)
  unfolding rpc_publish_message proto_message_to_core status
  rpc_publish new_v4 queue none engine =
      (ok (rejected (status invalid_argument message_is_required)), engine)
  rpc_publish new_v4 queue (some msg) engine =
      rpc_publish_message queue (proto_message_to_core new_v4 msg) engine

  unfoldable pub rpc_publish_batch :
      (ℕ → ℕ) → Bytes → List PbMessage → Handler Db Cluster (RpcResult (List PublishResponse))
  unfolding write_engine publish_results messages_to_core answered publish_batch_written
  rpc_publish_batch new_v4 queue messages =
      write_engine (publish_results queue (messages_to_core new_v4 messages))
        (answered (λ results. results)) (publish_batch_op queue (messages_to_core new_v4 messages))
        publish_batch_written

  unfoldable pub rpc_consume : Bytes → Handler Db Cluster (RpcResult (Option ConsumedMessage))
  unfolding write_engine consume answered consume_response consume_rpc_written
  rpc_consume queue =
      write_engine (consume queue) (answered consume_response) (consume_op queue)
        consume_rpc_written

  unfoldable pub rpc_consume_batch :
      Bytes → ℕ → Handler Db Cluster (RpcResult (List ConsumedMessage))
  unfolding write_engine consume_messages answered consume_batch_written
  rpc_consume_batch queue max =
      write_engine (consume_messages queue max) (answered (λ messages. messages))
        (consume_batch_op queue max) consume_batch_written

-- A call of the queue service, with the UUIDs that its messages may get, and what it is answered.
pub data RpcCall : Type 0 where
  declare_queue_call : DeclareQueueRequest → RpcCall
  list_queues_call : RpcCall
  publish_call : ℕ → Bytes → Option PbMessage → RpcCall
  publish_batch_call : (ℕ → ℕ) → Bytes → List PbMessage → RpcCall
  consume_call : Bytes → RpcCall
  -- `max` is a u32
  consume_batch_call : Bytes → (max : ℕ) → max < 4294967296 → RpcCall
  ack_call : Bytes → DeliveryTag → RpcCall
  nack_call : Bytes → DeliveryTag → RpcCall

abbrev pub Reply : RpcCall → Type 0
Reply (declare_queue_call req) = Bool
Reply list_queues_call = List QueueInfo
Reply (publish_call new_v4 queue message) = PublishResponse
Reply (publish_batch_call new_v4 queue messages) = List PublishResponse
Reply (consume_call queue) = Option ConsumedMessage
Reply (consume_batch_call queue max small) = List ConsumedMessage
Reply (ack_call queue tag) = Unit
Reply (nack_call queue tag) = Unit

module _ ⦃p : Platform⦄ ⦃s : Consensus p.Db⦄ ⦃f : Formats⦄ where
  open p use {Db}
  open s use {Cluster}

  -- `QueueService`, without the stream.
  unfoldable pub rpc_serve : (call : RpcCall) → Handler Db Cluster (RpcResult (Reply call))
  unfolding rpc_declare_queue rpc_list_queues rpc_publish rpc_publish_batch rpc_consume
      rpc_consume_batch rpc_ack rpc_nack
  rpc_serve (declare_queue_call req) = rpc_declare_queue req
  rpc_serve list_queues_call = rpc_list_queues
  rpc_serve (publish_call new_v4 queue message) = rpc_publish new_v4 queue message
  rpc_serve (publish_batch_call new_v4 queue messages) = rpc_publish_batch new_v4 queue messages
  rpc_serve (consume_call queue) = rpc_consume queue
  rpc_serve (consume_batch_call queue max small) = rpc_consume_batch queue max
  rpc_serve (ack_call queue tag) = rpc_ack queue tag
  rpc_serve (nack_call queue tag) = rpc_nack queue tag

-- What openraft says of a node: its own id and the leader that it knows.
pub record RaftMetrics : Type 0 where
  pub id : ℕ
  pub current_leader : Option ℕ

pub record ClusterStatusResponse : Type 0 where
  pub self_id : ℕ
  pub is_leader : Bool
  pub current_leader_id : Option ℕ
  pub members : List NodeConfig

unfoldable pub leads : ℕ → Option ℕ → Bool
leads id none = false
leads id (some leader) = leader == id

unfoldable pub members_of : Option ClusterConfig → List NodeConfig
members_of none = []
members_of (some cfg) = cfg.members

unfoldable pub rpc_cluster_status :
    {Db Cluster : Type 0}
    → RaftMetrics
    → Option ClusterConfig
    → AppEngine Db Cluster
    → ClusterStatusResponse
unfolding leads members_of
rpc_cluster_status metrics cluster (flock c) = record {
  self_id = metrics.id;
  is_leader = leads metrics.id metrics.current_leader;
  current_leader_id = metrics.current_leader;
  members = members_of cluster;
}
rpc_cluster_status metrics cluster (solo w) = record {
  self_id = 0;
  is_leader = true;
  current_leader_id = some 0;
  members = [];
}
