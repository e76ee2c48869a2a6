-- ===== src/Server/Http/Handlers.antt =====
-- pelicanqd/src/api.rs: the handlers of the HTTP routes, on either engine, and the router.
use pelican_q.Base.{ℕ, Bool, true, false, List, [], ◌∷◌, Option, none, some}
use pelican_q.Bytes.{Bytes}
use pelican_q.Failure.{ok, Fallible, done, failed}
use pelican_q.Message.{Message, DeliveryTag, new_message, default_policy}
use pelican_q.Platform.{Platform}
use pelican_q.Exec.{Exec, ◌>>=◌, pure, attempt}
use pelican_q.Engine.Declare.{declare_queue, list_queues, depth}
use pelican_q.Engine.Publish.{publish}
use pelican_q.Engine.Consume.{consume, ack}
use pelican_q.Engine.Nack.{nack}
use pelican_q.Replica.{declare_queue_op, publish_op, consume_op, ack_op, nack_op}
use pelican_q.Server.{
  Consensus, AppEngine, solo, flock, Handler, Formats, read_engine, write_engine,
}
use pelican_q.Cluster.{ClusterConfig}
use pelican_q.Server.Http.{
  QueueEntry, PublishRequest, queues_body, cluster_body, Response, reply, null, invalid_base64,
  health, unit_response, outcome_response, delivery_response, declare_written, publish_written,
  consume_written, ack_written, nack_written,
}

-- One entry of the list for each name; a depth that cannot be read counts as 0.
unfoldable pub or_zero : Option ℕ → ℕ
or_zero none = 0
or_zero (some n) = n

module _ ⦃p : Platform⦄ where
  open p use {Db}

  unfoldable pub queue_entries : List Bytes → Exec Db (List QueueEntry)
  unfolding depth or_zero
  queue_entries [] = pure []
  queue_entries (name ∷ names) = do
    counted ← attempt (depth name)
    queues ← queue_entries names
    pure (record { name = name; depth = or_zero counted } ∷ queues)

  unfoldable pub queue_list : Exec Db Response
  unfolding list_queues queue_entries reply
  queue_list = do
    names ← list_queues
    queues ← queue_entries names
    pure (reply 200 (queues_body queues))

module _ ⦃p : Platform⦄ ⦃s : Consensus p.Db⦄ ⦃f : Formats⦄ where
  open p use {Db}
  open s use {Cluster}
  open f use {decode64, uuid_text}

  unfoldable pub handle_declare_queue : Bytes → Handler Db Cluster Response
  unfolding write_engine declare_queue unit_response declare_written
  handle_declare_queue name =
      write_engine (declare_queue name) (unit_response 201) (declare_queue_op name default_policy)
        declare_written

  unfoldable pub handle_list_queues : Handler Db Cluster Response
  unfolding read_engine queue_list
  handle_list_queues = read_engine queue_list

  unfoldable pub publish_message : Bytes → Message → Handler Db Cluster Response
  unfolding write_engine publish outcome_response publish_written
  publish_message name message =
      write_engine (publish name message) (outcome_response (uuid_text message.id))
        (publish_op name message) (publish_written (uuid_text message.id))

  -- The UUID and the time are those that `Message::new` takes.
  unfoldable pub publish_decoded :
      Bytes → List (Bytes × Bytes) → ℕ → ℕ → Fallible Bytes → Handler Db Cluster Response
  unfolding publish_message new_message reply
  publish_decoded name headers uuid now_ms (done payload) engine =
      publish_message name (new_message uuid now_ms payload headers) engine
  publish_decoded name headers uuid now_ms (failed e) engine =
      (ok (reply 400 (invalid_base64 e)), engine)

  unfoldable pub handle_publish : Bytes → PublishRequest → ℕ → ℕ → Handler Db Cluster Response
  unfolding publish_decoded
  handle_publish name req uuid now_ms =
      publish_decoded name req.headers uuid now_ms (decode64 req.payload_base64)

  unfoldable pub handle_consume : Bytes → Handler Db Cluster Response
  unfolding write_engine consume delivery_response consume_written
  handle_consume name =
      write_engine (consume name) delivery_response (consume_op name) consume_written

  unfoldable pub handle_ack : Bytes → DeliveryTag → Handler Db Cluster Response
  unfolding write_engine ack unit_response ack_written
  handle_ack name delivery_tag =
      write_engine (ack name delivery_tag) (unit_response 200) (ack_op name delivery_tag)
        ack_written

  unfoldable pub handle_nack : Bytes → DeliveryTag → Handler Db Cluster Response
  unfolding write_engine nack unit_response nack_written
  handle_nack name delivery_tag =
      write_engine (nack name delivery_tag) (unit_response 200) (nack_op name delivery_tag)
        nack_written

  abbrev is_flock : AppEngine Db Cluster → Bool
  is_flock (solo w) = false
  is_flock (flock c) = true

  unfoldable pub cluster_status : Option ClusterConfig → Handler Db Cluster Response
  unfolding reply
  cluster_status none engine = (ok (reply 404 null), engine)
  cluster_status (some cfg) engine =
      (ok (reply 200 (cluster_body cfg.self_id cfg.members (is_flock engine))), engine)

pub data Request : Type 0 where
  get_health : Request
  get_queues : Request
  post_queue : Bytes → Request
  -- with the UUID and the time that the message gets
  post_publish : Bytes → PublishRequest → ℕ → ℕ → Request
  post_consume : Bytes → Request
  post_ack : Bytes → DeliveryTag → Request
  post_nack : Bytes → DeliveryTag → Request
  get_cluster_status : Request

module _ ⦃p : Platform⦄ ⦃s : Consensus p.Db⦄ ⦃f : Formats⦄ where
  open p use {Db}
  open s use {Cluster}

  -- A path without a route is answered by axum: 404, and no body.
  unfoldable pub status_route : Option ClusterConfig → Handler Db Cluster Response
  unfolding cluster_status reply
  status_route none engine = (ok (reply 404 null), engine)
  status_route (some cfg) engine = cluster_status (some cfg) engine

  -- The routes of `build_router`.
  unfoldable pub serve : Option ClusterConfig → Request → Handler Db Cluster Response
  unfolding status_route health handle_list_queues handle_declare_queue handle_publish
      handle_consume handle_ack handle_nack
  serve cluster get_health engine = (ok health, engine)
  serve cluster get_queues engine = handle_list_queues engine
  serve cluster (post_queue name) engine = handle_declare_queue name engine
  serve cluster (post_publish name req uuid now_ms) engine =
      handle_publish name req uuid now_ms engine
  serve cluster (post_consume name) engine = handle_consume name engine
  serve cluster (post_ack name tag) engine = handle_ack name tag engine
  serve cluster (post_nack name tag) engine = handle_nack name tag engine
  serve cluster get_cluster_status engine = status_route cluster engine
