-- ===== src/Server/Http.antt =====
-- pelicanqd/src/api.rs: the HTTP interface.
-- A response is its status, its JSON body and the leader that its header names. The text of an error
-- in a body is the error itself; axum reads the requests and turns the bodies into JSON.
pub mod Handlers
use pelican_q.Base.{ℕ, Bool, true, false, List, [], ◌∷◌, Option, none, some, if◌then◌else◌}
use pelican_q.Bytes.{Bytes}
use pelican_q.Failure.{
  PelicanError, queue_not_found, queue_already_exists, invalid_delivery_tag, storage_limit_exceeded,
  message_dead_lettered, Outcome, ok, panic, Fallible, done, failed,
}
use pelican_q.Message.{Message, DeliveryTag, new_message, default_policy}
use pelican_q.Platform.{Platform}
use pelican_q.Exec.{Exec, ◌>>=◌, pure, attempt}
use pelican_q.Engine.Declare.{declare_queue, list_queues, depth}
use pelican_q.Engine.Publish.{PublishOutcome, stored, deduplicated, publish}
use pelican_q.Engine.Consume.{Delivery, consume, ack}
use pelican_q.Engine.Nack.{nack}
use pelican_q.Replica.{
  declare_queue_op, publish_op, consume_op, ack_op, nack_op, declare_queue_resp, publish_resp,
  consume_resp, ack_resp, nack_resp, Answer, success, failure,
}
use pelican_q.Server.{
  Node, Consensus, WriteResult, write_ok, not_leader, write_error, AppEngine, solo, flock, Handler,
  Formats, read_engine, write_engine,
}
use pelican_q.Cluster.{ClusterConfig, NodeConfig}

pub record QueueEntry : Type 0 where
  pub name : Bytes
  pub depth : ℕ

pub record PublishRequest : Type 0 where
  pub payload_base64 : Bytes
  pub headers : List (Bytes × Bytes)

pub data Body : Type 0 where
  null : Body
  pelican_error : PelicanError → Body
  not_leader_error : Body
  error_message : Bytes → Body
  unexpected_response : Body
  invalid_base64 : Bytes → Body
  health_body : Body
  queues_body : List QueueEntry → Body
  published_body : Bytes → Body
  deduplicated_body : Body
  -- tag, id, payload, headers and timestamp
  delivery_body : ℕ → Bytes → Bytes → List (Bytes × Bytes) → ℕ → Body
  -- own id, members, and whether reads may lag
  cluster_body : ℕ → List NodeConfig → Bool → Body

pub record Response : Type 0 where
  pub status : ℕ
  pub body : Body
  pub leader_addr : Option Bytes

unfoldable pub reply : ℕ → Body → Response
reply status body = record { status = status; body = body; leader_addr = none }

unfoldable pub map_error : PelicanError → Response
unfolding reply
map_error e = reply (status_of e) (pelican_error e)
  where
    status_of : PelicanError → ℕ
    status_of (queue_not_found q) = 404
    status_of (queue_already_exists q) = 409
    status_of (invalid_delivery_tag t) = 400
    status_of (storage_limit_exceeded p l) = 413
    status_of (message_dead_lettered q i) = 200
    status_of _ = 500

unfoldable pub flock_error_response : Bytes → Response
unfolding reply
flock_error_response msg = reply 500 (error_message msg)

unfoldable pub unexpected : Response
unfolding reply
unexpected = reply 500 unexpected_response

unfoldable pub health : Response
unfolding reply
health = reply 200 health_body

-- What declare, ack and nack answer: a status and nothing else.
unfoldable pub unit_response : ℕ → Answer (Unit {0}) → Response
unfolding reply map_error
unit_response status (success tt) = reply status null
unit_response status (failure e) = map_error e

unfoldable pub outcome_response : Bytes → Answer PublishOutcome → Response
unfolding reply map_error
outcome_response msg_id (success (stored id)) = reply 201 (published_body msg_id)
outcome_response msg_id (success deduplicated) = reply 200 deduplicated_body
outcome_response msg_id (failure e) = map_error e

module _ ⦃f : Formats⦄ where
  open f use {encode64, decode64, uuid_text, header_value}

  -- `HeaderValue::from_str(..).unwrap()` panics at an address that no header can hold.
  unfoldable pub leader_response : Bytes → Option Bytes → Outcome Response
  unfolding reply
  leader_response addr none = panic
  leader_response addr (some value) =
      ok (record (reply 421 not_leader_error) { leader_addr = some value })

  unfoldable pub not_leader_response : Option Node → Outcome Response
  unfolding leader_response reply
  not_leader_response none = ok (reply 421 not_leader_error)
  not_leader_response (some node) = named node.client_addr
    where
      named : Bytes → Outcome Response
      named [] = ok (reply 421 not_leader_error)
      named (c ∷ addr) = leader_response (c ∷ addr) (header_value (c ∷ addr))

  -- What is left of a result of writing when the expected response has been read.
  unfoldable pub other_response : WriteResult → Outcome Response
  unfolding not_leader_response flock_error_response unexpected
  other_response (write_ok response) = ok unexpected
  other_response (not_leader leader_node) = not_leader_response leader_node
  other_response (write_error msg) = ok (flock_error_response msg)

  unfoldable pub delivery_response : Answer (Option Delivery) → Response
  unfolding reply map_error
  delivery_response (success (some (tag, msg))) =
      reply 200
        (delivery_body tag (uuid_text msg.id) (encode64 msg.payload) msg.headers msg.timestamp)
  delivery_response (success none) = reply 204 null
  delivery_response (failure e) = map_error e

  unfoldable pub declare_written : WriteResult → Outcome Response
  unfolding unit_response other_response
  declare_written (write_ok (declare_queue_resp a)) = ok (unit_response 201 a)
  declare_written result = other_response result

  unfoldable pub publish_written : Bytes → WriteResult → Outcome Response
  unfolding outcome_response other_response
  publish_written msg_id (write_ok (publish_resp a)) = ok (outcome_response msg_id a)
  publish_written msg_id result = other_response result

  unfoldable pub consume_written : WriteResult → Outcome Response
  unfolding delivery_response other_response
  consume_written (write_ok (consume_resp a)) = ok (delivery_response a)
  consume_written result = other_response result

  unfoldable pub ack_written : WriteResult → Outcome Response
  unfolding unit_response other_response
  ack_written (write_ok (ack_resp a)) = ok (unit_response 200 a)
  ack_written result = other_response result

  unfoldable pub nack_written : WriteResult → Outcome Response
  unfolding unit_response other_response
  nack_written (write_ok (nack_resp a)) = ok (unit_response 200 a)
  nack_written result = other_response result
