-- ===== src/Server/Rpc.antt =====
-- pelicanqd/src/grpc/queue_service.rs and admin_service.rs: what the gRPC interface answers.
-- A status is its code and the content of its text.
pub mod Handlers
pub mod Stream
use pelican_q.Base.{ℕ, Bool, true, false, List, [], ◌∷◌, Option, none, some, map}
use pelican_q.Bytes.{Bytes}
use pelican_q.Failure.{
  PelicanError, queue_not_found, queue_already_exists, invalid_delivery_tag, storage_limit_exceeded,
  message_dead_lettered, Outcome, ok,
}
use pelican_q.Engine.Publish.{PublishOutcome, stored, deduplicated}
use pelican_q.Engine.Consume.{Delivery}
use pelican_q.Replica.{
  declare_queue_resp, publish_resp, publish_batch_resp, consume_resp, consume_batch_resp, ack_resp,
  nack_resp, Answer, success, failure,
}
use pelican_q.Server.{Node, WriteResult, write_ok, not_leader, write_error, Formats}
use pelican_q.Server.Proto.{ConsumedMessage, PublishResponse, consumed_message}

pub data Code : Type 0 where
  not_found : Code
  already_exists : Code
  resource_exhausted : Code
  invalid_argument : Code
  failed_precondition : Code
  unavailable : Code
  internal : Code

pub data StatusText : Type 0 where
  of_error : PelicanError → StatusText
  leader_at : Bytes → StatusText
  leader_unknown : StatusText
  of_message : Bytes → StatusText
  unexpected_response_type : StatusText
  unexpected_ack_response : StatusText
  unexpected_nack_response : StatusText
  message_is_required : StatusText
  queue_is_required : StatusText

pub record Status : Type 0 where
  pub code : Code
  pub text : StatusText

pub data RpcResult (A : Type 0) : Type 0 where
  response : A → RpcResult A
  rejected : Status → RpcResult A

unfoldable pub status : Code → StatusText → Status
status code text = record { code = code; text = text }

unfoldable pub pelican_error_to_status : PelicanError → Status
unfolding status
pelican_error_to_status e = status (code_of e) (of_error e)
  where
    code_of : PelicanError → Code
    code_of (queue_not_found q) = not_found
    code_of (queue_already_exists q) = already_exists
    code_of (storage_limit_exceeded p l) = resource_exhausted
    code_of (invalid_delivery_tag t) = invalid_argument
    code_of (message_dead_lettered q i) = failed_precondition
    code_of _ = internal

unfoldable pub leader_text : Option Node → StatusText
leader_text (some node) = leader_at node.client_addr
leader_text none = leader_unknown

-- `none` for a write that was applied.
unfoldable pub write_result_to_status : WriteResult → Option Status
unfolding status leader_text
write_result_to_status (write_ok resp) = none
write_result_to_status (not_leader leader_node) =
    some (status unavailable (leader_text leader_node))
write_result_to_status (write_error msg) = some (status internal (of_message msg))

module _ {A : Type 0} where
  unfoldable pub status_or : StatusText → Option Status → RpcResult A
  unfolding status
  status_or text none = rejected (status internal text)
  status_or text (some s) = rejected s

  -- The last arm of every match on a result of writing.
  unfoldable pub other_result : StatusText → WriteResult → Outcome (RpcResult A)
  unfolding status_or write_result_to_status
  other_result text result = ok (status_or text (write_result_to_status result))

  -- `map_err(pelican_error_to_status)`, after what a success is turned into.
  unfoldable pub answered : {B : Type 0} → (B → A) → Answer B → RpcResult A
  unfolding pelican_error_to_status
  answered f (success b) = response (f b)
  answered f (failure e) = rejected (pelican_error_to_status e)

-- `created: false` for a queue that exists.
unfoldable pub declare_answer : Answer (Unit {0}) → RpcResult Bool
unfolding pelican_error_to_status
declare_answer (success tt) = response true
declare_answer (failure (queue_already_exists q)) = response false
declare_answer (failure e) = rejected (pelican_error_to_status e)

unfoldable pub unit_answer : Answer (Unit {0}) → RpcResult (Unit {0})
unfolding answered
unit_answer a = answered (λ u. u) a

unfoldable pub declare_rpc_written : WriteResult → Outcome (RpcResult Bool)
unfolding declare_answer other_result
declare_rpc_written (write_ok (declare_queue_resp a)) = ok (declare_answer a)
declare_rpc_written result = other_result unexpected_response_type result

-- `ack` and `nack` of the service, and `handle_ack` and `handle_nack` of the stream with other texts.
unfoldable pub ack_rpc_written : StatusText → WriteResult → Outcome (RpcResult (Unit {0}))
unfolding unit_answer other_result
ack_rpc_written text (write_ok (ack_resp a)) = ok (unit_answer a)
ack_rpc_written text result = other_result text result

unfoldable pub nack_rpc_written : StatusText → WriteResult → Outcome (RpcResult (Unit {0}))
unfolding unit_answer other_result
nack_rpc_written text (write_ok (nack_resp a)) = ok (unit_answer a)
nack_rpc_written text result = other_result text result

-- `mgr.consume(queue).ok()?`
unfoldable pub delivery_if_ok : Answer (Option Delivery) → Option Delivery
delivery_if_ok (success delivered) = delivered
delivery_if_ok (failure e) = none

unfoldable pub consume_one_written : WriteResult → Outcome (Option Delivery)
unfolding delivery_if_ok
consume_one_written (write_ok (consume_resp a)) = ok (delivery_if_ok a)
consume_one_written result = ok none

module _ ⦃f : Formats⦄ where
  open f use {uuid_text}

  unfoldable pub publish_response : PublishOutcome → PublishResponse
  publish_response (stored id) = record { id = uuid_text id; deduplicated = false }
  publish_response deduplicated = record { id = []; deduplicated = true }

  unfoldable pub consume_response : Option Delivery → Option ConsumedMessage
  unfolding consumed_message
  consume_response none = none
  consume_response (some delivery) = some (consumed_message delivery)

  unfoldable pub publish_rpc_written : WriteResult → Outcome (RpcResult PublishResponse)
  unfolding answered publish_response other_result
  publish_rpc_written (write_ok (publish_resp a)) = ok (answered publish_response a)
  publish_rpc_written result = other_result unexpected_response_type result

  unfoldable pub publish_batch_written : WriteResult → Outcome (RpcResult (List PublishResponse))
  unfolding answered publish_response other_result
  publish_batch_written (write_ok (publish_batch_resp a)) = ok (answered (map publish_response) a)
  publish_batch_written result = other_result unexpected_response_type result

  unfoldable pub consume_rpc_written : WriteResult → Outcome (RpcResult (Option ConsumedMessage))
  unfolding answered consume_response other_result
  consume_rpc_written (write_ok (consume_resp a)) = ok (answered consume_response a)
  consume_rpc_written result = other_result unexpected_response_type result

  unfoldable pub consume_batch_written : WriteResult → Outcome (RpcResult (List ConsumedMessage))
  unfolding answered consumed_message other_result
  consume_batch_written (write_ok (consume_batch_resp a)) = ok (answered (map consumed_message) a)
  consume_batch_written result = other_result unexpected_response_type result
