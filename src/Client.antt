-- ===== src/Client.antt =====
-- sdks/rust/src/client.rs and error.rs: the calls of the Rust client, on a server that it reaches.
-- Each call is one call of the service and the conversion of its answer.
pub mod Through
use pelican_q.Base.{◌<◌, ℕ, Bool, List, Option, none, some, map}
use pelican_q.Bytes.{Bytes}
use pelican_q.Message.{DeliveryTag}
use pelican_q.Platform.{Platform}
use pelican_q.Server.{Consensus, Handler, Formats, and_return}
use pelican_q.Server.Proto.{
  ConsumedMessage, DeclareQueueRequest, QueueInfo, ClientMessage, PublishResult, ClientDelivery,
  QueueOptions, ClientQueueInfo, client_to_proto, consumed_to_delivery, response_to_result,
  info_to_client,
}
use pelican_q.Server.Rpc.{not_found, Code, RpcResult, response, rejected, Status, StatusText}
use pelican_q.Server.Rpc.Handlers.{
  declare_queue_call, list_queues_call, publish_call, publish_batch_call, consume_call,
  consume_batch_call, ack_call, nack_call, rpc_serve,
}

pub data PelicanClientError : Type 0 where
  not_found_error : StatusText → PelicanClientError
  rpc_error : Status → PelicanClientError

pub data ClientResult (A : Type 0) : Type 0 where
  received : A → ClientResult A
  failed_with : PelicanClientError → ClientResult A

-- `From<tonic::Status>`
unfoldable pub error_of_status : Status → PelicanClientError
error_of_status s = by_code s.code
  where
    by_code : Code → PelicanClientError
    by_code not_found = not_found_error s.text
    by_code _ = rpc_error s

unfoldable pub converted : {A B : Type 0} → (A → B) → RpcResult A → ClientResult B
unfolding error_of_status
converted f (response a) = received (f a)
converted f (rejected s) = failed_with (error_of_status s)

unfoldable pub request_of_options : Bytes → QueueOptions → DeclareQueueRequest
request_of_options name options = record {
  name = name;
  max_age_secs = options.max_age_secs;
  max_messages = options.max_messages;
  max_delivery_attempts = options.max_delivery_attempts;
  dead_letter_queue = options.dead_letter_queue;
  dedup_window_secs = options.dedup_window_secs;
}

unfoldable pub delivered_message : Option ConsumedMessage → Option ClientDelivery
unfolding consumed_to_delivery
delivered_message none = none
delivered_message (some cm) = some (consumed_to_delivery cm)

module _ ⦃p : Platform⦄ ⦃s : Consensus p.Db⦄ ⦃f : Formats⦄ where
  open p use {Db}
  open s use {Cluster}

  unfoldable pub client_declare_queue :
      Bytes → QueueOptions → Handler Db Cluster (ClientResult Bool)
  unfolding rpc_serve request_of_options converted and_return
  client_declare_queue name options engine =
      and_return (rpc_serve (declare_queue_call (request_of_options name options)) engine)
        (converted (λ created. created))

  unfoldable pub client_publish :
      ℕ → Bytes → ClientMessage → Handler Db Cluster (ClientResult PublishResult)
  unfolding rpc_serve client_to_proto response_to_result converted and_return
  client_publish new_v4 queue message engine =
      and_return (rpc_serve (publish_call new_v4 queue (some (client_to_proto message))) engine)
        (converted response_to_result)

  unfoldable pub client_publish_batch :
      (ℕ → ℕ) → Bytes → List ClientMessage → Handler Db Cluster (ClientResult (List PublishResult))
  unfolding rpc_serve client_to_proto response_to_result converted and_return
  client_publish_batch new_v4 queue messages engine =
      and_return (rpc_serve (publish_batch_call new_v4 queue (map client_to_proto messages)) engine)
        (converted (map response_to_result))

  unfoldable pub client_consume : Bytes → Handler Db Cluster (ClientResult (Option ClientDelivery))
  unfolding rpc_serve delivered_message converted and_return
  client_consume queue engine =
      and_return (rpc_serve (consume_call queue) engine) (converted delivered_message)

  unfoldable pub client_consume_batch :
      Bytes → (max : ℕ) → max < 4294967296 → Handler Db Cluster (ClientResult (List ClientDelivery))
  unfolding rpc_serve consumed_to_delivery converted and_return
  client_consume_batch queue max small engine =
      and_return (rpc_serve (consume_batch_call queue max small) engine)
        (converted (map consumed_to_delivery))

  unfoldable pub client_ack : Bytes → DeliveryTag → Handler Db Cluster (ClientResult Unit)
  unfolding rpc_serve converted and_return
  client_ack queue tag engine =
      and_return (rpc_serve (ack_call queue tag) engine) (converted (λ u. u))

  unfoldable pub client_nack : Bytes → DeliveryTag → Handler Db Cluster (ClientResult Unit)
  unfolding rpc_serve converted and_return
  client_nack queue tag engine =
      and_return (rpc_serve (nack_call queue tag) engine) (converted (λ u. u))

  unfoldable pub client_list_queues : Handler Db Cluster (ClientResult (List ClientQueueInfo))
  unfolding rpc_serve info_to_client converted and_return
  client_list_queues engine =
      and_return (rpc_serve list_queues_call engine) (converted (map info_to_client))
