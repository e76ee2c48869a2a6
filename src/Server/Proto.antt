-- ===== src/Server/Proto.antt =====
-- proto/pelicanq/v1, pelicanqd/src/grpc/queue_service.rs and sdks/rust/src/types.rs: the messages of
-- the gRPC interface, and their conversions on the server and in the Rust client.
pub mod RoundTrip
use pelican_q.Base.{
  ℕ, ◌%◌, Bool, true, false, List, [], ◌∷◌, Option, none, some, min, if◌then◌else◌,
}
use pelican_q.Bytes.{Bytes, same}
use pelican_q.Message.{Message, RetentionPolicy}
use pelican_q.Server.{Formats}

pub record PbMessage : Type 0 where
  pub id : Bytes
  pub payload : Bytes
  pub headers : List (Bytes × Bytes)
  pub timestamp : ℕ
  pub priority : ℕ
  pub deliver_at : Option ℕ
  pub dedup_key : Option Bytes
  pub delivery_attempts : ℕ

pub record ConsumedMessage : Type 0 where
  pub delivery_tag : ℕ
  pub message : Option PbMessage

pub record PublishResponse : Type 0 where
  pub id : Bytes
  pub deduplicated : Bool

pub record DeclareQueueRequest : Type 0 where
  pub name : Bytes
  pub max_age_secs : Option ℕ
  pub max_messages : Option ℕ
  pub max_delivery_attempts : Option ℕ
  pub dead_letter_queue : Option Bytes
  pub dedup_window_secs : Option ℕ

pub record QueueInfo : Type 0 where
  pub name : Bytes
  pub depth : ℕ
  pub scheduled_depth : ℕ

module _ ⦃f : Formats⦄ where
  open f use {uuid_text, parse_uuid}

  unfoldable pub core_message_to_proto : Message → PbMessage
  core_message_to_proto msg = record {
    id = uuid_text msg.id;
    payload = msg.payload;
    headers = msg.headers;
    timestamp = msg.timestamp;
    priority = msg.priority;
    deliver_at = msg.deliver_at;
    dedup_key = msg.dedup_key;
    delivery_attempts = msg.delivery_attempts;
  }

  unfoldable pub id_or : ℕ → Option ℕ → ℕ
  id_or new_v4 none = new_v4
  id_or new_v4 (some id) = id

  -- `new_v4` is the UUID of a message whose id is not the text of one; a priority is cut to a u8.
  unfoldable pub proto_message_to_core : ℕ → PbMessage → Message
  unfolding id_or
  proto_message_to_core new_v4 msg = record {
    id = id_or new_v4 (parse_uuid msg.id);
    payload = msg.payload;
    headers = msg.headers;
    timestamp = msg.timestamp;
    delivery_attempts = msg.delivery_attempts;
    priority = msg.priority % 256;
    deliver_at = msg.deliver_at;
    dedup_key = msg.dedup_key;
  }

  unfoldable pub consumed_message : ℕ × Message → ConsumedMessage
  unfolding core_message_to_proto
  consumed_message (tag, msg) = record {
    delivery_tag = tag;
    message = some (core_message_to_proto msg);
  }

unfoldable pub declare_request_to_policy : DeclareQueueRequest → RetentionPolicy
declare_request_to_policy req = record {
  max_age_secs = req.max_age_secs;
  max_messages = req.max_messages;
  max_delivery_attempts = req.max_delivery_attempts;
  dedup_window_secs = req.dedup_window_secs;
}

-- The messages of the Rust client.
pub record ClientMessage : Type 0 where
  pub payload : Bytes
  pub headers : List (Bytes × Bytes)
  pub priority : ℕ
  pub deliver_at : Option ℕ
  pub dedup_key : Option Bytes

unfoldable pub new_client_message : Bytes → ClientMessage
new_client_message payload = record {
  payload = payload;
  headers = [];
  priority = 0;
  deliver_at = none;
  dedup_key = none;
}

unfoldable pub with_client_priority : ClientMessage → ℕ → ClientMessage
with_client_priority m priority = record m { priority = min priority 9 }

unfoldable pub with_client_deliver_at : ClientMessage → ℕ → ClientMessage
with_client_deliver_at m deliver_at_ms = record m { deliver_at = some deliver_at_ms }

unfoldable pub with_client_dedup_key : ClientMessage → Bytes → ClientMessage
with_client_dedup_key m key = record m { dedup_key = some key }

-- A map of headers is the list of its entries; a key that is there gets the new value.
unfoldable pub insert_header : Bytes → Bytes → List (Bytes × Bytes) → List (Bytes × Bytes)
insert_header key value [] = (key, value) ∷ []
insert_header key value ((k, v) ∷ headers) =
    let rest = insert_header key value headers in
    if same k key then (key, value) ∷ headers else (k, v) ∷ rest

unfoldable pub with_header : ClientMessage → Bytes → Bytes → ClientMessage
unfolding insert_header
with_header m key value = record m { headers = insert_header key value m.headers }

pub record PublishResult : Type 0 where
  pub id : Bytes
  pub deduplicated : Bool

pub record ClientDelivery : Type 0 where
  pub delivery_tag : ℕ
  pub message : ClientMessage
  pub id : Bytes
  pub timestamp : ℕ
  pub delivery_attempts : ℕ

pub record QueueOptions : Type 0 where
  pub max_age_secs : Option ℕ
  pub max_messages : Option ℕ
  pub max_delivery_attempts : Option ℕ
  pub dead_letter_queue : Option Bytes
  pub dedup_window_secs : Option ℕ

unfoldable pub client_to_proto : ClientMessage → PbMessage
client_to_proto msg = record {
  id = [];
  payload = msg.payload;
  headers = msg.headers;
  timestamp = 0;
  priority = msg.priority;
  deliver_at = msg.deliver_at;
  dedup_key = msg.dedup_key;
  delivery_attempts = 0;
}

unfoldable pub proto_to_client : PbMessage → ClientMessage
proto_to_client msg = record {
  payload = msg.payload;
  headers = msg.headers;
  priority = msg.priority % 256;
  deliver_at = msg.deliver_at;
  dedup_key = msg.dedup_key;
}

unfoldable pub message_to_delivery : ℕ → Option PbMessage → ClientDelivery
unfolding proto_to_client new_client_message
message_to_delivery tag none = record {
  delivery_tag = tag;
  message = new_client_message [];
  id = [];
  timestamp = 0;
  delivery_attempts = 0;
}
message_to_delivery tag (some inner) = record {
  delivery_tag = tag;
  message = proto_to_client inner;
  id = inner.id;
  timestamp = inner.timestamp;
  delivery_attempts = inner.delivery_attempts;
}

unfoldable pub consumed_to_delivery : ConsumedMessage → ClientDelivery
unfolding message_to_delivery
consumed_to_delivery cm = message_to_delivery cm.delivery_tag cm.message

unfoldable pub response_to_result : PublishResponse → PublishResult
response_to_result pr = record { id = pr.id; deduplicated = pr.deduplicated }

pub record ClientQueueInfo : Type 0 where
  pub name : Bytes
  pub depth : ℕ
  pub scheduled_depth : ℕ

unfoldable pub info_to_client : QueueInfo → ClientQueueInfo
info_to_client qi = record {
  name = qi.name;
  depth = qi.depth;
  scheduled_depth = qi.scheduled_depth;
}
