-- ===== src/Mqtt/Connection.antt =====
-- pelicanqd/src/mqtt/handler.rs: the state of a connection: its packets in flight, its
-- subscriptions, and what goes to the client.
pub mod Packets
pub mod Steps
pub mod Invariant
pub mod Settle
use pelican_q.Base.{
  ℕ, ◌+◌, ◌%◌, Bool, true, false, ◌==◌, List, [], ◌∷◌, ◌++◌, Option, none, some, leb, if◌then◌else◌,
}
use pelican_q.Bytes.{Bytes, same}
use pelican_q.Failure.{ok}
use pelican_q.Message.{DeliveryTag}
use pelican_q.Platform.{Platform}
use pelican_q.Engine.Consume.{Delivery}
use pelican_q.Server.{Consensus, Handler, and_then, and_return}
use pelican_q.Mqtt.{
  has_wildcard, mqtt_message, mqtt_declare_queue, mqtt_consume_one, mqtt_ack_message,
  mqtt_publish_message,
}

pub record Filter : Type 0 where
  pub path : Bytes
  pub qos : ℕ

-- The packets of a client.
pub data Packet : Type 0 where
  connect_packet : Packet
  -- topic, quality of service, packet id and payload
  publish_packet : Bytes → ℕ → ℕ → Bytes → Packet
  subscribe_packet : ℕ → List Filter → Packet
  unsubscribe_packet : ℕ → List Bytes → Packet
  puback_packet : ℕ → Packet
  pingreq_packet : Packet
  disconnect_packet : Packet
  other_packet : Packet

pub data ReturnCode : Type 0 where
  granted : ℕ → ReturnCode
  refused : ReturnCode

-- The packets of the server; it publishes with quality of service 1.
pub data Written : Type 0 where
  connack : Written
  publish_out : Bytes → ℕ → Bytes → Written
  puback : ℕ → Written
  suback : ℕ → List ReturnCode → Written
  unsuback : ℕ → Written
  pingresp : Written

-- A message on its way from a poller to the connection.
pub record MqttOutgoing : Type 0 where
  pub queue : Bytes
  pub tag : DeliveryTag
  pub payload : Bytes

pub data Phase : Type 0 where
  connecting : Phase
  serving : Phase
  closed : Phase

abbrev pub Inflight : Type 0
Inflight = List (ℕ × (Bytes × DeliveryTag))

-- `subscriptions` are the queues with a poller, `channel` what the pollers have sent, `written` the
-- packets sent to the client, the last one last.
pub record Connection : Type 0 where
  pub phase : Phase
  pub inflight : Inflight
  pub next_pkid : ℕ
  pub subscriptions : List Bytes
  pub channel : List MqttOutgoing
  pub written : List Written

abbrev pub new_connection : Connection
new_connection = record {
  phase = connecting;
  inflight = [];
  next_pkid = 1;
  subscriptions = [];
  channel = [];
  written = [];
}

-- The map of packet ids.
unfoldable pub remove_pkid : ℕ → Inflight → Inflight
remove_pkid pkid [] = []
remove_pkid pkid ((k, v) ∷ inflight) =
    let rest = remove_pkid pkid inflight in if k == pkid then rest else (k, v) ∷ rest

unfoldable pub insert_pkid : ℕ → Bytes × DeliveryTag → Inflight → Inflight
unfolding remove_pkid
insert_pkid pkid v inflight = (pkid, v) ∷ remove_pkid pkid inflight

unfoldable pub find_pkid : ℕ → Inflight → Option (Bytes × DeliveryTag)
find_pkid pkid [] = none
find_pkid pkid ((k, v) ∷ inflight) =
    let rest = find_pkid pkid inflight in if k == pkid then some v else rest

unfoldable pub contains_topic : Bytes → List Bytes → Bool
contains_topic topic [] = false
contains_topic topic (t ∷ topics) =
    let rest = contains_topic topic topics in if same t topic then true else rest

unfoldable pub remove_topic : Bytes → List Bytes → List Bytes
remove_topic topic [] = []
remove_topic topic (t ∷ topics) =
    let rest = remove_topic topic topics in if same t topic then rest else t ∷ rest

unfoldable pub remove_topics : List Bytes → List Bytes → List Bytes
unfolding remove_topic
remove_topics [] subscriptions = subscriptions
remove_topics (t ∷ topics) subscriptions = remove_topics topics (remove_topic t subscriptions)

-- The end of the loop: the pollers are aborted, and what they have sent is dropped.
unfoldable pub close : Connection → Connection
close c = record c { phase = closed; subscriptions = []; channel = [] }

-- A packet is written, or the failure of the write ends the connection.
unfoldable pub write : Bool → Written → Connection → Connection
unfolding close
write true packet c = record c { written = c.written ++ (packet ∷ []) }
write false packet c = close c

unfoldable pub granted_qos : ℕ → ReturnCode
granted_qos qos = granted (if qos == 0 then 0 else 1)

-- The subscription of one filter that has no wildcard, after its queue has been declared.
unfoldable pub subscribe_to : Filter → List Bytes → ReturnCode × List Bytes
unfolding contains_topic granted_qos
subscribe_to filter subscriptions =
    if contains_topic filter.path subscriptions
    then (granted 1, subscriptions)
    else (granted_qos filter.qos, filter.path ∷ subscriptions)

unfoldable pub answer_publish : ℕ → ℕ → Bool → Connection → Connection
unfolding write
answer_publish qos pkid written c = if leb 1 qos then write written (puback pkid) c else c
