-- ===== src/Mqtt/Connection/Invariant.antt =====
-- What holds of every connection, whatever the client sends and the engine answers.
pub mod Lists
pub mod Returns
pub mod Changes
pub mod Packets
pub mod Reached
use pelican_q.Base.{
  ℕ, suc, ◌+◌, ◌%◌, ◌≤◌, ◌<◌, ◌≡◌, refl, sym, subst, ap, Bool, Bool-cases, inl, inr, true, false,
  List, [], ◌∷◌, ◌++◌, Option, none, some, arith, leb, All, if◌then◌else◌,
}
use pelican_q.Bytes.{Bytes}
use pelican_q.Failure.{Outcome, ok, err, panic, diverges}
use pelican_q.Message.{DeliveryTag}
use pelican_q.Platform.{Platform}
use pelican_q.Engine.Consume.{Delivery}
use pelican_q.Engine.Sound.Trees.{All-map}
use pelican_q.Server.{Consensus, AppEngine, and_then, and_return}
use pelican_q.Mqtt.{has_wildcard, mqtt_declare_queue}
use pelican_q.Mqtt.Connection.{
  Filter, Packet, connect_packet, publish_packet, subscribe_packet, unsubscribe_packet,
  puback_packet, pingreq_packet, disconnect_packet, other_packet, ReturnCode, Written, connack,
  publish_out, puback, suback, unsuback, pingresp, MqttOutgoing, Phase, connecting, serving, closed,
  Inflight, Connection, new_connection, find_pkid, remove_pkid, insert_pkid, contains_topic,
  remove_topic, remove_topics, close, write, subscribe_to, answer_publish,
}
use pelican_q.Mqtt.Connection.Invariant.Lists.{
  counts, published, published-append, Unique, Unique-insert_pkid, Unique-remove_pkid,
  All-remove_pkid, All-insert_pkid, All-remove_topics, All-append, All-contains,
}
use pelican_q.Mqtt.Connection.Packets.{
  subscribe_each, handle_client_packet, take_publish, take_subscribe, take_puback,
}
use pelican_q.Mqtt.Connection.Steps.{
  Event, packet, read_over, polled, outgoing, greet, send_message, send_first, enqueue,
  subscription_poller, serve_event, connect_event, connection_event, Reaches, opened, happens,
  meanwhile,
}

-- The packet id is that of the n-th message, for one of the messages written so far.
abbrev pub WasSent : ℕ → ℕ × (Bytes × DeliveryTag) → Type 0
WasSent total e = (n : ℕ) × (e.0 ≡ n % 65536) × (1 ≤ n) × (n ≤ total)

abbrev pub Plain : Bytes → Type 0
Plain topic = has_wildcard topic ≡ false

pub record IsServing (c : Connection) : Type 0 where
  pub numbered : c.next_pkid ≡ (1 + published c.written) % 65536
  pub sent : All (WasSent (published c.written)) c.inflight
  pub unique : Unique c.inflight
  pub subscribed : All Plain c.subscriptions
  pub channelled : All (λ (m : MqttOutgoing). Plain m.queue) c.channel
  pub delivered : All (λ (e : ℕ × (Bytes × DeliveryTag)). Plain e.1.0) c.inflight

-- A connection that serves its client; a new one, and one that is closed, have nothing to do.
abbrev pub IsConsistent : Phase → Connection → Type 0
IsConsistent connecting c = c ≡ new_connection
IsConsistent serving c = IsServing c
IsConsistent closed c = (c.subscriptions ≡ []) × (c.channel ≡ [])

abbrev pub Good : Connection → Type 0
Good c = IsConsistent c.phase c
