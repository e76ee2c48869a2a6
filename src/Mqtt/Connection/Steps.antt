-- ===== src/Mqtt/Connection/Steps.antt =====
-- pelicanqd/src/mqtt/handler.rs: the task of a connection and its pollers, as a machine that takes
-- one event at a time, and the states that it reaches.
use pelican_q.Base.{ℕ, ◌+◌, ◌%◌, ◌≡◌, Bool, List, [], ◌∷◌, ◌++◌, Option, none, some, if◌then◌else◌}
use pelican_q.Bytes.{Bytes}
use pelican_q.Failure.{ok}
use pelican_q.Platform.{Platform}
use pelican_q.Engine.Consume.{Delivery}
use pelican_q.Server.{Consensus, AppEngine, Handler, and_return}
use pelican_q.Mqtt.{mqtt_consume_one}
use pelican_q.Mqtt.Connection.{
  Packet, connect_packet, connack, publish_out, MqttOutgoing, Phase, connecting, serving, closed,
  Connection, new_connection, insert_pkid, contains_topic, close, write,
}
use pelican_q.Mqtt.Connection.Packets.{handle_client_packet}

-- A packet comes, with the UUID and the time of its message and whether the answer gets through; or
-- the client cannot be read any more; or a poller wakes up; or the channel has a message.
pub data Event : Type 0 where
  packet : Packet → (uuid : ℕ) → (now_secs : ℕ) → (written : Bool) → Event
  read_over : Event
  polled : Bytes → Event
  outgoing : (written : Bool) → Event

-- The first packet has to be CONNECT.
unfoldable pub greet : Packet → Bool → Connection → Connection
unfolding write close
greet connect_packet written c = write written connack (record c { phase = serving })
greet _ written c = close c

-- The id goes with the message into the map, and the next one follows as a u16.
unfoldable pub send_message : Bool → MqttOutgoing → Connection → Connection
unfolding insert_pkid write
send_message written m c = write written (publish_out m.queue c.next_pkid m.payload) (record c {
  next_pkid = (c.next_pkid + 1) % 65536;
  inflight = insert_pkid c.next_pkid (m.queue, m.tag) c.inflight;
})

unfoldable pub send_first : Bool → List MqttOutgoing → Connection → Connection
unfolding send_message
send_first written [] c = c
send_first written (m ∷ ms) c = send_message written m (record c { channel = ms })

unfoldable pub enqueue : Bytes → Connection → Option Delivery → Connection
enqueue queue c none = c
enqueue queue c (some (tag, msg)) = record c {
  channel = c.channel ++ (record { queue = queue; tag = tag; payload = msg.payload } ∷ []);
}

module _ ⦃p : Platform⦄ ⦃s : Consensus p.Db⦄ where
  open p use {Db}
  open s use {Cluster}

  unfoldable pub subscription_poller : Bytes → Connection → Handler Db Cluster Connection
  unfolding contains_topic mqtt_consume_one enqueue
  subscription_poller queue c engine =
      let woken = and_return (mqtt_consume_one queue engine) (enqueue queue c) in
      if contains_topic queue c.subscriptions then woken else (ok c, engine)

  unfoldable pub serve_event : Event → Connection → Handler Db Cluster Connection
  unfolding handle_client_packet subscription_poller send_first close
  serve_event (packet pk uuid now_secs written) c engine =
      handle_client_packet pk uuid now_secs written c engine
  serve_event read_over c engine = (ok (close c), engine)
  serve_event (polled queue) c engine = subscription_poller queue c engine
  serve_event (outgoing written) c engine = (ok (send_first written c.channel c), engine)

  unfoldable pub connect_event : Event → Connection → Handler Db Cluster Connection
  unfolding greet close
  connect_event (packet pk uuid now_secs written) c engine = (ok (greet pk written c), engine)
  connect_event read_over c engine = (ok (close c), engine)
  connect_event _ c engine = (ok c, engine)

  -- `handle_connection`, one event after another.
  unfoldable pub connection_event : Event → Phase → Connection → Handler Db Cluster Connection
  unfolding serve_event connect_event
  connection_event event connecting c engine = connect_event event c engine
  connection_event event serving c engine = serve_event event c engine
  connection_event event closed c engine = (ok c, engine)

  -- The states of a connection and the engine that events lead to.
  pub data Reaches : Connection → AppEngine Db Cluster → Type 0 where
    opened : (engine : AppEngine Db Cluster) → Reaches new_connection engine
    happens :
        (c d : Connection) (engine after : AppEngine Db Cluster) (event : Event)
        → Reaches c engine
        → connection_event event c.phase c engine ≡ (ok d, after)
        → Reaches d after
    -- other clients use the engine between two events
    meanwhile :
        (c : Connection) (engine after : AppEngine Db Cluster) → Reaches c engine → Reaches c after
