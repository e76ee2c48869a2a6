-- ===== src/Mqtt/Connection/Packets.antt =====
-- pelicanqd/src/mqtt/handler.rs: what the server does with a packet of the client.
use pelican_q.Base.{ℕ, Bool, List, [], ◌∷◌, Option, none, some, if◌then◌else◌}
use pelican_q.Bytes.{Bytes}
use pelican_q.Failure.{ok}
use pelican_q.Message.{DeliveryTag}
use pelican_q.Platform.{Platform}
use pelican_q.Server.{Consensus, Handler, and_then, and_return}
use pelican_q.Mqtt.{
  has_wildcard, mqtt_message, mqtt_declare_queue, mqtt_ack_message, mqtt_publish_message,
}
use pelican_q.Mqtt.Connection.{
  Filter, Packet, connect_packet, publish_packet, subscribe_packet, unsubscribe_packet,
  puback_packet, pingreq_packet, disconnect_packet, other_packet, ReturnCode, refused, suback,
  unsuback, pingresp, Connection, find_pkid, remove_pkid, remove_topics, close, write, subscribe_to,
  answer_publish,
}

module _ ⦃p : Platform⦄ ⦃s : Consensus p.Db⦄ where
  open p use {Db}
  open s use {Cluster}

  -- The codes of the filters still to do go after the code of this one.
  unfoldable pub subscribe_each :
      List Filter → List Bytes → Handler Db Cluster (List ReturnCode × List Bytes)
  unfolding has_wildcard mqtt_declare_queue subscribe_to
  subscribe_each [] subscriptions engine = (ok ([], subscriptions), engine)
  subscribe_each (filter ∷ filters) subscriptions engine =
      let refusing =
        and_return (subscribe_each filters subscriptions engine) (λ r. (refused ∷ r.0, r.1)) in
      let taken = subscribe_to filter subscriptions in
      let granting = and_then (mqtt_declare_queue filter.path engine) (λ declared after.
        and_return (subscribe_each filters taken.1 after) (λ r. (taken.0 ∷ r.0, r.1))) in
      if has_wildcard filter.path then refusing else granting

  -- The queue is declared, whatever comes of it, and the packet is answered whatever comes of
  -- publishing it.
  unfoldable pub take_publish :
      Bytes → ℕ → ℕ → Bytes → ℕ → ℕ → Bool → Connection → Handler Db Cluster Connection
  unfolding mqtt_declare_queue mqtt_publish_message mqtt_message answer_publish
  take_publish topic qos pkid payload uuid now_secs written c engine =
      and_then (mqtt_declare_queue topic engine) (λ declared after.
        and_return (mqtt_publish_message topic (mqtt_message uuid now_secs payload) after)
          (λ published. answer_publish qos pkid written c))

  unfoldable pub take_subscribe :
      ℕ → List Filter → Bool → Connection → Handler Db Cluster Connection
  unfolding subscribe_each write
  take_subscribe pkid filters written c engine =
      and_return (subscribe_each filters c.subscriptions engine)
        (λ r. write written (suback pkid r.0) (record c { subscriptions = r.1 }))

  unfoldable pub take_puback :
      ℕ → Option (Bytes × DeliveryTag) → Connection → Handler Db Cluster Connection
  unfolding mqtt_ack_message remove_pkid
  take_puback pkid none c engine = (ok c, engine)
  take_puback pkid (some (queue, tag)) c engine =
      and_return (mqtt_ack_message queue tag engine)
        (λ acked. record c { inflight = remove_pkid pkid c.inflight })

  -- `handle_client_packet`; `uuid` and `now_secs` are those of a message, and `written` says whether
  -- the answer reaches the client.
  unfoldable pub handle_client_packet :
      Packet → ℕ → ℕ → Bool → Connection → Handler Db Cluster Connection
  unfolding take_publish take_subscribe take_puback remove_topics find_pkid write close
  handle_client_packet (publish_packet topic qos pkid payload) uuid now_secs written c engine =
      take_publish topic qos pkid payload uuid now_secs written c engine
  handle_client_packet (subscribe_packet pkid filters) uuid now_secs written c engine =
      take_subscribe pkid filters written c engine
  handle_client_packet (unsubscribe_packet pkid topics) uuid now_secs written c engine = (
    ok (
        write written (unsuback pkid)
          (record c { subscriptions = remove_topics topics c.subscriptions })),
    engine,
  )
  handle_client_packet (puback_packet pkid) uuid now_secs written c engine =
      take_puback pkid (find_pkid pkid c.inflight) c engine
  handle_client_packet pingreq_packet uuid now_secs written c engine =
      (ok (write written pingresp c), engine)
  handle_client_packet disconnect_packet uuid now_secs written c engine = (ok (close c), engine)
  handle_client_packet connect_packet uuid now_secs written c engine = (ok c, engine)
  handle_client_packet other_packet uuid now_secs written c engine = (ok c, engine)
