-- ===== src/Mqtt/Connection/Invariant/Packets.antt =====
-- The packets of a client leave the connection in order.
use pelican_q.Base.{
  ℕ, ◌≡◌, refl, Bool, Bool-cases, inl, inr, List, [], ◌∷◌, Option, none, some, leb, All,
}
use pelican_q.Bytes.{Bytes}
use pelican_q.Message.{DeliveryTag}
use pelican_q.Platform.{Platform}
use pelican_q.Server.{Consensus, AppEngine}
use pelican_q.Mqtt.{has_wildcard}
use pelican_q.Mqtt.Connection.{
  Filter, Packet, connect_packet, publish_packet, subscribe_packet, unsubscribe_packet,
  puback_packet, pingreq_packet, disconnect_packet, other_packet, puback, suback, unsuback,
  pingresp, serving, Connection, find_pkid, remove_pkid, answer_publish,
}
use pelican_q.Mqtt.Connection.Invariant.Lists.{
  Unique-remove_pkid, All-remove_pkid, All-remove_topics,
}
use pelican_q.Mqtt.Connection.Packets.{
  subscribe_each, handle_client_packet, take_publish, take_subscribe, take_puback,
}
use pelican_q.Mqtt.Connection.Invariant.{Plain, IsServing, Good}
use pelican_q.Mqtt.Connection.Invariant.Returns.{
  Returns, and_then-Returns, any-Returns, and_return-Returns,
}
use pelican_q.Mqtt.Connection.Invariant.Changes.{
  unchanged, close-Good, write-Good, subscribe_to-Plain,
}

module _ ⦃p : Platform⦄ ⦃s : Consensus p.Db⦄ where
  open p use {Db}
  open s use {Cluster}

  subscribe_each-Plain :
      (filters : List Filter) (subscriptions : List Bytes) (engine : AppEngine Db Cluster)
      → All Plain subscriptions
      → Returns (λ r. All Plain r.1) (subscribe_each filters subscriptions engine)
  unfolding subscribe_each
  subscribe_each-Plain [] subscriptions engine h = record { it = h }
  subscribe_each-Plain (filter ∷ filters) subscriptions engine h =
      elim (Bool-cases (has_wildcard filter.path)) [
        | inl e ↦
            rw e (
              and_return-Returns _ (subscribe_each-Plain filters subscriptions engine h) (λ r k. k))
        | inr e ↦ rw e (
            and_then-Returns any-Returns (λ declared after u.
              and_return-Returns _
                (subscribe_each-Plain filters _ after (subscribe_to-Plain filter subscriptions e h))
                (λ r k. k)))
      ]

  take_puback-Good :
      (pkid : ℕ) (found : Option (Bytes × DeliveryTag)) (c : Connection)
      (engine : AppEngine Db Cluster)
      → c.phase ≡ serving
      → IsServing c
      → Returns Good (take_puback pkid found c engine)
  unfolding take_puback
  take_puback-Good pkid none c engine phase i = record { it = unchanged c phase i }
  take_puback-Good pkid (some (queue, tag)) c engine phase i =
      and_return-Returns _ any-Returns (λ acked u.
        unchanged (record c { inflight = remove_pkid pkid c.inflight }) phase
          (record {
            numbered = i.numbered;
            sent = All-remove_pkid _ pkid c.inflight i.sent;
            unique = Unique-remove_pkid pkid c.inflight i.unique;
            subscribed = i.subscribed;
            channelled = i.channelled;
            delivered = All-remove_pkid _ pkid c.inflight i.delivered;
          }))

  answer_publish-Good :
      (qos pkid : ℕ) (written : Bool) (c : Connection)
      → c.phase ≡ serving
      → IsServing c
      → Good (answer_publish qos pkid written c)
  unfolding answer_publish
  answer_publish-Good qos pkid written c phase i = elim (Bool-cases (leb 1 qos)) [
    | inl e ↦ rw e (write-Good written (puback pkid) c refl phase i)
    | inr e ↦ rw e (unchanged c phase i)
  ]

  pub packet-Good :
      (pk : Packet) (uuid now_secs : ℕ) (written : Bool) (c : Connection)
      (engine : AppEngine Db Cluster)
      → c.phase ≡ serving
      → IsServing c
      → Returns Good (handle_client_packet pk uuid now_secs written c engine)
  unfolding handle_client_packet take_publish take_subscribe
  packet-Good (publish_packet topic qos pkid payload) uuid now_secs written c engine phase i =
      and_then-Returns any-Returns (λ declared after u.
        and_return-Returns _ any-Returns
          (λ sent_on u. answer_publish-Good qos pkid written c phase i))
  packet-Good (subscribe_packet pkid filters) uuid now_secs written c engine phase i =
      and_return-Returns _ (subscribe_each-Plain filters c.subscriptions engine i.subscribed)
        (λ r plain. write-Good written (suback pkid r.0) _ refl phase (record {
          numbered = i.numbered;
          sent = i.sent;
          unique = i.unique;
          subscribed = plain;
          channelled = i.channelled;
          delivered = i.delivered;
        }))
  packet-Good (unsubscribe_packet pkid topics) uuid now_secs written c engine phase i = record {
    it = write-Good written (unsuback pkid) _ refl phase (record {
      numbered = i.numbered;
      sent = i.sent;
      unique = i.unique;
      subscribed = All-remove_topics Plain topics c.subscriptions i.subscribed;
      channelled = i.channelled;
      delivered = i.delivered;
    });
  }
  packet-Good (puback_packet pkid) uuid now_secs written c engine phase i =
      take_puback-Good pkid (find_pkid pkid c.inflight) c engine phase i
  packet-Good pingreq_packet uuid now_secs written c engine phase i = record {
    it = write-Good written pingresp c refl phase i;
  }
  packet-Good disconnect_packet uuid now_secs written c engine phase i = record {
    it = close-Good c;
  }
  packet-Good connect_packet uuid now_secs written c engine phase i = record {
    it = unchanged c phase i;
  }
  packet-Good other_packet uuid now_secs written c engine phase i = record {
    it = unchanged c phase i;
  }
