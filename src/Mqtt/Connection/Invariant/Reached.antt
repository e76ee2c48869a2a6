-- ===== src/Mqtt/Connection/Invariant/Reached.antt =====
-- Every connection that is reached is in order.
use pelican_q.Base.{◌≡◌, refl, sym, subst, Bool-cases, inl, inr}
use pelican_q.Bytes.{Bytes}
use pelican_q.Platform.{Platform}
use pelican_q.Server.{Consensus, AppEngine}
use pelican_q.Mqtt.Connection.{
  Phase, connecting, serving, closed, Connection, new_connection, contains_topic,
}
use pelican_q.Mqtt.Connection.Invariant.Lists.{All-contains}
use pelican_q.Mqtt.Connection.Steps.{
  Event, packet, read_over, polled, outgoing, subscription_poller, serve_event, connect_event,
  connection_event, Reaches, opened, happens, meanwhile,
}
use pelican_q.Mqtt.Connection.Invariant.{Plain, IsServing, IsConsistent, Good}
use pelican_q.Mqtt.Connection.Invariant.Returns.{returned, Returns, any-Returns, and_return-Returns}
use pelican_q.Mqtt.Connection.Invariant.Changes.{
  unchanged, close-Good, send_first-Good, enqueue-Good, greet-Good,
}
use pelican_q.Mqtt.Connection.Invariant.Packets.{packet-Good}

module _ ⦃p : Platform⦄ ⦃s : Consensus p.Db⦄ where
  open p use {Db}
  open s use {Cluster}

  poller-Good :
      (queue : Bytes) (c : Connection) (engine : AppEngine Db Cluster)
      → c.phase ≡ serving
      → IsServing c
      → Returns Good (subscription_poller queue c engine)
  unfolding subscription_poller
  poller-Good queue c engine phase i = elim (Bool-cases (contains_topic queue c.subscriptions)) [
    | inl e ↦ rw e (
        and_return-Returns _ any-Returns (λ delivered u.
          enqueue-Good queue c delivered phase i
            (All-contains Plain queue c.subscriptions e i.subscribed)))
    | inr e ↦ rw e (record { it = unchanged c phase i })
  ]

  serve_event-Good :
      (event : Event) (c : Connection) (engine : AppEngine Db Cluster)
      → c.phase ≡ serving
      → IsServing c
      → Returns Good (serve_event event c engine)
  unfolding serve_event
  serve_event-Good (packet pk uuid now_secs written) c engine phase i =
      packet-Good pk uuid now_secs written c engine phase i
  serve_event-Good read_over c engine phase i = record { it = close-Good c }
  serve_event-Good (polled queue) c engine phase i = poller-Good queue c engine phase i
  serve_event-Good (outgoing written) c engine phase i = record {
    it = send_first-Good written c c.channel refl phase i;
  }

  connect_event-Good :
      (event : Event) (engine : AppEngine Db Cluster)
      → Returns Good (connect_event event new_connection engine)
  unfolding connect_event
  connect_event-Good (packet pk uuid now_secs written) engine = record {
    it = greet-Good written pk;
  }
  connect_event-Good read_over engine = record { it = close-Good new_connection }
  connect_event-Good (polled queue) engine = record { it = refl }
  connect_event-Good (outgoing written) engine = record { it = refl }

  event-Good :
      (event : Event) (phase : Phase) (c : Connection) (engine : AppEngine Db Cluster)
      → c.phase ≡ phase
      → IsConsistent phase c
      → Returns Good (connection_event event phase c engine)
  unfolding connection_event
  event-Good event connecting c engine e i = rw i (connect_event-Good event engine)
  event-Good event serving c engine e i = serve_event-Good event c engine e i
  event-Good event closed c engine e i = record { it = subst (λ ph. IsConsistent ph c) (sym e) i }

  -- Of a connection that the events of the client, the pollers and the channel lead to, whatever the
  -- engine does and other clients do to it: before CONNECT it is as it was opened, and once closed it
  -- has no poller and no message on the way. While it serves, the next packet id is one above the
  -- number of messages written, modulo 2 ^ 16; each packet id in flight is that of a message written
  -- and stands once; and no topic with a wildcard is subscribed, on the way or in flight.
  pub Reaches-IsConsistent :
      (c : Connection) (engine : AppEngine Db Cluster) → Reaches c engine → IsConsistent c.phase c
  Reaches-IsConsistent _ _ (opened engine) = refl
  Reaches-IsConsistent _ _ (happens c d engine after event before step) =
      returned _ d after
        (event-Good event c.phase c engine refl (Reaches-IsConsistent c engine before)) step
  Reaches-IsConsistent _ _ (meanwhile c engine after before) = Reaches-IsConsistent c engine before
