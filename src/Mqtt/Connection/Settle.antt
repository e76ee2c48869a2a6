-- ===== src/Mqtt/Connection/Settle.antt =====
-- Acknowledgements between a client and the server.
use pelican_q.Base.{
  ℕ, ◌+◌, ◌%◌, ◌≤◌, ◌<◌, ◌≡◌, refl, Bool-cases, inl, inr, true, ◌==◌, [], ◌∷◌, ◌++◌, Option, none,
  some, arith, leb, All, subst, Bool,
}
use pelican_q.Bytes.{Bytes}
use pelican_q.Failure.{ok}
use pelican_q.Message.{DeliveryTag}
use pelican_q.Platform.{Platform}
use pelican_q.Replica.{QueueOperation}
use pelican_q.Server.{Node, forward_to_leader, Consensus, AppEngine, flock, and_return}
use pelican_q.Mqtt.{mqtt_declare_queue, mqtt_publish_message}
use pelican_q.Mqtt.Connection.{
  publish_packet, puback_packet, puback, serving, Inflight, Connection, find_pkid, answer_publish,
}
use pelican_q.Mqtt.Connection.Packets.{handle_client_packet, take_publish, take_puback}
use pelican_q.Mqtt.Connection.Steps.{Reaches}
use pelican_q.Mqtt.Connection.Invariant.{WasSent, IsServing, IsConsistent}
use pelican_q.Mqtt.Connection.Invariant.Lists.{published, find_pkid-remove_pkid}
use pelican_q.Mqtt.Connection.Invariant.Returns.{Returns, any-Returns, and_return-Returns, returned}
use pelican_q.Mqtt.Connection.Invariant.Reached.{Reaches-IsConsistent}

find_pkid-next :
    (total pkid : ℕ) (inflight : Inflight)
    → total < 65535
    → pkid ≡ (1 + total) % 65536
    → All (WasSent total) inflight
    → find_pkid pkid inflight ≡ none
unfolding find_pkid
find_pkid-next total pkid [] few e h = refl
find_pkid-next total pkid ((k, v) ∷ inflight) few e ((n, below, from, upto), h) =
    elim (Bool-cases (k == pkid)) [
      | inl g ↦ absurd (ground arith)
      | inr g ↦ rw g (find_pkid-next total pkid inflight few e h)
    ]

module _ ⦃p : Platform⦄ ⦃s : Consensus p.Db⦄ where
  open p use {Db}
  open s use {Cluster, raft_write}

  -- Of a connection that events lead to and that serves its client: until 65535 messages have been
  -- written to the client, the next packet id is from 1 to 65535 and not in flight, so that sending a
  -- message forgets no other. (The message after these has the id 0, and later ones may take ids that
  -- are in flight.)
  pub next_pkid-unused :
      (c : Connection) (engine : AppEngine Db Cluster)
      → Reaches c engine
      → c.phase ≡ serving
      → published c.written < 65535
      → (1 ≤ c.next_pkid) × (c.next_pkid < 65536) × (find_pkid c.next_pkid c.inflight ≡ none)
  next_pkid-unused c engine reached phase few =
      let i : IsServing c =
        subst (λ ph. IsConsistent ph c) phase (Reaches-IsConsistent c engine reached) in
      let e = i.numbered in
      (
        omega arith,
        omega arith,
        find_pkid-next (published c.written) c.next_pkid c.inflight few i.numbered i.sent,
      )

  take_puback-removes :
      (pkid : ℕ) (found : Option (Bytes × DeliveryTag)) (c : Connection)
      (engine : AppEngine Db Cluster)
      → find_pkid pkid c.inflight ≡ found
      → Returns (λ d. find_pkid pkid d.inflight ≡ none) (take_puback pkid found c engine)
  unfolding take_puback
  take_puback-removes pkid none c engine e = record { it = e }
  take_puback-removes pkid (some (queue, tag)) c engine e =
      and_return-Returns _ any-Returns (λ acked u. find_pkid-remove_pkid pkid c.inflight)

  -- If the server has taken an acknowledgement of a packet id, then a second one of the same id
  -- changes neither the connection nor the engine.
  pub puback_once :
      (pkid uuid now_secs : ℕ) (written : Bool) (c d : Connection)
      (engine after : AppEngine Db Cluster)
      → handle_client_packet (puback_packet pkid) uuid now_secs written c engine ≡ (ok d, after)
      → handle_client_packet (puback_packet pkid) uuid now_secs written d after ≡ (ok d, after)
  unfolding handle_client_packet take_puback
  puback_once pkid uuid now_secs written c d engine after h =
      let gone =
        returned _ d after (take_puback-removes pkid (find_pkid pkid c.inflight) c engine refl) h in
      rw gone refl

  -- If openraft forwards every write of a node to the leader and leaves the node as it is, then a
  -- message that a client publishes with an acknowledgement is acknowledged, if the answer reaches
  -- the client, although nothing is published: the connection differs by the acknowledgement alone,
  -- and the node is as before.
  pub publish_packet-forwarded :
      (leader : Option Node) (k : Cluster) (topic payload : Bytes) (qos pkid uuid now_secs : ℕ)
      (c : Connection)
      → ((op : QueueOperation) → raft_write op k ≡ (forward_to_leader leader, k))
      → 1 ≤ qos
      → handle_client_packet (publish_packet topic qos pkid payload) uuid now_secs true c (flock k)
        ≡ (ok (record c { written = c.written ++ (puback pkid ∷ []) }), flock k)
  unfolding handle_client_packet take_publish mqtt_declare_queue mqtt_publish_message and_return
      answer_publish
  publish_packet-forwarded leader k topic payload qos pkid uuid now_secs c h asked =
      let asks : leb 1 qos ≡ true = ground arith in rw (h _) (rw (h _) (rw asks refl))
