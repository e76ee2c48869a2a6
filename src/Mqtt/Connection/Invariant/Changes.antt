-- ===== src/Mqtt/Connection/Invariant/Changes.antt =====
-- The changes of a connection keep it in order.
use pelican_q.Base.{
  ◌+◌, ◌%◌, ◌≡◌, refl, sym, subst, Bool, Bool-cases, inl, inr, true, false, List, [], ◌∷◌, ◌++◌,
  Option, none, some, arith, All,
}
use pelican_q.Bytes.{Bytes}
use pelican_q.Engine.Consume.{Delivery}
use pelican_q.Engine.Sound.Trees.{All-map}
use pelican_q.Mqtt.Connection.{
  Filter, Packet, connect_packet, Written, publish_out, MqttOutgoing, serving, Connection,
  new_connection, insert_pkid, contains_topic, close, write, subscribe_to,
}
use pelican_q.Mqtt.Connection.Invariant.Lists.{
  counts, published, published-append, Unique-insert_pkid, All-insert_pkid, All-append,
}
use pelican_q.Mqtt.Connection.Steps.{greet, send_message, send_first, enqueue}
use pelican_q.Mqtt.Connection.Invariant.{Plain, IsServing, IsConsistent, Good}

pub unchanged : (c : Connection) → c.phase ≡ serving → IsServing c → Good c
unchanged c phase i = subst (λ ph. IsConsistent ph c) (sym phase) i

pub close-Good : (c : Connection) → Good (close c)
unfolding close
close-Good c = (refl, refl)

-- A packet that is no message leaves a serving connection in order.
pub write-Good :
    (written : Bool) (pk : Written) (c : Connection)
    → counts pk ≡ 0
    → c.phase ≡ serving
    → IsServing c
    → Good (write written pk c)
unfolding write close
write-Good false pk c none_sent phase i = (refl, refl)
write-Good true pk c none_sent phase i =
    let same_count : published (c.written ++ (pk ∷ [])) ≡ published c.written =
      omega (arith, published-append c.written pk 0 none_sent) in
    unchanged (record c { written = c.written ++ (pk ∷ []) }) phase
      (record {
        numbered = rw same_count i.numbered;
        sent = rw same_count i.sent;
        unique = i.unique;
        subscribed = i.subscribed;
        channelled = i.channelled;
        delivered = i.delivered;
      })

-- A message goes out under the next packet id, or the connection closes.
pub send_first-Good :
    (written : Bool) (c : Connection) (ms : List MqttOutgoing)
    → c.channel ≡ ms
    → c.phase ≡ serving
    → IsServing c
    → Good (send_first written ms c)
unfolding send_first send_message write close
send_first-Good written c [] e phase i = unchanged c phase i
send_first-Good false c (m ∷ ms) e phase i = (refl, refl)
send_first-Good true c (m ∷ ms) e phase i =
    let one_more = published-append c.written (publish_out m.queue c.next_pkid m.payload) 1 refl in
    let waiting = subst (All (λ (o : MqttOutgoing). Plain o.queue)) e i.channelled in
    unchanged
      (record c {
        inflight = insert_pkid c.next_pkid (m.queue, m.tag) c.inflight;
        next_pkid = (c.next_pkid + 1) % 65536;
        channel = ms;
        written = c.written ++ (publish_out m.queue c.next_pkid m.payload ∷ []);
      })
      phase
      (record {
        numbered = rw one_more (omega (arith, i.numbered));
        sent =
            All-insert_pkid _ c.next_pkid (m.queue, m.tag) c.inflight
              (1 + published c.written, i.numbered, omega arith, rw one_more (omega arith))
              (All-map c.inflight (λ x h. (h.0, h.1, h.2, rw one_more (omega arith))) i.sent);
        unique = Unique-insert_pkid c.next_pkid (m.queue, m.tag) c.inflight i.unique;
        subscribed = i.subscribed;
        channelled = waiting.1;
        delivered = All-insert_pkid _ c.next_pkid (m.queue, m.tag) c.inflight waiting.0 i.delivered;
      })

pub enqueue-Good :
    (queue : Bytes) (c : Connection) (delivered : Option Delivery)
    → c.phase ≡ serving
    → IsServing c
    → Plain queue
    → Good (enqueue queue c delivered)
unfolding enqueue
enqueue-Good queue c none phase i plain = unchanged c phase i
enqueue-Good queue c (some (tag, msg)) phase i plain =
    let m : MqttOutgoing = record { queue = queue; tag = tag; payload = msg.payload } in
    unchanged (record c { channel = c.channel ++ (m ∷ []) }) phase
      (record {
        numbered = i.numbered;
        sent = i.sent;
        unique = i.unique;
        subscribed = i.subscribed;
        channelled =
            All-append (λ (o : MqttOutgoing). Plain o.queue) c.channel m i.channelled plain;
        delivered = i.delivered;
      })

-- The first packet opens the connection or closes it.
pub greet-Good : (written : Bool) (pk : Packet) → Good (greet pk written new_connection)
unfolding greet write close
greet-Good true connect_packet = record {
  numbered = refl;
  sent = tt;
  unique = tt;
  subscribed = tt;
  channelled = tt;
  delivered = tt;
}
greet-Good false connect_packet = (refl, refl)
greet-Good written _ = (refl, refl)

pub subscribe_to-Plain :
    (filter : Filter) (subscriptions : List Bytes)
    → Plain filter.path
    → All Plain subscriptions
    → All Plain (subscribe_to filter subscriptions).1
unfolding subscribe_to
subscribe_to-Plain filter subscriptions plain h =
    elim (Bool-cases (contains_topic filter.path subscriptions)) [
      | inl e ↦ rw e h
      | inr e ↦ rw e (plain, h)
    ]
