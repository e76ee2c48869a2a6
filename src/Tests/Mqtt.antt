-- ===== src/Tests/Mqtt.antt =====
-- Witnesses of the theorems on the connections of the MQTT interface: a client connects, subscribes
-- to the jobs, and is sent the one that waits.
use pelican_q.Base.{◌≤◌, ◌<◌, ◌≡◌, refl, true, [], ◌∷◌, none, some, arith}
use pelican_q.Bytes.{codes, same, to_be_bytes, from_be_bytes}
use pelican_q.Tree.{lookup, put, without}
use pelican_q.Failure.{ok}
use pelican_q.Platform.Memory.{MemoryDb, memory}
use pelican_q.Exec.{Manager, ◌>>=◌, open_tree}
use pelican_q.Engine.Keys.{inflight_tree_name, encode_key}
use pelican_q.Server.{solo, flock, and_return}
use pelican_q.Mqtt.Connection.{
  Filter, connect_packet, publish_packet, subscribe_packet, puback_packet, granted, connack,
  publish_out, puback, suback, serving, Connection, new_connection, find_pkid,
}
use pelican_q.Mqtt.Connection.Packets.{handle_client_packet}
use pelican_q.Mqtt.Connection.Steps.{
  packet, polled, outgoing, connection_event, Reaches, opened, happens,
}
use pelican_q.Mqtt.Connection.Invariant.{IsConsistent}
use pelican_q.Mqtt.Connection.Invariant.Reached.{Reaches-IsConsistent}
use pelican_q.Mqtt.Connection.Settle.{next_pkid-unused, puback_once, publish_packet-forwarded}
use pelican_q.Tests.{jobs}
use pelican_q.Tests.Server.{single, leader, follower, stocked_manager, held_manager}

abbrev connected : Connection
connected = record new_connection { phase = serving; written = connack ∷ [] }

abbrev subscribed : Connection
subscribed = record connected {
  subscriptions = jobs ∷ [];
  written = connack ∷ suback 7 (granted 1 ∷ []) ∷ [];
}

abbrev polled_once : Connection
polled_once = record subscribed {
  channel = record { queue = jobs; tag = 0; payload = codes "resize" } ∷ [];
}

abbrev sent_once : Connection
sent_once = record subscribed {
  next_pkid = 2;
  inflight = (1, (jobs, 0)) ∷ [];
  written = connack ∷ suback 7 (granted 1 ∷ []) ∷ publish_out jobs 1 (codes "resize") ∷ [];
}

abbrev to_jobs : Filter
to_jobs = record { path = jobs; qos = 1 }

connected-reached : Reaches ⦃p = memory⦄ ⦃s = single⦄ connected (solo stocked_manager)
unfolding connection_event
connected-reached =
    happens new_connection connected (solo stocked_manager) (solo stocked_manager)
      (packet connect_packet 0 0 true) (opened (solo stocked_manager)) refl

subscribed-reached : Reaches ⦃p = memory⦄ ⦃s = single⦄ subscribed (solo stocked_manager)
unfolding connection_event and_return put lookup same ◌>>=◌
subscribed-reached =
    happens connected subscribed (solo stocked_manager) (solo stocked_manager)
      (packet (subscribe_packet 7 (to_jobs ∷ [])) 0 0 true) connected-reached refl

polled_once-reached : Reaches ⦃p = memory⦄ ⦃s = single⦄ polled_once (solo held_manager)
unfolding connection_event and_return put lookup without same encode_key to_be_bytes from_be_bytes
    inflight_tree_name ◌>>=◌ open_tree
polled_once-reached =
    happens subscribed polled_once (solo stocked_manager) (solo held_manager) (polled jobs)
      subscribed-reached refl

sent_once-reached : Reaches ⦃p = memory⦄ ⦃s = single⦄ sent_once (solo held_manager)
unfolding connection_event
sent_once-reached =
    happens polled_once sent_once (solo held_manager) (solo held_manager) (outgoing true)
      polled_once-reached refl

Reaches-IsConsistent_example : IsConsistent serving sent_once
Reaches-IsConsistent_example =
    Reaches-IsConsistent ⦃p = memory⦄ ⦃s = single⦄ sent_once (solo held_manager) sent_once-reached

next_pkid-unused_example : (1 ≤ 2) × (2 < 65536) × (find_pkid 2 ((1, (jobs, 0)) ∷ []) ≡ none)
next_pkid-unused_example =
    next_pkid-unused ⦃p = memory⦄ ⦃s = single⦄ sent_once (solo held_manager) sent_once-reached refl
      (omega arith)

abbrev settled_once : Connection
settled_once = record sent_once { inflight = [] }

abbrev acked_manager : Manager MemoryDb
acked_manager = record held_manager {
  db = memory.remove (inflight_tree_name jobs) (to_be_bytes 0) held_manager.db;
  current_bytes = 0;
}

puback_once_example :
    handle_client_packet ⦃p = memory⦄ ⦃s = single⦄
      (puback_packet 1)
      0
      0
      true
      settled_once
      (solo acked_manager)
    ≡ (ok settled_once, solo acked_manager)
unfolding handle_client_packet and_return put lookup without same to_be_bytes inflight_tree_name
    ◌>>=◌ open_tree
puback_once_example =
    puback_once ⦃p = memory⦄ ⦃s = single⦄ 1 0 0 true sent_once settled_once (solo held_manager)
      (solo acked_manager) refl

publish_packet-forwarded_example :
    handle_client_packet ⦃p = memory⦄ ⦃s = follower⦄
      (publish_packet jobs 1 9 (codes "resize"))
      77
      1
      true
      connected
      (flock stocked_manager)
    ≡ (ok (record connected { written = connack ∷ puback 9 ∷ [] }), flock stocked_manager)
publish_packet-forwarded_example =
    publish_packet-forwarded ⦃p = memory⦄ ⦃s = follower⦄ (some leader) stocked_manager jobs
      (codes "resize") 1 9 77 1 connected (λ op. refl) (omega arith)
