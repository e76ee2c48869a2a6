-- ===== src/Client/Through.antt =====
-- A message that a client publishes is the one that the next client consumes, between two Rust clients.
use pelican_q.Base.{ap, ℕ, ◌<◌, ◌≡◌, refl, false, [], none, some, length}
use pelican_q.Bytes.{Bytes, same}
use pelican_q.Bytes.RoundTrip.{u64_mod}
use pelican_q.Failure.{ok, done}
use pelican_q.Platform.{Platform}
use pelican_q.Exec.{Manager}
use pelican_q.Engine.Keys.{meta_queues_tree}
use pelican_q.Engine.Publish.{publish}
use pelican_q.Engine.Consume.{consume}
use pelican_q.Engine.Effect.{calm, IsDeclared}
use pelican_q.Engine.Effect.Store.{Fits}
use pelican_q.Engine.Effect.Through.{consume-publish}
use pelican_q.Server.{Consensus, solo, Formats}
use pelican_q.Server.Proto.{proto_message_to_core, ClientMessage, client_to_proto}
use pelican_q.Server.Proto.RoundTrip.{consumed_to_delivery-client_to_proto}
use pelican_q.Server.Rpc.{answered, publish_response, consume_response}
use pelican_q.Server.Through.{respond-ok}
use pelican_q.Client.{received, delivered_message, client_publish, client_consume}

module _ ⦃p : Platform⦄ ⦃s : Consensus p.Db⦄ ⦃f : Formats⦄ (q : Bytes)
    (other : same q meta_queues_tree ≡ false) where
  open p use {Db, entries, generate_id, serialize_message}
  open f use {uuid_text, parse_uuid}

  -- On a server of a single manager, for a declared queue with an empty main tree that is not the
  -- tree of the queues, when no call of sled fails: a message of the Rust client with a u8 as its
  -- priority and without a key and a delivery time, which encodes on the server, fits under the limit
  -- and gets an id below 2 ^ 64, is published with the UUID that the server gives it, and the next
  -- client to consume receives it, with its id as the tag, the same UUID, no attempts, and the time 0
  -- that the client sent.
  pub client_consume-client_publish :
      (w : Manager Db) (m : ClientMessage) (new_v4 : ℕ) (b : Bytes)
      → IsDeclared q w.db
      → entries q w.db ≡ []
      → m.dedup_key ≡ none
      → m.deliver_at ≡ none
      → m.priority < 256
      → parse_uuid [] ≡ none
      → serialize_message (proto_message_to_core new_v4 (client_to_proto m)) ≡ done b
      → Fits w.max_bytes w.current_bytes (length b)
      → (generate_id w.db).0 < u64_mod
      → let published = client_publish new_v4 q m (solo (calm w)) in
        (published.0 ≡ ok (received (record { id = uuid_text new_v4; deduplicated = false })))
        × ((client_consume q published.1).0
            ≡ ok (
                received (
                  some (record {
                    delivery_tag = (generate_id w.db).0;
                    message = m;
                    id = uuid_text new_v4;
                    timestamp = 0;
                    delivery_attempts = 0;
                  }))))
  unfolding client_publish client_consume delivered_message proto_message_to_core client_to_proto
  client_consume-client_publish w m new_v4 b declared empty keyless now small unset encodes fits
        low =
      let core = proto_message_to_core new_v4 (client_to_proto m) in
      let r = consume-publish q w core b declared other empty keyless now encodes fits low in
      let posted = respond-ok (answered publish_response) (publish q core) (calm w) _ r.0 in
      let taken =
        respond-ok (answered consume_response) (consume q) (publish q core (calm w)).1 _ r.1 in
      let same_message =
        consumed_to_delivery-client_to_proto m new_v4 (generate_id w.db).0 small unset in
      rw posted
        (rw taken (rw unset refl, ap (λ delivery. ok (received (some delivery))) same_message))
