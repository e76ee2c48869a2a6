-- ===== src/Server/Through.antt =====
-- A message that a client publishes reaches the next client that consumes, through the HTTP interface.
use pelican_q.Base.{ℕ, ◌<◌, ◌≡◌, refl, false, List, [], Option, length}
use pelican_q.Bytes.{Bytes, same}
use pelican_q.Bytes.RoundTrip.{u64_mod}
use pelican_q.Failure.{ok, done}
use pelican_q.Message.{new_message}
use pelican_q.Platform.{Platform}
use pelican_q.Exec.{Manager, Exec}
use pelican_q.Engine.Keys.{meta_queues_tree}
use pelican_q.Engine.Publish.{stored, publish}
use pelican_q.Engine.Consume.{consume}
use pelican_q.Engine.Effect.{calm, IsDeclared}
use pelican_q.Engine.Effect.Store.{Fits}
use pelican_q.Engine.Effect.Through.{consume-publish}
use pelican_q.Replica.{Answer, success, respond}
use pelican_q.Server.{Consensus, solo, Formats}
use pelican_q.Server.Http.{
  reply, published_body, delivery_body, outcome_response, delivery_response, PublishRequest,
}
use pelican_q.Server.Http.Handlers.{post_publish, post_consume, publish_decoded, serve}
use pelican_q.Cluster.{ClusterConfig}

module _ ⦃p : Platform⦄ where
  open p use {Db}

  pub respond-ok :
      {A R : Type 0} (answer : Answer A → R) (m : Exec Db A) (w : Manager Db) (a : A)
      → (m w).0 ≡ ok a
      → respond answer m w ≡ (ok (answer (success a)), (m w).1)
  unfolding respond
  respond-ok answer m w a h = rw h refl

module _ ⦃p : Platform⦄ ⦃s : Consensus p.Db⦄ ⦃f : Formats⦄ (q : Bytes)
    (other : same q meta_queues_tree ≡ false) where
  open p use {Db, entries, generate_id, serialize_message}
  open f use {encode64, uuid_text, parse_uuid, decode-encode64}

  -- On a server of a single manager, for a declared queue with an empty main tree that is not the
  -- tree of the queues, when no call of sled fails: a payload that is posted in base64, whose message
  -- encodes, fits under the limit and gets an id below 2 ^ 64, is answered with 201 and its UUID, and
  -- the next request to consume is answered with 200, that id as the tag, and the same UUID, base64
  -- text and headers.
  pub serve_through :
      (cluster : Option ClusterConfig) (w : Manager Db) (payload : Bytes)
      (headers : List (Bytes × Bytes)) (uuid now_ms : ℕ) (b : Bytes)
      → IsDeclared q w.db
      → entries q w.db ≡ []
      → serialize_message (new_message uuid now_ms payload headers) ≡ done b
      → Fits w.max_bytes w.current_bytes (length b)
      → (generate_id w.db).0 < u64_mod
      → let req : PublishRequest = record {
        payload_base64 = encode64 payload;
        headers = headers;
      } in
        let published = serve cluster (post_publish q req uuid now_ms) (solo (calm w)) in
        (published.0 ≡ ok (reply 201 (published_body (uuid_text uuid))))
        × ((serve cluster (post_consume q) published.1).0
            ≡ ok (
                reply 200 (
                  delivery_body
                    (generate_id w.db).0
                    (uuid_text uuid)
                    (encode64 payload)
                    headers
                    now_ms)))
  unfolding serve publish_decoded new_message
  serve_through cluster w payload headers uuid now_ms b declared empty encodes fits low =
      let m = new_message uuid now_ms payload headers in
      let r = consume-publish q w m b declared other empty refl refl encodes fits low in
      let posted =
        respond-ok (outcome_response (uuid_text uuid)) (publish q m) (calm w) (stored uuid) r.0 in
      let taken = respond-ok delivery_response (consume q) (publish q m (calm w)).1 _ r.1 in
      rw (decode-encode64 payload) (rw posted (rw taken (refl, refl)))
