-- ===== src/Tests/Server.antt =====
-- Witnesses of the theorems on the interfaces of the server.
use pelican_q.Base.{ℕ, ◌≡◌, refl, true, false, [], ◌∷◌, Option, none, some, arith}
use pelican_q.Bytes.{Bytes, codes, same, to_be_bytes, from_be_bytes}
use pelican_q.Tree.{lookup, put, without}
use pelican_q.Failure.{Outcome, ok, err, panic, diverges, done, queue_not_found}
use pelican_q.Message.{new_message}
use pelican_q.Client.{received, client_publish, client_consume}
use pelican_q.Client.Through.{client_consume-client_publish}
use pelican_q.Server.Proto.{ClientMessage, client_to_proto, proto_message_to_core}
use pelican_q.Platform.Memory.{MemoryDb, empty_db, memory}
use pelican_q.Exec.{Manager, ◌>>=◌, open_tree}
use pelican_q.Engine.Keys.{meta_queues_tree, inflight_tree_name, encode_key}
use pelican_q.Engine.Effect.{calm}
use pelican_q.Replica.{publish_op, QueueOperationResponse, apply_operation}
use pelican_q.Server.{
  Node, RaftResult, applied, forward_to_leader, raft_failed, Consensus, Formats, solo, flock,
  IsLeading, and_return,
}
use pelican_q.Server.Agree.{AnswersAs}
use pelican_q.Server.Agree.Http.{serve-agrees}
use pelican_q.Server.Agree.Rpc.{rpc_serve-agrees}
use pelican_q.Server.Agree.Stream.{stream_round-agrees}
use pelican_q.Server.Sound.{ServerSettles}
use pelican_q.Server.Sound.Http.{serve-IsSound}
use pelican_q.Server.Sound.Rpc.{rpc_serve-IsSound}
use pelican_q.Server.Follower.{serve-forwarded}
use pelican_q.Server.Through.{serve_through}
use pelican_q.Server.Http.{not_leader_error, reply, published_body, delivery_body, PublishRequest}
use pelican_q.Server.Http.Handlers.{post_consume, post_publish, serve}
use pelican_q.Server.Rpc.{rejected, pelican_error_to_status}
use pelican_q.Server.Rpc.Handlers.{consume_batch_call, rpc_serve}
use pelican_q.Server.Rpc.Stream.{Stream, new_stream, slept, stream_round}
use pelican_q.Word.{wrapping_add}
use pelican_q.Tests.{
  jobs-ne-queues, jobs-ne-retention, jobs, job_bytes, declared_db, stocked_db, managed, failing,
  stocked_db-IsSound, declared_db-IsDeclared,
}

abbrev read_uuid : Bytes → Option ℕ
read_uuid (u ∷ []) = some u
read_uuid _ = none

-- Texts that are what they encode, and UUIDs of one character.
abbrev pub plain_formats : Formats
plain_formats = record {
  encode64 = λ b. b;
  decode64 = λ b. done b;
  uuid_text = λ u. u ∷ [];
  parse_uuid = read_uuid;
  header_value = λ b. some b;
  decode-encode64 = λ b. refl;
  parse-uuid_text = λ u. refl;
}

abbrev result_of : Outcome QueueOperationResponse × Manager MemoryDb → RaftResult × Manager MemoryDb
result_of (ok response, w) = (applied response, w)
result_of (err e, w) = (raft_failed [], w)
result_of (panic, w) = (raft_failed [], w)
result_of (diverges, w) = (raft_failed [], w)

-- A cluster of one node, which applies each write to its manager.
abbrev pub single : Consensus MemoryDb
single = record {
  Cluster = Manager MemoryDb;
  local = λ c. c;
  after_read = λ w c. w;
  raft_write = λ op c. result_of (apply_operation ⦃p = memory⦄ op c);
  local-after_read = λ w c. refl;
}

abbrev pub leader : Node
leader = record { raft_addr = codes "10.0.0.2:21011"; client_addr = codes "10.0.0.2:7070" }

-- A node that sends every write to another.
abbrev pub follower : Consensus MemoryDb
follower = record {
  Cluster = Manager MemoryDb;
  local = λ c. c;
  after_read = λ w c. w;
  raft_write = λ op c. (forward_to_leader (some leader), c);
  local-after_read = λ w c. refl;
}

single-IsLeading : IsLeading ⦃p = memory⦄ ⦃s = single⦄
single-IsLeading = record { applies = λ op c response w h. (w, rw h refl, refl) }

abbrev empty_manager : Manager MemoryDb
empty_manager = calm (managed empty_db)

abbrev pub stocked_manager : Manager MemoryDb
stocked_manager = calm (managed stocked_db)

-- The job has gone from the main tree to the one in flight.
abbrev pub held_manager : Manager MemoryDb
held_manager = record stocked_manager {
  db =
      memory.insert (inflight_tree_name jobs) (to_be_bytes 0) job_bytes
        (memory.remove jobs (4 ∷ to_be_bytes 0) stocked_db);
}

serve-agrees_example :
    AnswersAs ⦃p = memory⦄ ⦃s = single⦄
      (serve ⦃p = memory⦄ ⦃s = single⦄ ⦃f = plain_formats⦄ none (post_consume jobs))
      stocked_manager
      (reply 200 (delivery_body 0 (77 ∷ []) (codes "resize") [] 1000))
      held_manager
unfolding serve same lookup put without encode_key to_be_bytes inflight_tree_name ◌>>=◌ open_tree
    from_be_bytes
serve-agrees_example =
    serve-agrees ⦃p = memory⦄ ⦃s = single⦄ ⦃f = plain_formats⦄ none (post_consume jobs)
      stocked_manager (reply 200 (delivery_body 0 (77 ∷ []) (codes "resize") [] 1000)) held_manager
      single-IsLeading tt refl

rpc_serve-agrees_example :
    AnswersAs ⦃p = memory⦄ ⦃s = single⦄
      (rpc_serve ⦃p = memory⦄ ⦃s = single⦄ ⦃f = plain_formats⦄
        (consume_batch_call jobs 2 (omega arith)))
      empty_manager
      (rejected (pelican_error_to_status (queue_not_found jobs)))
      empty_manager
unfolding rpc_serve same lookup ◌>>=◌
rpc_serve-agrees_example =
    rpc_serve-agrees ⦃p = memory⦄ ⦃s = single⦄ ⦃f = plain_formats⦄
      (consume_batch_call jobs 2 (omega arith)) empty_manager
      (rejected (pelican_error_to_status (queue_not_found jobs))) empty_manager single-IsLeading
      refl

abbrev jobs_stream : Stream
jobs_stream = record new_stream { queue = some jobs }

stream_round-agrees_example :
    AnswersAs ⦃p = memory⦄ ⦃s = single⦄
      (stream_round ⦃p = memory⦄ ⦃s = single⦄ ⦃f = plain_formats⦄ true (slept true) jobs_stream)
      empty_manager
      jobs_stream
      empty_manager
unfolding stream_round same lookup and_return ◌>>=◌
stream_round-agrees_example =
    stream_round-agrees ⦃p = memory⦄ ⦃s = single⦄ ⦃f = plain_formats⦄ true (slept true) jobs_stream
      empty_manager jobs_stream empty_manager single-IsLeading refl

serve-IsSound_example : ServerSettles ⦃p = memory⦄ ⦃s = single⦄ jobs (
    serve ⦃p = memory⦄ ⦃s = single⦄ ⦃f = plain_formats⦄ none
      (post_consume jobs)
      (solo (failing stocked_db)))
serve-IsSound_example =
    serve-IsSound ⦃p = memory⦄ ⦃s = single⦄ ⦃f = plain_formats⦄ jobs jobs-ne-queues
      jobs-ne-retention none (post_consume jobs) (failing stocked_db) refl stocked_db-IsSound

rpc_serve-IsSound_example : ServerSettles ⦃p = memory⦄ ⦃s = single⦄ jobs (
    rpc_serve ⦃p = memory⦄ ⦃s = single⦄ ⦃f = plain_formats⦄
      (consume_batch_call jobs 2 (omega arith))
      (solo (failing stocked_db)))
rpc_serve-IsSound_example =
    rpc_serve-IsSound ⦃p = memory⦄ ⦃s = single⦄ ⦃f = plain_formats⦄ jobs jobs-ne-queues
      jobs-ne-retention (consume_batch_call jobs 2 (omega arith)) (failing stocked_db) refl
      stocked_db-IsSound

abbrev resize_request : PublishRequest
resize_request = record { payload_base64 = codes "resize"; headers = [] }

serve-forwarded_example :
    serve ⦃p = memory⦄ ⦃s = follower⦄ ⦃f = plain_formats⦄ none
      (post_publish jobs resize_request 9 4000)
      (flock stocked_manager)
    ≡ (
      ok (record { status = 421; body = not_leader_error; leader_addr = some leader.client_addr }),
      flock stocked_manager,
    )
serve-forwarded_example =
    serve-forwarded ⦃p = memory⦄ ⦃s = follower⦄ ⦃f = plain_formats⦄ leader leader.client_addr
      stocked_manager stocked_manager none (post_publish jobs resize_request 9 4000)
      (publish_op jobs (new_message 9 4000 (codes "resize") [])) (codes "resize", refl, refl) refl
      (λ e. cc) refl

abbrev declared_manager : Manager MemoryDb
declared_manager = managed declared_db

jobs-ne-meta : same jobs meta_queues_tree ≡ false
unfolding same
jobs-ne-meta = refl

declared_db-empty : memory.entries jobs declared_db ≡ []
unfolding put same
declared_db-empty = refl

abbrev resize : ClientMessage
resize = record {
  payload = codes "resize";
  headers = [];
  priority = 5;
  deliver_at = none;
  dedup_key = none;
}

serve_through_example :
    let published =
      serve ⦃p = memory⦄ ⦃s = single⦄ ⦃f = plain_formats⦄ none
        (post_publish jobs resize_request 77 1000)
        (solo (calm declared_manager)) in
    (published.0 ≡ ok (reply 201 (published_body (77 ∷ []))))
    × ((serve ⦃p = memory⦄ ⦃s = single⦄ ⦃f = plain_formats⦄ none (post_consume jobs) published.1).0
        ≡ ok (reply 200 (delivery_body 0 (77 ∷ []) (codes "resize") [] 1000)))
unfolding new_message wrapping_add
serve_through_example =
    serve_through ⦃p = memory⦄ ⦃s = single⦄ ⦃f = plain_formats⦄ jobs jobs-ne-meta none
      declared_manager (codes "resize") [] 77 1000 (77 ∷ 1000 ∷ 0 ∷ 0 ∷ 0 ∷ 0 ∷ codes "resize")
      declared_db-IsDeclared declared_db-empty refl (omega arith) (omega arith)

client_consume-client_publish_example :
    let published =
      client_publish ⦃p = memory⦄ ⦃s = single⦄ ⦃f = plain_formats⦄ 77 jobs resize
        (solo (calm declared_manager)) in
    (published.0 ≡ ok (received (record { id = 77 ∷ []; deduplicated = false })))
    × ((client_consume ⦃p = memory⦄ ⦃s = single⦄ ⦃f = plain_formats⦄ jobs published.1).0
        ≡ ok (
            received (
              some (record {
                delivery_tag = 0;
                message = resize;
                id = 77 ∷ [];
                timestamp = 0;
                delivery_attempts = 0;
              }))))
unfolding client_to_proto proto_message_to_core wrapping_add
client_consume-client_publish_example =
    client_consume-client_publish ⦃p = memory⦄ ⦃s = single⦄ ⦃f = plain_formats⦄ jobs jobs-ne-meta
      declared_manager resize 77 (77 ∷ 0 ∷ 0 ∷ 5 ∷ 0 ∷ 0 ∷ codes "resize") declared_db-IsDeclared
      declared_db-empty refl refl (omega arith) refl refl (omega arith) (omega arith)
