-- ===== src/Server/Follower.antt =====
-- A node that does not lead its cluster refuses the writes of every interface.
use pelican_q.Base.{◌≡◌, refl, sym, ap, subst, [], ◌∷◌, Option, none, some}
use pelican_q.Bytes.{Bytes}
use pelican_q.Failure.{ok, done}
use pelican_q.Platform.{Platform}
use pelican_q.Message.{new_message, default_policy}
use pelican_q.Replica.{QueueOperation, declare_queue_op, publish_op, consume_op, ack_op, nack_op}
use pelican_q.Server.{Node, forward_to_leader, Consensus, flock, Formats}
use pelican_q.Server.Http.{
  not_leader_error, leader_response, reply, not_leader_response, publish_written,
}
use pelican_q.Server.Http.Handlers.{
  Request, get_health, get_queues, post_queue, post_publish, post_consume, post_ack, post_nack,
  get_cluster_status, publish_decoded, serve,
}
use pelican_q.Server.Rpc.{rejected, status, unavailable, leader_text}
use pelican_q.Server.Rpc.Handlers.{
  RpcCall, declare_queue_call, list_queues_call, publish_call, publish_batch_call, consume_call,
  consume_batch_call, ack_call, nack_call, rpc_serve,
}
use pelican_q.Cluster.{ClusterConfig}

-- The operation that a request wants done; the payload of a message has to be base64.
abbrev pub Asks : ⦃f : Formats⦄ → Request → QueueOperation → Type 0
Asks (post_queue name) op = op ≡ declare_queue_op name default_policy
Asks ⦃f = f⦄ (post_publish name req uuid now_ms) op =
    (payload : Bytes) × (f.decode64 req.payload_base64 ≡ done payload)
    × (op ≡ publish_op name (new_message uuid now_ms payload req.headers))
Asks (post_consume name) op = op ≡ consume_op name
Asks (post_ack name tag) op = op ≡ ack_op name tag
Asks (post_nack name tag) op = op ≡ nack_op name tag
Asks _ op = ⊥

-- A call that changes queues, or takes from them; a message is there to be published.
abbrev pub IsWriteCall : RpcCall → Type 0
IsWriteCall list_queues_call = ⊥
IsWriteCall (publish_call new_v4 queue none) = ⊥
IsWriteCall _ = Unit

module _ ⦃p : Platform⦄ ⦃s : Consensus p.Db⦄ ⦃f : Formats⦄ where
  open p use {Db}
  open s use {Cluster, raft_write}

  named :
      (leader : Node) (addr : Bytes)
      → (leader.client_addr ≡ [] → ⊥)
      → f.header_value leader.client_addr ≡ some addr
      → not_leader_response (some leader)
        ≡ ok (record { status = 421; body = not_leader_error; leader_addr = some addr })
  unfolding not_leader_response leader_response reply
  named leader addr known valid = named_by leader.client_addr refl
    where
      named_by :
          (a : Bytes)
          → leader.client_addr ≡ a
          → not_leader_response (some leader)
            ≡ ok (record { status = 421; body = not_leader_error; leader_addr = some addr })
      named_by [] e = absurd (known e)
      named_by (x ∷ a) e = rw (e, sym e) (rw valid refl)

  -- What the interface makes of a write that openraft forwards.
  refused :
      (leader : Node) (c d : Cluster) (op op' : QueueOperation)
      → raft_write op c ≡ (forward_to_leader (some leader), d)
      → op ≡ op'
      → raft_write op' c ≡ (forward_to_leader (some leader), d)
  refused leader c d op op' h e =
      subst (λ o. raft_write o c ≡ (forward_to_leader (some leader), d)) e h

  -- If openraft answers the operation that a request wants done by naming the leader, whose client
  -- address is not empty and can stand in a header, then the HTTP interface of the node answers the
  -- request with status 421, the error that the node does not lead, and that address in the header.
  -- Nothing but this one write is done. The requests are those that change queues or take from
  -- them, a publish with a payload in base64.
  pub serve-forwarded :
      (leader : Node) (addr : Bytes) (c d : Cluster) (cluster : Option ClusterConfig)
      (req : Request) (op : QueueOperation)
      → Asks req op
      → raft_write op c ≡ (forward_to_leader (some leader), d)
      → (leader.client_addr ≡ [] → ⊥)
      → f.header_value leader.client_addr ≡ some addr
      → serve cluster req (flock c)
        ≡ (ok (record { status = 421; body = not_leader_error; leader_addr = some addr }), flock d)
  unfolding serve publish_decoded publish_written new_message
  serve-forwarded leader addr c d cluster get_health op q h known valid = absurd q
  serve-forwarded leader addr c d cluster get_queues op q h known valid = absurd q
  serve-forwarded leader addr c d cluster (post_queue name) op q h known valid =
      rw (refused leader c d op _ h q) (ap (λ x. (x, flock d)) (named leader addr known valid))
  serve-forwarded leader addr c d cluster (post_publish name req uuid now_ms) op q h known valid =
      rw q.1 (
        rw (refused leader c d op _ h q.2) (ap (λ x. (x, flock d)) (named leader addr known valid)))
  serve-forwarded leader addr c d cluster (post_consume name) op q h known valid =
      rw (refused leader c d op _ h q) (ap (λ x. (x, flock d)) (named leader addr known valid))
  serve-forwarded leader addr c d cluster (post_ack name tag) op q h known valid =
      rw (refused leader c d op _ h q) (ap (λ x. (x, flock d)) (named leader addr known valid))
  serve-forwarded leader addr c d cluster (post_nack name tag) op q h known valid =
      rw (refused leader c d op _ h q) (ap (λ x. (x, flock d)) (named leader addr known valid))
  serve-forwarded leader addr c d cluster get_cluster_status op q h known valid = absurd q

  -- If openraft forwards every write of a node to the leader and leaves the node as it is, then the
  -- gRPC interface of the node rejects each call that changes queues or takes from them, a publish
  -- with a message in it, as unavailable with the address of the leader if it is known, and changes
  -- nothing.
  pub rpc_serve-forwarded :
      (leader : Option Node) (c : Cluster) (call : RpcCall)
      → ((op : QueueOperation) → raft_write op c ≡ (forward_to_leader leader, c))
      → IsWriteCall call
      → rpc_serve call (flock c)
        ≡ (ok (rejected (status unavailable (leader_text leader))), flock c)
  unfolding rpc_serve status leader_text
  rpc_serve-forwarded leader c (declare_queue_call req) h q = rw (h _) refl
  rpc_serve-forwarded leader c list_queues_call h q = absurd q
  rpc_serve-forwarded leader c (publish_call new_v4 queue none) h q = absurd q
  rpc_serve-forwarded leader c (publish_call new_v4 queue (some msg)) h q = rw (h _) refl
  rpc_serve-forwarded leader c (publish_batch_call new_v4 queue messages) h q = rw (h _) refl
  rpc_serve-forwarded leader c (consume_call queue) h q = rw (h _) refl
  rpc_serve-forwarded leader c (consume_batch_call queue max small) h q = rw (h _) refl
  rpc_serve-forwarded leader c (ack_call queue tag) h q = rw (h _) refl
  rpc_serve-forwarded leader c (nack_call queue tag) h q = rw (h _) refl
