-- ===== src/Server.antt =====
-- pelicanqd/src/api.rs and pelicanq-raft/src/lib.rs: the engine behind every interface of the
-- server, which is one manager or a node of a cluster, and the writes of a cluster.
pub mod Http
pub mod Proto
pub mod Rpc
pub mod Agree
pub mod Sound
pub mod Follower
pub mod Through
use pelican_q.Base.{ℕ, ◌≡◌, Option, none, some}
use pelican_q.Bytes.{Bytes}
use pelican_q.Failure.{Outcome, ok, err, panic, diverges, Fallible, done}
use pelican_q.Platform.{Platform}
use pelican_q.Exec.{Manager, Exec}
use pelican_q.Replica.{QueueOperation, QueueOperationResponse, Answer, respond, apply_operation}

pub record Node : Type 0 where
  pub raft_addr : Bytes
  pub client_addr : Bytes

-- What `Raft::client_write` returns: the response of the state machine, the leader that is to be
-- asked in place of this node, or the text of another error.
pub data RaftResult : Type 0 where
  applied : QueueOperationResponse → RaftResult
  forward_to_leader : Option Node → RaftResult
  raft_failed : Bytes → RaftResult

-- A node of a cluster, as openraft runs it: a write is replicated and may be applied to the manager
-- of the node, which a read takes under its lock.
pub record Consensus (Db : Type 0) : Type 1 where
  pub Cluster : Type 0
  pub local : Cluster → Manager Db
  pub after_read : Manager Db → Cluster → Cluster
  pub raft_write : QueueOperation → Cluster → RaftResult × Cluster
  pub local-after_read : (w : Manager Db) (c : Cluster) → local (after_read w c) ≡ w

pub data WriteResult : Type 0 where
  write_ok : QueueOperationResponse → WriteResult
  not_leader : Option Node → WriteResult
  write_error : Bytes → WriteResult

pub data AppEngine (Db Cluster : Type 0) : Type 0 where
  solo : Manager Db → AppEngine Db Cluster
  flock : Cluster → AppEngine Db Cluster

abbrev pub Handler : Type 0 → Type 0 → Type 0 → Type 0
Handler Db Cluster A = AppEngine Db Cluster → Outcome A × AppEngine Db Cluster

-- One call of the engine after another, and what is made of the result of a call. A panic or a loop
-- ends the handler.
module _ {Db Cluster A B : Type 0} where
  unfoldable pub and_then :
      Outcome A × AppEngine Db Cluster
      → (A → Handler Db Cluster B)
      → Outcome B × AppEngine Db Cluster
  and_then (ok a, engine) f = f a engine
  and_then (err e, engine) f = (err e, engine)
  and_then (panic, engine) f = (panic, engine)
  and_then (diverges, engine) f = (diverges, engine)

  unfoldable pub and_return :
      Outcome A × AppEngine Db Cluster → (A → B) → Outcome B × AppEngine Db Cluster
  unfolding and_then
  and_return r f = and_then r (λ a engine. (ok (f a), engine))

unfoldable pub write_result : RaftResult → WriteResult
write_result (applied response) = write_ok response
write_result (forward_to_leader leader_node) = not_leader leader_node
write_result (raft_failed e) = write_error e

-- What the crates of the interfaces turn into text and back: base64, UUIDs, and the values that
-- an HTTP header may have.
pub record Formats : Type 0 where
  pub encode64 : Bytes → Bytes
  pub decode64 : Bytes → Fallible Bytes
  pub uuid_text : ℕ → Bytes
  pub parse_uuid : Bytes → Option ℕ
  pub header_value : Bytes → Option Bytes
  pub decode-encode64 : (b : Bytes) → decode64 (encode64 b) ≡ done b
  pub parse-uuid_text : (u : ℕ) → parse_uuid (uuid_text u) ≡ some u

module _ ⦃p : Platform⦄ ⦃s : Consensus p.Db⦄ where
  open p use {Db}
  open s use {Cluster, local, after_read, raft_write}

  unfoldable pub client_write : QueueOperation → Cluster → WriteResult × Cluster
  unfolding write_result
  client_write op c = let r = raft_write op c in (write_result r.0, r.1)

  unfoldable pub with_qm : {A : Type 0} → Exec Db A → Cluster → Outcome A × Cluster
  with_qm m c = let r = m (local c) in (r.0, after_read r.1 c)

  -- A read of the manager, whichever the engine is.
  unfoldable pub read_engine : {A : Type 0} → Exec Db A → Handler Db Cluster A
  unfolding with_qm
  read_engine m (solo w) = let r = m w in (r.0, solo r.1)
  read_engine m (flock c) = let r = with_qm m c in (r.0, flock r.1)

  -- A write: the call of the manager with what is answered to its result, and the operation of the
  -- cluster with what is answered to the result of writing it.
  unfoldable pub write_engine :
      {A R : Type 0}
      → Exec Db A
      → (Answer A → R)
      → QueueOperation
      → (WriteResult → Outcome R)
      → Handler Db Cluster R
  unfolding respond client_write
  write_engine m answer op read (solo w) = let r = respond answer m w in (r.0, solo r.1)
  write_engine m answer op read (flock c) = let r = client_write op c in (read r.0, flock r.1)

  -- The documented promise of `client_write` on a leader: when it returns, the operation has been
  -- applied to the manager of the node, and the response is the one of the application.
  pub record IsLeading : Type 0 where
    pub applies :
        (op : QueueOperation) (c : Cluster) (response : QueueOperationResponse) (w : Manager Db)
        → apply_operation op (local c) ≡ (ok response, w)
        → (d : Cluster) × (raft_write op c ≡ (applied response, d)) × (local d ≡ w)
