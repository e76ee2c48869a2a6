-- ===== src/Server/Agree/Http.antt =====
-- The HTTP interface on either engine.
use pelican_q.Base.{ℕ, ◌≡◌, refl, List, Option}
use pelican_q.Bytes.{Bytes}
use pelican_q.Failure.{ok, Fallible, done, failed}
use pelican_q.Platform.{Platform}
use pelican_q.Exec.{Manager}
use pelican_q.Replica.{
  declare_queue_resp, publish_resp, consume_resp, ack_resp, nack_resp, same_policy, declare,
  apply_operation,
}
use pelican_q.Server.{Consensus, solo, IsLeading, Formats}
use pelican_q.Server.Agree.{AnswersAs, read_engine-agrees, write_engine-agrees}
use pelican_q.Server.Http.{
  Response, unit_response, outcome_response, delivery_response, declare_written, publish_written,
  consume_written, ack_written, nack_written,
}
use pelican_q.Server.Http.Handlers.{
  Request, get_health, get_queues, post_queue, post_publish, post_consume, post_ack, post_nack,
  get_cluster_status, publish_decoded, queue_list, serve,
}
use pelican_q.Cluster.{ClusterConfig}

-- Every request but the one for the status of the cluster, which says which engine answers.
abbrev pub IsOnQueues : Request → Type 0
IsOnQueues get_cluster_status = ⊥
IsOnQueues _ = Unit

module _ ⦃p : Platform⦄ ⦃s : Consensus p.Db⦄ ⦃f : Formats⦄ where
  open p use {Db}
  open s use {Cluster, local}

  publish_decoded-agrees :
      (name : Bytes) (headers : List (Bytes × Bytes)) (uuid now_ms : ℕ) (decoded : Fallible Bytes)
      (c : Cluster) (r : Response) (w : Manager Db)
      → IsLeading
      → publish_decoded name headers uuid now_ms decoded (solo (local c)) ≡ (ok r, solo w)
      → AnswersAs (publish_decoded name headers uuid now_ms decoded) c r w
  unfolding publish_decoded apply_operation outcome_response
  publish_decoded-agrees name headers uuid now_ms (done payload) c r w l h =
      write_engine-agrees _ (outcome_response (f.uuid_text uuid)) _
        (publish_written (f.uuid_text uuid)) publish_resp c r w l (λ v. refl) (λ a. refl) h
  publish_decoded-agrees name headers uuid now_ms (failed e) c r w l h = (c, cc, cc)

  -- A node that leads its cluster, at any request but the one for the status of the cluster: if a
  -- single manager in the state of the node's gives a response, the node gives the same one, and
  -- its manager ends in the same state.
  pub serve-agrees :
      (cluster : Option ClusterConfig) (req : Request) (c : Cluster) (r : Response) (w : Manager Db)
      → IsLeading
      → IsOnQueues req
      → serve cluster req (solo (local c)) ≡ (ok r, solo w)
      → AnswersAs (serve cluster req) c r w
  unfolding serve apply_operation declare same_policy unit_response delivery_response
  serve-agrees cluster get_health c r w l q h = (c, cc, cc)
  serve-agrees cluster get_queues c r w l q h = read_engine-agrees queue_list c r w h
  serve-agrees cluster (post_queue name) c r w l q h =
      write_engine-agrees _ (unit_response 201) _ declare_written declare_queue_resp c r w l
        (λ v. refl) (λ a. refl) h
  serve-agrees cluster (post_publish name req uuid now_ms) c r w l q h =
      publish_decoded-agrees name req.headers uuid now_ms (f.decode64 req.payload_base64) c r w l h
  serve-agrees cluster (post_consume name) c r w l q h =
      write_engine-agrees _ delivery_response _ consume_written consume_resp c r w l (λ v. refl)
        (λ a. refl) h
  serve-agrees cluster (post_ack name tag) c r w l q h =
      write_engine-agrees _ (unit_response 200) _ ack_written ack_resp c r w l (λ v. refl)
        (λ a. refl) h
  serve-agrees cluster (post_nack name tag) c r w l q h =
      write_engine-agrees _ (unit_response 200) _ nack_written nack_resp c r w l (λ v. refl)
        (λ a. refl) h
  serve-agrees cluster get_cluster_status c r w l q h = absurd q
