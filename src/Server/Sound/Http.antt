-- ===== src/Server/Sound/Http.antt =====
-- HTTP requests on a queue keep it sound.
use pelican_q.Base.{ℕ, ◌≡◌, false, List, [], ◌∷◌, Option, none, some}
use pelican_q.Bytes.{Bytes, same}
use pelican_q.Failure.{Fallible, done, failed}
use pelican_q.Message.{default_policy}
use pelican_q.Platform.{Platform}
use pelican_q.Exec.{Manager}
use pelican_q.Exec.Ensures.{Ensures, next, pure-Ensures}
use pelican_q.Engine.Keys.{meta_queues_tree, meta_retention_tree}
use pelican_q.Engine.Declare.{declare_queue}
use pelican_q.Engine.View.{view}
use pelican_q.Engine.Sound.{IsSound}
use pelican_q.Engine.Sound.Calls.{SoundAt}
use pelican_q.Engine.Sound.Recount.{Any, list_queues-Ensures}
use pelican_q.Engine.Sound.Consume.{consume-IsSound, ack-IsSound}
use pelican_q.Engine.Sound.Publish.{publish-IsSound}
use pelican_q.Engine.Sound.Requeue.{nack-IsSound}
use pelican_q.Engine.Sound.Declare.{declare_queue_with_retention-IsSound}
use pelican_q.Replica.Sound.{called}
use pelican_q.Server.{Consensus, solo, Formats}
use pelican_q.Server.Sound.{
  ServerSettles, respond-Settles, read_engine-Settles, catch-Ensures, depth-Ensures,
}
use pelican_q.Server.Http.{unit_response, outcome_response, delivery_response}
use pelican_q.Server.Http.Handlers.{
  Request, get_health, get_queues, post_queue, post_publish, post_consume, post_ack, post_nack,
  get_cluster_status, queue_entries, queue_list, publish_decoded, cluster_status, serve,
}
use pelican_q.Cluster.{ClusterConfig}

-- The request is on the queue, or declares any, or only reads.
abbrev pub IsOnQueue : Bytes → Request → Type 0
IsOnQueue q (post_publish name req uuid now_ms) = name ≡ q
IsOnQueue q (post_consume name) = name ≡ q
IsOnQueue q (post_ack name tag) = name ≡ q
IsOnQueue q (post_nack name tag) = name ≡ q
IsOnQueue q _ = Unit

module _ ⦃p : Platform⦄ (q : Bytes) where
  open p use {Db}

  queue_entries-Ensures :
      (names : List Bytes) → Ensures (SoundAt q) (λ d. Unit {0}) (queue_entries names) Any
  unfolding queue_entries
  queue_entries-Ensures [] = pure-Ensures Any [] (λ d i x. tt)
  queue_entries-Ensures (name ∷ names) =
      next (catch-Ensures q (depth-Ensures q name))
        (λ counted. next (queue_entries-Ensures names) (λ queues. pure-Ensures Any _ (λ d i x. tt)))

  queue_list-Ensures : Ensures (SoundAt q) (λ d. Unit {0}) queue_list Any
  unfolding queue_list
  queue_list-Ensures =
      next (list_queues-Ensures q)
        (λ names. next (queue_entries-Ensures names) (λ queues. pure-Ensures Any _ (λ d i x. tt)))

module _ ⦃p : Platform⦄ ⦃s : Consensus p.Db⦄ ⦃f : Formats⦄ (q : Bytes)
    (queues : same meta_queues_tree q ≡ false)
    (retention : same meta_retention_tree q ≡ false) where
  open p use {Db}

  publish_decoded-Settles :
      (headers : List (Bytes × Bytes)) (uuid now_ms : ℕ) (decoded : Fallible Bytes) (w : Manager Db)
      → IsSound (view q w.db)
      → ServerSettles q (publish_decoded q headers uuid now_ms decoded (solo w))
  unfolding publish_decoded
  publish_decoded-Settles headers uuid now_ms (done payload) w i =
      respond-Settles q (outcome_response (f.uuid_text uuid)) _ w (called q (publish-IsSound q _)) i
  publish_decoded-Settles headers uuid now_ms (failed e) w i = (i, tt)

  -- A request of the HTTP interface on the queue, or one that declares a queue or only reads, on a
  -- server of a single manager, whichever calls of sled fail: a sound queue that is not named as a
  -- metadata tree stays sound, and the request ends without a panic.
  pub serve-IsSound :
      (cluster : Option ClusterConfig) (req : Request) (w : Manager Db)
      → IsOnQueue q req
      → IsSound (view q w.db)
      → ServerSettles q (serve cluster req (solo w))
  unfolding serve declare_queue cluster_status
  serve-IsSound cluster get_health w e i = (i, tt)
  serve-IsSound cluster get_queues w e i =
      read_engine-Settles q queue_list w (queue_list-Ensures q) i
  serve-IsSound cluster (post_queue name) w e i =
      respond-Settles q (unit_response 201) (declare_queue name) w
        (called q (declare_queue_with_retention-IsSound q queues retention name default_policy)) i
  serve-IsSound cluster (post_publish name req uuid now_ms) w e i =
      rw e (publish_decoded-Settles req.headers uuid now_ms (f.decode64 req.payload_base64) w i)
  serve-IsSound cluster (post_consume name) w e i =
      rw e (respond-Settles q delivery_response _ w (called q (consume-IsSound q)) i)
  serve-IsSound cluster (post_ack name tag) w e i =
      rw e (respond-Settles q (unit_response 200) _ w (called q (ack-IsSound q tag)) i)
  serve-IsSound cluster (post_nack name tag) w e i =
      rw e (respond-Settles q (unit_response 200) _ w (called q (nack-IsSound q tag)) i)
  serve-IsSound none get_cluster_status w e i = (i, tt)
  serve-IsSound (some cfg) get_cluster_status w e i = (i, tt)
