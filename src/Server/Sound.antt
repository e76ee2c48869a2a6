-- ===== src/Server/Sound.antt =====
-- Requests on a queue keep it sound, on a server of a single manager.
pub mod Http
pub mod Rpc
use pelican_q.Base.{ℕ, ◌≡◌, false, List, [], ◌∷◌}
use pelican_q.Bytes.{Bytes, same}
use pelican_q.Tree.{Tree}
use pelican_q.Failure.{Outcome, ok, err, panic, diverges}
use pelican_q.Platform.{Platform}
use pelican_q.Exec.{Manager, Exec, attempt}
use pelican_q.Exec.Ensures.{
  Ends, Ensures, Settles, next, from_less, gets-Ensures, pure-Ensures, open_then,
}
use pelican_q.Engine.Keys.{meta_queues_tree}
use pelican_q.Engine.Declare.{list_queues, count_in, depth, scheduled_depth}
use pelican_q.Engine.Sound.Calls.{SoundAt, expect_queue-Ensures}
use pelican_q.Engine.Sound.Recount.{Any}
use pelican_q.Replica.{QueueOperation, Answer, respond}
use pelican_q.Replica.Sound.{responds}
use pelican_q.Server.{Consensus, WriteResult, AppEngine, solo, flock, read_engine, write_engine}

module _ ⦃p : Platform⦄ ⦃s : Consensus p.Db⦄ (q : Bytes) where
  open p use {Db, entries}
  open s use {Cluster}

  -- A handler on a manager keeps the queue sound, and gives a response or an error.
  abbrev pub ServerSettles : {R : Type 0} → Outcome R × AppEngine Db Cluster → Type 0
  ServerSettles (o, solo w) = Settles (SoundAt q) (o, w)
  ServerSettles (o, flock c) = ⊥

  -- A write on a manager answers what the call gives.
  pub respond-Settles :
      {A R : Type 0} (answer : Answer A → R) (m : Exec Db A) (w : Manager Db)
      → Ensures (SoundAt q) (λ d. Unit {0}) m Any
      → SoundAt q w.db
      → Settles (SoundAt q) (respond answer m w)
  respond-Settles answer m w h i = (responds q answer m h).at w i tt

  pub read_engine-Settles :
      {R : Type 0} (m : Exec Db R) (w : Manager Db)
      → Ensures (SoundAt q) (λ d. Unit {0}) m Any
      → SoundAt q w.db
      → ServerSettles (read_engine m (solo w))
  unfolding read_engine
  read_engine-Settles m w h i = h.at w i tt

module _ ⦃p : Platform⦄ (q : Bytes) where
  open p use {Db, entries}

  attempted-Ends :
      {A : Type 0} (m : Exec Db A) (w : Manager Db) (x : Outcome A × Manager Db)
      → Ends (SoundAt q) Any x
      → Settles (SoundAt q) (attempt (λ v. x) w)
  unfolding attempt
  attempted-Ends m w (ok a, v) h = h
  attempted-Ends m w (err e, v) h = (h, tt)
  attempted-Ends m w (panic, v) h = h
  attempted-Ends m w (diverges, v) h = h

  pub catch-Ensures :
      {A : Type 0} {m : Exec Db A}
      → Ensures (SoundAt q) (λ d. Unit {0}) m Any
      → Ensures (SoundAt q) (λ d. Unit {0}) (attempt m) Any
  unfolding attempt
  catch-Ensures {m = m} h = record { at = λ w i x. attempted-Ends m w (m w) (h.at w i x) }

  count_in-Ensures : (queue n : Bytes) → Ensures (SoundAt q) (λ d. Unit {0}) (count_in queue n) Any
  unfolding count_in
  count_in-Ensures queue n = next (expect_queue-Ensures q queue) (λ u.
      open_then n _ (next (gets-Ensures (entries n)) (λ es. pure-Ensures Any _ (λ d i x. tt))))

  pub depth-Ensures : (queue : Bytes) → Ensures (SoundAt q) (λ d. Unit {0}) (depth queue) Any
  unfolding depth
  depth-Ensures queue = count_in-Ensures queue queue

  pub scheduled_depth-Ensures :
      (queue : Bytes) → Ensures (SoundAt q) (λ d. Unit {0}) (scheduled_depth queue) Any
  unfolding scheduled_depth
  scheduled_depth-Ensures queue = count_in-Ensures queue _
