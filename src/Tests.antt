-- ===== src/Tests.antt =====
-- The theorems at work: the engine on the platform in memory, with one queue of jobs.
mod Queue
mod Declaring
mod Running
mod Publishing
mod Counting
mod Cluster
mod Snapshots
mod Raft
mod Log
mod Server
mod Mqtt
mod Start
use pelican_q.Base.{ℕ, ◌+◌, ◌≡◌, refl, false, [], ◌∷◌, none, some, length, List, Option, inr, arith}
use pelican_q.Bytes.{Bytes, codes, same, precedes, to_be_bytes}
use pelican_q.Tree.{lookup, put}
use pelican_q.Failure.{done}
use pelican_q.Message.{Message, RetentionPolicy}
use pelican_q.Platform.{Platform}
use pelican_q.Platform.Memory.{MemoryDb, empty_db, memory}
use pelican_q.Exec.{Manager}
use pelican_q.Engine.Keys.{
  meta_queues_tree, meta_retention_tree, inflight_tree_name, dlq_tree_name, scheduled_tree_name,
  dedup_tree_name, encode_key,
}
use pelican_q.Engine.View.{View, view}
use pelican_q.Engine.Sound.{IsSound}
use pelican_q.Engine.Effect.{IsDeclared}

abbrev pub jobs : Bytes
jobs = codes "jobs"

abbrev pub job : Message
job = record {
  id = 77;
  payload = codes "resize";
  headers = [];
  timestamp = 1000;
  delivery_attempts = 0;
  priority = 5;
  deliver_at = none;
  dedup_key = none;
}

abbrev pub job_bytes : Bytes
job_bytes = 77 ∷ 1000 ∷ 0 ∷ 5 ∷ 0 ∷ 0 ∷ codes "resize"

-- The job after one failed attempt.
abbrev pub job_again_bytes : Bytes
job_again_bytes = 77 ∷ 1000 ∷ 1 ∷ 5 ∷ 0 ∷ 0 ∷ codes "resize"

abbrev pub declared_db : MemoryDb
declared_db = memory.insert meta_queues_tree jobs [] empty_db

-- One job waits, with id 0 and priority 5.
abbrev pub stocked_db : MemoryDb
stocked_db = record (memory.insert jobs (4 ∷ to_be_bytes 0) job_bytes declared_db) { next = 1 }

-- One job is in flight under tag 0.
abbrev pub held_db : MemoryDb
held_db = record (memory.insert (inflight_tree_name jobs) (to_be_bytes 0) job_bytes declared_db) {
  next = 1;
}

-- A policy of two attempts and a window of ten seconds for keys.
abbrev pub strict : MemoryDb → MemoryDb
strict d = memory.insert meta_retention_tree jobs (0 ∷ 0 ∷ 3 ∷ 11 ∷ []) d

abbrev pub managed : MemoryDb → Manager MemoryDb
managed d = record {
  db = d;
  current_bytes = 12;
  max_bytes = some 1000;
  faults = [];
  clock = λ n. 5000 + n;
  reads = 0;
}

-- The third call of sled fails.
abbrev pub failing : MemoryDb → Manager MemoryDb
failing d = record (managed d) { faults = none ∷ none ∷ some (codes "io") ∷ [] }

pub jobs-ne-queues : same meta_queues_tree jobs ≡ false
unfolding same
jobs-ne-queues = refl

pub jobs-ne-retention : same meta_retention_tree jobs ≡ false
unfolding same
jobs-ne-retention = refl

pub declared_db-IsDeclared : IsDeclared ⦃p = memory⦄ jobs declared_db
unfolding lookup put same
declared_db-IsDeclared = ([], refl)

pub stocked_db-IsDeclared : IsDeclared ⦃p = memory⦄ jobs stocked_db
unfolding lookup put same
stocked_db-IsDeclared = ([], refl)

pub held_db-IsDeclared : IsDeclared ⦃p = memory⦄ jobs held_db
unfolding lookup put same inflight_tree_name
held_db-IsDeclared = ([], refl)

pub strict-IsDeclared : IsDeclared ⦃p = memory⦄ jobs (strict held_db)
unfolding lookup put same inflight_tree_name
strict-IsDeclared = ([], refl)

pub stocked_view : view ⦃p = memory⦄ jobs stocked_db ≡ record {
  main = (4 ∷ to_be_bytes 0, job_bytes) ∷ [];
  inflight = [];
  dead = [];
  scheduled = [];
  dedup = [];
  bound = 1;
}
unfolding put same inflight_tree_name dlq_tree_name scheduled_tree_name dedup_tree_name
stocked_view = refl

pub stocked_db-IsSound : IsSound (view ⦃p = memory⦄ jobs stocked_db)
unfolding put same lookup inflight_tree_name dlq_tree_name scheduled_tree_name dedup_tree_name
stocked_db-IsSound = record {
  main = ((4, 0, refl, omega arith), tt);
  inflight = tt;
  dead = tt;
  scheduled = tt;
  dedup = tt;
  fresh = inr (refl, tt, tt);
}
