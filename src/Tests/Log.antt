-- ===== src/Tests/Log.antt =====
-- Witnesses of the theorems on the replicated log.
use pelican_q.Base.{ℕ, ◌≡◌, refl, List, [], ◌∷◌, none, some, length, arith, if◌then◌else◌, ltb}
use pelican_q.Bytes.{Bytes, precedes, to_be_bytes}
use pelican_q.Tree.{Tree, lookup, IsOrdered}
use pelican_q.Platform.Memory.{MemoryDb, empty_db, memory}
use pelican_q.Exec.{◌>>=◌}
use pelican_q.Engine.Sound.Calls.{SoundAt}
use pelican_q.Engine.Calls.{scan, collect_ok}
use pelican_q.Engine.Declare.{list_queues}
use pelican_q.Snapshot.{export_snapshot, export_queues}
use pelican_q.Replica.{consume_op, build_snapshot}
use pelican_q.Store.{LogId, blank, normal, LogEntry, StoredSnapshot, RaftStore, returns, aborts}
use pelican_q.Store.Log.{
  be64, last_purged_key, meta_get_single, save_vote, read_vote, delete_conflict_logs_since,
  purge_logs_upto,
}
use pelican_q.Store.Log.Truncate.{
  calm, delete_conflict_logs_since_truncates, purge_logs_upto_purges,
}
use pelican_q.Engine.Keys.Numbered.{Below}
use pelican_q.Store.Log.Append.{try_get_log_entries-append_to_log}
use pelican_q.Store.Log.{included, unbounded, append_to_log, try_get_log_entries}
use pelican_q.Store.Log.Votes.{read_vote-save_vote}
use pelican_q.Store.Apply.{apply_to_state_machine, build_raft_snapshot}
use pelican_q.Store.Apply.Sound.{Keeps, apply_to_state_machine-IsSound}
use pelican_q.Store.Apply.Snapshots.{build_raft_snapshot_twice}
use pelican_q.Tests.{
  jobs-ne-queues, jobs-ne-retention, jobs, stocked_db, managed, stocked_db-IsSound,
}
use pelican_q.Tests.Raft.{write_log_id, small_raft, small_json}

abbrev at_index : ℕ → LogId
at_index i = record { term = 1; node_id = 2; index = i }

-- A log of the indices 3, 4 and 5.
abbrev three_entries : Tree
three_entries =
    (to_be_bytes 3, write_log_id (at_index 3))
    ∷ (to_be_bytes 4, write_log_id (at_index 4))
    ∷ (to_be_bytes 5, write_log_id (at_index 5))
    ∷ []

three_entries-IsOrdered : IsOrdered three_entries
unfolding to_be_bytes precedes
three_entries-IsOrdered = ((refl, (refl, tt)), ((refl, tt), (tt, tt)))

abbrev store_of : Tree → MemoryDb → RaftStore MemoryDb (Unit {0})
store_of t d = record {
  log = t;
  info = [];
  state_machine = managed d;
  current_snapshot = none;
  faults = [];
}

delete_conflict_logs_since_truncates_example :
    let s = store_of three_entries empty_db in
    let r = delete_conflict_logs_since ⦃r = small_raft⦄ (at_index 4) (calm ⦃r = small_raft⦄ s) in
    (r.0 ≡ returns tt)
    × (lookup (be64 5) r.1.log ≡ (if ltb 5 4 then lookup (be64 5) s.log else none))
    × (r.1.info ≡ s.info)
    × (r.1.state_machine ≡ s.state_machine)
delete_conflict_logs_since_truncates_example =
    delete_conflict_logs_since_truncates ⦃r = small_raft⦄ (at_index 4) 5
      (store_of three_entries empty_db) three_entries-IsOrdered (omega arith) (omega arith)

purge_logs_upto_purges_example :
    let s = store_of three_entries empty_db in
    let r = purge_logs_upto ⦃r = small_raft⦄ (at_index 4) (calm ⦃r = small_raft⦄ s) in
    (r.0 ≡ returns tt)
    × (lookup (be64 5) r.1.log ≡ (if ltb 4 5 then lookup (be64 5) s.log else none))
    × ((meta_get_single ⦃r = small_raft⦄ small_raft.log_id_json last_purged_key r.1).0
        ≡ returns (some (at_index 4)))
    × (r.1.state_machine ≡ s.state_machine)
purge_logs_upto_purges_example =
    purge_logs_upto_purges ⦃r = small_raft⦄ (at_index 4) (write_log_id (at_index 4)) 5
      (store_of three_entries empty_db) three_entries-IsOrdered (omega arith) (omega arith) refl

read_vote-save_vote_example :
    let s = store_of three_entries empty_db in
    let saved = save_vote ⦃r = small_raft⦄ 7 (calm ⦃r = small_raft⦄ s) in
    (saved.0 ≡ returns tt)
    × (read_vote ⦃r = small_raft⦄ saved.1 ≡ (returns (some 7), saved.1))
    × (saved.1.log ≡ s.log)
    × (saved.1.state_machine ≡ s.state_machine)
read_vote-save_vote_example =
    read_vote-save_vote ⦃r = small_raft⦄ 7 (7 ∷ []) (store_of three_entries empty_db) refl

-- Two entries, the second of which takes a job.
abbrev entries_to_apply : List (LogEntry (Unit {0}))
entries_to_apply =
    (record { log_id = at_index 3; payload = blank })
    ∷ (record { log_id = at_index 4; payload = normal (consume_op jobs) })
    ∷ []

apply_to_state_machine-IsSound_example :
    Keeps
      (SoundAt ⦃p = memory⦄ jobs)
      (λ resps. length resps ≡ 2)
      (apply_to_state_machine ⦃p = memory⦄ ⦃j = small_json⦄ ⦃r = small_raft⦄ entries_to_apply
        (store_of three_entries stocked_db))
apply_to_state_machine-IsSound_example =
    apply_to_state_machine-IsSound ⦃p = memory⦄ ⦃j = small_json⦄ ⦃r = small_raft⦄ jobs
      jobs-ne-queues jobs-ne-retention entries_to_apply (store_of three_entries stocked_db)
      (tt, ((refl, tt), tt)) stocked_db-IsSound

build_raft_snapshot_twice_example :
    let first =
      build_raft_snapshot ⦃p = memory⦄ ⦃j = small_json⦄ ⦃r = small_raft⦄
        (calm ⦃r = small_raft⦄ (store_of three_entries empty_db)) in
    ((snapshot : StoredSnapshot (Unit {0})) × (first.0 ≡ returns snapshot)
      × (first.1.current_snapshot ≡ some snapshot))
    × ((build_raft_snapshot ⦃p = memory⦄ ⦃j = small_json⦄ ⦃r = small_raft⦄ first.1).0 ≡ aborts)
unfolding lookup build_snapshot export_snapshot list_queues export_queues scan collect_ok ◌>>=◌
build_raft_snapshot_twice_example =
    build_raft_snapshot_twice ⦃p = memory⦄ ⦃j = small_json⦄ ⦃r = small_raft⦄
      (store_of three_entries empty_db) [] [] (managed empty_db) (managed empty_db) refl refl refl
      refl refl

three_entries-Below : Below 6 three_entries
three_entries-Below =
    ((3, refl, omega arith), ((4, refl, omega arith), ((5, refl, omega arith), tt)))

abbrev blank_at : ℕ → LogEntry (Unit {0})
blank_at i = record { log_id = at_index i; payload = blank }

-- Two entries with their encodings.
abbrev next_entries : List (LogEntry (Unit {0}) × Bytes)
next_entries =
    (blank_at 6, write_log_id (at_index 6)) ∷ (blank_at 7, write_log_id (at_index 7)) ∷ []

try_get_log_entries-append_to_log_example :
    let s = store_of three_entries empty_db in
    let r =
      append_to_log ⦃r = small_raft⦄ (blank_at 6 ∷ blank_at 7 ∷ []) (calm ⦃r = small_raft⦄ s) in
    (r.0 ≡ returns tt)
    × ((try_get_log_entries ⦃r = small_raft⦄ (included 6) unbounded r.1).0
        ≡ returns (blank_at 6 ∷ blank_at 7 ∷ []))
    × (r.1.info ≡ s.info)
    × (r.1.state_machine ≡ s.state_machine)
try_get_log_entries-append_to_log_example =
    try_get_log_entries-append_to_log ⦃r = small_raft⦄ 6 next_entries
      (store_of three_entries empty_db) (omega arith) three_entries-Below
      (omega arith, omega arith, refl, (omega arith, omega arith, refl, tt))
