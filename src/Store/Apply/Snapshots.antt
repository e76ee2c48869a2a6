-- ===== src/Store/Apply/Snapshots.antt =====
-- The counter of snapshots: how it is written and how it is read.
use pelican_q.Base.{◌<◌, ◌≡◌, refl, ap, ◌∙◌, true, false, none, some, length, ltb, arith}
use pelican_q.Bytes.{Bytes, same}
use pelican_q.Bytes.Order.{same_refl}
use pelican_q.Tree.{lookup, put}
use pelican_q.Tree.Lookup.{lookup-put}
use pelican_q.Failure.{ok}
use pelican_q.Platform.{Platform}
use pelican_q.Exec.{Manager}
use pelican_q.Replica.{SnapshotJson, build_snapshot}
use pelican_q.Store.{Raft, RaftStore, StoredSnapshot, returns, aborts, ◌>>=◌, abort}
use pelican_q.Store.Log.{meta_get_single, decode_meta}
use pelican_q.Store.Log.Truncate.{calm}
use pelican_q.Store.Apply.{
  last_applied_key, last_membership_key, snapshot_idx_key, on_engine, read_snapshot_idx,
  build_raft_snapshot,
}

idx-ne-applied : same snapshot_idx_key last_applied_key ≡ false
unfolding same
idx-ne-applied = refl

idx-ne-members : same snapshot_idx_key last_membership_key ≡ false
unfolding same
idx-ne-members = refl

module _ ⦃p : Platform⦄ ⦃j : SnapshotJson⦄ ⦃r : Raft⦄ where
  open p use {Db}
  open r use {Members, no_members, snapshot_id, u64_to_vec, u64_to_vec_short}

  read_short :
      (v : Bytes) (s : RaftStore Db Members)
      → length v < 8
      → read_snapshot_idx (some v) s ≡ (aborts, s)
  unfolding read_snapshot_idx abort
  read_short v s h = let short : ltb (length v) 8 ≡ true = ground arith in rw short refl

  -- The first snapshot of a replica that has applied nothing.
  abbrev first_snapshot : Bytes → StoredSnapshot Members
  first_snapshot contents = record {
    info = record {
      last_log_id = none;
      last_membership = (none, no_members);
      id = snapshot_id none 1;
    };
    contents = contents;
  }

  build-first :
      (s : RaftStore Db Members) (contents : Bytes) (w : Manager Db)
      → build_snapshot s.state_machine ≡ (ok contents, w)
      → lookup last_applied_key s.info ≡ none
      → lookup last_membership_key s.info ≡ none
      → lookup snapshot_idx_key s.info ≡ none
      → build_raft_snapshot (calm s) ≡ (
        returns (first_snapshot contents),
        record (calm s) {
          state_machine = w;
          info = put snapshot_idx_key (u64_to_vec 1) s.info;
          current_snapshot = some (first_snapshot contents);
        },
      )
  unfolding build_raft_snapshot on_engine meta_get_single decode_meta read_snapshot_idx ◌>>=◌
  build-first s contents w built applied members idx =
      rw built (rw applied (rw members (rw idx refl)))

  -- When no call of the raft database fails and the engine can be exported twice: the first
  -- snapshot of a replica without applied entries, members and counter is built and kept, and the
  -- second one stops the task, since the counter is written as decimal digits and read as eight
  -- bytes.
  pub build_raft_snapshot_twice :
      (s : RaftStore Db Members) (contents contents' : Bytes) (w w' : Manager Db)
      → build_snapshot s.state_machine ≡ (ok contents, w)
      → build_snapshot w ≡ (ok contents', w')
      → lookup last_applied_key s.info ≡ none
      → lookup last_membership_key s.info ≡ none
      → lookup snapshot_idx_key s.info ≡ none
      → let first = build_raft_snapshot (calm s) in
        ((snapshot : StoredSnapshot Members) × (first.0 ≡ returns snapshot)
          × (first.1.current_snapshot ≡ some snapshot))
        × ((build_raft_snapshot first.1).0 ≡ aborts)
  unfolding build_raft_snapshot on_engine meta_get_single decode_meta ◌>>=◌
  build_raft_snapshot_twice s contents contents' w w' built rebuilt applied members idx =
      let first = build-first s contents w built applied members idx in
      let info = put snapshot_idx_key (u64_to_vec 1) s.info in
      let applied' : lookup last_applied_key info ≡ none =
        lookup-put snapshot_idx_key last_applied_key (u64_to_vec 1) s.info
        ∙ (rw idx-ne-applied applied) in
      let members' : lookup last_membership_key info ≡ none =
        lookup-put snapshot_idx_key last_membership_key (u64_to_vec 1) s.info
        ∙ (rw idx-ne-members members) in
      let idx' : lookup snapshot_idx_key info ≡ some (u64_to_vec 1) =
        lookup-put snapshot_idx_key snapshot_idx_key (u64_to_vec 1) s.info
        ∙ (rw (same_refl snapshot_idx_key) refl) in
      (
        (_, ap (λ x. x.0) first, ap (λ x. x.1.current_snapshot) first),
        rw first (
            rw rebuilt (
              rw applied' (
                rw members' (
                  rw idx'
                    (rw (read_short (u64_to_vec 1) _ (u64_to_vec_short 1 (omega arith))) refl))))),
      )
