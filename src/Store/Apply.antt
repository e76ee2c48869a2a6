-- ===== src/Store/Apply.antt =====
-- pelicanq-raft/src/storage.rs: applying log entries to the engine, and snapshots of it.
pub mod Sound
pub mod Snapshots
use pelican_q.Base.{
  ℕ, ◌+◌, ◌%◌, Bool, List, [], ◌∷◌, Option, none, some, ltb, length, take, if◌then◌else◌,
}
use pelican_q.Bytes.{Bytes, codes, from_be_bytes}
use pelican_q.Bytes.RoundTrip.{u64_mod}
use pelican_q.Tree.{lookup, put}
use pelican_q.Failure.{Outcome, ok, err, panic, diverges, done, Fallible}
use pelican_q.Platform.{Platform}
use pelican_q.Exec.{Manager}
use pelican_q.Replica.{
  QueueOperationResponse, ack_resp, success, apply_operation, SnapshotJson, build_snapshot,
  install_snapshot,
}
use pelican_q.Store.{
  LogId, EntryPayload, blank, normal, membership, LogEntry, StoredMembership, Json, Raft,
  SnapshotMeta, StoredSnapshot, RaftStore, reading, writing, engine_error, Storing, ◌>>=◌, ◌>>◌,
  pure, gets, abort, returns, fails, aborts, json, update, check,
}
use pelican_q.Store.Log.{meta_set, meta_get_single}

abbrev pub last_applied_key : Bytes
last_applied_key = codes "last_applied"

abbrev pub last_membership_key : Bytes
last_membership_key = codes "last_membership"

abbrev pub snapshot_idx_key : Bytes
snapshot_idx_key = codes "snapshot_idx"

abbrev pub null : Bytes
null = codes "null"

abbrev pub or_default {ℓ} : {A : Type ℓ} → A → Option A → A
or_default d none = d
or_default d (some a) = a

module _ {Db Members : Type 0} where
  -- A call of the engine from the storage: its error is one of the storage, and its panic goes on.
  abbrev pub lifted : {A : Type 0} → Outcome A × Manager Db → Storing Db Members A
  lifted (ok a, w) s = (returns a, record s { state_machine = w })
  lifted (err e, w) s = (fails (engine_error writing e), record s { state_machine = w })
  lifted (panic, w) s = (aborts, record s { state_machine = w })
  lifted (diverges, w) s = (aborts, record s { state_machine = w })

  unfoldable pub on_engine :
      {A : Type 0} → (Manager Db → Outcome A × Manager Db) → Storing Db Members A
  on_engine m s = lifted (m s.state_machine) s

module _ ⦃p : Platform⦄ ⦃j : SnapshotJson⦄ ⦃r : Raft⦄ where
  open p use {Db}
  open r use {Members, no_members, log_id_json, membership_json, u64_to_vec, snapshot_id}

  unfoldable pub last_applied_state : Storing Db Members (Option LogId × StoredMembership Members)
  unfolding meta_get_single
  last_applied_state = do
    last_applied ← meta_get_single log_id_json last_applied_key
    last_membership ← meta_get_single membership_json last_membership_key
    pure (last_applied, or_default (none, no_members) last_membership)

  unfoldable pub apply_payload :
      LogId → EntryPayload Members → Storing Db Members QueueOperationResponse
  unfolding on_engine meta_set
  apply_payload log_id blank = pure (ack_resp (success tt))
  apply_payload log_id (normal op) = on_engine (apply_operation op)
  apply_payload log_id (membership mem) = do
    meta_set membership_json last_membership_key (some log_id, mem)
    pure (ack_resp (success tt))

  unfoldable pub apply_to_state_machine :
      List (LogEntry Members) → Storing Db Members (List QueueOperationResponse)
  unfolding apply_payload meta_set
  apply_to_state_machine [] = pure []
  apply_to_state_machine (entry ∷ entries) = do
    qm_resp ← apply_payload entry.log_id entry.payload
    meta_set log_id_json last_applied_key entry.log_id
    resps ← apply_to_state_machine entries
    pure (qm_resp ∷ resps)

  -- The first eight bytes of the stored value, big-endian: a shorter value panics.
  unfoldable pub read_snapshot_idx : Option Bytes → Storing Db Members ℕ
  read_snapshot_idx none = pure 0
  read_snapshot_idx (some v) = if ltb (length v) 8 then abort else pure (from_be_bytes 0 (take 8 v))

  unfoldable pub build_raft_snapshot : Storing Db Members (StoredSnapshot Members)
  unfolding on_engine build_snapshot meta_get_single read_snapshot_idx
  build_raft_snapshot = do
    contents ← on_engine build_snapshot
    last_applied ← meta_get_single log_id_json last_applied_key
    last_membership ← meta_get_single membership_json last_membership_key
    check reading
    found ← gets (λ s. lookup snapshot_idx_key s.info)
    idx ← read_snapshot_idx found
    let snapshot_idx = (idx + 1) % u64_mod
    check writing
    update (λ s. record s { info = put snapshot_idx_key (u64_to_vec snapshot_idx) s.info })
    check writing
    let snapshot : StoredSnapshot Members = record {
      info = record {
        last_log_id = last_applied;
        last_membership = or_default (none, no_members) last_membership;
        id = snapshot_id last_applied snapshot_idx;
      };
      contents = contents;
    }
    update (λ s. record s { current_snapshot = some snapshot })
    pure snapshot

  -- `meta_set` of an optional id: `None` is written as `null`.
  unfoldable pub set_last_applied : Option LogId → Storing Db Members Unit
  unfolding meta_set
  set_last_applied none = do
    check writing
    update (λ s. record s { info = put last_applied_key null s.info })
    check writing
  set_last_applied (some log_id) = meta_set log_id_json last_applied_key log_id

  unfoldable pub install_raft_snapshot : SnapshotMeta Members → Bytes → Storing Db Members Unit
  unfolding on_engine install_snapshot set_last_applied meta_set
  install_raft_snapshot info contents = do
    on_engine (install_snapshot contents)
    set_last_applied info.last_log_id
    meta_set membership_json last_membership_key info.last_membership
    update (λ s. record s { current_snapshot = some (record { info = info; contents = contents }) })
    check writing

  unfoldable pub get_current_snapshot : Storing Db Members (Option (StoredSnapshot Members))
  get_current_snapshot = gets (λ s. s.current_snapshot)
