-- ===== src/Tests/Raft.antt =====
-- A small encoding in place of JSON, and what openraft defines, for the tests of the log.
use pelican_q.Base.{ℕ, ◌≡◌, refl, ap, subst, [], ◌∷◌, none, some, arith}
use pelican_q.Bytes.{Bytes}
use pelican_q.Failure.{Fallible, done, failed}
use pelican_q.Snapshot.{QueueManagerSnapshot}
use pelican_q.Replica.{SnapshotJson}
use pelican_q.Store.{
  LogId, EntryPayload, blank, normal, membership, LogEntry, StoredMembership, Json, Raft,
}

abbrev bytes_of : Fallible Bytes → Bytes
bytes_of (done b) = b
bytes_of (failed e) = e

-- An encoding that is undone by a decoding.
abbrev json_of :
    {A : Type 0} (f : A → Bytes) (g : Bytes → Fallible A) → ((a : A) → g (f a) ≡ done a) → Json A
json_of f g h = record {
  to_vec = λ a. done (f a);
  from_slice = g;
  json_round_trip = λ a b e. subst (λ x. g x ≡ done a) (ap bytes_of e) (h a);
}

abbrev pub write_log_id : LogId → Bytes
write_log_id l = l.term ∷ l.node_id ∷ l.index ∷ []

abbrev read_log_id : Bytes → Fallible LogId
read_log_id (t ∷ n ∷ i ∷ []) = done (record { term = t; node_id = n; index = i })
read_log_id _ = failed []

abbrev write_membership : StoredMembership (Unit {0}) → Bytes
write_membership (none, m) = []
write_membership (some l, m) = write_log_id l

abbrev read_membership : Bytes → Fallible (StoredMembership (Unit {0}))
read_membership [] = done (none, tt)
read_membership (t ∷ n ∷ i ∷ []) = done (some (record { term = t; node_id = n; index = i }), tt)
read_membership _ = failed []

pub read-write_membership :
    (m : StoredMembership (Unit {0})) → read_membership (write_membership m) ≡ done m
read-write_membership (none, m) = refl
read-write_membership (some l, m) = refl

-- Blank entries alone are encoded.
abbrev write_entry : LogId → EntryPayload (Unit {0}) → Fallible Bytes
write_entry l blank = done (write_log_id l)
write_entry l (normal op) = failed []
write_entry l (membership m) = failed []

abbrev read_entry : Bytes → Fallible (LogEntry (Unit {0}))
read_entry (t ∷ n ∷ i ∷ []) =
    done (record { log_id = record { term = t; node_id = n; index = i }; payload = blank })
read_entry _ = failed []

pub read-write_entry :
    (l : LogId) (e : EntryPayload (Unit {0})) (b : Bytes)
    → write_entry l e ≡ done b
    → read_entry b ≡ done (record { log_id = l; payload = e })
read-write_entry l blank b h =
    subst (λ x. read_entry x ≡ done (record { log_id = l; payload = blank })) (ap bytes_of h) refl
read-write_entry l (normal op) b h = cc
read-write_entry l (membership m) b h = cc

abbrev one_byte : ℕ → Bytes
one_byte n = n ∷ []

abbrev read_one : Bytes → Fallible ℕ
read_one (n ∷ []) = done n
read_one _ = failed []

abbrev pub small_raft : Raft
small_raft = record {
  Members = Unit {0};
  Vote = ℕ;
  no_members = tt;
  vote_json = json_of one_byte read_one (λ n. refl);
  entry_json = record {
    to_vec = λ e. write_entry e.log_id e.payload;
    from_slice = read_entry;
    json_round_trip = λ e b h. read-write_entry e.log_id e.payload b h;
  };
  log_id_json = json_of write_log_id read_log_id (λ l. refl);
  membership_json = json_of write_membership read_membership read-write_membership;
  u64_to_vec = λ n. n ∷ [];
  u64_to_vec_short = λ n h. omega arith;
  snapshot_id = λ l n. n ∷ [];
}

-- Snapshots of a store without queues alone are encoded.
abbrev write_snapshot : QueueManagerSnapshot → Fallible Bytes
write_snapshot [] = done []
write_snapshot (q ∷ qs) = failed []

abbrev read_snapshot : Bytes → Fallible QueueManagerSnapshot
read_snapshot [] = done []
read_snapshot (b ∷ bs) = failed []

pub read-write_snapshot :
    (s : QueueManagerSnapshot) (b : Bytes) → write_snapshot s ≡ done b → read_snapshot b ≡ done s
read-write_snapshot [] b h = subst (λ x. read_snapshot x ≡ done []) (ap bytes_of h) refl
read-write_snapshot (q ∷ qs) b h = cc

abbrev pub small_json : SnapshotJson
small_json = record {
  to_vec = write_snapshot;
  from_slice = read_snapshot;
  json_round_trip = read-write_snapshot;
}
