-- ===== src/Store.antt =====
-- pelicanq-raft/src/storage.rs: the state of the replicated log and its storage calls.
-- The mutex around it makes each method one step. `faults` says of each coming call of the raft
-- database whether it fails, as in the engine; the engine keeps its own in `state_machine`.
pub mod Log
pub mod Apply
use pelican_q.Base.{ℕ, ◌<◌, ◌≡◌, List, [], ◌∷◌, Option, none, some, length}
use pelican_q.Bytes.{Bytes}
use pelican_q.Tree.{Tree, lookup, put, without}
use pelican_q.Failure.{PelicanError, Fallible, done, failed}
use pelican_q.Platform.{Platform}
use pelican_q.Exec.{Manager}
use pelican_q.Replica.{QueueOperation}

-- What openraft defines: log positions, entries and the metadata of snapshots.
pub record LogId : Type 0 where
  pub term : ℕ
  pub node_id : ℕ
  pub index : ℕ

pub data EntryPayload (Members : Type 0) : Type 0 where
  blank : EntryPayload Members
  normal : QueueOperation → EntryPayload Members
  membership : Members → EntryPayload Members

pub record LogEntry (Members : Type 0) : Type 0 where
  pub log_id : LogId
  pub payload : EntryPayload Members

abbrev pub StoredMembership : Type 0 → Type 0
StoredMembership Members = Option LogId × Members

pub record Json (A : Type 0) : Type 0 where
  pub to_vec : A → Fallible Bytes
  pub from_slice : Bytes → Fallible A
  pub json_round_trip : (a : A) (b : Bytes) → to_vec a ≡ done b → from_slice b ≡ done a

-- What the storage calls of openraft and serde_json. A number is written in decimal digits.
pub record Raft : Type 1 where
  pub Members : Type 0
  pub Vote : Type 0
  pub no_members : Members
  pub vote_json : Json Vote
  pub entry_json : Json (LogEntry Members)
  pub log_id_json : Json LogId
  pub membership_json : Json (StoredMembership Members)
  pub u64_to_vec : ℕ → Bytes
  pub u64_to_vec_short : (n : ℕ) → n < 10000000 → length (u64_to_vec n) < 8
  pub snapshot_id : Option LogId → ℕ → Bytes

pub record SnapshotMeta (Members : Type 0) : Type 0 where
  pub last_log_id : Option LogId
  pub last_membership : StoredMembership Members
  pub id : Bytes

pub record StoredSnapshot (Members : Type 0) : Type 0 where
  pub info : SnapshotMeta Members
  pub contents : Bytes

pub record RaftStore (Db Members : Type 0) : Type 0 where
  pub log : Tree
  pub info : Tree
  pub state_machine : Manager Db
  pub current_snapshot : Option (StoredSnapshot Members)
  pub faults : List (Option Bytes)

pub data ErrorVerb : Type 0 where
  reading : ErrorVerb
  writing : ErrorVerb

-- The subject of each error is the state machine. The text is that of the cause.
pub data StorageError : Type 0 where
  io_error : ErrorVerb → Bytes → StorageError
  engine_error : ErrorVerb → PelicanError → StorageError

pub data Stored (A : Type 0) : Type 0 where
  returns : A → Stored A
  fails : StorageError → Stored A
  aborts : Stored A

abbrev pub Storing : Type 0 → Type 0 → Type 0 → Type 0
Storing Db Members A = RaftStore Db Members → Stored A × RaftStore Db Members

module _ {Db Members A : Type 0} where
  unfoldable pub pure : A → Storing Db Members A
  pure a s = (returns a, s)

  unfoldable pub gets : (RaftStore Db Members → A) → Storing Db Members A
  gets f s = (returns (f s), s)

  unfoldable pub fail_with : StorageError → Storing Db Members A
  fail_with e s = (fails e, s)

  unfoldable pub abort : Storing Db Members A
  abort s = (aborts, s)

  -- A result of serde_json, with its error for the verb.
  unfoldable pub json : ErrorVerb → Fallible A → Storing Db Members A
  unfolding pure fail_with
  json verb (done a) = pure a
  json verb (failed e) = fail_with (io_error verb e)

module _ {Db Members : Type 0} where
  unfoldable pub update : (RaftStore Db Members → RaftStore Db Members) → Storing Db Members Unit
  update f s = (returns tt, f s)

  abbrev check_on : ErrorVerb → List (Option Bytes) → Storing Db Members Unit
  check_on verb [] s = (returns tt, s)
  check_on verb (none ∷ fs) s = (returns tt, record s { faults = fs })
  check_on verb (some e ∷ fs) s = (fails (io_error verb e), record s { faults = fs })

  -- One call of sled, `flush` included.
  unfoldable pub check : ErrorVerb → Storing Db Members Unit
  check verb s = check_on verb s.faults s

module _ {Db Members A B : Type 0} where
  abbrev pub continue :
      Stored A × RaftStore Db Members → (A → Storing Db Members B) → Stored B × RaftStore Db Members
  continue (returns a, s) f = f a s
  continue (fails e, s) f = (fails e, s)
  continue (aborts, s) f = (aborts, s)

  infixl 10 ◌>>=◌ ◌>>◌
  -- To open this is to open all that a method is made of.
  unfoldable pub ◌>>=◌ : Storing Db Members A → (A → Storing Db Members B) → Storing Db Members B
  unfolding pure gets fail_with abort json update check
  ◌>>=◌ m f s = continue (m s) f

  abbrev pub ◌>>◌ : Storing Db Members A → Storing Db Members B → Storing Db Members B
  m >> n = m >>= λ _. n
