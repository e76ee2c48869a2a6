-- ===== src/Store/Log.antt =====
-- pelicanq-raft/src/storage.rs: the log and the metadata tree.
pub mod Truncate
pub mod Votes
pub mod Append
use pelican_q.Base.{
  ℕ, ◌+◌, Bool, true, false, not, ◌&&◌, List, [], ◌∷◌, Option, none, some, min, leb, map,
  if◌then◌else◌,
}
use pelican_q.Bytes.{Bytes, codes, precedes, to_be_bytes}
use pelican_q.Tree.{Tree, Entry, lookup, put, without}
use pelican_q.Store.{
  LogId, LogEntry, Json, Raft, RaftStore, ErrorVerb, reading, writing, Storing, ◌>>=◌, ◌>>◌, pure,
  gets, json, update, check, StoredMembership,
}

abbrev pub u64_max : ℕ
u64_max = 18446744073709551615

abbrev pub be64 : ℕ → Bytes
be64 index = to_be_bytes index

abbrev pub last_purged_key : Bytes
last_purged_key = codes "last_purged"

abbrev pub vote_key : Bytes
vote_key = codes "vote"

-- The bounds of a range of indices: `std::ops::Bound`.
pub data Bound : Type 0 where
  included : ℕ → Bound
  excluded : ℕ → Bound
  unbounded : Bound

unfoldable pub start_of : Bound → ℕ
start_of (included i) = i
start_of (excluded i) = min (i + 1) u64_max
start_of unbounded = 0

unfoldable pub end_of : Bound → ℕ
end_of (included i) = min (i + 1) u64_max
end_of (excluded i) = i
end_of unbounded = u64_max

-- `range(start..end)` of a tree.
unfoldable pub range : Bytes → Bytes → Tree → Tree
range start_key end_key [] = []
range start_key end_key ((k, v) ∷ t) =
    if not (precedes k start_key) && precedes k end_key
    then (k, v) ∷ range start_key end_key t
    else range start_key end_key t

-- `range(start..=end)` of a tree.
unfoldable pub range_through : Bytes → Bytes → Tree → Tree
range_through start_key end_key [] = []
range_through start_key end_key ((k, v) ∷ t) =
    if not (precedes k start_key) && not (precedes end_key k)
    then (k, v) ∷ range_through start_key end_key t
    else range_through start_key end_key t

unfoldable pub last_entry : Tree → Option Entry
last_entry [] = none
last_entry (e ∷ []) = some e
last_entry (e ∷ e' ∷ t) = last_entry (e' ∷ t)

module _ {Db : Type 0} ⦃r : Raft⦄ where
  open r use {Members, Vote, vote_json, entry_json, log_id_json}

  unfoldable pub meta_set : {A : Type 0} → Json A → Bytes → A → Storing Db Members Unit
  meta_set j key value = do
    data_bytes ← json writing (j.to_vec value)
    check writing
    update (λ s. record s { info = put key data_bytes s.info })
    check writing

  unfoldable pub decode_meta : {A : Type 0} → Json A → Option Bytes → Storing Db Members (Option A)
  decode_meta j none = pure none
  decode_meta j (some val) = do t ← json reading (j.from_slice val); pure (some t)

  unfoldable pub meta_get_single : {A : Type 0} → Json A → Bytes → Storing Db Members (Option A)
  unfolding decode_meta
  meta_get_single j key = do
    check reading
    found ← gets (λ s. lookup key s.info)
    decode_meta j found

  unfoldable pub decode_each : Tree → Storing Db Members (List (LogEntry Members))
  decode_each [] = pure []
  decode_each ((k, value) ∷ t) = do
    check reading
    entry ← json reading (entry_json.from_slice value)
    rest ← decode_each t
    pure (entry ∷ rest)

  unfoldable pub try_get_log_entries : Bound → Bound → Storing Db Members (List (LogEntry Members))
  unfolding start_of end_of range decode_each
  try_get_log_entries from to = if leb (end_of to) (start_of from) then pure [] else (do
    found ← gets (λ s. range (be64 (start_of from)) (be64 (end_of to)) s.log)
    decode_each found)

  -- The last id: that of the last entry, or of the last one purged.
  unfoldable pub last_log_id_of : Option LogId → Option Entry → Storing Db Members (Option LogId)
  last_log_id_of last_purged none = pure last_purged
  last_log_id_of last_purged (some (k, value)) = do
    entry ← json reading (entry_json.from_slice value)
    pure (some entry.log_id)

  unfoldable pub get_log_state : Storing Db Members (Option LogId × Option LogId)
  unfolding meta_get_single last_entry last_log_id_of
  get_log_state = do
    last_purged ← meta_get_single log_id_json last_purged_key
    check reading
    last ← gets (λ s. last_entry s.log)
    last_log_id ← last_log_id_of last_purged last
    pure (last_purged, last_log_id)

  unfoldable pub save_vote : Vote → Storing Db Members Unit
  unfolding meta_set
  save_vote vote = meta_set vote_json vote_key vote

  unfoldable pub read_vote : Storing Db Members (Option Vote)
  unfolding meta_get_single
  read_vote = meta_get_single vote_json vote_key

  unfoldable pub append_each : List (LogEntry Members) → Storing Db Members Unit
  append_each [] = pure tt
  append_each (entry ∷ entries) = do
    value ← json writing (entry_json.to_vec entry)
    check writing
    update (λ s. record s { log = put (be64 entry.log_id.index) value s.log })
    append_each entries

  unfoldable pub append_to_log : List (LogEntry Members) → Storing Db Members Unit
  unfolding append_each
  append_to_log entries = do append_each entries; check writing

  -- `keys().collect()`: the first error ends the collection.
  unfoldable pub collect_keys : Tree → Storing Db Members (List Bytes)
  collect_keys [] = pure []
  collect_keys ((k, v) ∷ t) = do check writing; rest ← collect_keys t; pure (k ∷ rest)

  unfoldable pub remove_keys : List Bytes → Storing Db Members Unit
  remove_keys [] = pure tt
  remove_keys (key ∷ keys) = do
    check writing
    update (λ s. record s { log = without key s.log })
    remove_keys keys

  unfoldable pub remove_through : ℕ → ℕ → Storing Db Members Unit
  unfolding range_through collect_keys remove_keys
  remove_through start end = do
    found ← gets (λ s. range_through (be64 start) (be64 end) s.log)
    keys ← collect_keys found
    remove_keys keys

  unfoldable pub delete_conflict_logs_since : LogId → Storing Db Members Unit
  unfolding remove_through
  delete_conflict_logs_since log_id = do remove_through log_id.index u64_max; check writing

  unfoldable pub purge_logs_upto : LogId → Storing Db Members Unit
  unfolding remove_through meta_set
  purge_logs_upto log_id = do
    remove_through 0 log_id.index
    meta_set log_id_json last_purged_key log_id
    check writing
