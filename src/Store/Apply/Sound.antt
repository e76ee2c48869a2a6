-- ===== src/Store/Apply/Sound.antt =====
-- Applying log entries keeps a queue of the replica sound.
use pelican_q.Base.{suc, ◌≡◌, refl, ap, List, [], ◌∷◌, Option, none, some, false, length, All}
use pelican_q.Bytes.{Bytes, same}
use pelican_q.Failure.{Fallible, Outcome, ok, err, panic, diverges, done, failed}
use pelican_q.Platform.{Platform}
use pelican_q.Exec.{Manager}
use pelican_q.Exec.Ensures.{Settles}
use pelican_q.Engine.Keys.{meta_queues_tree, meta_retention_tree}
use pelican_q.Engine.View.{view}
use pelican_q.Engine.Sound.{IsSound}
use pelican_q.Engine.Sound.Calls.{SoundAt}
use pelican_q.Replica.{ack_resp, success, SnapshotJson}
use pelican_q.Replica.Sound.{IsOn, HasRoom, apply_operation-IsSound}
use pelican_q.Store.{
  LogId, EntryPayload, blank, normal, membership, LogEntry, Json, Raft, RaftStore, Stored, returns,
  fails, aborts, Storing, ◌>>=◌, pure, fail_with, json, check_on, writing, continue, ErrorVerb,
}
use pelican_q.Store.Log.{meta_set}
use pelican_q.Store.Apply.{
  last_applied_key, last_membership_key, on_engine, lifted, apply_payload, apply_to_state_machine,
}

-- The operation of the payload, if it is one, is on the queue and no batch that is too large.
abbrev OnQueue : ⦃p : Platform⦄ → {Members : Type 0} → Bytes → EntryPayload Members → Type 0
OnQueue q blank = Unit
OnQueue q (normal op) = IsOn q op × HasRoom op
OnQueue q (membership mem) = Unit

abbrev pub AreOn : ⦃p : Platform⦄ → {Members : Type 0} → Bytes → List (LogEntry Members) → Type 0
AreOn q = All (λ entry. OnQueue q entry.payload)

-- The call returns or reports an error, and the engine meets `I` afterwards. What it returns
-- meets `Q`.
abbrev pub Keeps :
    {Db Members A : Type 0}
    → (Db → Type 0)
    → (A → Type 0)
    → Stored A × RaftStore Db Members
    → Type 0
Keeps I Q (returns a, s) = I s.state_machine.db × Q a
Keeps I Q (fails e, s) = I s.state_machine.db
Keeps I Q (aborts, s) = ⊥

module _ {Db Members : Type 0} (I : Db → Type 0) where
  continue-Keeps :
      {A B : Type 0} (P : A → Type 0) (Q : B → Type 0) (r : Stored A × RaftStore Db Members)
      (f : A → Storing Db Members B)
      → Keeps I P r
      → ((a : A) (s : RaftStore Db Members) → I s.state_machine.db → P a → Keeps I Q (f a s))
      → Keeps I Q (continue r f)
  continue-Keeps P Q (returns a, s) f h k = k a s h.0 h.1
  continue-Keeps P Q (fails e, s) f h k = h
  continue-Keeps P Q (aborts, s) f h k = absurd h

  check_on-Keeps :
      (verb : ErrorVerb) (fs : List (Option Bytes)) (s : RaftStore Db Members)
      → I s.state_machine.db
      → Keeps I (λ a. Unit {0}) (check_on verb fs s)
  check_on-Keeps verb [] s i = (i, tt)
  check_on-Keeps verb (none ∷ fs) s i = (i, tt)
  check_on-Keeps verb (some e ∷ fs) s i = i

  json-Keeps :
      {A : Type 0} (verb : ErrorVerb) (x : Fallible A) (s : RaftStore Db Members)
      → I s.state_machine.db
      → Keeps I (λ a. Unit {0}) (json verb x s)
  unfolding json pure fail_with
  json-Keeps verb (done a) s i = (i, tt)
  json-Keeps verb (failed e) s i = i

  lifted-Keeps :
      {A : Type 0} (r : Outcome A × Manager Db) (s : RaftStore Db Members)
      → Settles I r
      → Keeps I (λ a. Unit {0}) (lifted r s)
  lifted-Keeps (ok a, w) s h = (h.0, tt)
  lifted-Keeps (err e, w) s h = h
  lifted-Keeps (panic, w) s h = absurd h
  lifted-Keeps (diverges, w) s h = absurd h

module _ ⦃p : Platform⦄ ⦃r : Raft⦄ where
  open p use {Db}
  open r use {Members}

  meta_set-Keeps :
      (I : Db → Type 0) {A : Type 0} (j : Json A) (key : Bytes) (value : A)
      (s : RaftStore Db Members)
      → I s.state_machine.db
      → Keeps I (λ a. Unit {0}) (meta_set j key value s)
  unfolding meta_set ◌>>=◌
  meta_set-Keeps I j key value s i =
      continue-Keeps I (λ a. Unit {0}) (λ a. Unit {0}) _ _
        (json-Keeps I writing (j.to_vec value) s i)
        (λ b s i x.
          continue-Keeps I (λ a. Unit {0}) (λ a. Unit {0}) _ _
            (check_on-Keeps I writing s.faults s i)
            (λ _ s i x. check_on-Keeps I writing s.faults _ i))

module _ ⦃p : Platform⦄ ⦃j : SnapshotJson⦄ ⦃r : Raft⦄ (q : Bytes)
    (queues : same meta_queues_tree q ≡ false)
    (retention : same meta_retention_tree q ≡ false) where
  open p use {Db}
  open r use {Members, log_id_json, membership_json}

  apply_payload-Keeps :
      (log_id : LogId) (payload : EntryPayload Members) (s : RaftStore Db Members)
      → OnQueue q payload
      → SoundAt q s.state_machine.db
      → Keeps (SoundAt q) (λ a. Unit {0}) (apply_payload log_id payload s)
  unfolding apply_payload on_engine ◌>>=◌
  apply_payload-Keeps log_id blank s e i = (i, tt)
  apply_payload-Keeps log_id (normal op) s e i =
      lifted-Keeps (SoundAt q) _ s
        (apply_operation-IsSound q queues retention op s.state_machine e.0 e.1 i)
  apply_payload-Keeps log_id (membership mem) s e i =
      continue-Keeps (SoundAt q) (λ a. Unit {0}) (λ a. Unit {0}) _
        (λ a. pure (ack_resp (success tt)))
        (meta_set-Keeps (SoundAt q) membership_json last_membership_key (some log_id, mem) s i)
        (λ _ s i x. (i, tt))

  -- Applying entries of the log whose operations are on the queue, or declare one, whichever calls
  -- of sled and serde_json fail: a sound queue that is not named as a metadata tree stays sound,
  -- and the call returns one response for each entry or reports an error. No batch asks for more
  -- messages than a `Vec` may have room for.
  pub apply_to_state_machine-IsSound :
      (entries : List (LogEntry Members)) (s : RaftStore Db Members)
      → AreOn q entries
      → IsSound (view q s.state_machine.db)
      → Keeps
          (SoundAt q)
          (λ resps. length resps ≡ length entries)
          (apply_to_state_machine entries s)
  unfolding apply_to_state_machine ◌>>=◌
  apply_to_state_machine-IsSound [] s e i = (i, refl)
  apply_to_state_machine-IsSound (entry ∷ entries) s e i =
      continue-Keeps (SoundAt q) (λ a. Unit {0}) _ _ _
        (apply_payload-Keeps entry.log_id entry.payload s e.0 i)
        (λ qm_resp s i x.
          continue-Keeps (SoundAt q) (λ a. Unit {0}) _ _ _
            (meta_set-Keeps (SoundAt q) log_id_json last_applied_key entry.log_id s i)
            (λ _ s i x.
              continue-Keeps (SoundAt q) (λ resps. length resps ≡ length entries) _ _
                (λ resps. pure (qm_resp ∷ resps)) (apply_to_state_machine-IsSound entries s e.1 i)
                (λ resps s i h. (i, ap suc h))))
