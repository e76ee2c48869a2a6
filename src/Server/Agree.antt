-- ===== src/Server/Agree.antt =====
-- The two engines agree: a node that leads answers a write as a single manager in the state of its
-- own does.
pub mod Http
pub mod Batches
pub mod Rpc
pub mod Stream
use pelican_q.Base.{◌≡◌, refl, ◌∙◌, ap, subst}
use pelican_q.Failure.{Outcome, ok, err, panic, diverges}
use pelican_q.Platform.{Platform}
use pelican_q.Exec.{Manager, Exec}
use pelican_q.Replica.{
  QueueOperation, QueueOperationResponse, Answer, success, failure, answer_of, respond,
  apply_operation,
}
use pelican_q.Server.{
  Consensus, WriteResult, write_ok, AppEngine, solo, flock, IsLeading, read_engine, write_engine,
}

module _ ⦃p : Platform⦄ ⦃s : Consensus p.Db⦄ where
  open p use {Db}
  open s use {Cluster, local, raft_write, local-after_read}

  -- What a node in the state of `c` answers if a manager in its state answers `r` and becomes `w`.
  abbrev pub AnswersAs :
      {R : Type 0}
      → (AppEngine Db Cluster → Outcome R × AppEngine Db Cluster)
      → Cluster
      → R
      → Manager Db
      → Type 0
  AnswersAs handler c r w = (d : Cluster) × (handler (flock c) ≡ (ok r, flock d)) × (local d ≡ w)

  abbrev pub Ends : {R : Type 0} → Outcome R → Manager Db → R → Manager Db → Type 0
  Ends {R = R} o v r w = ◌≡◌ {A = Outcome R × AppEngine Db Cluster} (o, solo v) (ok r, solo w)

  pub read_engine-agrees :
      {R : Type 0} (m : Exec Db R) (c : Cluster) (r : R) (w : Manager Db)
      → read_engine m (solo (local c)) ≡ (ok r, solo w)
      → AnswersAs (read_engine m) c r w
  unfolding read_engine
  read_engine-agrees m c r w h =
      let x = m (local c) in
      let outcome : x.0 ≡ ok r = cc in
      let manager : x.1 ≡ w = cc in
      (
        s.after_read x.1 c,
        ap (λ o. (o, flock (s.after_read x.1 c))) outcome,
        local-after_read x.1 c ∙ manager,
      )

  pub write_engine-agrees :
      {A R : Type 0} (m : Exec Db A) (answer : Answer A → R) (op : QueueOperation)
      (read : WriteResult → Outcome R) (ctor : Answer A → QueueOperationResponse) (c : Cluster)
      (r : R) (w : Manager Db)
      → IsLeading
      → ((v : Manager Db) → apply_operation op v ≡ respond ctor m v)
      → ((a : Answer A) → read (write_ok (ctor a)) ≡ ok (answer a))
      → write_engine m answer op read (solo (local c)) ≡ (ok r, solo w)
      → AnswersAs (write_engine m answer op read) c r w
  unfolding write_engine
  write_engine-agrees m answer op read ctor c r w l applied read_ok h = go (m (local c)) refl h
    where
      settled :
          (a : Answer _) (v : Manager Db)
          → apply_operation op (local c) ≡ (ok (ctor a), v)
          → answer a ≡ r
          → v ≡ w
          → AnswersAs (write_engine m answer op read) c r w
      settled a v e f g =
          let wrote = l.applies op c (ctor a) v e in
          (wrote.0, rw wrote.1 (rw (read_ok a) (rw f refl)), wrote.2 ∙ g)

      moved :
          {x : Outcome _ × Manager Db}
          → m (local c) ≡ x
          → write_engine m answer op read (solo (local c)) ≡ (ok r, solo w)
          → Ends (answer_of answer x).0 (answer_of answer x).1 r w
      moved e g = subst (λ x. Ends (answer_of answer x).0 (answer_of answer x).1 r w) e g

      go :
          (x : Outcome _ × Manager Db)
          → m (local c) ≡ x
          → write_engine m answer op read (solo (local c)) ≡ (ok r, solo w)
          → AnswersAs (write_engine m answer op read) c r w
      go (ok a, v) e g =
          let ends : Ends (ok (answer (success a))) v r w = moved e g in
          settled (success a) v (applied (local c) ∙ rw e refl) (cc) (cc)
      go (err f, v) e g =
          let ends : Ends (ok (answer (failure f))) v r w = moved e g in
          settled (failure f) v (applied (local c) ∙ rw e refl) (cc) (cc)
      go (panic, v) e g = let ends : Ends panic v r w = moved e g in cc
      go (diverges, v) e g = let ends : Ends diverges v r w = moved e g in cc
