-- ===== src/Tests/Running.antt =====
-- A run of a queue against the abstract queue.
use pelican_q.Base.{◌≡◌, refl, List, [], ◌∷◌, ◌++◌, none, some, arith}
use mathlib.Core.List.{Perm}
use pelican_q.Bytes.{Bytes, codes, same}
use pelican_q.Tree.{put}
use pelican_q.Word.{wrapping_add}
use pelican_q.Message.{Message}
use pelican_q.Platform.Memory.{memory}
use pelican_q.Engine.Keys.{encode_key}
use pelican_q.Engine.Effect.{calm}
use pelican_q.Engine.Effect.Refine.{enqueue_by_priority}
use pelican_q.Engine.Effect.Refine.Run.{
  Call, submit, fetch, submitted, fetched, promised, run_promised, run_calls, Implements,
  run_calls-run_promised,
}
use pelican_q.Engine.Effect.Refine.Drain.{
  submits, fetches, accepted, delivered, every_message_delivered,
}
use pelican_q.Tests.{jobs, job, stocked_db, managed, stocked_db-IsDeclared}

-- It overtakes the job that waits; its priority counts as 9.
abbrev urgent_job : Message
urgent_job = record job { id = 78; priority = 200 }

abbrev urgent_bytes : Bytes
urgent_bytes = 78 ∷ 1000 ∷ 0 ∷ 200 ∷ 0 ∷ 0 ∷ codes "resize"

abbrev calls : List Call
calls = submit urgent_job ∷ fetch ∷ fetch ∷ fetch ∷ []

run_promised_test :
    run_promised calls (job ∷ [])
    ≡ (submitted 78 ∷ fetched (some urgent_job) ∷ fetched (some job) ∷ fetched none ∷ [], [])
unfolding run_promised promised enqueue_by_priority
run_promised_test = refl

stocked_job : Implements ⦃p = memory⦄ jobs (job ∷ []) (managed stocked_db)
unfolding same put encode_key
stocked_job = (stocked_db-IsDeclared, ((0, refl, omega arith, refl), tt))

run_calls-run_promised_example :
    let r = run_calls ⦃p = memory⦄ jobs calls (calm (managed stocked_db)) in
    let s = run_promised calls (job ∷ []) in (r.0 ≡ s.0) × Implements ⦃p = memory⦄ jobs s.1 r.1
unfolding same put encode_key wrapping_add
run_calls-run_promised_example =
    run_calls-run_promised ⦃p = memory⦄ jobs calls (job ∷ []) (managed stocked_db) refl stocked_job
      ((refl, refl, omega arith, urgent_bytes, refl, omega arith), (tt, (tt, (tt, tt))))

every_message_delivered_example :
    let r =
      run_calls ⦃p = memory⦄ jobs
        (submits (urgent_job ∷ []) ++ fetches 2)
        (calm (managed stocked_db)) in
    (ys : List Message) × Perm ys (urgent_job ∷ job ∷ [])
    × (r.0 ≡ accepted (urgent_job ∷ []) ++ delivered ys)
    × Implements ⦃p = memory⦄ jobs [] r.1
unfolding same put encode_key wrapping_add submits fetches
every_message_delivered_example =
    every_message_delivered ⦃p = memory⦄ jobs (urgent_job ∷ []) (job ∷ []) (managed stocked_db) refl
      stocked_job ((refl, refl, omega arith, urgent_bytes, refl, omega arith), (tt, (tt, tt)))
