-- ===== src/Tests/Counting.antt =====
-- Witnesses of the theorems on the byte count and the limit of messages.
use pelican_q.Base.{◌+◌, ◌-◌, ◌≡◌, refl, [], ◌∷◌, length, drop, min, arith, inr}
use pelican_q.Bytes.{same, to_be_bytes}
use pelican_q.Tree.{lookup, put}
use pelican_q.Word.{wrapping_add}
use pelican_q.Failure.{ok}
use pelican_q.Platform.Memory.{MemoryDb, memory}
use pelican_q.Engine.Keys.{
  meta_retention_tree, inflight_tree_name, dlq_tree_name, scheduled_tree_name, dedup_tree_name,
}
use pelican_q.Engine.Calls.{policy_or_default}
use pelican_q.Engine.Publish.{publish}
use pelican_q.Engine.Nack.{attempted_again, nack}
use pelican_q.Engine.Retain.{apply_retention}
use pelican_q.Engine.View.{view}
use pelican_q.Engine.Sound.{IsSound}
use pelican_q.Engine.Effect.{calm}
use pelican_q.Engine.Effect.Balance.{stored_bytes, publish_balances, nack_balances}
use pelican_q.Engine.Effect.Trim.{apply_retention_trims}
use pelican_q.Base.{◌++◌}
use pelican_q.Bytes.{from_be_bytes}
use pelican_q.Word.{signed_lt}
use pelican_q.Exec.{◌>>=◌, open_tree}
use pelican_q.Engine.Promote.{promote_scheduled}
use pelican_q.Engine.Effect.Promotion.{due_prefix, due_rest, Moved, promote_scheduled_moves}
use pelican_q.Tests.{declared_db}
use pelican_q.Tests.{
  jobs, job, job_bytes, job_again_bytes, stocked_db, held_db, managed, stocked_db-IsDeclared,
  held_db-IsDeclared, stocked_db-IsSound,
}

held_db-IsSound : IsSound (view ⦃p = memory⦄ jobs held_db)
unfolding put same lookup inflight_tree_name dlq_tree_name scheduled_tree_name dedup_tree_name
held_db-IsSound = record {
  main = tt;
  inflight = ((0, refl, omega arith), tt);
  dead = tt;
  scheduled = tt;
  dedup = tt;
  fresh = inr tt;
}

publish_balances_example :
    let w = managed stocked_db in
    let r = publish ⦃p = memory⦄ jobs job (calm w) in
    stored_bytes (view ⦃p = memory⦄ jobs r.1.db) + 12
    ≡ stored_bytes (view ⦃p = memory⦄ jobs stocked_db) + r.1.current_bytes
unfolding wrapping_add
publish_balances_example =
    publish_balances ⦃p = memory⦄ jobs (managed stocked_db) job job_bytes stocked_db-IsDeclared
      stocked_db-IsSound (omega arith) refl refl refl (omega arith) (omega arith)

nack_balances_example :
    let w = managed held_db in
    let r = nack ⦃p = memory⦄ jobs 0 (calm w) in
    (stored_bytes (view ⦃p = memory⦄ jobs r.1.db) ≡ stored_bytes (view ⦃p = memory⦄ jobs held_db))
    × (r.1.current_bytes ≡ 12)
unfolding put lookup same inflight_tree_name to_be_bytes attempted_again
nack_balances_example =
    nack_balances ⦃p = memory⦄ jobs (managed held_db) 0 job_bytes job_again_bytes job
      held_db-IsDeclared held_db-IsSound (omega arith) refl refl refl

-- A queue of two jobs that may hold one.
abbrev crowded : MemoryDb
crowded =
    memory.insert meta_retention_tree jobs (0 ∷ 2 ∷ 0 ∷ 0 ∷ [])
      (memory.insert jobs (4 ∷ to_be_bytes 1) job_bytes stocked_db)

apply_retention_trims_example :
    let r = apply_retention ⦃p = memory⦄ jobs (calm (managed crowded)) in
    let excess = length (view ⦃p = memory⦄ jobs crowded).main - 1 in
    (r.0 ≡ ok excess)
    × (view ⦃p = memory⦄ jobs r.1.db ≡ record (view ⦃p = memory⦄ jobs crowded) {
      main = drop excess (view ⦃p = memory⦄ jobs crowded).main;
    })
    × (length (view ⦃p = memory⦄ jobs r.1.db).main
        ≡ min (length (view ⦃p = memory⦄ jobs crowded).main) 1)
unfolding put lookup same policy_or_default
apply_retention_trims_example =
    apply_retention_trims ⦃p = memory⦄ jobs (managed crowded) 1 ([], refl) refl refl

-- A job that is due at 4000, a second before the clock.
abbrev due_db : MemoryDb
due_db =
    record (memory.insert (scheduled_tree_name jobs) (to_be_bytes 4000 ++ to_be_bytes 0) job_bytes
      declared_db) { next = 1 }

due_db-IsSound : IsSound (view ⦃p = memory⦄ jobs due_db)
unfolding put same lookup inflight_tree_name dlq_tree_name scheduled_tree_name dedup_tree_name
due_db-IsSound = record {
  main = tt;
  inflight = tt;
  dead = tt;
  scheduled = ((4000, 0, refl, omega arith), tt);
  dedup = tt;
  fresh = inr tt;
}

promote_scheduled_moves_example :
    let w = managed due_db in
    let r = promote_scheduled ⦃p = memory⦄ jobs (calm w) in
    let due = due_prefix 5000 (view ⦃p = memory⦄ jobs due_db).scheduled in
    (r.0 ≡ ok (length due))
    × Moved ⦃p = memory⦄ due
        (due_rest 5000 (view ⦃p = memory⦄ jobs due_db).scheduled)
        (view ⦃p = memory⦄ jobs due_db)
        (view ⦃p = memory⦄ jobs r.1.db)
    × (r.1.current_bytes ≡ 12)
unfolding put lookup same scheduled_tree_name inflight_tree_name to_be_bytes from_be_bytes signed_lt
    promote_scheduled open_tree ◌>>=◌
promote_scheduled_moves_example =
    promote_scheduled_moves ⦃p = memory⦄ jobs (managed due_db) ([], refl) due_db-IsSound
      ((job, refl), tt) (omega arith)
