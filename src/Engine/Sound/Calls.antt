-- ===== src/Engine/Sound/Calls.antt =====
-- The shared calls of the methods keep the invariant of a queue.
use pelican_q.Base.{ℕ, ◌≤◌, ◌<◌, ◌≡◌, sym, subst, arith}
use pelican_q.Bytes.{Bytes}
use pelican_q.Platform.{Platform}
use pelican_q.Exec.Ensures.{
  Ensures, next, weaken, pure-Ensures, gets-Ensures, check-Ensures, require-Ensures,
  update_db-Ensures,
}
use pelican_q.Engine.Calls.{contains_queue, expect_queue, read_policy, new_id, insert_into}
use pelican_q.Engine.View.{View, view}
use pelican_q.Engine.View.Writes.{view-generate_id}
use pelican_q.Engine.Sound.{IsSound}
use pelican_q.Engine.Sound.Writes.{IsSound-bound}

module _ ⦃p : Platform⦄ where
  open p use {Db, insert, generate_id, issued, issued-le-generate_id, generate_id-lt-issued}

  -- The invariant of queue `q` of a database.
  abbrev pub SoundAt : Bytes → Db → Type 0
  SoundAt q d = IsSound (view q d)

  -- The invariant, and `id` unknown to the queue.
  abbrev pub IsNew : Bytes → ℕ → Db → Type 0
  IsNew q id d = (m : ℕ) × IsSound (record (view q d) { bound = m }) × (m ≤ id) × (id < issued d)

module _ ⦃p : Platform⦄ (q : Bytes) where
  open p use {Db, generate_id, issued, issued-le-generate_id, generate_id-lt-issued}

  pub generate_id-IsNew :
      (id : ℕ) (d : Db)
      → SoundAt q d
      → id ≡ (generate_id d).0
      → SoundAt q (generate_id d).1 × IsNew q id (generate_id d).1
  generate_id-IsNew id d i e =
      let grows = issued-le-generate_id d in
      let above = generate_id-lt-issued d in
      let same_view = sym (view-generate_id q d) in
      (
        subst IsSound same_view (IsSound-bound (view q d) i _ (omega arith)),
        (
          issued d,
          subst (λ (v : View). IsSound (record v { bound = issued d })) same_view i,
          omega arith,
          omega arith,
        ),
      )

module _ ⦃p : Platform⦄ (q : Bytes) {X : p.Db → Type 0} where
  open p use {Db, insert, generate_id, issued, issued-le-generate_id, generate_id-lt-issued}

  pub contains_queue-Ensures : (n : Bytes) → Ensures (SoundAt q) X (contains_queue n) (λ a d. X d)
  unfolding contains_queue
  contains_queue-Ensures n =
      next check-Ensures
        (λ _. next (gets-Ensures _) (λ found. pure-Ensures (λ a d. X d) _ (λ d i x. x.1)))

  pub expect_queue-Ensures : (n : Bytes) → Ensures (SoundAt q) X (expect_queue n) (λ a d. X d)
  unfolding expect_queue
  expect_queue-Ensures n =
      next (contains_queue-Ensures n) (λ b. weaken (require-Ensures b _) (λ a d x. x.1))

  pub read_policy-Ensures : (n : Bytes) → Ensures (SoundAt q) X (read_policy n) (λ a d. X d)
  unfolding read_policy
  read_policy-Ensures n =
      next check-Ensures
        (λ _. next (gets-Ensures _) (λ found. pure-Ensures (λ a d. X d) _ (λ d i x. x.1)))

  pub new_id-Ensures : Ensures (SoundAt q) X new_id (λ id d. IsNew q id d)
  unfolding new_id
  new_id-Ensures = next check-Ensures (λ _. next (gets-Ensures (λ d. (generate_id d).0)) (λ id.
      next (update_db-Ensures (IsNew q id) _ (λ d i x. generate_id-IsNew q id d i x.0))
        (λ _. pure-Ensures (IsNew q) id (λ d i x. x))))

  pub insert_into-Ensures :
      (Y : p.Db → Type 0) (n k v : Bytes)
      → ((d : p.Db) → SoundAt q d → X d → SoundAt q (insert n k v d) × Y (insert n k v d))
      → Ensures (SoundAt q) X (insert_into n k v) (λ a d. Y d)
  unfolding insert_into
  insert_into-Ensures Y n k v h = next check-Ensures (λ _. update_db-Ensures Y (insert n k v) h)
