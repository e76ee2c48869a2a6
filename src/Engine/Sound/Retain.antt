-- ===== src/Engine/Sound/Retain.antt =====
-- `apply_retention` keeps the invariant of the queue.
use pelican_q.Base.{
  ℕ, ◌+◌, sym, subst, Bool, true, false, [], ◌∷◌, Option, none, some, length, ltb, zero, suc,
  Bool-cases, inl, inr,
}
use pelican_q.Bytes.{Bytes, same}
use pelican_q.Tree.{Tree, without}
use pelican_q.Platform.{Platform}
use pelican_q.Exec.{Manager, ◌>>=◌, ◌>>◌, pure}
use pelican_q.Exec.Ensures.{
  Ensures, Settles, next, from_less, pure-Ensures, if-Ensures, encoded-Ensures, gets-Ensures,
  check-Ensures, now_ms-Ensures, set_bytes-Ensures, update_db-Ensures, open_then,
}
use pelican_q.Engine.Calls.{scan}
use pelican_q.Engine.Recover.{remove_each}
use pelican_q.Engine.Retain.{
  collect_old, remove_old, collect_first, remove_first, remove_excess, recount_if, retain_by,
  apply_retention,
}
use pelican_q.Engine.View.{View, view}
use pelican_q.Engine.View.Writes.{view-remove_main}
use pelican_q.Engine.Sound.{IsSound, MainKey, NoClash}
use pelican_q.Engine.Sound.Trees.{All-without}
use pelican_q.Engine.Sound.Recount.{Any, recalculate_bytes-Ensures}
use pelican_q.Engine.Sound.Calls.{SoundAt, expect_queue-Ensures, read_policy-Ensures}

NoClash-without_main : (k : Bytes) (f t : Tree) → NoClash f t → NoClash f (without k t)
unfolding without
NoClash-without_main k f [] c = tt
NoClash-without_main k f ((j, w) ∷ t) c = elim (Bool-cases (same j k)) [
  | inl e ↦ rw e c.2
  | inr e ↦ rw e (c.0, All-without _ k t c.1, NoClash-without_main k f t c.2)
]

IsSound-discard :
    (v : View) (k : Bytes) → IsSound v → IsSound (record v { main = without k v.main })
IsSound-discard v k s = record {
  main = All-without (MainKey v.bound) k v.main s.main;
  inflight = s.inflight;
  dead = s.dead;
  scheduled = s.scheduled;
  dedup = s.dedup;
  fresh = elim s.fresh [ inl e ↦ inl e | inr c ↦ inr (NoClash-without_main k v.inflight v.main c) ];
}

module _ ⦃p : Platform⦄ (q : Bytes) where
  open p use {Db, entries, insert, remove}

  remove_each-Ensures : (es : Tree) → Ensures (SoundAt q) (λ d. Unit {0}) (remove_each q es) Any
  unfolding remove_each
  remove_each-Ensures [] = pure-Ensures Any tt (λ d i x. tt)
  remove_each-Ensures ((k, v) ∷ es) =
      next
        (next check-Ensures (λ _.
          update_db-Ensures (λ d. Unit {0}) _
            (λ d i x.
              (subst IsSound (sym (view-remove_main q k d)) (IsSound-discard (view q d) k i), tt))))
        (λ _. remove_each-Ensures es)

  collect_old-Ensures :
      (now max_age_ms : ℕ) (es : Tree)
      → Ensures (SoundAt q) (λ d. Unit {0}) (collect_old now max_age_ms es) Any
  unfolding collect_old
  collect_old-Ensures now max_age_ms [] = pure-Ensures Any [] (λ d i x. tt)
  collect_old-Ensures now max_age_ms ((k, v) ∷ es) = next check-Ensures (λ _.
      next (encoded-Ensures _) (λ m.
        next (from_less (λ d i x. tt) (collect_old-Ensures now max_age_ms es))
          (λ rest. pure-Ensures Any _ (λ d i x. tt))))

  remove_old-Ensures :
      (max_age_secs : Option ℕ)
      → Ensures (SoundAt q) (λ d. Unit {0}) (remove_old q max_age_secs) Any
  unfolding remove_old scan
  remove_old-Ensures none = pure-Ensures Any 0 (λ d i x. tt)
  remove_old-Ensures (some max_age_secs) = next now_ms-Ensures (λ now.
      next (gets-Ensures (entries q)) (λ es.
        next (from_less (λ d i x. tt) (collect_old-Ensures now _ es))
          (λ old. next (remove_each-Ensures old) (λ _. pure-Ensures Any _ (λ d i x. tt)))))

  collect_first-Ensures :
      (n : ℕ) (es : Tree) → Ensures (SoundAt q) (λ d. Unit {0}) (collect_first n es) Any
  unfolding collect_first
  collect_first-Ensures zero es = pure-Ensures Any [] (λ d i x. tt)
  collect_first-Ensures (suc n) [] = pure-Ensures Any [] (λ d i x. tt)
  collect_first-Ensures (suc n) ((k, v) ∷ es) =
      next check-Ensures
        (λ _. next (collect_first-Ensures n es) (λ rest. pure-Ensures Any _ (λ d i x. tt)))

  remove_first-Ensures :
      (excess : ℕ) (es : Tree) → Ensures (SoundAt q) (λ d. Unit {0}) (remove_first q excess es) Any
  unfolding remove_first
  remove_first-Ensures excess es =
      next (collect_first-Ensures excess es)
        (λ first. next (remove_each-Ensures first) (λ _. pure-Ensures Any _ (λ d i x. tt)))

  remove_excess-Ensures :
      (max_messages : Option ℕ)
      → Ensures (SoundAt q) (λ d. Unit {0}) (remove_excess q max_messages) Any
  unfolding remove_excess scan
  remove_excess-Ensures none = pure-Ensures Any 0 (λ d i x. tt)
  remove_excess-Ensures (some max_messages) = next (gets-Ensures (entries q)) (λ es.
      from_less (λ d i x. tt)
        (if-Ensures (ltb max_messages (length es)) _ _ (remove_first-Ensures _ es)
          (pure-Ensures Any 0 (λ d i x. tt))))

  recount_if-Ensures : (b : Bool) → Ensures (SoundAt q) (λ d. Unit {0}) (recount_if b) Any
  unfolding recount_if
  recount_if-Ensures false = pure-Ensures Any tt (λ d i x. tt)
  recount_if-Ensures true = next (recalculate_bytes-Ensures q) (λ total. set_bytes-Ensures total)

  passes-Ensures :
      (a n : Option ℕ)
      → Ensures
          (SoundAt q)
          (λ d. Unit {0})
          (remove_old q a >>= λ by_age. remove_excess q n >>= λ by_count.
            recount_if (ltb 0 (by_age + by_count)) >> pure (by_age + by_count))
          Any
  passes-Ensures a n = next (remove_old-Ensures a) (λ by_age.
      next (remove_excess-Ensures n)
        (λ by_count. next (recount_if-Ensures _) (λ _. pure-Ensures Any _ (λ d i x. tt))))

  retain_by-Ensures : (a n : Option ℕ) → Ensures (SoundAt q) (λ d. Unit {0}) (retain_by q a n) Any
  unfolding retain_by
  retain_by-Ensures none none = pure-Ensures Any 0 (λ d i x. tt)
  retain_by-Ensures none (some n) = open_then q _ (passes-Ensures none (some n))
  retain_by-Ensures (some a) n = open_then q _ (passes-Ensures (some a) n)

  apply-Ensures : Ensures (SoundAt q) (λ d. Unit {0}) (apply_retention q) Any
  unfolding apply_retention
  apply-Ensures =
      next (expect_queue-Ensures q q)
        (λ _. next (read_policy-Ensures q q) (λ policy. retain_by-Ensures _ _))

  -- `apply_retention` on a sound queue, whichever calls of sled fail: the queue stays sound, and
  -- the call returns or reports an error.
  pub apply_retention-IsSound :
      (w : Manager Db) → IsSound (view q w.db) → Settles (SoundAt q) (apply_retention q w)
  apply_retention-IsSound w i = apply-Ensures.at w i tt
