-- ===== src/Engine/Effect/Trim.antt =====
-- What `apply_retention` removes when a queue has a limit of messages.
use pelican_q.Base.{
  ℕ, zero, suc, ◌+◌, ◌-◌, ◌≤◌, ◌≡◌, refl, ap, ◌∙◌, true, false, Bool, List, [], ◌∷◌, none, some,
  arith, length, take, drop, ltb, map, min, Bool-cases, inl, inr,
}
use pelican_q.Bytes.{Bytes}
use pelican_q.Tree.{Tree}
use pelican_q.Tree.Lookup.{without-first}
use pelican_q.Word.{wrapping_add}
use pelican_q.Failure.{ok}
use pelican_q.Platform.{Platform}
use pelican_q.Exec.{Manager, ◌>>=◌, open_tree}
use pelican_q.Engine.Keys.{
  meta_queues_tree, inflight_tree_name, dlq_tree_name, scheduled_tree_name, dedup_tree_name,
}
use pelican_q.Engine.Calls.{scan, collect_ok}
use pelican_q.Engine.Declare.{list_queues}
use pelican_q.Engine.Recover.{sum_entries, sum_tree, sum_queues, recalculate_bytes, remove_each}
use pelican_q.Engine.Retain.{
  remove_old, collect_first, remove_first, remove_excess, recount_if, retain_by, apply_retention,
}
use pelican_q.Engine.View.{View, view}
use pelican_q.Engine.View.Writes.{view-remove_main}
use pelican_q.Engine.Effect.{calm, IsDeclared}
use pelican_q.Engine.Effect.Store.{policy_of}

length-take : {A : Type 0} (k : ℕ) (xs : List A) → k ≤ length xs → length (take k xs) ≡ k
length-take zero xs h = refl
length-take (suc k) [] h = absurd (omega (arith, h))
length-take (suc k) (x ∷ xs) h = ap suc (length-take k xs (omega (arith, h)))

length-drop : {A : Type 0} (k : ℕ) (xs : List A) → length (drop k xs) ≡ length xs - k
length-drop zero xs = omega arith
length-drop (suc k) [] = omega arith
length-drop (suc k) (x ∷ xs) = length-drop k xs ∙ omega arith

module _ ⦃p : Platform⦄ where
  open p use {Db, entries}

  sum_entries-calm :
      (es : Tree) (total : ℕ) (w : Manager Db)
      → (n : ℕ) × (sum_entries total es (calm w) ≡ (ok n, calm w))
  unfolding sum_entries ◌>>=◌
  sum_entries-calm [] total w = (total, refl)
  sum_entries-calm ((k, v) ∷ es) total w = sum_entries-calm es (wrapping_add total (length v)) w

  sum_tree-calm :
      (n : Bytes) (total : ℕ) (w : Manager Db)
      → (m : ℕ) × (sum_tree n total (calm w) ≡ (ok m, calm w))
  unfolding sum_tree scan open_tree ◌>>=◌
  sum_tree-calm n total w = sum_entries-calm (entries n w.db) total w

  sum_queues-calm :
      (names : List Bytes) (total : ℕ) (w : Manager Db)
      → (m : ℕ) × (sum_queues total names (calm w) ≡ (ok m, calm w))
  unfolding sum_queues ◌>>=◌
  sum_queues-calm [] total w = (total, refl)
  sum_queues-calm (name ∷ names) total w =
      let main = sum_tree-calm name total w in
      let inflight = sum_tree-calm (inflight_tree_name name) main.0 w in
      let dead = sum_tree-calm (dlq_tree_name name) inflight.0 w in
      let scheduled = sum_tree-calm (scheduled_tree_name name) dead.0 w in
      let dedup = sum_tree-calm (dedup_tree_name name) scheduled.0 w in
      let rest = sum_queues-calm names dedup.0 w in
      (rest.0, rw main.1 (rw inflight.1 (rw dead.1 (rw scheduled.1 (rw dedup.1 rest.1)))))

  collect_ok-calm : (es : Tree) (w : Manager Db) → collect_ok es (calm w) ≡ (ok es, calm w)
  unfolding collect_ok ◌>>=◌
  collect_ok-calm [] w = refl
  collect_ok-calm (e ∷ es) w = rw (collect_ok-calm es w) refl

  recalculate_bytes-calm :
      (w : Manager Db) → (m : ℕ) × (recalculate_bytes (calm w) ≡ (ok m, calm w))
  unfolding recalculate_bytes list_queues scan ◌>>=◌
  recalculate_bytes-calm w =
      let total = sum_queues-calm (map (λ e. e.0) (entries meta_queues_tree w.db)) 0 w in
      (total.0, rw (collect_ok-calm (entries meta_queues_tree w.db) w) total.1)

  collect_first-calm :
      (n : ℕ) (es : Tree) (w : Manager Db) → collect_first n es (calm w) ≡ (ok (take n es), calm w)
  unfolding collect_first ◌>>=◌
  collect_first-calm zero es w = refl
  collect_first-calm (suc n) [] w = refl
  collect_first-calm (suc n) (e ∷ es) w = rw (collect_first-calm n es w) refl

module _ ⦃p : Platform⦄ (q : Bytes) where
  open p use {Db, entries, remove}

  -- The database without some entries of the main tree.
  abbrev trimmed_db : Tree → Db → Db
  trimmed_db [] d = d
  trimmed_db ((k, v) ∷ es) d = trimmed_db es (remove q k d)

  remove_each-calm :
      (es : Tree) (w : Manager Db)
      → remove_each q es (calm w) ≡ (ok tt, record (calm w) { db = trimmed_db es w.db })
  unfolding remove_each ◌>>=◌
  remove_each-calm [] w = refl
  remove_each-calm ((k, v) ∷ es) w = remove_each-calm es (record w { db = remove q k w.db })

  view-trimmed_db :
      (n : ℕ) (t : Tree) (d : Db)
      → entries q d ≡ t
      → view q (trimmed_db (take n t) d) ≡ record (view q d) { main = drop n t }
  view-trimmed_db zero t d e = ap (λ (s : Tree). record (view q d) { main = s }) e
  view-trimmed_db (suc n) [] d e = ap (λ (s : Tree). record (view q d) { main = s }) e
  view-trimmed_db (suc n) ((k, v) ∷ t) d e =
      let shorter : view q (remove q k d) ≡ record (view q d) { main = t } =
        view-remove_main q k d
        ∙ ap (λ (s : Tree). record (view q d) { main = s }) (without-first k v (entries q d) t e) in
      view-trimmed_db n t (remove q k d) (ap (λ (u : View). u.main) shorter)
      ∙ ap (λ (u : View). record u { main = drop n t }) shorter

  trim :
      (w : Manager Db) (excess : ℕ)
      → remove_first q excess (entries q w.db) (calm w) ≡ (
        ok (length (take excess (entries q w.db))),
        record (calm w) { db = trimmed_db (take excess (entries q w.db)) w.db },
      )
  unfolding remove_first ◌>>=◌
  trim w excess =
      rw (collect_first-calm excess (entries q w.db) w)
        (rw (remove_each-calm (take excess (entries q w.db)) w) refl)

  remove_excess-calm :
      (w : Manager Db) (n : ℕ)
      → let excess = length (entries q w.db) - n in
        remove_excess q (some n) (calm w) ≡ (
          ok (length (take excess (entries q w.db))),
          record (calm w) { db = trimmed_db (take excess (entries q w.db)) w.db },
        )
  unfolding remove_excess scan ◌>>=◌
  remove_excess-calm w n = elim (Bool-cases (ltb n (length (entries q w.db)))) [
    | inl e ↦ rw e (trim w (length (entries q w.db) - n))
    | inr e ↦
        let none_over : length (entries q w.db) - n ≡ 0 = ground arith in rw (e, none_over) refl
  ]

  recount_if-calm :
      (b : Bool) (w : Manager Db)
      → (m : ℕ) × (recount_if b (calm w) ≡ (ok tt, record (calm w) { current_bytes = m }))
  unfolding recount_if ◌>>=◌
  recount_if-calm false w = (w.current_bytes, refl)
  recount_if-calm true w = let total = recalculate_bytes-calm w in (total.0, rw total.1 refl)

  retain_by-calm :
      (w : Manager Db) (n : ℕ)
      → let first = take (length (entries q w.db) - n) (entries q w.db) in
        (m : ℕ) × (retain_by q none (some n) (calm w) ≡ (
          ok (0 + length first),
          record (calm w) { db = trimmed_db first w.db; current_bytes = m },
        ))
  unfolding retain_by remove_old open_tree ◌>>=◌
  retain_by-calm w n =
      let first = take (length (entries q w.db) - n) (entries q w.db) in
      let recounted =
        recount_if-calm (ltb 0 (0 + length first)) (record w { db = trimmed_db first w.db }) in
      (recounted.0, rw (remove_excess-calm w n) (rw recounted.1 refl))

  -- On a declared queue with a limit of messages and none of age, when no call of sled fails:
  -- `apply_retention` removes the first entries of the main tree until no more than the limit are
  -- left, returns how many it removed, and leaves the other trees of the queue as they were.
  pub apply_retention_trims :
      (w : Manager Db) (n : ℕ)
      → IsDeclared q w.db
      → (policy_of q w.db).max_age_secs ≡ none
      → (policy_of q w.db).max_messages ≡ some n
      → let r = apply_retention q (calm w) in
        let excess = length (view q w.db).main - n in
        (r.0 ≡ ok excess)
        × (view q r.1.db ≡ record (view q w.db) { main = drop excess (view q w.db).main })
        × (length (view q r.1.db).main ≡ min (length (view q w.db).main) n)
  unfolding apply_retention ◌>>=◌
  apply_retention_trims w n declared ageless limit =
      let excess = length (entries q w.db) - n in
      let retained = retain_by-calm w n in
      let e : apply_retention q (calm w) ≡ (
        ok (0 + length (take excess (entries q w.db))),
        record (calm w) {
          db = trimmed_db (take excess (entries q w.db)) w.db;
          current_bytes = retained.0;
        },
      ) =
        rw declared.1 (rw (ageless, limit) retained.1) in
      let viewed = view-trimmed_db excess (entries q w.db) w.db refl in
      let counted : 0 + length (take excess (entries q w.db)) ≡ excess =
        omega (arith, length-take excess (entries q w.db) (omega arith)) in
      (
        ap (λ x. x.0) e ∙ ap ok counted,
        ap (λ x. view q x.1.db) e ∙ viewed,
        ap (λ x. length (view q x.1.db).main) e
            ∙ ap (λ (u : View). length u.main) viewed
            ∙ length-drop excess (entries q w.db)
            ∙ ground arith,
      )
