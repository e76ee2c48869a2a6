-- ===== src/Engine/Effect/Promotion.antt =====
-- What `promote_scheduled` moves.
use pelican_q.Base.{
  ℕ, suc, ◌+◌, ◌-◌, ◌≤◌, ◌≡◌, refl, sym, ap, subst, ◌∙◌, Bool, true, false, [], ◌∷◌, ◌++◌, arith,
  length, take, min, All, Bool-cases, inl, inr, if◌then◌else◌,
}
use pelican_q.Bytes.{Bytes, to_be_bytes, from_be_bytes}
use pelican_q.Bytes.RoundTrip.{u64_mod}
use pelican_q.Tree.{Tree, Entry, put, without, weight}
use pelican_q.Tree.Lookup.{without-first}
use pelican_q.Tree.Weight.{weight-put_new, length-put_new}
use pelican_q.Word.{signed_lt}
use pelican_q.Failure.{ok, done}
use pelican_q.Message.{Message}
use pelican_q.Platform.{Platform}
use pelican_q.Exec.{Manager, ◌>>=◌, pure, open_tree}
use pelican_q.Engine.Keys.{scheduled_tree_name, encode_key}
use pelican_q.Engine.Calls.{read_be64, scan}
use pelican_q.Engine.Promote.{collect_due, promote_each, promote_scheduled}
use pelican_q.Engine.View.{View, view}
use pelican_q.Engine.View.Writes.{view-insert_main, view-remove_scheduled, view-generate_id}
use pelican_q.Engine.Sound.{IsSound, DueKey}
use pelican_q.Engine.Sound.Calls.{SoundAt, generate_id-IsNew}
use pelican_q.Engine.Sound.Requeue.{enqueue-IsNew, unschedule-IsNew}
use pelican_q.Engine.Effect.{calm, IsDeclared}
use pelican_q.Engine.Effect.Balance.{stored_bytes, fresh_main}

-- The time that a scheduled key begins with has come.
abbrev pub due_of : ℕ → Bytes → Bool
due_of now k = if signed_lt now (from_be_bytes 0 (take 8 k)) then false else true

-- The entries of the scheduled tree before the first that is not due.
abbrev pub due_prefix : ℕ → Tree → Tree
due_prefix now [] = []
due_prefix now ((k, v) ∷ t) =
    let rest = due_prefix now t in if due_of now k then (k, v) ∷ rest else []

abbrev pub due_rest : ℕ → Tree → Tree
due_rest now [] = []
due_rest now ((k, v) ∷ t) = let rest = due_rest now t in if due_of now k then rest else (k, v) ∷ t

prefix-rest : (now : ℕ) (t : Tree) → t ≡ due_prefix now t ++ due_rest now t
prefix-rest now [] = refl
prefix-rest now ((k, v) ∷ t) = elim (Bool-cases (due_of now k)) [
  | inl e ↦ rw e (ap ((k, v) ∷◌) (prefix-rest now t))
  | inr e ↦ rw e refl
]

module _ ⦃p : Platform⦄ where
  open p use {Db, insert, remove, generate_id, deserialize_message}

  read_be64-due :
      (n : ℕ) (k v : Bytes) (w : Manager Db)
      → DueKey n (k, v)
      → read_be64 k w ≡ (ok (from_be_bytes 0 (take 8 k)), w)
  unfolding read_be64 to_be_bytes pure
  read_be64-due n k v w e = rw e.2 refl

  collect_due-calm :
      (n now : ℕ) (t : Tree) (w : Manager Db)
      → All (DueKey n) t
      → collect_due now t (calm w) ≡ (ok (due_prefix now t), calm w)
  unfolding collect_due ◌>>=◌
  collect_due-calm n now [] w a = refl
  collect_due-calm n now ((k, v) ∷ t) w a =
      elim (Bool-cases (signed_lt now (from_be_bytes 0 (take 8 k)))) [
        | inl e ↦ rw (read_be64-due n k v (calm w) a.0) (rw e refl)
        | inr e ↦
            rw (read_be64-due n k v (calm w) a.0) (rw e (rw (collect_due-calm n now t w a.1) refl))
      ]

  -- A main tree comes from another by storing the value of each entry in turn, under the priority
  -- of its message and an id of at least `n` that is above those of the entries before.
  abbrev pub Stores : ℕ → Tree → Tree → Tree → Type 0
  Stores n [] main main' = main' ≡ main
  Stores n ((k, v) ∷ es) main main' =
      (id : ℕ) × (m : Message) × (n ≤ id)
      × (deserialize_message v ≡ done m)
      × Stores (suc id) es (put (encode_key m.priority id) v main) main'

  Stores-mono :
      (n k : ℕ) (es main main' : Tree) → k ≤ n → Stores n es main main' → Stores k es main main'
  Stores-mono n k [] main main' h s = s
  Stores-mono n k ((j, v) ∷ es) main main' h (id, m, above, decodes, rest) =
      (id, m, omega arith, decodes, rest)

  -- The entries are stored in the main tree, and the rest of the scheduled tree is left.
  abbrev pub Moved : Tree → Tree → View → View → Type 0
  Moved es t v v' =
      Stores v.bound es v.main v'.main
      × (v'.scheduled ≡ t)
      × (length v'.main ≡ length v.main + length es)
      × (stored_bytes v' ≡ stored_bytes v)

  abbrev pub Decodes : Entry → Type 0
  Decodes e = (m : Message) × (deserialize_message e.1 ≡ done m)

module _ ⦃p : Platform⦄ (q : Bytes) where
  open p use {
    Db, entries, insert, remove, generate_id, issued, issued-le-generate_id, generate_id-lt-issued,
  }

  -- One entry of the scheduled tree goes to the main tree.
  abbrev step : ℕ → Bytes → Bytes → Db → Db
  step priority k v d =
      insert q (encode_key priority (generate_id d).0) v
        (remove (scheduled_tree_name q) k (generate_id d).1)

  abbrev promoted_db : (es : Tree) → All Decodes es → Db → Db
  promoted_db [] a d = d
  promoted_db ((k, v) ∷ es) a d = promoted_db es a.1 (step a.0.0.priority k v d)

  promote_each-calm :
      (es : Tree) (a : All Decodes es) (w : Manager Db)
      → promote_each (scheduled_tree_name q) q es (calm w)
        ≡ (ok (length es), record (calm w) { db = promoted_db es a w.db })
  unfolding promote_each ◌>>=◌
  promote_each-calm [] a w = refl
  promote_each-calm ((k, v) ∷ es) a w =
      rw a.0.1 (rw (promote_each-calm es a.1 (record w { db = step a.0.0.priority k v w.db })) refl)

  view-step :
      (priority : ℕ) (k v : Bytes) (t : Tree) (d : Db)
      → (view q d).scheduled ≡ (k, v) ∷ t
      → view q (step priority k v d) ≡ record (view q d) {
        main = put (encode_key priority (generate_id d).0) v (view q d).main;
        scheduled = t;
        bound = issued (generate_id d).1;
      }
  view-step priority k v t d e =
      let key = encode_key priority (generate_id d).0 in
      view-insert_main q key v (remove (scheduled_tree_name q) k (generate_id d).1)
      ∙ ap (λ (u : View). record u { main = put key v u.main })
          (view-remove_scheduled q k (generate_id d).1
            ∙ ap (λ (u : View). record u { scheduled = without k u.scheduled })
                (view-generate_id q d)
            ∙ ap
                (λ (s : Tree). record (view q d) {
                  scheduled = s;
                  bound = issued (generate_id d).1;
                })
                (without-first k v (view q d).scheduled t e))

  step-IsSound :
      (priority : ℕ) (k v : Bytes) (d : Db) → SoundAt q d → SoundAt q (step priority k v d)
  step-IsSound priority k v d i =
      enqueue-IsNew q priority (generate_id d).0 v
        (remove (scheduled_tree_name q) k (generate_id d).1)
        (unschedule-IsNew q (generate_id d).0 k (generate_id d).1
          (generate_id-IsNew q (generate_id d).0 d i refl).1)

  issued-promoted_db :
      (es : Tree) (a : All Decodes es) (t : Tree) (d : Db)
      → (view q d).scheduled ≡ es ++ t
      → issued d ≤ issued (promoted_db es a d)
  issued-promoted_db [] a t d e = omega arith
  issued-promoted_db ((k, v) ∷ es) a t d e =
      let next = view-step a.0.0.priority k v (es ++ t) d e in
      let grows = issued-le-generate_id d in
      let above = generate_id-lt-issued d in
      let bound : issued (step a.0.0.priority k v d) ≡ issued (generate_id d).1 =
        ap (λ (u : View). u.bound) next in
      let rest =
        issued-promoted_db es a.1 t (step a.0.0.priority k v d)
          (ap (λ (u : View). u.scheduled) next) in
      omega (arith, grows, above, bound, rest)

  promoted_db-Moved :
      (es : Tree) (a : All Decodes es) (t : Tree) (d : Db)
      → SoundAt q d
      → (view q d).scheduled ≡ es ++ t
      → issued (promoted_db es a d) ≤ u64_mod
      → Moved es t (view q d) (view q (promoted_db es a d))
  unfolding weight encode_key
  promoted_db-Moved [] a t d i e small = (refl, e, omega arith, refl)
  promoted_db-Moved ((k, v) ∷ es) a t d i e small =
      let priority = a.0.0.priority in
      let next = view-step priority k v (es ++ t) d e in
      let after = step priority k v d in
      let scheduled' = ap (λ (u : View). u.scheduled) next in
      let above = generate_id-lt-issued d in
      let bound : issued after ≡ issued (generate_id d).1 = ap (λ (u : View). u.bound) next in
      let grown = issued-promoted_db es a.1 t after scheduled' in
      let free = fresh_main q (9 - min priority 9) d i (omega (arith, above, bound, grown)) in
      let heavier = weight-put_new (encode_key priority (generate_id d).0) v (view q d).main free in
      let longer = length-put_new (encode_key priority (generate_id d).0) v (view q d).main free in
      let before : weight (view q d).scheduled ≡ length v + weight (es ++ t) = ap weight e in
      let stepped = ap stored_bytes next in
      let main_length = ap (λ (u : View). length u.main) next in
      let rest =
        promoted_db-Moved es a.1 t after (step-IsSound priority k v d i) scheduled' small in
      let stored : Stores (suc (generate_id d).0) es
          (put (encode_key priority (generate_id d).0) v (view q d).main)
          (view q (promoted_db es a.1 after)).main =
        subst
          (λ (main : Tree).
            Stores (suc (generate_id d).0) es main (view q (promoted_db es a.1 after)).main)
          (ap (λ (u : View). u.main) next)
          (Stores-mono (issued after) (suc (generate_id d).0) es _ _ (omega (arith, bound, above))
            rest.0) in
      (
        ((generate_id d).0, a.0.0, issued-le-generate_id d, a.0.1, stored),
        rest.1,
        omega (arith, rest.2, main_length, longer),
        omega (arith, rest.3, stepped, heavier, before),
      )

  -- On a declared sound queue, when no call of sled fails: `promote_scheduled` takes the entries
  -- of the scheduled tree before the first that is not due, which decode, and returns their number.
  -- It stores them in the main tree one after another, with their values as they were, each under
  -- the priority of its message and a new id above those before. The rest of the scheduled tree is
  -- left, the main tree is longer by that number, and the bytes of the queue and the byte count are
  -- as they were. The ids given out are below 2 ^ 64.
  pub promote_scheduled_moves :
      (w : Manager Db)
      → IsDeclared q w.db
      → IsSound (view q w.db)
      → All Decodes (due_prefix (w.clock w.reads) (view q w.db).scheduled)
      → issued (promote_scheduled q (calm w)).1.db ≤ u64_mod
      → let r = promote_scheduled q (calm w) in
        let due = due_prefix (w.clock w.reads) (view q w.db).scheduled in
        (r.0 ≡ ok (length due))
        × Moved due
            (due_rest (w.clock w.reads) (view q w.db).scheduled)
            (view q w.db)
            (view q r.1.db)
        × (r.1.current_bytes ≡ w.current_bytes)
  unfolding promote_scheduled scan open_tree ◌>>=◌
  promote_scheduled_moves w declared i decoded small =
      let now = w.clock w.reads in
      let scheduled = (view q w.db).scheduled in
      let due = due_prefix now scheduled in
      let later = record w { reads = suc w.reads } in
      let e : promote_scheduled q (calm w)
          ≡ (ok (length due), record (calm later) { db = promoted_db due decoded w.db }) =
        rw declared.1 (
          rw (collect_due-calm (issued w.db) now scheduled later i.scheduled)
            (promote_each-calm due decoded later)) in
      let moved =
        promoted_db-Moved due decoded (due_rest now scheduled) w.db i (prefix-rest now scheduled)
          (subst (λ x. issued x.1.db ≤ u64_mod) e small) in
      (
        ap (λ x. x.0) e,
        subst (λ x. Moved due (due_rest now scheduled) (view q w.db) (view q x.1.db)) (sym e) moved,
        ap (λ x. x.1.current_bytes) e,
      )
