-- ===== src/Engine/Effect/Refine/Run.antt =====
-- Runs of `publish` and `consume` against the abstract queue.
use pelican_q.Base.{
  ℕ, ◌-◌, ◌<◌, ◌≡◌, refl, sym, ap, subst, ◌∙◌, false, List, [], ◌∷◌, Option, none, some, length,
  min,
}
use pelican_q.Bytes.{Bytes, same, to_be_bytes}
use pelican_q.Bytes.RoundTrip.{u64_mod}
use pelican_q.Tree.{Tree, put}
use pelican_q.Word.{wrapping_add}
use pelican_q.Failure.{Outcome, ok, err, panic, diverges, done}
use pelican_q.Message.{Message}
use pelican_q.Platform.{Platform}
use pelican_q.Exec.{Manager, pure}
use pelican_q.Engine.Keys.{meta_queues_tree, inflight_tree_name, encode_key}
use pelican_q.Engine.Publish.{PublishOutcome, stored, deduplicated, future_delivery, publish}
use pelican_q.Engine.Consume.{Delivery, consume}
use pelican_q.Engine.View.{View}
use pelican_q.Engine.View.Writes.{view-insert_main}
use pelican_q.Engine.Effect.{calm, IsDeclared}
use pelican_q.Engine.Effect.Store.{Fits, stored_db, publish_at}
use pelican_q.Engine.Effect.Deliver.{consume-first, consume-first_view, consume_empty}
use pelican_q.Engine.Effect.Through.{IsDeclared-stored_db}
use pelican_q.Engine.Effect.Refine.{Waiting, enqueue_by_priority, Represents, put-Represents}

pub data Call : Type 0 where
  submit : Message → Call
  fetch : Call

-- What a client sees of an answer: tags are left out.
pub data Reply : Type 0 where
  submitted : ℕ → Reply
  fetched : Option Message → Reply
  refused : Reply

abbrev reply_of_publish : Outcome PublishOutcome → Reply
reply_of_publish (ok (stored id)) = submitted id
reply_of_publish (ok deduplicated) = refused
reply_of_publish (err e) = refused
reply_of_publish panic = refused
reply_of_publish diverges = refused

abbrev reply_of_consume : Outcome (Option Delivery) → Reply
reply_of_consume (ok none) = fetched none
reply_of_consume (ok (some (tag, m))) = fetched (some m)
reply_of_consume (err e) = refused
reply_of_consume panic = refused
reply_of_consume diverges = refused

-- The abstract queue.
unfoldable pub promised : Call → Waiting → Reply × Waiting
promised (submit m) ms = (submitted m.id, enqueue_by_priority m ms)
promised fetch [] = (fetched none, [])
promised fetch (m ∷ ms) = (fetched (some m), ms)

unfoldable pub run_promised : List Call → Waiting → List Reply × Waiting
run_promised [] ms = ([], ms)
run_promised (c ∷ cs) ms =
    let rest = run_promised cs (promised c ms).1 in ((promised c ms).0 ∷ rest.0, rest.1)

module _ ⦃p : Platform⦄ (q : Bytes) where
  open p use {
    Db, entries, insert, remove, issued, generate_id, get-entries, entries-insert, entries-remove,
    entries-generate_id, issued-insert, issued-remove, issued-le-generate_id, generate_id-lt-issued,
    serialize_message, message_round_trip,
  }

  unfoldable pub perform : Call → Manager Db → Reply × Manager Db
  perform (submit m) w = let r = publish q m w in (reply_of_publish r.0, r.1)
  perform fetch w = let r = consume q w in (reply_of_consume r.0, r.1)

  unfoldable pub run_calls : List Call → Manager Db → List Reply × Manager Db
  run_calls [] w = ([], w)
  run_calls (c ∷ cs) w =
      let rest = run_calls cs (perform c w).1 in ((perform c w).0 ∷ rest.0, rest.1)

  -- A message without a key and a delivery time, which encodes, fits and gets an id below 2 ^ 64.
  abbrev pub Admits : Call → Manager Db → Type 0
  Admits (submit m) w =
      (m.dedup_key ≡ none)
      × (m.deliver_at ≡ none)
      × ((generate_id w.db).0 < u64_mod)
      × (b : Bytes) × (serialize_message m ≡ done b)
      × Fits w.max_bytes w.current_bytes (length b)
  Admits fetch w = Unit

  abbrev pub AdmitsAll : List Call → Manager Db → Type 0
  AdmitsAll [] w = Unit
  AdmitsAll (c ∷ cs) w = Admits c w × AdmitsAll cs (perform c w).1

  abbrev pub Implements : Waiting → Manager Db → Type 0
  Implements ms w = IsDeclared q w.db × Represents (issued w.db) ms (entries q w.db)

  abbrev Simulates : Call → Waiting → Manager Db → Type 0
  Simulates c ms w =
      (after : Manager Db) × (perform c (calm w) ≡ ((promised c ms).0, calm after))
      × Implements (promised c ms).1 after

  submit-Simulates :
      (m : Message) (ms : Waiting) (w : Manager Db)
      → same q meta_queues_tree ≡ false
      → Implements ms w
      → Admits (submit m) w
      → Simulates (submit m) ms w
  unfolding perform promised future_delivery pure
  submit-Simulates m ms w other (declared, holds) (keyless, now, low, b, encodes, fits) =
      let r = publish_at q w m b none w.reads declared keyless encodes fits (λ d. rw now refl) in
      let id = (generate_id w.db).0 in
      let after = record w {
        db = stored_db q w.db m b none;
        current_bytes = wrapping_add w.current_bytes (length b);
      } in
      let tree : entries q after.db ≡ put (encode_key m.priority id) b (entries q w.db) =
        ap (λ (u : View). u.main) (view-insert_main q _ b (generate_id w.db).1)
        ∙ ap (put (encode_key m.priority id) b) (entries-generate_id q w.db) in
      let count : issued after.db ≡ issued (generate_id w.db).1 = issued-insert q _ b _ in
      (
        after,
        ap (λ x. (reply_of_publish x.0, x.1)) r,
        (
          IsDeclared-stored_db q w.db m b other declared,
          rw (tree, count)
              (put-Represents (issued w.db) (issued (generate_id w.db).1) id m b ms (entries q w.db)
                (issued-le-generate_id w.db) (generate_id-lt-issued w.db) low
                (message_round_trip m b encodes) holds),
        ),
      )

  -- The database after the first message is moved in flight under a tag.
  abbrev moved_db : ℕ → Bytes → Bytes → Db → Db
  moved_db tag key v d = insert (inflight_tree_name q) (to_be_bytes tag) v (remove q key d)

  IsDeclared-moved_db :
      (tag : ℕ) (key v : Bytes) (d : Db)
      → same q meta_queues_tree ≡ false
      → IsDeclared q d
      → IsDeclared q (moved_db tag key v d)
  unfolding same inflight_tree_name
  IsDeclared-moved_db tag key v d other (x, h) = (
    x,
    simp (get-entries, entries-insert, entries-remove, other)
        (sym (get-entries meta_queues_tree q d) ∙ h),
  )

  fetch_first :
      (m : Message) (ms : Waiting) (w : Manager Db) (k v : Bytes) (t : Tree)
      → same q meta_queues_tree ≡ false
      → IsDeclared q w.db
      → Represents (issued w.db) (m ∷ ms) ((k, v) ∷ t)
      → entries q w.db ≡ (k, v) ∷ t
      → Simulates fetch (m ∷ ms) w
  unfolding perform promised encode_key
  fetch_first m ms w k v t other declared ((i, key, below, decodes), holds) e =
      let b = 9 - min m.priority 9 in
      let first = e ∙ ap (λ (x : Bytes). (x, v) ∷ t) key in
      let r = consume-first q w b i v t m declared first decodes in
      let after = record w { db = moved_db i (b ∷ to_be_bytes i) v w.db } in
      let tree : entries q after.db ≡ t =
        ap (λ (u : View). u.main) (consume-first_view q w.db b i v t first) in
      let count : issued after.db ≡ issued w.db =
        issued-insert (inflight_tree_name q) _ v _ ∙ issued-remove q _ w.db in
      (
        after,
        ap (λ x. (reply_of_consume x.0, x.1)) r,
        (IsDeclared-moved_db i (b ∷ to_be_bytes i) v w.db other declared, rw (tree, count) holds),
      )

  fetch_at :
      (ms : Waiting) (w : Manager Db) (t : Tree)
      → same q meta_queues_tree ≡ false
      → IsDeclared q w.db
      → Represents (issued w.db) ms t
      → entries q w.db ≡ t
      → Simulates fetch ms w
  unfolding perform promised
  fetch_at [] w [] other declared holds e =
      (w, ap (λ x. (reply_of_consume x.0, x.1)) (consume_empty q w declared e), (declared, rw e tt))
  fetch_at [] w (x ∷ t) other declared holds e = absurd holds
  fetch_at (m ∷ ms) w [] other declared holds e = absurd holds
  fetch_at (m ∷ ms) w ((k, v) ∷ t) other declared holds e =
      fetch_first m ms w k v t other declared holds e

  perform-Simulates :
      (c : Call) (ms : Waiting) (w : Manager Db)
      → same q meta_queues_tree ≡ false
      → Implements ms w
      → Admits c (calm w)
      → Simulates c ms w
  perform-Simulates (submit m) ms w other h a = submit-Simulates m ms w other h a
  perform-Simulates fetch ms w other h a = fetch_at ms w (entries q w.db) other h.0 h.1 refl

  -- On a declared queue that is not the tree of the queues, whose main tree holds the messages of
  -- an abstract queue in its order, under ids given out before, when no call of sled fails: any
  -- sequence of `publish` and `consume` gives the replies of the abstract queue, tags left out,
  -- and the main tree holds its messages again. There, `publish` puts a message behind all of its
  -- priority or a higher one, 9 standing for all above it, and `consume` takes the first. Each
  -- published message has no key and no delivery time, encodes, fits under the limit and gets an
  -- id below 2 ^ 64.
  pub run_calls-run_promised :
      (cs : List Call) (ms : Waiting) (w : Manager Db)
      → same q meta_queues_tree ≡ false
      → Implements ms w
      → AdmitsAll cs (calm w)
      → let r = run_calls cs (calm w) in
        let s = run_promised cs ms in (r.0 ≡ s.0) × Implements s.1 r.1
  unfolding run_calls run_promised
  run_calls-run_promised [] ms w other h a = (refl, h)
  run_calls-run_promised (c ∷ cs) ms w other h a =
      let (after, step, next) = perform-Simulates c ms w other h a.0 in
      let rest =
        run_calls-run_promised cs (promised c ms).1 after other next
          (subst (λ x. AdmitsAll cs x.1) step a.1) in
      rw step (ap (λ (rs : List Reply). (promised c ms).0 ∷ rs) rest.0, rest.1)
