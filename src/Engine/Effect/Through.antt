-- ===== src/Engine/Effect/Through.antt =====
-- A message that is published into an empty queue is the next one delivered.
use pelican_q.Base.{◌<◌, ◌≡◌, refl, sym, ap, ◌∙◌, false, [], none, some, length}
use pelican_q.Bytes.{Bytes, same}
use pelican_q.Bytes.RoundTrip.{u64_mod}
use pelican_q.Tree.{put}
use pelican_q.Word.{wrapping_add}
use pelican_q.Failure.{ok, done}
use pelican_q.Message.{Message}
use pelican_q.Platform.{Platform}
use pelican_q.Exec.{Manager, pure}
use pelican_q.Engine.Keys.{meta_queues_tree, encode_key}
use pelican_q.Engine.Publish.{stored, future_delivery, publish}
use pelican_q.Engine.Consume.{consume}
use pelican_q.Engine.View.{View}
use pelican_q.Engine.View.Writes.{view-insert_main}
use pelican_q.Engine.Effect.{calm, IsDeclared}
use pelican_q.Engine.Effect.Store.{Fits, stored_db, publish_at}
use pelican_q.Engine.Effect.Deliver.{consume_delivers}

module _ ⦃p : Platform⦄ (q : Bytes) where
  open p use {
    Db, entries, insert, generate_id, get-entries, entries-insert, entries-generate_id,
    serialize_message, message_round_trip,
  }

  pub IsDeclared-stored_db :
      (d : Db) (m : Message) (b : Bytes)
      → same q meta_queues_tree ≡ false
      → IsDeclared q d
      → IsDeclared q (stored_db q d m b none)
  IsDeclared-stored_db d m b other (v, h) = (
    v,
    simp (get-entries, entries-insert, entries-generate_id, other)
        (sym (get-entries meta_queues_tree q d) ∙ h),
  )

  entries-stored_db :
      (d : Db) (m : Message) (b : Bytes)
      → entries q d ≡ []
      → entries q (stored_db q d m b none) ≡ put (encode_key m.priority (generate_id d).0) b []
  entries-stored_db d m b empty =
      let key = encode_key m.priority (generate_id d).0 in
      ap (λ (u : View). u.main) (view-insert_main q key b (generate_id d).1)
      ∙ ap (put key b) (entries-generate_id q d ∙ empty)

  -- On a declared queue with an empty main tree that is not the tree of the queues, when no call of
  -- sled fails: a message without a key and a delivery time, which encodes, fits under the limit and
  -- gets an id below 2 ^ 64, is the one that `consume` returns after `publish`, with that id as its
  -- tag.
  pub consume-publish :
      (w : Manager Db) (m : Message) (b : Bytes)
      → IsDeclared q w.db
      → same q meta_queues_tree ≡ false
      → entries q w.db ≡ []
      → m.dedup_key ≡ none
      → m.deliver_at ≡ none
      → serialize_message m ≡ done b
      → Fits w.max_bytes w.current_bytes (length b)
      → (generate_id w.db).0 < u64_mod
      → let r = publish q m (calm w) in
        (r.0 ≡ ok (stored m.id)) × ((consume q r.1).0 ≡ ok (some ((generate_id w.db).0, m)))
  unfolding future_delivery pure put
  consume-publish w m b declared other empty keyless now encodes fits low =
      let r = publish_at q w m b none w.reads declared keyless encodes fits (λ d. rw now refl) in
      let after = record w {
        db = stored_db q w.db m b none;
        current_bytes = wrapping_add w.current_bytes (length b);
      } in
      let delivered =
        consume_delivers q after m.priority (generate_id w.db).0 b [] m
          (IsDeclared-stored_db w.db m b other declared) (entries-stored_db w.db m b empty) low
          (message_round_trip m b encodes) in
      (ap (λ x. x.0) r, ap (λ x. (consume q x.1).0) r ∙ delivered.0)
