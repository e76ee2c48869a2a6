-- ===== src/Engine/Effect/Store/Duplicates.antt =====
-- What `publish` does with the key of a message: a second message with that key is not stored.
use pelican_q.Base.{
  ℕ, suc, ◌*◌, ◌+◌, ◌≤◌, ◌<◌, ◌≡◌, inl, inr, refl, sym, ap, ◌∙◌, true, false, Option, none, some,
  arith, length, take, ltb, Bool-cases,
}
use pelican_q.Bytes.{Bytes, same, to_be_bytes}
use pelican_q.Bytes.Order.{same_refl}
use pelican_q.Bytes.RoundTrip.{from_be_bytes-to_be_bytes, length-to_be_bytes}
use pelican_q.Tree.{lookup}
use pelican_q.Tree.Lookup.{lookup-put}
use pelican_q.Word.{i64_half, wrapping_add, wrapping_sub, wrapping_mul, signed_lt}
use pelican_q.Failure.{ok, done}
use pelican_q.Message.{Message}
use pelican_q.Platform.{Platform}
use pelican_q.Exec.{Manager, ◌>>=◌, open_tree}
use pelican_q.Engine.Keys.{meta_queues_tree, meta_retention_tree, dedup_tree_name}
use pelican_q.Engine.Keys.Names.{dedup-ne-meta, dedup-ne-retention}
use pelican_q.Engine.Calls.{read_be64, policy_or_default}
use pelican_q.Engine.Publish.{
  stored, deduplicated, is_recent, seen_within, is_duplicate, record_dedup_at, record_dedup_key,
  future_delivery, publish,
}
use pelican_q.Engine.View.{view}
use pelican_q.Engine.Effect.{calm, IsDeclared}
use pelican_q.Engine.Effect.Store.{Fits, policy_of, publish-passes, stored_db, store_message-stores}

-- The time that is read back, and the test that it is within the window.
recent_word :
    (now earlier window_secs : ℕ)
    → earlier ≤ now
    → now < i64_half
    → window_secs * 1000 < i64_half
    → now < earlier + window_secs * 1000
    → signed_lt (wrapping_sub now (wrapping_mul window_secs 1000)) earlier ≡ true
unfolding signed_lt wrapping_sub wrapping_mul
recent_word now earlier window_secs h k l r = ground arith

take-to_be_bytes : (n : ℕ) → take 8 (to_be_bytes n) ≡ to_be_bytes n
unfolding to_be_bytes
take-to_be_bytes n = refl

module _ ⦃p : Platform⦄ (q : Bytes) where
  open p use {
    Db, entries, get, insert, generate_id, get-entries, entries-insert, entries-generate_id,
    serialize_message,
  }

  is_recent-recorded :
      (w : Manager Db) (earlier window_secs : ℕ)
      → earlier ≤ w.clock w.reads
      → w.clock w.reads < i64_half
      → window_secs * 1000 < i64_half
      → w.clock w.reads < earlier + window_secs * 1000
      → is_recent window_secs (some (to_be_bytes earlier)) w
        ≡ (ok true, record w { reads = suc w.reads })
  unfolding is_recent read_be64 ◌>>=◌
  is_recent-recorded w earlier window_secs h k l r =
      rw
        (
          length-to_be_bytes earlier,
          take-to_be_bytes earlier,
          from_be_bytes-to_be_bytes earlier (ground arith),
        )
        (rw (recent_word (w.clock w.reads) earlier window_secs h k l r) refl)

  is_duplicate-recorded :
      (w : Manager Db) (window : Option ℕ) (held : Option Bytes) (key : Bytes)
      (earlier window_secs : ℕ)
      → window ≡ some window_secs
      → held ≡ some key
      → lookup key (view q w.db).dedup ≡ some (to_be_bytes earlier)
      → earlier ≤ w.clock w.reads
      → w.clock w.reads < i64_half
      → window_secs * 1000 < i64_half
      → w.clock w.reads < earlier + window_secs * 1000
      → is_duplicate q window held (calm w) ≡ (ok true, record (calm w) { reads = suc w.reads })
  unfolding is_duplicate seen_within open_tree ◌>>=◌
  is_duplicate-recorded w window held key earlier window_secs windowed keyed recorded h k l r =
      let positive : ltb 0 window_secs ≡ true = ground arith in
      let found : get (dedup_tree_name q) key w.db ≡ some (to_be_bytes earlier) =
        get-entries (dedup_tree_name q) key w.db ∙ recorded in
      rw (windowed, keyed)
        (rw positive (rw found (is_recent-recorded (calm w) earlier window_secs h k l r)))

  -- On a declared queue with a window, when no call of sled fails: a message whose key was
  -- recorded less than the window ago, as the clock now shows, is not stored. The caller is told
  -- so, and of the manager only the clock has been read. The time and the window, both in
  -- milliseconds, are below 2 ^ 63.
  pub publish_deduplicates :
      (w : Manager Db) (m : Message) (key : Bytes) (earlier window_secs : ℕ)
      → IsDeclared q w.db
      → (policy_of q w.db).dedup_window_secs ≡ some window_secs
      → m.dedup_key ≡ some key
      → lookup key (view q w.db).dedup ≡ some (to_be_bytes earlier)
      → earlier ≤ w.clock w.reads
      → w.clock w.reads < i64_half
      → window_secs * 1000 < i64_half
      → w.clock w.reads < earlier + window_secs * 1000
      → publish q m (calm w) ≡ (ok deduplicated, record (calm w) { reads = suc w.reads })
  unfolding publish ◌>>=◌
  publish_deduplicates w m key earlier window_secs declared window keyed recorded h k l r =
      rw
        (
          declared.1,
          is_duplicate-recorded w _ _ key earlier window_secs window keyed recorded h k l r,
        )
        refl

  -- Nothing of that key is recorded yet: the message passes, and the clock is not read.
  is_duplicate-unrecorded :
      (w : Manager Db) (window : Option ℕ) (held : Option Bytes) (key : Bytes)
      → held ≡ some key
      → lookup key (view q w.db).dedup ≡ none
      → is_duplicate q window held (calm w) ≡ (ok false, calm w)
  unfolding is_duplicate seen_within is_recent open_tree ◌>>=◌
  is_duplicate-unrecorded w none held key keyed unseen = refl
  is_duplicate-unrecorded w (some window_secs) held key keyed unseen =
      let found : get (dedup_tree_name q) key w.db ≡ none =
        get-entries (dedup_tree_name q) key w.db ∙ unseen in
      rw keyed
        (elim (Bool-cases (ltb 0 window_secs)) [ inl e ↦ rw e (rw found refl) | inr e ↦ rw e refl ])

  -- The manager after a message with a key is stored for delivery at once.
  abbrev after_store : Manager Db → Message → Bytes → Bytes → Manager Db
  after_store w m key b = record (calm w) {
    db = insert (dedup_tree_name q) key (to_be_bytes (w.clock w.reads)) (stored_db q w.db m b none);
    current_bytes = wrapping_add w.current_bytes (length b);
    reads = suc w.reads;
  }

  record_dedup_at-key :
      (w : Manager Db) (window : Option ℕ) (held : Option Bytes) (key : Bytes) (window_secs : ℕ)
      → window ≡ some window_secs
      → held ≡ some key
      → record_dedup_at q window held (calm w) ≡ (
        ok tt,
        record (calm w) {
          db = insert (dedup_tree_name q) key (to_be_bytes (w.clock w.reads)) w.db;
          reads = suc w.reads;
        },
      )
  unfolding record_dedup_at open_tree ◌>>=◌
  record_dedup_at-key w window held key window_secs windowed keyed = rw (windowed, keyed) refl

  publish-first :
      (w : Manager Db) (m : Message) (key b : Bytes) (window_secs : ℕ)
      → IsDeclared q w.db
      → (policy_of q w.db).dedup_window_secs ≡ some window_secs
      → m.dedup_key ≡ some key
      → m.deliver_at ≡ none
      → lookup key (view q w.db).dedup ≡ none
      → serialize_message m ≡ done b
      → Fits w.max_bytes w.current_bytes (length b)
      → publish q m (calm w) ≡ (ok (stored m.id), after_store w m key b)
  unfolding record_dedup_key future_delivery ◌>>=◌
  publish-first w m key b window_secs declared window keyed now unseen encodes fits =
      publish-passes q w m w.reads declared (
        is_duplicate-unrecorded w (policy_of q w.db).dedup_window_secs m.dedup_key key keyed unseen)
      ∙ store_message-stores q w m (policy_of q w.db) b none w.reads encodes fits (λ d. rw now refl)
      ∙ (rw
          (record_dedup_at-key
            (record w {
              db = stored_db q w.db m b none;
              current_bytes = wrapping_add w.current_bytes (length b);
            })
            _ _ key window_secs window keyed)
          refl)

  after_store-meta :
      (w : Manager Db) (m : Message) (key b n k : Bytes)
      → same (dedup_tree_name q) n ≡ false
      → same q n ≡ false
      → get n k (after_store w m key b).db ≡ get n k w.db
  after_store-meta w m key b n k dedup main =
      simp (get-entries, entries-insert, entries-generate_id, dedup, main) refl

  -- On a declared queue with a window, whose name is not that of a metadata tree, when no call of
  -- sled fails: of two messages with one key that is not yet recorded, published one after the
  -- other, the second less than the window later on a clock that does not go back, the first is
  -- stored and the second is not. The second caller is told so, and neither the database nor the
  -- byte count changes. The first is for delivery at once, encodes and fits. The time of the
  -- second call and the window, both in milliseconds, are below 2 ^ 63.
  pub publish_once :
      (w : Manager Db) (m m' : Message) (key b : Bytes) (window_secs : ℕ)
      → same q meta_queues_tree ≡ false
      → same q meta_retention_tree ≡ false
      → IsDeclared q w.db
      → (policy_of q w.db).dedup_window_secs ≡ some window_secs
      → m.dedup_key ≡ some key
      → m'.dedup_key ≡ some key
      → m.deliver_at ≡ none
      → lookup key (view q w.db).dedup ≡ none
      → serialize_message m ≡ done b
      → Fits w.max_bytes w.current_bytes (length b)
      → w.clock w.reads ≤ w.clock (suc w.reads)
      → w.clock (suc w.reads) < i64_half
      → window_secs * 1000 < i64_half
      → w.clock (suc w.reads) < w.clock w.reads + window_secs * 1000
      → let first = publish q m (calm w) in
        let second = publish q m' first.1 in
        (first.0 ≡ ok (stored m.id))
        × (second.0 ≡ ok deduplicated)
        × (second.1.db ≡ first.1.db)
        × (second.1.current_bytes ≡ first.1.current_bytes)
  publish_once w m m' key b window_secs q-ne-queues q-ne-retention declared window keyed keyed' now
        unseen encodes fits h k l r =
      let first =
        publish-first w m key b window_secs declared window keyed now unseen encodes fits in
      let after = after_store w m key b in
      let recorded : lookup key (view q after.db).dedup ≡ some (to_be_bytes (w.clock w.reads)) =
        simp (entries-insert, same_refl, lookup-put) refl in
      let second : publish q m' after
          ≡ (ok deduplicated, record after { reads = suc after.reads }) =
        publish_deduplicates after m' key (w.clock w.reads) window_secs
          (
            declared.0,
            after_store-meta w m key b meta_queues_tree q (dedup-ne-meta q) q-ne-queues
                ∙ declared.1,
          )
          (ap (λ x. (policy_or_default x).dedup_window_secs)
              (after_store-meta w m key b meta_retention_tree q (dedup-ne-retention q)
                q-ne-retention)
            ∙ window)
          keyed' recorded h k l r in
      (
        ap (λ x. x.0) first,
        ap (λ x. (publish q m' x.1).0) first ∙ ap (λ x. x.0) second,
        ap (λ x. (publish q m' x.1).1.db) first
            ∙ ap (λ x. x.1.db) second
            ∙ sym (ap (λ x. x.1.db) first),
        ap (λ x. (publish q m' x.1).1.current_bytes) first
            ∙ ap (λ x. x.1.current_bytes) second
            ∙ sym (ap (λ x. x.1.current_bytes) first),
      )
