-- ===== src/Engine/Effect/Store.antt =====
-- What `publish` does to a queue.
pub mod Duplicates
use pelican_q.Base.{
  ℕ, zero, suc, ◌+◌, ◌*◌, ◌/◌, ◌%◌, ◌≤◌, ◌<◌, ◌≡◌, ◌⊎◌, inl, inr, refl, sym, ap, subst, ◌∙◌, true,
  false, Option, none, some, arith, length, leb, ltb, Bool, Bool-cases, if◌then◌else◌,
}
use pelican_q.Bytes.{Bytes, same, to_be_bytes}
use pelican_q.Bytes.RoundTrip.{u64_mod}
use pelican_q.Tree.{Tree, lookup, put}
use pelican_q.Word.{wrapping_add, signed_lt}
use pelican_q.Failure.{ok, err, done, storage_limit_exceeded}
use pelican_q.Message.{Message, RetentionPolicy}
use pelican_q.Platform.{Platform}
use pelican_q.Exec.{Manager, ◌>>=◌, ◌>>◌, pure, raise, open_tree}
use pelican_q.Engine.Keys.{
  meta_queues_tree, meta_retention_tree, scheduled_tree_name, encode_key, encode_scheduled_key,
}
use pelican_q.Engine.Calls.{policy_or_default, read_policy, expect_queue}
use pelican_q.Engine.Publish.{
  PublishOutcome, stored, deduplicated, used_pct, is_duplicate, check_limit_of, check_limit,
  record_dedup_at, record_dedup_key, future_delivery, target_tree, target_key, store_message,
  publish,
}
use pelican_q.Engine.View.{View, view}
use pelican_q.Engine.View.Writes.{view-insert_main, view-insert_scheduled, view-generate_id}
use pelican_q.Engine.Effect.{calm, IsDeclared}

-- The message is within the limit of the store, if there is one.
abbrev pub Fits : Option ℕ → ℕ → ℕ → Type 0
Fits none current_bytes n = Unit
Fits (some max) current_bytes n = wrapping_add current_bytes n ≤ max

-- Nothing wraps while no more than the limit is in use.
used_pct-share :
    (current max : ℕ)
    → 0 < max
    → current ≤ max
    → current * 100 < u64_mod
    → (used_pct current max * max ≤ current * 100)
      × (current * 100 < (used_pct current max + 1) * max)
unfolding used_pct
used_pct-share current max positive within small =
    let percent : current * 100 / max ≤ 100 = grind arith in
    let word : current * 100 % u64_mod ≡ current * 100 = omega arith in
    let positive_max : ltb 0 max ≡ true = ground arith in
    let byte : current * 100 / max % 256 ≡ current * 100 / max = omega arith in
    rw positive_max (rw word (rw byte (grind arith, grind arith)))

module _ ⦃p : Platform⦄ (q : Bytes) where
  open p use {Db, entries, get, insert, remove, generate_id, issued, get-entries, serialize_message}

  abbrev pub policy_of : Db → RetentionPolicy
  policy_of d = policy_or_default (get meta_retention_tree q d)

  pub check_limit_of-Fits :
      (max : Option ℕ) (current n : ℕ) (w : Manager Db)
      → Fits max current n
      → check_limit_of max current n w ≡ (ok tt, w)
  unfolding check_limit_of pure
  check_limit_of-Fits none current n w h = refl
  check_limit_of-Fits (some max) current n w h =
      elim (Bool-cases (ltb max (wrapping_add current n))) [
        | inl e ↦ absurd (ground arith)
        | inr e ↦ rw e refl
      ]

  check_limit_of-over :
      (limit : Option ℕ) (max current n : ℕ) (w : Manager Db)
      → limit ≡ some max
      → max < wrapping_add current n
      → check_limit_of limit current n w
        ≡ (err (storage_limit_exceeded (used_pct current max) 100), w)
  unfolding check_limit_of raise
  check_limit_of-over limit max current n w l h =
      elim (Bool-cases (ltb max (wrapping_add current n))) [
        | inl e ↦ rw l (rw e refl)
        | inr e ↦ absurd (ground arith)
      ]

  pub is_duplicate-no_key :
      (window : Option ℕ) (w : Manager Db) → is_duplicate q window none w ≡ (ok false, w)
  unfolding is_duplicate pure
  is_duplicate-no_key none w = refl
  is_duplicate-no_key (some s) w = refl

  pub record_dedup_at-no_key :
      (window : Option ℕ) (w : Manager Db) → record_dedup_at q window none w ≡ (ok tt, w)
  unfolding record_dedup_at pure
  record_dedup_at-no_key none w = refl
  record_dedup_at-no_key (some s) w = refl

  -- The queue is there and the message no duplicate: it is stored.
  pub publish-passes :
      (w : Manager Db) (m : Message) (n : ℕ)
      → IsDeclared q w.db
      → is_duplicate q (policy_of w.db).dedup_window_secs m.dedup_key (calm w)
        ≡ (ok false, record (calm w) { reads = n })
      → publish q m (calm w) ≡ store_message q m (policy_of w.db) (record (calm w) { reads = n })
  unfolding publish ◌>>=◌
  publish-passes w m n declared passes = rw declared.1 (rw passes refl)

  -- The database after the message is stored, to be delivered at once or later.
  abbrev pub stored_db : Db → Message → Bytes → Option ℕ → Db
  stored_db d m b later =
      insert (target_tree q later) (target_key m.priority (generate_id d).0 later) b
        (generate_id d).1

  pub store_message-stores :
      (w : Manager Db) (m : Message) (policy : RetentionPolicy) (b : Bytes) (later : Option ℕ)
      (n : ℕ)
      → serialize_message m ≡ done b
      → Fits w.max_bytes w.current_bytes (length b)
      → ((d : Db)
          → future_delivery m.deliver_at (record (calm w) { db = d })
            ≡ (ok later, record (calm w) { db = d; reads = n }))
      → store_message q m policy (calm w)
        ≡ (record_dedup_key q m policy >> pure (stored m.id)) (record (calm w) {
          db = stored_db w.db m b later;
          current_bytes = wrapping_add w.current_bytes (length b);
          reads = n;
        })
  unfolding store_message open_tree ◌>>=◌
  store_message-stores w m policy b later n encodes fits timing =
      rw encodes (rw (check_limit_of-Fits _ _ _ _ fits) (rw (timing _) refl))

  pub publish_at :
      (w : Manager Db) (m : Message) (b : Bytes) (later : Option ℕ) (n : ℕ)
      → IsDeclared q w.db
      → m.dedup_key ≡ none
      → serialize_message m ≡ done b
      → Fits w.max_bytes w.current_bytes (length b)
      → ((d : Db)
          → future_delivery m.deliver_at (record (calm w) { db = d })
            ≡ (ok later, record (calm w) { db = d; reads = n }))
      → publish q m (calm w) ≡ (
        ok (stored m.id),
        record (calm w) {
          db = stored_db w.db m b later;
          current_bytes = wrapping_add w.current_bytes (length b);
          reads = n;
        },
      )
  unfolding record_dedup_key ◌>>=◌
  publish_at w m b later n declared keyless encodes fits timing =
      publish-passes w m w.reads declared
        (rw keyless (is_duplicate-no_key (policy_of w.db).dedup_window_secs (calm w)))
      ∙ store_message-stores w m (policy_of w.db) b later n encodes fits timing
      ∙ (rw keyless (rw (record_dedup_at-no_key _ _) refl))

  -- On a declared queue, when no call of sled fails: `publish` of a message without a key and a
  -- delivery time, which encodes and fits under the limit, returns its id, puts it into the main
  -- tree under its priority and a new id, and counts its bytes.
  pub publish_enqueues :
      (w : Manager Db) (m : Message) (b : Bytes)
      → IsDeclared q w.db
      → m.dedup_key ≡ none
      → m.deliver_at ≡ none
      → serialize_message m ≡ done b
      → Fits w.max_bytes w.current_bytes (length b)
      → let r = publish q m (calm w) in
        let id = (generate_id w.db).0 in
        (r.0 ≡ ok (stored m.id))
        × (view q r.1.db ≡ record (view q w.db) {
          main = put (encode_key m.priority id) b (view q w.db).main;
          bound = issued (generate_id w.db).1;
        })
        × (r.1.current_bytes ≡ wrapping_add w.current_bytes (length b))
  unfolding future_delivery pure
  publish_enqueues w m b declared keyless now encodes fits =
      let r = publish_at w m b none w.reads declared keyless encodes fits (λ d. rw now refl) in
      let key = encode_key m.priority (generate_id w.db).0 in
      (
        ap (λ x. x.0) r,
        ap (λ x. view q x.1.db) r
            ∙ view-insert_main q key b (generate_id w.db).1
            ∙ ap (λ (u : View). record u { main = put key b u.main }) (view-generate_id q w.db),
        ap (λ x. x.1.current_bytes) r,
      )

  -- On a declared queue, when no call of sled fails: `publish` of a message without a key whose
  -- delivery time is still to come, which encodes and fits under the limit, puts it into the
  -- scheduled tree under that time and a new id, leaves the main tree as it was, and counts its
  -- bytes.
  pub publish_schedules :
      (w : Manager Db) (m : Message) (b : Bytes) (deliver_at : ℕ)
      → IsDeclared q w.db
      → m.dedup_key ≡ none
      → m.deliver_at ≡ some deliver_at
      → signed_lt (w.clock w.reads) deliver_at ≡ true
      → serialize_message m ≡ done b
      → Fits w.max_bytes w.current_bytes (length b)
      → let r = publish q m (calm w) in
        let id = (generate_id w.db).0 in
        (r.0 ≡ ok (stored m.id))
        × (view q r.1.db ≡ record (view q w.db) {
          scheduled = put (encode_scheduled_key deliver_at id) b (view q w.db).scheduled;
          bound = issued (generate_id w.db).1;
        })
        × (r.1.current_bytes ≡ wrapping_add w.current_bytes (length b))
  unfolding future_delivery ◌>>=◌
  publish_schedules w m b deliver_at declared keyless at to_come encodes fits =
      let r =
        publish_at w m b (some deliver_at) (suc w.reads) declared keyless encodes fits
          (λ d. rw at (rw to_come refl)) in
      let key = encode_scheduled_key deliver_at (generate_id w.db).0 in
      (
        ap (λ x. x.0) r,
        ap (λ x. view q x.1.db) r
            ∙ view-insert_scheduled q key b (generate_id w.db).1
            ∙ ap (λ (u : View). record u { scheduled = put key b u.scheduled })
                (view-generate_id q w.db),
        ap (λ x. x.1.current_bytes) r,
      )

  -- On a declared queue with a storage limit above 0, of which no more than all is in use, when no
  -- call of sled fails: `publish` of a message without a key, which encodes and would exceed the
  -- limit, is refused with the share of the limit in use, in percent and rounded down, and changes
  -- nothing. A hundred times the bytes in use, and these with the message, are below 2 ^ 64.
  pub publish_over_limit :
      (w : Manager Db) (m : Message) (b : Bytes) (max : ℕ)
      → IsDeclared q w.db
      → m.dedup_key ≡ none
      → serialize_message m ≡ done b
      → w.max_bytes ≡ some max
      → 0 < max
      → w.current_bytes ≤ max
      → w.current_bytes * 100 < u64_mod
      → w.current_bytes + length b < u64_mod
      → max < w.current_bytes + length b
      → (share : ℕ) × (publish q m (calm w) ≡ (err (storage_limit_exceeded share 100), calm w))
        × (share * max ≤ w.current_bytes * 100)
        × (w.current_bytes * 100 < (share + 1) * max)
  unfolding store_message ◌>>=◌ wrapping_add
  publish_over_limit w m b max declared keyless encodes limit positive within small fits over =
      let exceeds : max < wrapping_add w.current_bytes (length b) = omega arith in
      let refused =
        publish-passes w m w.reads declared
          (rw keyless (is_duplicate-no_key (policy_of w.db).dedup_window_secs (calm w)))
        ∙ (rw encodes (rw (check_limit_of-over _ max _ _ _ limit exceeds) refl)) in
      let share = used_pct-share w.current_bytes max positive within small in
      (used_pct w.current_bytes max, refused, share.0, share.1)
