-- ===== src/Engine/Sound/Publish.antt =====
-- `publish` keeps the invariant of the queue on every ending, and does not panic.
use pelican_q.Base.{
  ℕ, ◌≡◌, refl, sym, subst, ◌∙◌, true, false, Option, none, some, arith, length, All, ◌∷◌, [], take,
  ltb, Bool-cases, inl, inr,
}
use pelican_q.Bytes.{Bytes, same, to_be_bytes, from_be_bytes}
use pelican_q.Bytes.RoundTrip.{length-to_be_bytes}
use pelican_q.Tree.{Entry, Tree, lookup}
use pelican_q.Word.{wrapping_add}
use pelican_q.Message.{Message, RetentionPolicy}
use pelican_q.Failure.{ok}
use pelican_q.Platform.{Platform}
use pelican_q.Exec.{Manager, pure}
use pelican_q.Exec.Ensures.{
  Ends, Ensures, Settles, next, from_less, pure-Ensures, raise-Ensures, encoded-Ensures,
  gets-Ensures, reads-Ensures, check-Ensures, if-Ensures, now_ms-Ensures, set_bytes-Ensures,
  open_then,
}
use pelican_q.Engine.Keys.{dedup_tree_name, encode_key, encode_scheduled_key}
use pelican_q.Engine.Calls.{read_be64}
use pelican_q.Engine.Publish.{
  deduplicated, is_recent, seen_within, is_duplicate, check_limit_of, check_limit, record_dedup_at,
  record_dedup_key, future_delivery, target_tree, target_key, store_message, publish,
}
use pelican_q.Engine.View.{view}
use pelican_q.Engine.View.Writes.{view-insert_main, view-insert_scheduled, view-insert_dedup}
use pelican_q.Engine.Sound.{IsSound}
use pelican_q.Engine.Sound.Writes.{IsSound-enqueue, IsSound-schedule, IsSound-dedup}
use pelican_q.Engine.Sound.Calls.{
  SoundAt, IsNew, expect_queue-Ensures, read_policy-Ensures, new_id-Ensures, insert_into-Ensures,
}

abbrev Any : {Db A : Type 0} → A → Db → Type 0
Any a d = Unit {0}

-- Eight bytes are enough.
read_be64_eight :
    {Db : Type 0} (b : Bytes) (w : Manager Db)
    → length b ≡ 8
    → read_be64 b w ≡ (ok (from_be_bytes 0 (take 8 b)), w)
unfolding read_be64 pure
read_be64_eight b w e = rw e refl

lookup_head :
    (k v j w : Bytes) (t : Tree) → same j k ≡ true → lookup k ((j, w) ∷ t) ≡ some v → w ≡ v
unfolding lookup
lookup_head k v j w t e h = ground arith

lookup_tail :
    (k v j w : Bytes) (t : Tree)
    → same j k ≡ false
    → lookup k ((j, w) ∷ t) ≡ some v
    → lookup k t ≡ some v
unfolding lookup
lookup_tail k v j w t e h = ground arith

lookup_nil : (k v : Bytes) → ¬ (lookup k [] ≡ some v)
unfolding lookup
lookup_nil k v h = cc

-- What holds of every entry holds of the one that is found.
lookup-All :
    (P : Entry → Type 0) (k v : Bytes) (t : Tree)
    → lookup k t ≡ some v
    → All P t
    → (j : Bytes) × P (j, v)
lookup-All P k v [] h a = absurd (lookup_nil k v h)
lookup-All P k v ((j, w) ∷ t) h a = elim (Bool-cases (same j k)) [
  | inl e ↦ (j, subst (λ x. P (j, x)) (lookup_head k v j w t e h) a.0)
  | inr e ↦ lookup-All P k v t (lookup_tail k v j w t e h) a.1
]

module _ ⦃p : Platform⦄ (q : Bytes) where
  open p use {Db, entries, get, insert, get-entries, issued}

  store-IsNew :
      (m : Message) (id : ℕ) (later : Option ℕ) (value : Bytes) (d : Db)
      → IsNew q id d
      → SoundAt q (insert (target_tree q later) (target_key m.priority id later) value d)
  unfolding encode_key encode_scheduled_key
  store-IsNew m id none value d n =
      subst IsSound (sym (view-insert_main q _ value d))
        (IsSound-enqueue (record (view q d) { bound = n.0 }) n.1 _ id (issued d) value n.2 n.3)
  store-IsNew m id (some at) value d n =
      subst IsSound (sym (view-insert_scheduled q _ value d))
        (IsSound-schedule (record (view q d) { bound = n.0 }) n.1 at id (issued d) value n.2 n.3)

  -- A recorded time has eight bytes.
  abbrev Recorded : Option Bytes → Db → Type 0
  Recorded none d = Unit
  Recorded (some b) d = length b ≡ 8

  Recorded-get :
      (key : Bytes) (found : Option Bytes) (d : Db)
      → SoundAt q d
      → found ≡ get (dedup_tree_name q) key d
      → Recorded found d
  Recorded-get key none d i e = tt
  Recorded-get key (some b) d i e =
      (lookup-All (λ x. length x.1 ≡ 8) key b (entries (dedup_tree_name q) d)
        (sym (e ∙ get-entries (dedup_tree_name q) key d)) i.dedup).1

  read_be64-Ensures : (b : Bytes) → Ensures (SoundAt q) (Recorded (some b)) (read_be64 b) Any
  read_be64-Ensures b = record {
    at = λ w i x. subst (Ends (SoundAt q) Any) (sym (read_be64_eight b w x)) (i, tt);
  }

  is_recent-Ensures :
      (window : ℕ) (found : Option Bytes)
      → Ensures (SoundAt q) (Recorded found) (is_recent window found) Any
  unfolding is_recent
  is_recent-Ensures window none = pure-Ensures Any false (λ d i x. tt)
  is_recent-Ensures window (some b) =
      next (read_be64-Ensures b)
        (λ recorded_ms. next now_ms-Ensures (λ now. pure-Ensures Any _ (λ d i x. tt)))

  seen_within-Ensures :
      (window : ℕ) (key : Bytes)
      → Ensures (SoundAt q) (λ d. Unit {0}) (seen_within q window key) Any
  unfolding seen_within
  seen_within-Ensures window key = open_then (dedup_tree_name q) _ (
      next check-Ensures (λ _. next (gets-Ensures (get (dedup_tree_name q) key)) (λ found.
        from_less (λ d i x. Recorded-get key found d i x.0) (is_recent-Ensures window found))))

  is_duplicate-Ensures :
      (window : Option ℕ) (key : Option Bytes)
      → Ensures (SoundAt q) (λ d. Unit {0}) (is_duplicate q window key) Any
  unfolding is_duplicate
  is_duplicate-Ensures none key = pure-Ensures Any false (λ d i x. tt)
  is_duplicate-Ensures (some window) none = pure-Ensures Any false (λ d i x. tt)
  is_duplicate-Ensures (some window) (some key) =
      if-Ensures (ltb 0 window) _ _ (seen_within-Ensures window key)
        (pure-Ensures Any false (λ d i x. tt))

  check_limit_of-Ensures :
      (max : Option ℕ) (current n : ℕ)
      → Ensures (SoundAt q) (λ d. Unit {0}) (check_limit_of max current n) Any
  unfolding check_limit_of
  check_limit_of-Ensures none current n = pure-Ensures Any tt (λ d i x. tt)
  check_limit_of-Ensures (some max) current n =
      if-Ensures (ltb max (wrapping_add current n)) _ _ (raise-Ensures Any _)
        (pure-Ensures Any tt (λ d i x. tt))

  check_limit-Ensures : (n : ℕ) → Ensures (SoundAt q) (λ d. Unit {0}) (check_limit n) Any
  unfolding check_limit
  check_limit-Ensures n = record {
    at = λ w. (check_limit_of-Ensures w.max_bytes w.current_bytes n).at w;
  }

  future_delivery-Ensures :
      {X : Db → Type 0} (at : Option ℕ) → Ensures (SoundAt q) X (future_delivery at) (λ a d. X d)
  unfolding future_delivery
  future_delivery-Ensures {X} none = pure-Ensures (λ a d. X d) none (λ d i x. x)
  future_delivery-Ensures {X} (some t) =
      next now_ms-Ensures (λ now. pure-Ensures (λ a d. X d) _ (λ d i x. x))

  record_dedup_at-Ensures :
      (window : Option ℕ) (key : Option Bytes)
      → Ensures (SoundAt q) (λ d. Unit {0}) (record_dedup_at q window key) Any
  unfolding record_dedup_at
  record_dedup_at-Ensures none key = pure-Ensures Any tt (λ d i x. tt)
  record_dedup_at-Ensures (some window) none = pure-Ensures Any tt (λ d i x. tt)
  record_dedup_at-Ensures (some window) (some key) = open_then (dedup_tree_name q) _ (
      next now_ms-Ensures (λ now.
        insert_into-Ensures q (λ d. Unit {0}) (dedup_tree_name q) key (to_be_bytes now)
          (λ d i x. (
            subst IsSound (sym (view-insert_dedup q key (to_be_bytes now) d))
                (IsSound-dedup (view q d) i key (to_be_bytes now) (length-to_be_bytes now)),
            tt,
          ))))

  store_message-Ensures :
      (m : Message) (policy : RetentionPolicy)
      → Ensures (SoundAt q) (λ d. Unit {0}) (store_message q m policy) Any
  unfolding store_message record_dedup_key
  store_message-Ensures m policy = next (encoded-Ensures _) (λ value.
      next (from_less (λ d i x. tt) (check_limit-Ensures (length value))) (λ _.
        next (new_id-Ensures q) (λ id. next (future_delivery-Ensures m.deliver_at) (λ later.
          open_then (target_tree q later) _ (
            next
              (insert_into-Ensures q (λ d. Unit {0}) _ _ value
                (λ d i n. (store-IsNew m id later value d n, tt)))
              (λ _. next (reads-Ensures _) (λ current. next (set_bytes-Ensures _) (λ _.
                next (record_dedup_at-Ensures policy.dedup_window_secs m.dedup_key)
                  (λ _. pure-Ensures Any _ (λ d i x. tt))))))))))

  publish-Ensures : (m : Message) → Ensures (SoundAt q) (λ d. Unit {0}) (publish q m) Any
  unfolding publish
  publish-Ensures m = next (expect_queue-Ensures q q) (λ _.
      next (read_policy-Ensures q q) (λ policy.
        next (is_duplicate-Ensures policy.dedup_window_secs m.dedup_key) (λ duplicate.
          if-Ensures duplicate _ _ (pure-Ensures Any deduplicated (λ d i x. tt))
            (store_message-Ensures m policy))))

  -- `publish` on a sound queue, whichever calls of sled fail: the queue stays sound, and the call
  -- returns or reports an error. In particular no recorded time is too short for its slice.
  pub publish-IsSound :
      (m : Message) (w : Manager Db) → IsSound (view q w.db) → Settles (SoundAt q) (publish q m w)
  publish-IsSound m w i = (publish-Ensures m).at w i tt
