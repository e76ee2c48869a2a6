-- ===== src/Engine/Effect/Balance.antt =====
-- The byte count of the manager follows the messages that a queue holds.
use pelican_q.Base.{
  ℕ, ◌+◌, ◌-◌, ◌%◌, ◌≤◌, ◌<◌, ◌≡◌, refl, sym, ap, subst, ◌∙◌, true, false, Bool-cases, [], ◌∷◌,
  none, some, arith, length, drop, min, All, inl, inr,
}
use pelican_q.Bytes.{Bytes, same, to_be_bytes}
use pelican_q.Bytes.RoundTrip.{u64_mod}
use pelican_q.Bytes.Order.{same→eq, same_refl}
use pelican_q.Tree.{Tree, lookup, weight}
use pelican_q.Tree.Weight.{weight-put_new, weight-without}
use pelican_q.Word.{wrapping_add}
use pelican_q.Failure.{Fallible, done, failed}
use pelican_q.Message.{Message, DeliveryTag}
use pelican_q.Platform.{Platform}
use pelican_q.Exec.{Manager}
use pelican_q.Engine.Keys.{encode_key}
use pelican_q.Engine.Publish.{publish}
use pelican_q.Engine.Consume.{consume, ack}
use pelican_q.Engine.Nack.{attempted_again, is_dead, nack}
use pelican_q.Engine.View.{View, view}
use pelican_q.Engine.Sound.{IsSound, NoClash}
use pelican_q.Engine.Sound.Trees.{ids_fresh}
use pelican_q.Engine.Effect.{calm, IsDeclared}
use pelican_q.Engine.Effect.Deliver.{consume_delivers}
use pelican_q.Engine.Effect.Settle.{ack_once, attempts_limit, nack_returns, nack_buries}
use pelican_q.Engine.Effect.Store.{Fits, publish_enqueues}

-- The bytes of the messages of a queue, wherever they are.
abbrev pub stored_bytes : View → ℕ
stored_bytes v = weight v.main + weight v.inflight + weight v.dead + weight v.scheduled

-- A key whose id no entry has is not in the tree.
lookup-ids_fresh :
    (b id : ℕ) (t : Tree)
    → All (λ g. same (drop 1 g.0) (to_be_bytes id) ≡ false) t
    → lookup (b ∷ to_be_bytes id) t ≡ none
unfolding lookup
lookup-ids_fresh b id [] a = refl
lookup-ids_fresh b id (e ∷ t) a = elim (Bool-cases (same e.0 (b ∷ to_be_bytes id))) [
  | inl h ↦
      let known : same (drop 1 e.0) (to_be_bytes id) ≡ true =
        ap (λ (x : Bytes). same (drop 1 x) (to_be_bytes id)) (same→eq e.0 (b ∷ to_be_bytes id) h)
        ∙ same_refl (to_be_bytes id) in
      absurd (ground (arith, a.0))
  | inr h ↦ rw h (lookup-ids_fresh b id t a.1)
]

abbrev bytes_of : Fallible Bytes → Bytes
bytes_of (done b) = b
bytes_of (failed e) = e

module _ ⦃p : Platform⦄ (q : Bytes) where
  open p use {
    Db, entries, get, generate_id, issued, issued-le-generate_id, deserialize_message,
    serialize_message, serialize_message_attempts, message_round_trip,
  }

  pub fresh_main :
      (b : ℕ) (d : Db)
      → IsSound (view q d)
      → (generate_id d).0 < u64_mod
      → lookup (b ∷ to_be_bytes (generate_id d).0) (view q d).main ≡ none
  fresh_main b d i h =
      lookup-ids_fresh b (generate_id d).0 (entries q d)
        (ids_fresh (issued d) (generate_id d).0 (entries q d) (issued-le-generate_id d) h i.main)

  -- On a declared sound queue, when no call of sled fails: what `publish` of a message without a
  -- key and a delivery time, which encodes and fits, adds to the byte count is what it adds to the
  -- bytes of the queue. The new id and the count stay below 2 ^ 64.
  pub publish_balances :
      (w : Manager Db) (m : Message) (b : Bytes)
      → IsDeclared q w.db
      → IsSound (view q w.db)
      → (generate_id w.db).0 < u64_mod
      → m.dedup_key ≡ none
      → m.deliver_at ≡ none
      → serialize_message m ≡ done b
      → Fits w.max_bytes w.current_bytes (length b)
      → w.current_bytes + length b < u64_mod
      → let r = publish q m (calm w) in
        stored_bytes (view q r.1.db) + w.current_bytes
        ≡ stored_bytes (view q w.db) + r.1.current_bytes
  unfolding wrapping_add encode_key
  publish_balances w m b declared i h keyless now encodes fits small =
      let r = publish_enqueues q w m b declared keyless now encodes fits in
      let grown =
        weight-put_new (encode_key m.priority (generate_id w.db).0) b (view q w.db).main
          (fresh_main (9 - min m.priority 9) w.db i h) in
      let viewed = ap stored_bytes r.1 in let counted = r.2 in ground arith

  -- On a declared sound queue, when no call of sled fails: `consume` of a first message that
  -- decodes changes neither the byte count nor the bytes of the queue. The ids given out are below
  -- 2 ^ 64.
  pub consume_balances :
      (w : Manager Db) (priority i : ℕ) (v : Bytes) (t : Tree) (m : Message)
      → IsDeclared q w.db
      → IsSound (view q w.db)
      → issued w.db ≤ u64_mod
      → entries q w.db ≡ (encode_key priority i, v) ∷ t
      → i < u64_mod
      → deserialize_message v ≡ done m
      → let r = consume q (calm w) in
        (stored_bytes (view q r.1.db) ≡ stored_bytes (view q w.db))
        × (r.1.current_bytes ≡ w.current_bytes)
  unfolding encode_key weight
  consume_balances w priority i v t m declared s small e fits decodes =
      let r = consume_delivers q w priority i v t m declared e fits decodes in
      let viewed = ap stored_bytes r.1 in
      let before : weight (entries q w.db) ≡ length v + weight t = ap weight e in
      let free : lookup (to_be_bytes i) (view q w.db).inflight ≡ none = elim s.fresh [
        | inl h ↦ absurd (omega arith)
        | inr c ↦ (subst (NoClash (view q w.db).inflight) e c).0
      ] in
      let moved = weight-put_new (to_be_bytes i) v (view q w.db).inflight free in
      (ground arith, r.2)

  -- On a declared queue, when no call of sled fails: what `ack` of a tag in flight takes off the
  -- byte count is what leaves the bytes of the queue, if the count is at least the length of the
  -- message.
  pub ack_balances :
      (w : Manager Db) (tag : DeliveryTag) (v : Bytes)
      → IsDeclared q w.db
      → lookup (to_be_bytes tag) (view q w.db).inflight ≡ some v
      → length v ≤ w.current_bytes
      → let r = ack q tag (calm w) in
        stored_bytes (view q r.1.db) + w.current_bytes
        ≡ stored_bytes (view q w.db) + r.1.current_bytes
  ack_balances w tag v declared e enough =
      let r = ack_once q w tag v declared e in
      let viewed = ap stored_bytes r.1 in
      let counted = r.2 in
      let shrunk = weight-without (to_be_bytes tag) v (view q w.db).inflight e in ground arith

  -- The new value of a message that is tried again is as long as the old one.
  length_again :
      (m : Message) (v v' : Bytes)
      → serialize_message m ≡ done v
      → serialize_message (attempted_again m) ≡ done v'
      → length v' ≡ length v
  unfolding attempted_again
  length_again m v v' encoded encodes =
      let c = serialize_message_attempts m ((m.delivery_attempts + 1) % 4294967296) v encoded in
      let same_bytes : done v' ≡ done c.0 = sym encodes ∙ c.1 in
      ap (λ (x : Fallible Bytes). length (bytes_of x)) same_bytes ∙ c.2

  fresh_dead :
      (b : ℕ) (d : Db)
      → IsSound (view q d)
      → (generate_id d).0 < u64_mod
      → lookup (b ∷ to_be_bytes (generate_id d).0) (view q d).dead ≡ none
  fresh_dead b d i h =
      lookup-ids_fresh b (generate_id d).0 (view q d).dead
        (ids_fresh (issued d) (generate_id d).0 (view q d).dead (issued-le-generate_id d) h i.dead)

  -- On a declared sound queue, when no call of sled fails: `nack` of a message in flight, which
  -- encodes before and after, changes neither the byte count nor the bytes of the queue, whether
  -- the message goes back to the main tree or to the dead letters. The new id is below 2 ^ 64.
  pub nack_balances :
      (w : Manager Db) (tag : DeliveryTag) (v v' : Bytes) (m : Message)
      → IsDeclared q w.db
      → IsSound (view q w.db)
      → (generate_id w.db).0 < u64_mod
      → lookup (to_be_bytes tag) (view q w.db).inflight ≡ some v
      → serialize_message m ≡ done v
      → serialize_message (attempted_again m) ≡ done v'
      → let r = nack q tag (calm w) in
        (stored_bytes (view q r.1.db) ≡ stored_bytes (view q w.db))
        × (r.1.current_bytes ≡ w.current_bytes)
  unfolding encode_key
  nack_balances w tag v v' m declared s h held encoded encodes =
      let decodes = message_round_trip m v encoded in
      let shrunk = weight-without (to_be_bytes tag) v (view q w.db).inflight held in
      let as_long = length_again m v v' encoded encodes in
      elim (Bool-cases (is_dead (attempts_limit q w.db) (attempted_again m))) [
        | inl dead ↦
            let r = nack_buries q w tag v v' m declared held decodes encodes dead in
            let viewed = ap stored_bytes r.1 in
            let grown =
              weight-put_new (encode_key m.priority (generate_id w.db).0) v' (view q w.db).dead
                (fresh_dead (9 - min m.priority 9) w.db s h) in
            (ground arith, r.3)
        | inr alive ↦
            let r = nack_returns q w tag v v' m declared held decodes encodes alive in
            let viewed = ap stored_bytes r.1 in
            let grown =
              weight-put_new (encode_key m.priority (generate_id w.db).0) v' (view q w.db).main
                (fresh_main (9 - min m.priority 9) w.db s h) in
            (ground arith, r.3)
      ]
