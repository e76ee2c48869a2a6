-- ===== src/Engine/Effect/Settle.antt =====
-- How a delivery ends: `ack` and `nack`.
use pelican_q.Base.{
  ℕ, ◌+◌, ◌-◌, ◌%◌, ◌≤◌, ◌<◌, ◌≡◌, refl, sym, ap, ◌∙◌, true, false, Option, none, some, arith,
  length,
}
use pelican_q.Bytes.{Bytes, to_be_bytes}
use pelican_q.Bytes.Order.{same_refl}
use pelican_q.Tree.{lookup, put, without}
use pelican_q.Tree.Lookup.{lookup-without}
use pelican_q.Failure.{ok, err, done, invalid_delivery_tag}
use pelican_q.Message.{Message, DeliveryTag}
use pelican_q.Platform.{Platform}
use pelican_q.Exec.{Manager, ◌>>=◌, open_tree}
use pelican_q.Engine.Keys.{meta_queues_tree, meta_retention_tree, inflight_tree_name, encode_key}
use pelican_q.Engine.Keys.Names.{inflight-ne-meta}
use pelican_q.Engine.Calls.{policy_or_default}
use pelican_q.Engine.Consume.{ack}
use pelican_q.Engine.Nack.{attempted_again, is_dead, requeue_tree, next_attempt, nack}
use pelican_q.Engine.View.{View, view}
use pelican_q.Engine.View.Writes.{
  view-remove_inflight, view-insert_main, view-insert_dead, view-generate_id,
}
use pelican_q.Engine.Effect.{calm, IsDeclared}
use pelican_q.Engine.Effect.Deliver.{ack-settles, ack-unknown}

is_dead_at :
    (max : ℕ) (m : Message)
    → 0 < max
    → max ≤ m.delivery_attempts + 1
    → m.delivery_attempts + 1 < 4294967296
    → is_dead (some max) (attempted_again m) ≡ true
unfolding is_dead attempted_again
is_dead_at max m h k l = ground arith

-- The message with one more attempt.
abbrev pub again : Message → Message
again m = record m { delivery_attempts = m.delivery_attempts + 1 }

attempted_again-suc :
    (m : Message) → m.delivery_attempts + 1 < 4294967296 → attempted_again m ≡ again m
unfolding attempted_again
attempted_again-suc m small =
    let counted : (m.delivery_attempts + 1) % 4294967296 ≡ m.delivery_attempts + 1 = ground arith in
    ap (λ (n : ℕ). record m { delivery_attempts = n }) counted

module _ ⦃p : Platform⦄ (q : Bytes) where
  open p use {
    Db, entries, get, insert, remove, generate_id, issued, get-entries, entries-remove,
    entries-generate_id, entries-IsOrdered, deserialize_message, serialize_message,
    message_round_trip,
  }

  IsDeclared-remove_inflight :
      (k : Bytes) (d : Db) → IsDeclared q d → IsDeclared q (remove (inflight_tree_name q) k d)
  IsDeclared-remove_inflight k d (v, h) = (
    v,
    simp (get-entries, entries-remove, inflight-ne-meta)
        (sym (get-entries meta_queues_tree q d) ∙ h),
  )

  -- On a declared queue, when no call of sled fails, `ack` of a tag that is in flight takes the
  -- message out of the queue and its bytes off the byte count, where that stops at 0, and a second
  -- `ack` of the tag is refused.
  pub ack_once :
      (w : Manager Db) (tag : DeliveryTag) (v : Bytes)
      → IsDeclared q w.db
      → lookup (to_be_bytes tag) (view q w.db).inflight ≡ some v
      → let r = ack q tag (calm w) in
        (r.0 ≡ ok tt)
        × (view q r.1.db
            ≡ record (view q w.db) { inflight = without (to_be_bytes tag) (view q w.db).inflight })
        × (r.1.current_bytes ≡ w.current_bytes - length v)
        × ((ack q tag r.1).0 ≡ err (invalid_delivery_tag tag))
  ack_once w tag v declared e =
      let r = ack-settles q w tag v declared e in
      let d = remove (inflight_tree_name q) (to_be_bytes tag) w.db in
      let after = record (calm w) { db = d; current_bytes = w.current_bytes - length v } in
      let gone : lookup (to_be_bytes tag) (view q d).inflight ≡ none =
        ap (λ (u : View). lookup (to_be_bytes tag) u.inflight)
          (view-remove_inflight q (to_be_bytes tag) w.db)
        ∙ lookup-without (to_be_bytes tag) (to_be_bytes tag) (view q w.db).inflight
            (entries-IsOrdered (inflight_tree_name q) w.db)
        ∙ (rw (same_refl (to_be_bytes tag)) refl) in
      (
        ap (λ x. x.0) r,
        ap (λ x. view q x.1.db) r ∙ view-remove_inflight q (to_be_bytes tag) w.db,
        ap (λ x. x.1.current_bytes) r,
        ap (λ x. (ack q tag x.1).0) r
            ∙ ack-unknown q after tag (IsDeclared-remove_inflight (to_be_bytes tag) w.db declared)
                gone,
      )

  -- The limit that the policy of the queue sets.
  abbrev pub attempts_limit : Db → Option ℕ
  attempts_limit d = (policy_or_default (get meta_retention_tree q d)).max_delivery_attempts

  module _ (w : Manager Db) (tag : DeliveryTag) (v v' : Bytes) (m : Message)
      (declared : IsDeclared q w.db)
      (held : lookup (to_be_bytes tag) (view q w.db).inflight ≡ some v)
      (decodes : deserialize_message v ≡ done m)
      (encodes : serialize_message (attempted_again m) ≡ done v') where
    next : next_attempt (some v) ≡ some (attempted_again m, v')
    unfolding next_attempt
    next = rw (decodes, next_attempt) (rw (encodes, next_attempt) refl)

    nack-moves : nack q tag (calm w) ≡ (
      ok tt,
      record (calm w) {
        db =
            insert
              (requeue_tree q (attempts_limit w.db) (attempted_again m))
              (encode_key m.priority (generate_id w.db).0)
              v'
              (remove (inflight_tree_name q) (to_be_bytes tag) (generate_id w.db).1);
      },
    )
    unfolding nack open_tree ◌>>=◌
    nack-moves =
        let hit =
          get-entries (inflight_tree_name q) (to_be_bytes tag) (generate_id w.db).1
          ∙ ap (lookup (to_be_bytes tag)) (entries-generate_id (inflight_tree_name q) w.db)
          ∙ held in
        rw declared.1 (rw hit (rw next refl))

    decoded_again : deserialize_message v' ≡ done (attempted_again m)
    decoded_again = message_round_trip (attempted_again m) v' encodes

    taken_view :
        view q (remove (inflight_tree_name q) (to_be_bytes tag) (generate_id w.db).1)
        ≡ record (view q w.db) {
          inflight = without (to_be_bytes tag) (view q w.db).inflight;
          bound = issued (generate_id w.db).1;
        }
    taken_view =
        view-remove_inflight q (to_be_bytes tag) (generate_id w.db).1
        ∙ ap (λ (u : View). record u { inflight = without (to_be_bytes tag) u.inflight })
            (view-generate_id q w.db)

    pub nack_returns :
        is_dead (attempts_limit w.db) (attempted_again m) ≡ false
        → let r = nack q tag (calm w) in
          (r.0 ≡ ok tt)
          × (view q r.1.db ≡ record (view q w.db) {
            inflight = without (to_be_bytes tag) (view q w.db).inflight;
            main = put (encode_key m.priority (generate_id w.db).0) v' (view q w.db).main;
            bound = issued (generate_id w.db).1;
          })
          × (deserialize_message v' ≡ done (attempted_again m))
          × (r.1.current_bytes ≡ w.current_bytes)
    nack_returns alive = (
      ap (λ x. x.0) nack-moves,
      ap (λ x. view q x.1.db) nack-moves
          ∙ rw alive (
              view-insert_main q (encode_key m.priority (generate_id w.db).0) v'
                (remove (inflight_tree_name q) (to_be_bytes tag) (generate_id w.db).1)
              ∙ ap
                  (λ (u : View). record u {
                    main = put (encode_key m.priority (generate_id w.db).0) v' u.main;
                  })
                  taken_view),
      decoded_again,
      ap (λ x. x.1.current_bytes) nack-moves,
    )

    pub nack_buries :
        is_dead (attempts_limit w.db) (attempted_again m) ≡ true
        → let r = nack q tag (calm w) in
          (r.0 ≡ ok tt)
          × (view q r.1.db ≡ record (view q w.db) {
            inflight = without (to_be_bytes tag) (view q w.db).inflight;
            dead = put (encode_key m.priority (generate_id w.db).0) v' (view q w.db).dead;
            bound = issued (generate_id w.db).1;
          })
          × (deserialize_message v' ≡ done (attempted_again m))
          × (r.1.current_bytes ≡ w.current_bytes)
    nack_buries dead = (
      ap (λ x. x.0) nack-moves,
      ap (λ x. view q x.1.db) nack-moves
          ∙ rw dead (
              view-insert_dead q (encode_key m.priority (generate_id w.db).0) v'
                (remove (inflight_tree_name q) (to_be_bytes tag) (generate_id w.db).1)
              ∙ ap
                  (λ (u : View). record u {
                    dead = put (encode_key m.priority (generate_id w.db).0) v' u.dead;
                  })
                  taken_view),
      decoded_again,
      ap (λ x. x.1.current_bytes) nack-moves,
    )

  -- On a declared queue with a limit of attempts above 0, when no call of sled fails: `nack` of a
  -- message in flight that reaches the limit with this attempt, and decodes and encodes, moves it
  -- with this attempt to the dead letters under its priority and a new id, and not to the main
  -- tree. The attempts are below 2 ^ 32. The byte count stays as it was.
  pub nack_dead_letters :
      (w : Manager Db) (tag : DeliveryTag) (v v' : Bytes) (m : Message) (max : ℕ)
      → IsDeclared q w.db
      → lookup (to_be_bytes tag) (view q w.db).inflight ≡ some v
      → deserialize_message v ≡ done m
      → serialize_message (again m) ≡ done v'
      → attempts_limit w.db ≡ some max
      → 0 < max
      → max ≤ m.delivery_attempts + 1
      → m.delivery_attempts + 1 < 4294967296
      → let r = nack q tag (calm w) in
        (r.0 ≡ ok tt)
        × (view q r.1.db ≡ record (view q w.db) {
          inflight = without (to_be_bytes tag) (view q w.db).inflight;
          dead = put (encode_key m.priority (generate_id w.db).0) v' (view q w.db).dead;
          bound = issued (generate_id w.db).1;
        })
        × (deserialize_message v' ≡ done (again m))
        × (r.1.current_bytes ≡ w.current_bytes)
  nack_dead_letters w tag v v' m max declared held decodes encodes limit positive reached small =
      let counted = attempted_again-suc m small in
      let r =
        nack_buries w tag v v' m declared held decodes (ap serialize_message counted ∙ encodes)
          (rw limit (is_dead_at max m positive reached small)) in
      (r.0, r.1, message_round_trip (again m) v' encodes, r.3)
