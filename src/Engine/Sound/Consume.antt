-- ===== src/Engine/Sound/Consume.antt =====
-- `consume` and `ack` keep the invariant of the queue on every ending, and neither panics nor loops.
use pelican_q.Base.{ℕ, suc, ◌≡◌, refl, sym, ap, subst, ◌∙◌, [], ◌∷◌, Option, none, some, drop, All}
use pelican_q.Bytes.{Bytes, to_be_bytes}
use pelican_q.Bytes.Order.{same_refl}
use pelican_q.Tree.Lookup.{without-first}
use pelican_q.Tree.{Tree, lookup, put}
use pelican_q.Message.{DeliveryTag}
use pelican_q.Failure.{ok}
use pelican_q.Platform.{Platform}
use pelican_q.Exec.{Manager, Exec, ◌>>=◌, ◌>>◌, pure, update_db}
use pelican_q.Exec.Ensures.{
  Ends, Ensures, Settles, next, open_then, from_less, pure-Ensures, raise-Ensures, encoded-Ensures,
  gets-Ensures, reads-Ensures, check-Ensures, attempt-Ensures, set_bytes-Ensures, update_db-Ensures,
}
use pelican_q.Engine.Keys.{inflight_tree_name}
use pelican_q.Engine.Consume.{
  Delivery, first_key, id_bytes, min_key, move_inflight, deliver, consume_loop, consume, settle_ack,
  ack,
}
use pelican_q.Engine.View.{View, view}
use pelican_q.Engine.View.Writes.{view-insert_inflight, view-remove_main, view-remove_inflight}
use pelican_q.Engine.Sound.{IsSound, MainKey}
use pelican_q.Engine.Sound.Writes.{IsSound-deliver, IsSound-settle}
use pelican_q.Engine.Sound.Calls.{SoundAt, expect_queue-Ensures}

lookup-first : (k v : Bytes) (t : Tree) → lookup k ((k, v) ∷ t) ≡ some v
unfolding lookup
lookup-first k v t = rw (same_refl k)

module _ ⦃p : Platform⦄ (q : Bytes) where
  open p use {Db, entries, get, insert, remove, get-entries, deserialize_message}

  -- `key` is the first of the main tree.
  abbrev IsFirst : Bytes → Db → Type 0
  IsFirst key d = (w : Bytes) × (t : Tree) × (entries q d ≡ (key, w) ∷ t)

  abbrev Least : Option Bytes → Db → Type 0
  Least none d = Unit
  Least (some key) d = IsFirst key d

  first-Least :
      (read : Option (Unit {0})) (es : Tree) (d : Db)
      → es ≡ entries q d
      → Least (elim read [ none ↦ none | some ok_read ↦ first_key es ]) d
  unfolding first_key
  first-Least none es d e = tt
  first-Least (some a) [] d e = tt
  first-Least (some a) ((k, v) ∷ t) d e = (v, t, sym e)

  min_key-Ensures : Ensures (SoundAt q) (λ d. Unit {0}) (min_key q) Least
  unfolding min_key
  min_key-Ensures = next attempt-Ensures (λ read.
      next (gets-Ensures (entries q))
        (λ es. pure-Ensures Least _ (λ d i x. first-Least read es d x.0)))

  -- A main key has its nine bytes.
  id_bytes_main :
      (b i : ℕ) (w : Manager Db) → id_bytes (b ∷ to_be_bytes i) w ≡ (ok (to_be_bytes i), w)
  unfolding id_bytes to_be_bytes pure
  id_bytes_main b i w = refl

  id_bytes-Ensures :
      (key : Bytes)
      → Ensures (SoundAt q) (IsFirst key) (id_bytes key) (λ id d. (id ≡ drop 1 key) × IsFirst key d)
  id_bytes-Ensures key = record {
    at = λ w i f.
        let keys : All (MainKey _) ((key, f.0) ∷ f.1) = subst (All (MainKey _)) f.2 i.main in
        let takes : id_bytes key w ≡ (ok (drop 1 key), w) =
          subst (λ k. id_bytes k w ≡ (ok (drop 1 k), w)) (sym keys.0.2)
            (id_bytes_main keys.0.0 keys.0.1 w) in
        subst (Ends (SoundAt q) (λ id d. (id ≡ drop 1 key) × IsFirst key d)) (sym takes)
          (i, (refl, f));
  }

  abbrev Moved : Option Bytes → Db → Type 0
  Moved none d = ⊥
  Moved (some value) d = Unit {0}

  deliver-SoundAt :
      (key value : Bytes) (d : Db)
      → SoundAt q d
      → IsFirst key d
      → SoundAt q (insert (inflight_tree_name q) (drop 1 key) value (remove q key d))
  deliver-SoundAt key value d i f =
      subst IsSound
        (sym (
          view-insert_inflight q (drop 1 key) value (remove q key d)
          ∙ ap (λ (v : View). record v { inflight = put (drop 1 key) value v.inflight })
              (view-remove_main q key d)
          ∙ ap
              (λ (t : Tree). record (view q d) {
                main = t;
                inflight = put (drop 1 key) value (view q d).inflight;
              })
              (without-first key f.0 (entries q d) f.1 f.2)))
        (IsSound-deliver (view q d) i key f.0 value f.1 f.2)

  move_found-Ensures :
      (key id : Bytes) (found : Option Bytes)
      → Ensures
          (SoundAt q)
          (λ d. (found ≡ get q key d) × (id ≡ drop 1 key) × IsFirst key d)
          (elim found [
            | none ↦ pure none
            | some value ↦
                update_db (λ d. insert (inflight_tree_name q) id value (remove q key d))
                >> pure (some value)
          ])
          Moved
  move_found-Ensures key id none =
      pure-Ensures Moved none (λ d i x.
        cc (get-entries q key d, ap (lookup key) x.2.2, lookup-first key x.2.0 x.2.1, x.0))
  move_found-Ensures key id (some value) =
      next
        (update_db-Ensures (λ d. Unit {0}) _
          (λ d i x. (
            subst (λ k. SoundAt q (insert (inflight_tree_name q) k value (remove q key d)))
                (sym x.1) (deliver-SoundAt key value d i x.2),
            tt,
          )))
        (λ _. pure-Ensures Moved (some value) (λ d i x. tt))

  move_inflight-Ensures :
      (key id : Bytes)
      → Ensures (SoundAt q) (λ d. (id ≡ drop 1 key) × IsFirst key d) (move_inflight q key id) Moved
  unfolding move_inflight
  move_inflight-Ensures key id = next check-Ensures (λ _.
      next (gets-Ensures (get q key))
        (λ found. from_less (λ d i x. (x.0, x.1.0, x.1.1)) (move_found-Ensures key id found)))

  deliver-Ensures :
      (id value : Bytes) → Ensures (SoundAt q) (λ d. Unit {0}) (deliver id value) (λ a d. Unit {0})
  unfolding deliver
  deliver-Ensures id value =
      next (encoded-Ensures _) (λ m. pure-Ensures (λ a d. Unit {0}) _ (λ d i x. tt))

  abbrev Done : Option Delivery → Db → Type 0
  Done a d = Unit {0}

  round-Ensures :
      (again : Exec Db (Option Delivery)) (id : Bytes) (moved : Option Bytes)
      → Ensures
          (SoundAt q)
          (Moved moved)
          (elim moved [ none ↦ again | some value ↦ deliver id value ])
          Done
  round-Ensures again id none = record { at = λ w i x. absurd x }
  round-Ensures again id (some value) = deliver-Ensures id value

  loop-Ensures :
      (again : Exec Db (Option Delivery)) (least : Option Bytes)
      → Ensures
          (SoundAt q)
          (Least least)
          (elim least [
            | none ↦ pure none
            | some key ↦ id_bytes key >>= λ id. move_inflight q key id >>= λ moved. elim moved [
              | none ↦ again
              | some value ↦ deliver id value
            ]
          ])
          Done
  loop-Ensures again none = pure-Ensures Done none (λ d i x. tt)
  loop-Ensures again (some key) =
      next (id_bytes-Ensures key)
        (λ id. next (move_inflight-Ensures key id) (λ moved. round-Ensures again id moved))

  consume_loop-Ensures :
      (fuel : ℕ) → Ensures (SoundAt q) (λ d. Unit {0}) (consume_loop (suc fuel) q) Done
  unfolding consume_loop
  consume_loop-Ensures fuel =
      next min_key-Ensures (λ least. loop-Ensures (consume_loop fuel q) least)

  consume-Ensures : Ensures (SoundAt q) (λ d. Unit {0}) (consume q) Done
  unfolding consume
  consume-Ensures =
      next (expect_queue-Ensures q q)
        (λ _. open_then q _ (open_then (inflight_tree_name q) _ (consume_loop-Ensures 0)))

  -- `consume` on a sound queue, whichever calls of sled fail: the queue stays sound, and the call
  -- returns or reports an error. In particular no key is too short for its slice, and the loop
  -- ends.
  pub consume-IsSound : (w : Manager Db) → IsSound (view q w.db) → Settles (SoundAt q) (consume q w)
  consume-IsSound w i = consume-Ensures.at w i tt

  settle-Ensures :
      (tag : DeliveryTag) (removed : Option Bytes)
      → Ensures (SoundAt q) (λ d. Unit {0}) (settle_ack tag removed) (λ a d. Unit {0})
  unfolding settle_ack
  settle-Ensures tag none = raise-Ensures _ _
  settle-Ensures tag (some value) = next (reads-Ensures _) (λ n. set_bytes-Ensures _)

  ack-Ensures :
      (tag : DeliveryTag) → Ensures (SoundAt q) (λ d. Unit {0}) (ack q tag) (λ a d. Unit {0})
  unfolding ack
  ack-Ensures tag = next (expect_queue-Ensures q q) (λ _. open_then (inflight_tree_name q) _ (
      next check-Ensures (λ _.
        next (gets-Ensures (get (inflight_tree_name q) (to_be_bytes tag))) (λ removed.
          next
            (update_db-Ensures (λ d. Unit {0}) _
              (λ d i x. (
                subst IsSound (sym (view-remove_inflight q (to_be_bytes tag) d))
                    (IsSound-settle (view q d) i (to_be_bytes tag)),
                tt,
              )))
            (λ _. settle-Ensures tag removed)))))

  -- `ack` on a sound queue, whichever calls of sled fail: the queue stays sound, and the call
  -- returns or reports an error.
  pub ack-IsSound :
      (tag : DeliveryTag) (w : Manager Db)
      → IsSound (view q w.db)
      → Settles (SoundAt q) (ack q tag w)
  ack-IsSound tag w i = (ack-Ensures tag).at w i tt
