-- ===== src/Engine/Consume.antt =====
-- pelicanq-core/src/queue.rs: `consume` and `ack`.
use pelican_q.Base.{
  ℕ, zero, suc, ◌-◌, [], ◌∷◌, Option, none, some, ltb, length, take, drop, if◌then◌else◌,
}
use pelican_q.Bytes.{Bytes, to_be_bytes, from_be_bytes}
use pelican_q.Tree.{Tree}
use pelican_q.Failure.{invalid_delivery_tag}
use pelican_q.Message.{Message, DeliveryTag}
use pelican_q.Platform.{Platform}
use pelican_q.Exec.{
  Exec, ◌>>=◌, ◌>>◌, pure, raise, panics, loops, gets, attempt, encoded, check, set_bytes,
  update_db, open_tree,
}
use pelican_q.Engine.Keys.{inflight_tree_name}
use pelican_q.Engine.Calls.{expect_queue, scan}

abbrev pub Delivery : Type 0
Delivery = DeliveryTag × Message

unfoldable pub first_key : Tree → Option Bytes
first_key [] = none
first_key ((k, v) ∷ es) = some k

-- `[1..9]` of a key; a shorter key panics.
unfoldable pub id_bytes : {Db : Type 0} → Bytes → Exec Db Bytes
id_bytes key = if ltb (length key) 9 then panics else pure (take 8 (drop 1 key))

module _ ⦃p : Platform⦄ where
  open p use {Db, get, insert, remove, deserialize_message}

  -- `iter().next().and_then(|r| r.ok())`: an entry that cannot be read counts as none.
  unfoldable pub min_key : Bytes → Exec Db (Option Bytes)
  unfolding first_key scan
  min_key queue = do
    read ← attempt check
    es ← scan queue
    pure (elim read [ none ↦ none | some ok_read ↦ first_key es ])

  -- The transaction moves the entry, or aborts if the key is gone.
  unfoldable pub move_inflight : Bytes → Bytes → Bytes → Exec Db (Option Bytes)
  move_inflight queue key id = do
    check
    found ← gets (λ w. get queue key w.db)
    elim found [
      | none ↦ pure none
      | some value ↦ do
        update_db (λ d. insert (inflight_tree_name queue) id value (remove queue key d))
        pure (some value)
    ]

  unfoldable pub deliver : Bytes → Bytes → Exec Db (Option Delivery)
  deliver id value = do
    message ← encoded (deserialize_message value)
    pure (some (from_be_bytes 0 id, message))

  -- An aborted transaction goes round the loop again; `fuel` counts the rounds.
  unfoldable pub consume_loop : ℕ → Bytes → Exec Db (Option Delivery)
  unfolding min_key id_bytes move_inflight deliver
  consume_loop zero queue = loops
  consume_loop (suc fuel) queue =
      let again = consume_loop fuel queue in
      do
        least ← min_key queue
        elim least [
          | none ↦ pure none
          | some key ↦ do
            id ← id_bytes key
            moved ← move_inflight queue key id
            elim moved [ none ↦ again | some value ↦ deliver id value ]
        ]

  -- The manager is borrowed alone for the call: nothing takes the key in between, and one round is
  -- enough.
  unfoldable pub consume : Bytes → Exec Db (Option Delivery)
  unfolding expect_queue consume_loop
  consume queue = do
    expect_queue queue
    t ← open_tree queue
    open_tree (inflight_tree_name queue)
    consume_loop 1 t

  -- The bytes of the removed message are given back; an unknown tag is an error.
  unfoldable pub settle_ack : DeliveryTag → Option Bytes → Exec Db Unit
  settle_ack tag (some value) = do
    current_bytes ← gets (λ w. w.current_bytes)
    set_bytes (current_bytes - length value)
  settle_ack tag none = raise (invalid_delivery_tag tag)

  unfoldable pub ack : Bytes → DeliveryTag → Exec Db Unit
  unfolding expect_queue settle_ack
  ack queue tag = do
    expect_queue queue
    n ← open_tree (inflight_tree_name queue)
    check
    removed ← gets (λ w. get n (to_be_bytes tag) w.db)
    update_db (remove n (to_be_bytes tag))
    settle_ack tag removed
