-- ===== src/Snapshot/RoundTrip.antt =====
-- Messages in flight keep their tags in a snapshot.
use mathlib.Core.List.{append-nil, append_assoc}
use pelican_q.Base.{ℕ, suc, ◌≤◌, ◌<◌, ◌≡◌, refl, sym, ap, subst, ◌∙◌, List, [], ◌∷◌, ◌++◌, map}
use pelican_q.Bytes.{Bytes, to_be_bytes}
use pelican_q.Bytes.Order.{same_refl}
use pelican_q.Bytes.RoundTrip.{u64_mod, from_be_bytes-to_be_bytes}
use pelican_q.Tree.{Tree}
use pelican_q.Failure.{ok, done}
use pelican_q.Message.{Message}
use pelican_q.Platform.{Platform}
use pelican_q.Exec.{Manager, ◌>>=◌, pure}
use pelican_q.Engine.Keys.Numbered.{Below, put-last, Below-append}
use pelican_q.Engine.Calls.{read_be64, insert_into}
use pelican_q.Engine.Effect.{calm}
use pelican_q.Snapshot.{read_tagged, restore_tagged}

-- A tag, its message and the encoding of the message.
abbrev pub Tagged : Type 0
Tagged = (ℕ × Message) × Bytes

abbrev rows : List Tagged → Tree
rows = map (λ e. (to_be_bytes e.0.0, e.1))

module _ ⦃p : Platform⦄ where
  open p use {
    Db, entries, insert, entries-insert, serialize_message, deserialize_message, message_round_trip,
  }

  -- The tags grow from `n` on, and each message has its encoding.
  abbrev pub Ascends : ℕ → List Tagged → Type 0
  Ascends n [] = Unit
  Ascends n (((i, m), b) ∷ es) =
      (n ≤ i) × (i < u64_mod) × (serialize_message m ≡ done b) × Ascends (suc i) es

  read_be64-tag : (i : ℕ) (w : Manager Db) → i < u64_mod → read_be64 (to_be_bytes i) w ≡ (ok i, w)
  unfolding read_be64 to_be_bytes pure
  read_be64-tag i w h = ap (λ (x : ℕ). (ok x, w)) (from_be_bytes-to_be_bytes i h)

  read_tagged-rows :
      (n : ℕ) (es : List Tagged) (w : Manager Db)
      → Ascends n es
      → read_tagged (rows es) (calm w) ≡ (ok (map (λ e. e.0) es), calm w)
  unfolding read_tagged ◌>>=◌
  read_tagged-rows n [] w a = refl
  read_tagged-rows n (((i, m), b) ∷ es) w a =
      rw (read_be64-tag i (calm w) a.1)
        (rw (message_round_trip m b a.2) (rw (read_tagged-rows (suc i) es w a.3) refl))

  abbrev restored_db : Bytes → List Tagged → Db → Db
  restored_db n [] d = d
  restored_db n (((i, m), b) ∷ es) d = restored_db n es (insert n (to_be_bytes i) b d)

  restore_tagged-calm :
      (k : ℕ) (n : Bytes) (es : List Tagged) (w : Manager Db)
      → Ascends k es
      → restore_tagged n (map (λ e. e.0) es) (calm w)
        ≡ (ok tt, record (calm w) { db = restored_db n es w.db })
  unfolding restore_tagged insert_into ◌>>=◌
  restore_tagged-calm k n [] w a = refl
  restore_tagged-calm k n (((i, m), b) ∷ es) w a =
      rw a.2
        (restore_tagged-calm (suc i) n es (record w { db = insert n (to_be_bytes i) b w.db }) a.3)

  entries-restored_db :
      (k : ℕ) (n : Bytes) (es : List Tagged) (d : Db)
      → Below k (entries n d)
      → Ascends k es
      → entries n (restored_db n es d) ≡ entries n d ++ rows es
  entries-restored_db k n [] d h a = sym (append-nil (entries n d))
  entries-restored_db k n (((i, m), b) ∷ es) d h a =
      let d' = insert n (to_be_bytes i) b d in
      let grown : entries n d' ≡ entries n d ++ ((to_be_bytes i, b) ∷ []) =
        simp (entries-insert, same_refl) (put-last k i b (entries n d) a.0 a.1 h) in
      let below : Below (suc i) (entries n d') =
        subst (Below (suc i)) (sym grown) (Below-append k i b (entries n d) a.0 h) in
      entries-restored_db (suc i) n es d' below a.3
      ∙ ap (λ (t : Tree). t ++ rows es) grown
      ∙ append_assoc (entries n d) ((to_be_bytes i, b) ∷ []) (rows es)

  -- When no call of sled fails: messages of a snapshot with growing tags below 2 ^ 64, which
  -- encode, are restored to an empty tree, and an export of that tree reads the same messages with
  -- the same tags, in their order.
  pub read_tagged-restore_tagged :
      (n : Bytes) (es : List Tagged) (w : Manager Db)
      → entries n w.db ≡ []
      → Ascends 0 es
      → let r = restore_tagged n (map (λ e. e.0) es) (calm w) in
        (r.0 ≡ ok tt) × (read_tagged (entries n r.1.db) r.1 ≡ (ok (map (λ e. e.0) es), r.1))
  read_tagged-restore_tagged n es w empty a =
      let e = restore_tagged-calm 0 n es w a in
      let restored : entries n (restored_db n es w.db) ≡ rows es =
        entries-restored_db 0 n es w.db (subst (Below 0) (sym empty) tt) a
        ∙ ap (λ (t : Tree). t ++ rows es) empty in
      (
        ap (λ x. x.0) e,
        rw e (rw restored (read_tagged-rows 0 es (record w { db = restored_db n es w.db }) a)),
      )
