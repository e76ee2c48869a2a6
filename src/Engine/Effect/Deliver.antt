-- ===== src/Engine/Effect/Deliver.antt =====
-- What `consume` and `ack` do to a queue.
use pelican_q.Base.{ℕ, ◌-◌, ◌<◌, ◌≡◌, min, refl, ap, ◌∙◌, [], ◌∷◌, none, some, length}
use pelican_q.Bytes.{Bytes, to_be_bytes, from_be_bytes}
use pelican_q.Bytes.Order.{same_refl}
use pelican_q.Bytes.RoundTrip.{u64_mod, from_be_bytes-to_be_bytes}
use pelican_q.Tree.Lookup.{without-first}
use pelican_q.Tree.{Tree, lookup, put}
use pelican_q.Failure.{ok, err, done, invalid_delivery_tag}
use pelican_q.Message.{Message, DeliveryTag}
use pelican_q.Platform.{Platform}
use pelican_q.Exec.{Manager, ◌>>=◌, open_tree}
use pelican_q.Engine.Keys.{inflight_tree_name, encode_key}
use pelican_q.Engine.Consume.{consume, ack}
use pelican_q.Engine.View.{View, view}
use pelican_q.Engine.View.Writes.{view-insert_inflight, view-remove_main}
use pelican_q.Engine.Effect.{calm, IsDeclared}

lookup-first : (k v : Bytes) (t : Tree) → lookup k ((k, v) ∷ t) ≡ some v
unfolding lookup
lookup-first k v t = rw (same_refl k)

module _ ⦃p : Platform⦄ (q : Bytes) where
  open p use {Db, entries, get, insert, remove, get-entries, deserialize_message}

  pub consume-first :
      (w : Manager Db) (b i : ℕ) (v : Bytes) (t : Tree) (m : Message)
      → IsDeclared q w.db
      → entries q w.db ≡ (b ∷ to_be_bytes i, v) ∷ t
      → deserialize_message v ≡ done m
      → consume q (calm w) ≡ (
        ok (some (from_be_bytes 0 (to_be_bytes i), m)),
        record (calm w) {
          db = insert (inflight_tree_name q) (to_be_bytes i) v (remove q (b ∷ to_be_bytes i) w.db);
        },
      )
  unfolding consume open_tree ◌>>=◌ to_be_bytes
  consume-first w b i v t m declared e decodes =
      let hit =
        get-entries q (b ∷ to_be_bytes i) w.db
        ∙ ap (lookup (b ∷ to_be_bytes i)) e
        ∙ lookup-first (b ∷ to_be_bytes i) v t in
      rw (declared.1, e) (rw hit (rw decodes refl))

  pub consume-first_view :
      (d : Db) (b i : ℕ) (v : Bytes) (t : Tree)
      → entries q d ≡ (b ∷ to_be_bytes i, v) ∷ t
      → view q (insert (inflight_tree_name q) (to_be_bytes i) v (remove q (b ∷ to_be_bytes i) d))
        ≡ record (view q d) { main = t; inflight = put (to_be_bytes i) v (view q d).inflight }
  consume-first_view d b i v t e =
      view-insert_inflight q (to_be_bytes i) v (remove q (b ∷ to_be_bytes i) d)
      ∙ ap (λ (u : View). record u { inflight = put (to_be_bytes i) v u.inflight })
          (view-remove_main q (b ∷ to_be_bytes i) d)
      ∙ ap
          (λ (s : Tree). record (view q d) {
            main = s;
            inflight = put (to_be_bytes i) v (view q d).inflight;
          })
          (without-first (b ∷ to_be_bytes i) v (entries q d) t e)

  -- On a declared queue, when no call of sled fails: if the main tree begins with an entry under
  -- the key of a priority and an id below 2 ^ 64, and its value decodes, `consume` returns the
  -- message with that id as its tag and moves the entry in flight under the tag. The other trees
  -- of the queue and the byte count stay as they were.
  pub consume_delivers :
      (w : Manager Db) (priority i : ℕ) (v : Bytes) (t : Tree) (m : Message)
      → IsDeclared q w.db
      → entries q w.db ≡ (encode_key priority i, v) ∷ t
      → i < u64_mod
      → deserialize_message v ≡ done m
      → let r = consume q (calm w) in
        (r.0 ≡ ok (some (i, m)))
        × (view q r.1.db ≡ record (view q w.db) {
          main = t;
          inflight = put (to_be_bytes i) v (view q w.db).inflight;
        })
        × (r.1.current_bytes ≡ w.current_bytes)
  unfolding encode_key
  consume_delivers w priority i v t m declared e fits decodes =
      let r = consume-first w (9 - min priority 9) i v t m declared e decodes in
      (
        ap (λ x. x.0) r ∙ ap (λ (n : ℕ). ok (some (n, m))) (from_be_bytes-to_be_bytes i fits),
        ap (λ x. view q x.1.db) r ∙ consume-first_view w.db (9 - min priority 9) i v t e,
        ap (λ x. x.1.current_bytes) r,
      )

  -- On a declared queue without waiting messages, when no call of sled fails, `consume` returns no
  -- message and changes nothing.
  pub consume_empty :
      (w : Manager Db)
      → IsDeclared q w.db
      → entries q w.db ≡ []
      → consume q (calm w) ≡ (ok none, calm w)
  unfolding consume open_tree ◌>>=◌
  consume_empty w declared e = rw (declared.1, e) refl

  pub ack-settles :
      (w : Manager Db) (tag : DeliveryTag) (v : Bytes)
      → IsDeclared q w.db
      → lookup (to_be_bytes tag) (view q w.db).inflight ≡ some v
      → ack q tag (calm w) ≡ (
        ok tt,
        record (calm w) {
          db = remove (inflight_tree_name q) (to_be_bytes tag) w.db;
          current_bytes = w.current_bytes - length v;
        },
      )
  unfolding ack open_tree ◌>>=◌
  ack-settles w tag v declared e =
      rw (declared.1, get-entries (inflight_tree_name q) (to_be_bytes tag) w.db ∙ e) refl

  -- An unknown tag is an error.
  pub ack-unknown :
      (w : Manager Db) (tag : DeliveryTag)
      → IsDeclared q w.db
      → lookup (to_be_bytes tag) (view q w.db).inflight ≡ none
      → (ack q tag (calm w)).0 ≡ err (invalid_delivery_tag tag)
  unfolding ack open_tree ◌>>=◌
  ack-unknown w tag declared e =
      rw (declared.1, get-entries (inflight_tree_name q) (to_be_bytes tag) w.db ∙ e) refl
