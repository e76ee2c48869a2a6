-- ===== src/Store/Log/Truncate.antt =====
-- What a removal of a range of log indices leaves of the log.
use pelican_q.Base.{
  ℕ, ◌<◌, ◌≡◌, refl, ap, ◌∙◌, Bool, true, false, not, ◌&&◌, ◌||◌, List, [], ◌∷◌, none, some, arith,
  map, leb, ltb, Bool-cases, inl, inr, if◌then◌else◌,
}
use pelican_q.Bytes.{Bytes, same, precedes}
use pelican_q.Bytes.Order.{same→eq, same_refl}
use pelican_q.Bytes.RoundTrip.{u64_mod, precedes-to_be_bytes}
use pelican_q.Tree.{Tree, lookup, put, without, IsOrdered}
use pelican_q.Tree.Lookup.{lookup-put, lookup-without}
use pelican_q.Tree.Ordered.{without-IsOrdered}
use pelican_q.Failure.{done}
use pelican_q.Store.{LogId, Raft, RaftStore, returns, ◌>>=◌}
use pelican_q.Store.Log.{
  u64_max, be64, last_purged_key, range_through, meta_set, meta_get_single, decode_meta,
  collect_keys, remove_keys, remove_through, delete_conflict_logs_since, purge_logs_upto,
}

abbrev remove_all : List Bytes → Tree → Tree
remove_all [] t = t
remove_all (k ∷ ks) t = remove_all ks (without k t)

abbrev listed : Bytes → Tree → Bool
listed k [] = false
listed k ((j, v) ∷ t) = same j k || listed k t

abbrev keys_of : Tree → List Bytes
keys_of t = map (λ e. e.0) t

lookup-remove_all :
    (k : Bytes) (u t : Tree)
    → IsOrdered t
    → lookup k (remove_all (keys_of u) t) ≡ (if listed k u then none else lookup k t)
lookup-remove_all k [] t o = refl
lookup-remove_all k ((j, v) ∷ u) t o =
    lookup-remove_all k u (without j t) (without-IsOrdered j t o)
    ∙ (rw (lookup-without j k t o) (go (same j k) (listed k u)))
  where
    go :
        (b c : Bool)
        → (if c then none else (if b then none else lookup k t))
          ≡ (if b || c then none else lookup k t)
    go true true = refl
    go true false = refl
    go false true = refl
    go false false = refl

abbrev within : Bytes → Bytes → Bytes → Bool
within a b k = not (precedes k a) && not (precedes b k)

listed-range_through :
    (a b k : Bytes) (t : Tree) → within a b k ≡ false → listed k (range_through a b t) ≡ false
unfolding range_through
listed-range_through a b k [] h = refl
listed-range_through a b k ((j, v) ∷ t) h = elim (Bool-cases (within a b j)) [
  | inl e ↦ elim (Bool-cases (same j k)) [
    | inl f ↦ absurd (ground (arith, ap (within a b) (same→eq j k f)))
    | inr f ↦ rw e (rw f (listed-range_through a b k t h))
  ]
  | inr e ↦ rw e (listed-range_through a b k t h)
]

unlisted_parts :
    (k j v : Bytes) (w : Bool) (u : Tree)
    → listed k (if w then (j, v) ∷ u else u) ≡ false
    → (same j k && w ≡ false) × (listed k u ≡ false)
unlisted_parts k j v true u l = (ground arith, ground arith)
unlisted_parts k j v false u l = (ground arith, l)

unlisted-range_through :
    (a b k : Bytes) (t : Tree)
    → within a b k ≡ true
    → listed k (range_through a b t) ≡ false
    → lookup k t ≡ none
unfolding range_through lookup
unlisted-range_through a b k [] h l = refl
unlisted-range_through a b k ((j, v) ∷ t) h l =
    let parts = unlisted_parts k j v (within a b j) (range_through a b t) l in
    elim (Bool-cases (same j k)) [
      | inl f ↦
          let whole : within a b j ≡ true = ap (within a b) (same→eq j k f) ∙ h in
          absurd (ground (arith, parts.0))
      | inr f ↦ rw f (unlisted-range_through a b k t h parts.1)
    ]

lookup-removed :
    (a b k : Bytes) (t : Tree)
    → IsOrdered t
    → lookup k (remove_all (keys_of (range_through a b t)) t)
      ≡ (if within a b k then none else lookup k t)
lookup-removed a b k t o =
    lookup-remove_all k (range_through a b t) t o ∙ elim (Bool-cases (within a b k)) [
      | inl e ↦ rw e (elim (Bool-cases (listed k (range_through a b t))) [
        | inl l ↦ rw l refl
        | inr l ↦ rw l (unlisted-range_through a b k t e l)
      ])
      | inr e ↦ rw (e, listed-range_through a b k t e) refl
    ]

abbrev truncated : ℕ → ℕ → Tree → Tree
truncated start end t = remove_all (keys_of (range_through (be64 start) (be64 end) t)) t

within_indices :
    (start end i : ℕ)
    → start < u64_mod
    → end < u64_mod
    → i < u64_mod
    → within (be64 start) (be64 end) (be64 i) ≡ leb start i && leb i end
within_indices start end i h k l =
    rw (precedes-to_be_bytes i start l h, precedes-to_be_bytes end i k l) (ground arith)

module _ {Db : Type 0} ⦃r : Raft⦄ where
  open r use {Members, log_id_json}

  abbrev pub calm : RaftStore Db Members → RaftStore Db Members
  calm s = record s { faults = [] }

  collect_keys-calm :
      (t : Tree) (s : RaftStore Db Members)
      → collect_keys t (calm s) ≡ (returns (keys_of t), calm s)
  unfolding collect_keys ◌>>=◌
  collect_keys-calm [] s = refl
  collect_keys-calm ((k, v) ∷ t) s = rw (collect_keys-calm t s) refl

  remove_keys-calm :
      (ks : List Bytes) (s : RaftStore Db Members)
      → remove_keys ks (calm s) ≡ (returns tt, record (calm s) { log = remove_all ks s.log })
  unfolding remove_keys ◌>>=◌
  remove_keys-calm [] s = refl
  remove_keys-calm (k ∷ ks) s = remove_keys-calm ks (record s { log = without k s.log })

  remove_through-calm :
      (start end : ℕ) (s : RaftStore Db Members)
      → remove_through start end (calm s)
        ≡ (returns tt, record (calm s) { log = truncated start end s.log })
  unfolding remove_through ◌>>=◌
  remove_through-calm start end s =
      rw (collect_keys-calm (range_through (be64 start) (be64 end) s.log) s)
        (remove_keys-calm (keys_of (range_through (be64 start) (be64 end) s.log)) s)

  -- When no call of sled fails, `delete_conflict_logs_since` removes the entries of an ordered log
  -- from the index of the position on, and leaves those before it, the metadata and the engine as
  -- they were. Indices are below 2 ^ 64.
  pub delete_conflict_logs_since_truncates :
      (log_id : LogId) (i : ℕ) (s : RaftStore Db Members)
      → IsOrdered s.log
      → log_id.index < u64_mod
      → i < u64_mod
      → let r = delete_conflict_logs_since log_id (calm s) in
        (r.0 ≡ returns tt)
        × (lookup (be64 i) r.1.log ≡ (if ltb i log_id.index then lookup (be64 i) s.log else none))
        × (r.1.info ≡ s.info)
        × (r.1.state_machine ≡ s.state_machine)
  unfolding delete_conflict_logs_since ◌>>=◌
  delete_conflict_logs_since_truncates log_id i s o h k =
      let e : delete_conflict_logs_since log_id (calm s)
          ≡ (returns tt, record (calm s) { log = truncated log_id.index u64_max s.log }) =
        rw (remove_through-calm log_id.index u64_max s) refl in
      (
        ap (λ x. x.0) e,
        ap (λ x. lookup (be64 i) x.1.log) e
            ∙ lookup-removed (be64 log_id.index) (be64 u64_max) (be64 i) s.log o
            ∙ (rw (within_indices log_id.index u64_max i h (omega arith) k) (ground arith)),
        ap (λ x. x.1.info) e,
        ap (λ x. x.1.state_machine) e,
      )

  -- When no call of sled fails and the position encodes, `purge_logs_upto` removes the entries of
  -- an ordered log up to the index of the position, leaves those after it and the engine as they
  -- were, and the position is what is read as the last one purged. Indices are below 2 ^ 64.
  pub purge_logs_upto_purges :
      (log_id : LogId) (b : Bytes) (i : ℕ) (s : RaftStore Db Members)
      → IsOrdered s.log
      → log_id.index < u64_mod
      → i < u64_mod
      → log_id_json.to_vec log_id ≡ done b
      → let r = purge_logs_upto log_id (calm s) in
        (r.0 ≡ returns tt)
        × (lookup (be64 i) r.1.log ≡ (if ltb log_id.index i then lookup (be64 i) s.log else none))
        × ((meta_get_single log_id_json last_purged_key r.1).0 ≡ returns (some log_id))
        × (r.1.state_machine ≡ s.state_machine)
  unfolding purge_logs_upto meta_set meta_get_single decode_meta ◌>>=◌
  purge_logs_upto_purges log_id b i s o h k encodes =
      let e : purge_logs_upto log_id (calm s) ≡ (
        returns tt,
        record (calm s) {
          log = truncated 0 log_id.index s.log;
          info = put last_purged_key b s.info;
        },
      ) =
        rw (remove_through-calm 0 log_id.index s, encodes) refl in
      (
        ap (λ x. x.0) e,
        ap (λ x. lookup (be64 i) x.1.log) e
            ∙ lookup-removed (be64 0) (be64 log_id.index) (be64 i) s.log o
            ∙ (rw (within_indices 0 log_id.index i (omega arith) h k) (ground arith)),
        ap (λ x. (meta_get_single log_id_json last_purged_key x.1).0) e
            ∙ (rw
                (
                  lookup-put last_purged_key last_purged_key b s.info,
                  same_refl last_purged_key,
                  log_id_json.json_round_trip log_id b encodes,
                )
                refl),
        ap (λ x. x.1.state_machine) e,
      )
