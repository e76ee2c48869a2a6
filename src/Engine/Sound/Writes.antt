-- ===== src/Engine/Sound/Writes.antt =====
-- Each write that a method makes keeps the invariant of the queue.
use pelican_q.Base.{
  ℕ, ◌≤◌, ◌<◌, ◌≡◌, refl, ap, subst, false, [], ◌∷◌, ◌++◌, none, arith, length, drop, All, leb,
  Bool-cases, inl, inr,
}
use pelican_q.Bytes.{Bytes, same, precedes, to_be_bytes}
use pelican_q.Bytes.Order.{same→eq, same_refl}
use pelican_q.Bytes.RoundTrip.{u64_mod}
use pelican_q.Tree.{Tree, lookup, put, without}
use pelican_q.Tree.Lookup.{lookup-put}
use pelican_q.Engine.View.{View}
use pelican_q.Engine.Sound.{MainKey, TagKey, DueKey, NoClash, IsSound}
use pelican_q.Engine.Sound.Trees.{
  All-map, All-put, All-without, lookup-none-without, MainKey-mono, TagKey-mono, DueKey-mono,
  lookup_fresh, ids_fresh,
}

-- Symmetry of "another id".
same_sym : (a b : Bytes) → same a b ≡ false → same b a ≡ false
same_sym a b h = elim (Bool-cases (same b a)) [
  | inl e ↦ ground (arith, same→eq b a e, same_refl b, same_refl a)
  | inr e ↦ e
]

NoClash-put :
    (f : Tree) (b id : ℕ) (v : Bytes) (t : Tree)
    → lookup (to_be_bytes id) f ≡ none
    → All (λ g. same (drop 1 g.0) (to_be_bytes id) ≡ false) t
    → NoClash f t
    → NoClash f (put (b ∷ to_be_bytes id) v t)
unfolding put
NoClash-put f b id v [] h a c = (h, tt, tt)
NoClash-put f b id v ((j, w) ∷ t) h a c = elim (Bool-cases (same j (b ∷ to_be_bytes id))) [
  | inl e ↦ cc (
    ap (λ (x : Bytes). same (drop 1 x) (to_be_bytes id)) (same→eq j _ e),
    same_refl (to_be_bytes id),
    a.0,
  )
  | inr e ↦ elim (Bool-cases (precedes (b ∷ to_be_bytes id) j)) [
    | inl p ↦ rw (e, p) (h, (same_sym _ _ a.0, All-map t (λ g. same_sym _ _) a.1), c)
    | inr p ↦
        rw (e, p)
          (
            c.0,
            All-put (λ g. same (drop 1 j) (drop 1 g.0) ≡ false) _ v t a.0 c.1,
            NoClash-put f b id v t h a.1 c.2,
          )
  ]
]

NoClash-without : (k : Bytes) (f t : Tree) → NoClash f t → NoClash (without k f) t
NoClash-without k f [] c = tt
NoClash-without k f (e ∷ t) c =
    (lookup-none-without (drop 1 e.0) k f c.0, c.1, NoClash-without k f t c.2)

NoClash-put_inflight :
    (k v : Bytes) (f t : Tree)
    → All (λ g. same k (drop 1 g.0) ≡ false) t
    → NoClash f t
    → NoClash (put k v f) t
NoClash-put_inflight k v f [] a c = tt
NoClash-put_inflight k v f (e ∷ t) a c =
    (rw (lookup-put k (drop 1 e.0) v f, a.0) c.0, c.1, NoClash-put_inflight k v f t a.1 c.2)

module _ (v : View) (s : IsSound v) where
  -- An id is used up.
  pub IsSound-bound : (n : ℕ) → v.bound ≤ n → IsSound (record v { bound = n })
  IsSound-bound n h = record {
    main = All-map v.main (MainKey-mono v.bound n h) s.main;
    inflight = All-map v.inflight (TagKey-mono v.bound n h) s.inflight;
    dead = All-map v.dead (MainKey-mono v.bound n h) s.dead;
    scheduled = All-map v.scheduled (DueKey-mono v.bound n h) s.scheduled;
    dedup = s.dedup;
    fresh = elim s.fresh [ inl e ↦ inl (omega arith) | inr c ↦ inr c ];
  }

  -- A message enters the main tree under a new id.
  pub IsSound-enqueue :
      (b id n : ℕ) (value : Bytes)
      → v.bound ≤ id
      → id < n
      → IsSound (record v { bound = n; main = put (b ∷ to_be_bytes id) value v.main })
  IsSound-enqueue b id n value h k =
      let t = IsSound-bound n (omega arith) in
      record {
        main = All-put (MainKey n) _ value v.main (b, id, refl, k) t.main;
        inflight = t.inflight;
        dead = t.dead;
        scheduled = t.scheduled;
        dedup = s.dedup;
        fresh = elim s.fresh [
          | inl e ↦ inl (omega arith)
          | inr c ↦ elim (Bool-cases (leb n u64_mod)) [
            | inl fits ↦
                let small : id < u64_mod = ground arith in
                inr (
                  NoClash-put v.inflight b id value v.main
                    (lookup_fresh v.bound id v.inflight h small s.inflight)
                    (ids_fresh v.bound id v.main h small s.main) c)
            | inr over ↦ inl (ground arith)
          ]
        ];
      }

  pub IsSound-bury :
      (b id n : ℕ) (value : Bytes)
      → v.bound ≤ id
      → id < n
      → IsSound (record v { bound = n; dead = put (b ∷ to_be_bytes id) value v.dead })
  IsSound-bury b id n value h k =
      let t = IsSound-bound n (omega arith) in
      record {
        main = t.main;
        inflight = t.inflight;
        dead = All-put (MainKey n) _ value v.dead (b, id, refl, k) t.dead;
        scheduled = t.scheduled;
        dedup = s.dedup;
        fresh = t.fresh;
      }

  pub IsSound-schedule :
      (at id n : ℕ) (value : Bytes)
      → v.bound ≤ id
      → id < n
      → IsSound (record v {
        bound = n;
        scheduled = put (to_be_bytes at ++ to_be_bytes id) value v.scheduled;
      })
  IsSound-schedule at id n value h k =
      let t = IsSound-bound n (omega arith) in
      record {
        main = t.main;
        inflight = t.inflight;
        dead = t.dead;
        scheduled = All-put (DueKey n) _ value v.scheduled (at, id, refl, k) t.scheduled;
        dedup = s.dedup;
        fresh = t.fresh;
      }

  pub IsSound-dedup :
      (key value : Bytes) → length value ≡ 8 → IsSound (record v { dedup = put key value v.dedup })
  IsSound-dedup key value h = record {
    main = s.main;
    inflight = s.inflight;
    dead = s.dead;
    scheduled = s.scheduled;
    dedup = All-put (λ e. length e.1 ≡ 8) key value v.dedup h s.dedup;
    fresh = s.fresh;
  }

  -- A delivery ends.
  pub IsSound-settle : (k : Bytes) → IsSound (record v { inflight = without k v.inflight })
  IsSound-settle k = record {
    main = s.main;
    inflight = All-without (TagKey v.bound) k v.inflight s.inflight;
    dead = s.dead;
    scheduled = s.scheduled;
    dedup = s.dedup;
    fresh = elim s.fresh [ inl e ↦ inl e | inr c ↦ inr (NoClash-without k v.inflight v.main c) ];
  }

  pub IsSound-unschedule : (k : Bytes) → IsSound (record v { scheduled = without k v.scheduled })
  IsSound-unschedule k = record {
    main = s.main;
    inflight = s.inflight;
    dead = s.dead;
    scheduled = All-without (DueKey v.bound) k v.scheduled s.scheduled;
    dedup = s.dedup;
    fresh = s.fresh;
  }

  -- The first message of the main tree goes in flight, under the id of its key.
  pub IsSound-deliver :
      (k w value : Bytes) (t : Tree)
      → v.main ≡ (k, w) ∷ t
      → IsSound (record v { main = t; inflight = put (drop 1 k) value v.inflight })
  IsSound-deliver k w value t e =
      let keys : All (MainKey v.bound) ((k, w) ∷ t) = subst (All (MainKey v.bound)) e s.main in
      record {
        main = keys.1;
        inflight =
            All-put (TagKey v.bound) (drop 1 k) value v.inflight
              (keys.0.1, ap (drop 1) keys.0.2, keys.0.3) s.inflight;
        dead = s.dead;
        scheduled = s.scheduled;
        dedup = s.dedup;
        fresh = elim s.fresh [
          | inl h ↦ inl h
          | inr c ↦
              let clash : NoClash v.inflight ((k, w) ∷ t) = subst (NoClash v.inflight) e c in
              inr (NoClash-put_inflight (drop 1 k) value v.inflight t clash.1 clash.2)
        ];
      }
