-- ===== src/Store/Log/Append.antt =====
-- Entries that are appended to the log are read back.
use mathlib.Core.List.{append-nil, append_assoc}
use pelican_q.Base.{
  ℕ, suc, ◌≤◌, ◌<◌, ◌≡◌, refl, sym, ap, ◌∙◌, true, false, List, [], ◌∷◌, ◌++◌, arith, map, leb,
}
use pelican_q.Bytes.{Bytes, precedes}
use pelican_q.Bytes.RoundTrip.{precedes-to_be_bytes}
use pelican_q.Tree.{Tree}
use pelican_q.Failure.{done}
use pelican_q.Engine.Keys.Numbered.{Below, put-last, Below-append}
use pelican_q.Store.{LogEntry, Raft, RaftStore, returns, ◌>>=◌}
use pelican_q.Store.Log.{
  u64_max, be64, included, unbounded, start_of, end_of, range, decode_each, try_get_log_entries,
  append_each, append_to_log,
}
use pelican_q.Store.Log.Truncate.{calm}

range-Below :
    (n : ℕ) (t u : Tree)
    → n < u64_max
    → Below n t
    → range (be64 n) (be64 u64_max) (t ++ u) ≡ range (be64 n) (be64 u64_max) u
unfolding range
range-Below n [] u h a = refl
range-Below n ((j, w) ∷ t) u h a =
    let before : precedes j (be64 n) ≡ true =
      rw (a.0.1, precedes-to_be_bytes a.0.0 n (omega (arith, a.0.2)) (omega arith))
        (ground (arith, a.0.2)) in
    rw before (range-Below n t u h a.1)

module _ ⦃r : Raft⦄ where
  open r use {Members, entry_json}

  -- Entries with their encodings, whose indices grow from `n` on.
  abbrev pub Ascends : ℕ → List (LogEntry Members × Bytes) → Type 0
  Ascends n [] = Unit
  Ascends n ((e, b) ∷ es) =
      (n ≤ e.log_id.index)
      × (e.log_id.index < u64_max)
      × (entry_json.to_vec e ≡ done b)
      × Ascends (suc e.log_id.index) es

  abbrev rows : List (LogEntry Members × Bytes) → Tree
  rows = map (λ e. (be64 e.0.log_id.index, e.1))

  range-rows :
      (n m : ℕ) (es : List (LogEntry Members × Bytes))
      → m < u64_max
      → m ≤ n
      → Ascends n es
      → range (be64 m) (be64 u64_max) (rows es) ≡ rows es
  unfolding range
  range-rows n m [] h k a = refl
  range-rows n m ((e, b) ∷ es) h k a =
      let i = e.log_id.index in
      let after : precedes (be64 i) (be64 m) ≡ false =
        precedes-to_be_bytes i m (omega (arith, a.1)) (omega arith) ∙ ground (arith, a.0) in
      let before : precedes (be64 i) (be64 u64_max) ≡ true =
        precedes-to_be_bytes i u64_max (omega (arith, a.1)) (omega arith) ∙ ground (arith, a.1) in
      rw (after, before, range-rows (suc i) m es h (omega (arith, a.0)) a.3) refl

module _ {Db : Type 0} ⦃r : Raft⦄ where
  open r use {Members, entry_json}

  decode_each-rows :
      (n : ℕ) (es : List (LogEntry Members × Bytes)) (s : RaftStore Db Members)
      → Ascends n es
      → decode_each (rows es) (calm s) ≡ (returns (map (λ e. e.0) es), calm s)
  unfolding decode_each ◌>>=◌
  decode_each-rows n [] s a = refl
  decode_each-rows n ((e, b) ∷ es) s a =
      rw (entry_json.json_round_trip e b a.2)
        (rw (decode_each-rows (suc e.log_id.index) es s a.3) refl)

  append_each-rows :
      (n : ℕ) (es : List (LogEntry Members × Bytes)) (s : RaftStore Db Members)
      → Below n s.log
      → Ascends n es
      → append_each (map (λ e. e.0) es) (calm s)
        ≡ (returns tt, record (calm s) { log = s.log ++ rows es })
  unfolding append_each ◌>>=◌
  append_each-rows n [] s h a =
      ap (λ (t : Tree). (returns tt, record (calm s) { log = t })) (sym (append-nil s.log))
  append_each-rows n ((e, b) ∷ es) s h a =
      let i = e.log_id.index in
      let longer = record s { log = s.log ++ ((be64 i, b) ∷ []) } in
      rw a.2 (
        rw (put-last n i b s.log a.0 (omega (arith, a.1)) h) (
          append_each-rows (suc i) es longer (Below-append n i b s.log a.0 h) a.3
          ∙ ap (λ (t : Tree). (returns tt, record (calm s) { log = t }))
              (append_assoc s.log ((be64 i, b) ∷ []) (rows es))))

  -- When no call of sled fails: entries that encode, whose indices grow from `n` on and stay below
  -- 2 ^ 64 - 1, are appended to a log of smaller indices, and `try_get_log_entries` from `n` on
  -- then returns these entries in their order and no others. The metadata and the engine are as
  -- they were.
  pub try_get_log_entries-append_to_log :
      (n : ℕ) (es : List (LogEntry Members × Bytes)) (s : RaftStore Db Members)
      → n < u64_max
      → Below n s.log
      → Ascends n es
      → let r = append_to_log (map (λ e. e.0) es) (calm s) in
        (r.0 ≡ returns tt)
        × ((try_get_log_entries (included n) unbounded r.1).0 ≡ returns (map (λ e. e.0) es))
        × (r.1.info ≡ s.info)
        × (r.1.state_machine ≡ s.state_machine)
  unfolding append_to_log try_get_log_entries start_of end_of ◌>>=◌
  try_get_log_entries-append_to_log n es s small h a =
      let longer = record s { log = s.log ++ rows es } in
      let e : append_to_log (map (λ e. e.0) es) (calm s) ≡ (returns tt, calm longer) =
        rw (append_each-rows n es s h a) refl in
      let found : range (be64 n) (be64 u64_max) (s.log ++ rows es) ≡ rows es =
        range-Below n s.log (rows es) small h ∙ range-rows n n es small (omega arith) a in
      let some_room : leb u64_max n ≡ false = ground arith in
      (
        ap (λ x. x.0) e,
        rw e (rw some_room (rw found (rw (decode_each-rows n es longer a) refl))),
        ap (λ x. x.1.info) e,
        ap (λ x. x.1.state_machine) e,
      )
