-- ===== src/Engine/Effect/Refine/Drain.antt =====
-- A queue that is consumed for long enough gives every message.
use pelican_q.Base.{
  ℕ, zero, suc, ◌+◌, ◌≡◌, refl, sym, ap, subst, ◌∙◌, false, Bool-cases, inl, inr, List, [], ◌∷◌,
  ◌++◌, some, arith, length, min, ltb,
}
use mathlib.Core.List.{Perm, perm_middle}
use mathlib.Core.List.Perm
use pelican_q.Bytes.{Bytes, same}
use pelican_q.Message.{Message}
use pelican_q.Platform.{Platform}
use pelican_q.Exec.{Manager}
use pelican_q.Engine.Keys.{meta_queues_tree}
use pelican_q.Engine.Effect.{calm}
use pelican_q.Engine.Effect.Refine.{Waiting, enqueue_by_priority}
use pelican_q.Engine.Effect.Refine.Run.{
  Call, submit, fetch, Reply, submitted, fetched, promised, run_promised, run_calls, AdmitsAll,
  Implements, run_calls-run_promised,
}

unfoldable pub submits : List Message → List Call
submits [] = []
submits (m ∷ ms) = submit m ∷ submits ms

unfoldable pub fetches : ℕ → List Call
fetches zero = []
fetches (suc n) = fetch ∷ fetches n

unfoldable pub accepted : List Message → List Reply
accepted [] = []
accepted (m ∷ ms) = submitted m.id ∷ accepted ms

unfoldable pub delivered : List Message → List Reply
delivered [] = []
delivered (m ∷ ms) = fetched (some m) ∷ delivered ms

abbrev enqueue_all : List Message → Waiting → Waiting
enqueue_all [] ms = ms
enqueue_all (x ∷ xs) ms = enqueue_all xs (enqueue_by_priority x ms)

enqueue_by_priority-perm : (m : Message) (ms : Waiting) → Perm (enqueue_by_priority m ms) (m ∷ ms)
unfolding enqueue_by_priority
enqueue_by_priority-perm m [] = Perm.rfl
enqueue_by_priority-perm m (x ∷ ms) =
    elim (Bool-cases (ltb (min x.priority 9) (min m.priority 9))) [
      | inl e ↦ rw e Perm.rfl
      | inr e ↦ rw e (Perm.trans (Perm.cons x (enqueue_by_priority-perm m ms)) (Perm.swap m x ms))
    ]

enqueue_all-perm : (xs : List Message) (ms : Waiting) → Perm (enqueue_all xs ms) (xs ++ ms)
enqueue_all-perm [] ms = Perm.rfl
enqueue_all-perm (x ∷ xs) ms =
    Perm.trans (enqueue_all-perm xs (enqueue_by_priority x ms))
      (Perm.trans (Perm.append_left xs (enqueue_by_priority-perm x ms)) (perm_middle xs ms))

length-enqueue_by_priority :
    (m : Message) (ms : Waiting) → length (enqueue_by_priority m ms) ≡ suc (length ms)
unfolding enqueue_by_priority
length-enqueue_by_priority m [] = refl
length-enqueue_by_priority m (x ∷ ms) = ground (arith, length-enqueue_by_priority m ms)

length-enqueue_all :
    (xs : List Message) (ms : Waiting) → length (enqueue_all xs ms) ≡ length xs + length ms
length-enqueue_all [] ms = omega arith
length-enqueue_all (x ∷ xs) ms =
    omega (arith, length-enqueue_all xs (enqueue_by_priority x ms), length-enqueue_by_priority x ms)

run_promised-fetches : (ms : Waiting) → run_promised (fetches (length ms)) ms ≡ (delivered ms, [])
unfolding run_promised promised fetches delivered
run_promised-fetches [] = refl
run_promised-fetches (m ∷ ms) = rw (run_promised-fetches ms) refl

run_promised-submits :
    (xs : List Message) (cs : List Call) (ms : Waiting)
    → let rest = run_promised cs (enqueue_all xs ms) in
      run_promised (submits xs ++ cs) ms ≡ (accepted xs ++ rest.0, rest.1)
unfolding run_promised promised submits accepted
run_promised-submits [] cs ms = refl
run_promised-submits (x ∷ xs) cs ms =
    rw (run_promised-submits xs cs (enqueue_by_priority x ms)) refl

run_promised_drains :
    (xs : List Message) (ms : Waiting)
    → run_promised (submits xs ++ fetches (length xs + length ms)) ms
      ≡ (accepted xs ++ delivered (enqueue_all xs ms), [])
run_promised_drains xs ms =
    run_promised-submits xs (fetches (length xs + length ms)) ms
    ∙ ap
        (λ (n : ℕ).
          let r = run_promised (fetches n) (enqueue_all xs ms) in (accepted xs ++ r.0, r.1))
        (sym (length-enqueue_all xs ms))
    ∙ ap (λ (r : List Reply × Waiting). (accepted xs ++ r.0, r.1))
        (run_promised-fetches (enqueue_all xs ms))

module _ ⦃p : Platform⦄ (q : Bytes) where
  -- On a declared queue that is not the tree of the queues, whose main tree holds some messages
  -- under ids given out before, when no call of sled fails: if more messages are published and
  -- `consume` is then called once for each, old and new, every `publish` is accepted, every call
  -- of `consume` returns a message, together they return each message exactly once, and the main
  -- tree is empty in the end. Each published message has no key and no delivery time, encodes,
  -- fits under the limit and gets an id below 2 ^ 64.
  pub every_message_delivered :
      (xs : List Message) (ms : Waiting) (w : Manager p.Db)
      → same q meta_queues_tree ≡ false
      → Implements q ms w
      → AdmitsAll q (submits xs ++ fetches (length xs + length ms)) (calm w)
      → let r = run_calls q (submits xs ++ fetches (length xs + length ms)) (calm w) in
        (ys : List Message) × Perm ys (xs ++ ms)
        × (r.0 ≡ accepted xs ++ delivered ys)
        × Implements q [] r.1
  every_message_delivered xs ms w other h a =
      let cs = submits xs ++ fetches (length xs + length ms) in
      let ran = run_calls-run_promised q cs ms w other h a in
      let drained = run_promised_drains xs ms in
      (
        enqueue_all xs ms,
        enqueue_all-perm xs ms,
        ran.0 ∙ ap (λ x. x.0) drained,
        subst (λ x. Implements q x.1 (run_calls q cs (calm w)).1) drained ran.1,
      )
