-- ===== src/Fifo.antt =====
-- pelicanq-core/src/queue.rs: `Queue`, the queue in memory.
use pelican_q.Base.{
  ℕ, ◌+◌, ◌≡◌, refl, ap, ◌∙◌, List, [], ◌∷◌, ◌++◌, Option, none, some, zero, suc, take, sym, length,
  length-append,
}
use mathlib.Core.List.{append-nil, append_assoc}
use pelican_q.Bytes.{Bytes}
use pelican_q.Message.{Message}

pub record Queue : Type 0 where
  pub name : Bytes
  pub messages : List Message

unfoldable pub new_queue : Bytes → Queue
new_queue name = record { name = name; messages = [] }

-- `push_back`
unfoldable pub publish : Message → Queue → Queue
publish message q = record q { messages = q.messages ++ (message ∷ []) }

-- `pop_front`
abbrev pop_front : List Message → Option Message × List Message
pop_front [] = (none, [])
pop_front (m ∷ ms) = (some m, ms)

unfoldable pub consume : Queue → Option Message × Queue
consume q = ((pop_front q.messages).0, record q { messages = (pop_front q.messages).1 })

unfoldable pub depth : Queue → ℕ
depth q = length q.messages

unfoldable pub publish_all : List Message → Queue → Queue
publish_all [] q = q
publish_all (m ∷ ms) q = publish_all ms (publish m q)

abbrev after : Option Message × Queue → (Queue → List Message) → List Message
after (none, q) rest = []
after (some m, q) rest = m ∷ rest q

-- The messages that as many calls of `consume` give.
unfoldable pub consume_all : ℕ → Queue → List Message
consume_all zero q = []
consume_all (suc n) q = after (consume q) (consume_all n)

consume_all-take :
    (n : ℕ) (q : Queue) (ms : List Message) → q.messages ≡ ms → consume_all n q ≡ take n ms
unfolding consume_all consume
consume_all-take zero q ms e = refl
consume_all-take (suc n) q [] e = rw e refl
consume_all-take (suc n) q (m ∷ ms) e =
    let next : Queue = record q { messages = ms } in
    rw e (ap (m ∷◌) (consume_all-take n next ms refl))

messages-publish_all :
    (ms : List Message) (q : Queue) → (publish_all ms q).messages ≡ q.messages ++ ms
unfolding publish_all publish
messages-publish_all [] q = sym (append-nil q.messages)
messages-publish_all (m ∷ ms) q =
    messages-publish_all ms (publish m q) ∙ append_assoc q.messages (m ∷ []) ms

take-suc-length : (ms : List Message) → take (suc (length ms)) ms ≡ ms
take-suc-length [] = refl
take-suc-length (m ∷ ms) = ap (m ∷◌) (take-suc-length ms)

take-length : (ms : List Message) → take (length ms) ms ≡ ms
take-length [] = refl
take-length (m ∷ ms) = ap (m ∷◌) (take-length ms)

-- Messages published to a queue in memory are consumed in the order of their publication, after
-- those that were there, each of them once: one more call gives nothing. The depth of the queue is
-- their number.
pub consume_all-publish_all :
    (ms : List Message) (q : Queue)
    → (depth (publish_all ms q) ≡ depth q + length ms)
      × (consume_all (depth (publish_all ms q)) (publish_all ms q) ≡ q.messages ++ ms)
      × (consume_all (suc (depth (publish_all ms q))) (publish_all ms q) ≡ q.messages ++ ms)
unfolding depth
consume_all-publish_all ms q =
    let all = messages-publish_all ms q in
    let drained : (n : ℕ) → consume_all n (publish_all ms q) ≡ take n (publish_all ms q).messages =
      λ n. consume_all-take n (publish_all ms q) (publish_all ms q).messages refl in
    (
      ap length all ∙ length-append q.messages ms,
      drained (length (publish_all ms q).messages) ∙ take-length (publish_all ms q).messages ∙ all,
      drained (suc (length (publish_all ms q).messages))
          ∙ take-suc-length (publish_all ms q).messages
          ∙ all,
    )
