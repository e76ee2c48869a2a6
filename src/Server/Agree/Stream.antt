-- ===== src/Server/Agree/Stream.antt =====
-- The consume stream of the gRPC interface on either engine.
use pelican_q.Base.{◌≡◌, refl, Bool, true, false, Option, none, some}
use pelican_q.Bytes.{Bytes}
use pelican_q.Failure.{Outcome, ok, err, panic, diverges}
use pelican_q.Message.{DeliveryTag}
use pelican_q.Platform.{Platform}
use pelican_q.Exec.{Manager}
use pelican_q.Replica.{consume_resp, ack_resp, nack_resp, apply_operation}
use pelican_q.Server.{Consensus, AppEngine, solo, Handler, IsLeading, Formats, and_return}
use pelican_q.Server.Agree.{AnswersAs, write_engine-agrees}
use pelican_q.Server.Rpc.{
  unit_answer, ack_rpc_written, nack_rpc_written, delivery_if_ok, consume_one_written,
  unexpected_ack_response, unexpected_nack_response,
}
use pelican_q.Server.Rpc.Handlers.{consume_one, stream_ack, stream_nack}
use pelican_q.Server.Rpc.Stream.{
  ConsumeStreamAck, StreamEvent, inbound, inbound_error, inbound_end, slept, Stream, settle_tags,
  take_inbound, poll_queue, stream_round,
}

module _ ⦃p : Platform⦄ ⦃s : Consensus p.Db⦄ where
  open p use {Db}
  open s use {Cluster, local}

  and_return-ends :
      {A B : Type 0} (r : Outcome A × AppEngine Db Cluster) (f : A → B) (b : B) (w : Manager Db)
      → and_return r f ≡ (ok b, solo w)
      → (a : A) × (r ≡ (ok a, solo w)) × (f a ≡ b)
  unfolding and_return
  and_return-ends (ok a, engine) f b w h = (a, cc, cc)
  and_return-ends (err e, engine) f b w h = cc
  and_return-ends (panic, engine) f b w h = cc
  and_return-ends (diverges, engine) f b w h = cc

  -- What is made of an answer agrees when the answer does.
  and_return-agrees :
      {A B : Type 0} (handler : Handler Db Cluster A) (f : A → B) (c : Cluster) (b : B)
      (w : Manager Db)
      → ((a : A) → handler (solo (local c)) ≡ (ok a, solo w) → AnswersAs handler c a w)
      → and_return (handler (solo (local c))) f ≡ (ok b, solo w)
      → AnswersAs (λ engine. and_return (handler engine) f) c b w
  unfolding and_return
  and_return-agrees handler f c b w agrees h =
      let ends = and_return-ends (handler (solo (local c))) f b w h in
      let same_end = agrees ends.0 ends.1 in
      (same_end.0, rw same_end.1 (rw ends.2 refl), same_end.2)

  settle_tags-agrees :
      (acked nacked : Option DeliveryTag) (q : Bytes) (t : Stream) (c : Cluster) (r : Stream)
      (w : Manager Db)
      → IsLeading
      → settle_tags acked nacked q t (solo (local c)) ≡ (ok r, solo w)
      → AnswersAs (settle_tags acked nacked q t) c r w
  unfolding settle_tags stream_ack stream_nack apply_operation unit_answer
  settle_tags-agrees (some tag) nacked q t c r w l h =
      and_return-agrees (stream_ack q tag) _ c r w
        (λ a g.
          write_engine-agrees _ unit_answer _ (ack_rpc_written unexpected_ack_response) ack_resp c a
            w l (λ v. refl) (λ b. refl) g)
        h
  settle_tags-agrees none (some tag) q t c r w l h =
      and_return-agrees (stream_nack q tag) _ c r w
        (λ a g.
          write_engine-agrees _ unit_answer _ (nack_rpc_written unexpected_nack_response) nack_resp
            c a w l (λ v. refl) (λ b. refl) g)
        h
  settle_tags-agrees none none q t c r w l h = (c, cc, cc)

  take_inbound-agrees :
      (a : ConsumeStreamAck) (chosen : Option Bytes) (t : Stream) (c : Cluster) (r : Stream)
      (w : Manager Db)
      → IsLeading
      → take_inbound a chosen t (solo (local c)) ≡ (ok r, solo w)
      → AnswersAs (take_inbound a chosen t) c r w
  unfolding take_inbound
  take_inbound-agrees a none t c r w l h = (c, cc, cc)
  take_inbound-agrees a (some q) t c r w l h =
      settle_tags-agrees a.delivery_tag a.nack_delivery_tag q t c r w l h

module _ ⦃p : Platform⦄ ⦃s : Consensus p.Db⦄ ⦃f : Formats⦄ where
  open p use {Db}
  open s use {Cluster, local}

  poll_queue-agrees :
      (receiving : Bool) (chosen : Option Bytes) (t : Stream) (c : Cluster) (r : Stream)
      (w : Manager Db)
      → IsLeading
      → poll_queue receiving chosen t (solo (local c)) ≡ (ok r, solo w)
      → AnswersAs (poll_queue receiving chosen t) c r w
  unfolding poll_queue consume_one apply_operation
  poll_queue-agrees receiving none t c r w l h = (c, cc, cc)
  poll_queue-agrees receiving (some q) t c r w l h =
      and_return-agrees (consume_one q) _ c r w
        (λ a g.
          write_engine-agrees _ delivery_if_ok _ consume_one_written consume_resp c a w l
            (λ v. refl) (λ b. refl) g)
        h

  -- A node that leads its cluster, at any event of a consume stream in any state: if the stream on a
  -- single manager in the state of the node's comes to a state, with what it has sent, the stream on
  -- the node comes to the same one, and its manager ends in the same state.
  pub stream_round-agrees :
      (running : Bool) (event : StreamEvent) (t : Stream) (c : Cluster) (r : Stream)
      (w : Manager Db)
      → IsLeading
      → stream_round running event t (solo (local c)) ≡ (ok r, solo w)
      → AnswersAs (stream_round running event t) c r w
  unfolding stream_round
  stream_round-agrees true (inbound a) t c r w l h = take_inbound-agrees a t.queue t c r w l h
  stream_round-agrees true (inbound_error e) t c r w l h = (c, cc, cc)
  stream_round-agrees true inbound_end t c r w l h = (c, cc, cc)
  stream_round-agrees true (slept receiving) t c r w l h =
      poll_queue-agrees receiving t.queue t c r w l h
  stream_round-agrees false event t c r w l h = (c, cc, cc)
