-- ===== src/Server/Rpc/Stream.antt =====
-- pelicanqd/src/grpc/queue_service.rs: the task behind `consume_stream`, as a machine that takes one
-- arm of its `select!` at a time.
use pelican_q.Base.{ℕ, Bool, true, false, List, [], ◌∷◌, ◌++◌, Option, none, some}
use pelican_q.Bytes.{Bytes}
use pelican_q.Failure.{ok}
use pelican_q.Message.{DeliveryTag}
use pelican_q.Platform.{Platform}
use pelican_q.Engine.Consume.{Delivery}
use pelican_q.Server.{Consensus, Handler, Formats, and_return}
use pelican_q.Server.Proto.{ConsumedMessage, consumed_message}
use pelican_q.Server.Rpc.{
  invalid_argument, internal, of_message, queue_is_required, RpcResult, response, rejected, Status,
  status,
}
use pelican_q.Server.Rpc.Handlers.{consume_one, stream_ack, stream_nack}

pub record ConsumeStreamAck : Type 0 where
  pub delivery_tag : Option ℕ
  pub nack_delivery_tag : Option ℕ
  pub queue : Option Bytes

-- What the task waits for: the next message of the client, which may be an error or the end, or the
-- sleep. `receiving` says whether the client still takes messages.
pub data StreamEvent : Type 0 where
  inbound : ConsumeStreamAck → StreamEvent
  inbound_error : Bytes → StreamEvent
  inbound_end : StreamEvent
  slept : (receiving : Bool) → StreamEvent

-- `running` until the task returns; `sent` in the order of sending.
pub record Stream : Type 0 where
  pub queue : Option Bytes
  pub running : Bool
  pub sent : List (RpcResult ConsumedMessage)

abbrev pub new_stream : Stream
new_stream = record { queue = none; running = true; sent = [] }

unfoldable pub stopped : Stream → Stream
stopped t = record t { running = false }

unfoldable pub refuse : Status → Stream → Stream
refuse e t = record t { running = false; sent = t.sent ++ (rejected e ∷ []) }

-- The first message has to name a queue.
unfoldable pub choose_queue : Option Bytes → Stream → Stream
unfolding refuse status
choose_queue (some (c ∷ q)) t = record t { queue = some (c ∷ q) }
choose_queue _ t = refuse (status invalid_argument queue_is_required) t

-- A refused ack or nack ends the task.
unfoldable pub after_settling : Stream → RpcResult (Unit {0}) → Stream
unfolding refuse
after_settling t (response u) = t
after_settling t (rejected e) = refuse e t

module _ ⦃f : Formats⦄ where
  unfoldable pub send_delivery : Bool → Stream → Option Delivery → Stream
  unfolding consumed_message stopped
  send_delivery receiving t none = t
  send_delivery true t (some delivery) = record t {
    sent = t.sent ++ (response (consumed_message delivery) ∷ []);
  }
  send_delivery false t (some delivery) = stopped t

module _ ⦃p : Platform⦄ ⦃s : Consensus p.Db⦄ where
  open p use {Db}
  open s use {Cluster}

  -- A tag to ack goes before one to nack, and a message may have neither.
  unfoldable pub settle_tags :
      Option DeliveryTag → Option DeliveryTag → Bytes → Stream → Handler Db Cluster Stream
  unfolding stream_ack stream_nack after_settling
  settle_tags (some tag) nacked q t engine = and_return (stream_ack q tag engine) (after_settling t)
  settle_tags none (some tag) q t engine = and_return (stream_nack q tag engine) (after_settling t)
  settle_tags none none q t engine = (ok t, engine)

  unfoldable pub take_inbound : ConsumeStreamAck → Option Bytes → Stream → Handler Db Cluster Stream
  unfolding choose_queue settle_tags
  take_inbound a none t engine = (ok (choose_queue a.queue t), engine)
  take_inbound a (some q) t engine = settle_tags a.delivery_tag a.nack_delivery_tag q t engine

module _ ⦃p : Platform⦄ ⦃s : Consensus p.Db⦄ ⦃f : Formats⦄ where
  open p use {Db}
  open s use {Cluster}

  unfoldable pub poll_queue : Bool → Option Bytes → Stream → Handler Db Cluster Stream
  unfolding consume_one send_delivery
  poll_queue receiving none t engine = (ok t, engine)
  poll_queue receiving (some q) t engine =
      and_return (consume_one q engine) (send_delivery receiving t)

  unfoldable pub stream_event : StreamEvent → Stream → Handler Db Cluster Stream
  unfolding take_inbound poll_queue refuse stopped status
  stream_event (inbound a) t engine = take_inbound a t.queue t engine
  stream_event (inbound_error e) t engine = (ok (refuse (status internal (of_message e)) t), engine)
  stream_event inbound_end t engine = (ok (stopped t), engine)
  stream_event (slept receiving) t engine = poll_queue receiving t.queue t engine

  -- A task that has returned takes no event.
  unfoldable pub stream_round : Bool → StreamEvent → Stream → Handler Db Cluster Stream
  unfolding stream_event
  stream_round true event t engine = stream_event event t engine
  stream_round false event t engine = (ok t, engine)
