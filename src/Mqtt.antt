-- ===== src/Mqtt.antt =====
-- pelicanqd/src/mqtt/handler.rs: what the MQTT interface asks of the engine.
pub mod Connection
use pelican_q.Base.{Bool, true, false, ◌||◌, ◌==◌, List, [], ◌∷◌, Option, none, some, ℕ}
use pelican_q.Bytes.{Bytes}
use pelican_q.Failure.{PelicanError, queue_already_exists, Outcome, ok}
use pelican_q.Message.{Message, DeliveryTag, default_policy}
use pelican_q.Platform.{Platform}
use pelican_q.Engine.Declare.{declare_queue}
use pelican_q.Engine.Publish.{PublishOutcome, publish}
use pelican_q.Engine.Consume.{Delivery, consume, ack}
use pelican_q.Replica.{
  declare_queue_op, publish_op, consume_op, ack_op, declare_queue_resp, publish_resp, consume_resp,
  ack_resp, Answer, success, failure,
}
use pelican_q.Server.{Consensus, WriteResult, write_ok, Handler, write_engine}

-- A filter with `+` or `#` in it.
unfoldable pub has_wildcard : Bytes → Bool
has_wildcard [] = false
has_wildcard (c ∷ filter) = (c == 43) || (c == 35) || has_wildcard filter

unfoldable pub is_ok : {A : Type 0} → Answer A → Bool
is_ok (success a) = true
is_ok (failure e) = false

unfoldable pub declare_mqtt_written : WriteResult → Outcome Bool
declare_mqtt_written (write_ok (declare_queue_resp (success tt))) = ok true
declare_mqtt_written (write_ok (declare_queue_resp (failure (queue_already_exists q)))) = ok true
declare_mqtt_written _ = ok false

unfoldable pub delivery_of : Answer (Option Delivery) → Option Delivery
delivery_of (success delivered) = delivered
delivery_of (failure e) = none

unfoldable pub consume_mqtt_written : WriteResult → Outcome (Option Delivery)
consume_mqtt_written (write_ok (consume_resp (success delivered))) = ok delivered
consume_mqtt_written _ = ok none

-- An ack is not answered: what goes wrong is logged.
unfoldable pub logged : Answer (Unit {0}) → Unit {0}
logged a = tt

unfoldable pub ack_mqtt_written : WriteResult → Outcome (Unit {0})
unfolding logged
ack_mqtt_written (write_ok (ack_resp a)) = ok (logged a)
ack_mqtt_written _ = ok tt

unfoldable pub publish_mqtt_written : WriteResult → Outcome Bool
publish_mqtt_written (write_ok (publish_resp (success outcome))) = ok true
publish_mqtt_written _ = ok false

-- The message of a packet; its time is in seconds.
unfoldable pub mqtt_message : ℕ → ℕ → Bytes → Message
mqtt_message uuid now_secs payload = record {
  id = uuid;
  payload = payload;
  headers = [];
  timestamp = now_secs;
  delivery_attempts = 0;
  priority = 0;
  deliver_at = none;
  dedup_key = none;
}

module _ ⦃p : Platform⦄ ⦃s : Consensus p.Db⦄ where
  open p use {Db}
  open s use {Cluster}

  unfoldable pub mqtt_declare_queue : Bytes → Handler Db Cluster Bool
  unfolding write_engine declare_queue is_ok declare_mqtt_written
  mqtt_declare_queue queue =
      write_engine (declare_queue queue) is_ok (declare_queue_op queue default_policy)
        declare_mqtt_written

  unfoldable pub mqtt_consume_one : Bytes → Handler Db Cluster (Option Delivery)
  unfolding write_engine consume delivery_of consume_mqtt_written
  mqtt_consume_one queue =
      write_engine (consume queue) delivery_of (consume_op queue) consume_mqtt_written

  unfoldable pub mqtt_ack_message : Bytes → DeliveryTag → Handler Db Cluster Unit
  unfolding write_engine ack logged ack_mqtt_written
  mqtt_ack_message queue tag =
      write_engine (ack queue tag) logged (ack_op queue tag) ack_mqtt_written

  unfoldable pub mqtt_publish_message : Bytes → Message → Handler Db Cluster Bool
  unfolding write_engine publish is_ok publish_mqtt_written
  mqtt_publish_message queue msg =
      write_engine (publish queue msg) is_ok (publish_op queue msg) publish_mqtt_written
