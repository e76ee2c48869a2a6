-- ===== src/Message.antt =====
-- pelicanq-core/src/message.rs and retention.rs: messages and retention policies.
-- A fresh UUID and the time of creation are arguments; i64 times are 64-bit patterns.
use pelican_q.Base.{ℕ, List, Option, none, some, min}
use pelican_q.Bytes.{Bytes}

abbrev pub DeliveryTag : Type 0
DeliveryTag = ℕ

pub record Message : Type 0 where
  pub id : ℕ
  pub payload : Bytes
  pub headers : List (Bytes × Bytes)
  pub timestamp : ℕ
  pub delivery_attempts : ℕ
  pub priority : ℕ
  pub deliver_at : Option ℕ
  pub dedup_key : Option Bytes

-- `Message::new`.
unfoldable pub new_message : ℕ → ℕ → Bytes → List (Bytes × Bytes) → Message
new_message uuid now_ms payload headers = record {
  id = uuid;
  payload = payload;
  headers = headers;
  timestamp = now_ms;
  delivery_attempts = 0;
  priority = 0;
  deliver_at = none;
  dedup_key = none;
}

unfoldable pub with_priority : Message → ℕ → Message
with_priority m priority = record m { priority = min priority 9 }

unfoldable pub with_deliver_at : Message → ℕ → Message
with_deliver_at m deliver_at_ms = record m { deliver_at = some deliver_at_ms }

unfoldable pub with_dedup_key : Message → Bytes → Message
with_dedup_key m key = record m { dedup_key = some key }

pub record RetentionPolicy : Type 0 where
  pub max_age_secs : Option ℕ
  pub max_messages : Option ℕ
  pub max_delivery_attempts : Option ℕ
  pub dedup_window_secs : Option ℕ

abbrev pub default_policy : RetentionPolicy
default_policy = record {
  max_age_secs = none;
  max_messages = none;
  max_delivery_attempts = none;
  dedup_window_secs = none;
}

pub record StorageWatermarks : Type 0 where
  pub warn_pct : ℕ
  pub throttle_pct : ℕ
  pub reject_pct : ℕ

abbrev pub default_watermarks : StorageWatermarks
default_watermarks = record { warn_pct = 75; throttle_pct = 90; reject_pct = 95 }
