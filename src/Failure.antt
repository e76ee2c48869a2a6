-- ===== src/Failure.antt =====
-- pelicanq-core/src/error.rs, and how a call of the engine ends. Texts are byte strings.
use pelican_q.Base.{ℕ}
use pelican_q.Bytes.{Bytes}

pub data PelicanError : Type 0 where
  queue_not_found : Bytes → PelicanError
  queue_already_exists : Bytes → PelicanError
  storage : Bytes → PelicanError
  serialization : Bytes → PelicanError
  invalid_delivery_tag : ℕ → PelicanError
  storage_limit_exceeded : ℕ → ℕ → PelicanError
  message_dead_lettered : Bytes → Bytes → PelicanError

-- A panic (a slice out of range) and a loop that has not ended are endings of their own.
pub data Outcome {ℓ} (A : Type ℓ) : Type ℓ where
  ok : A → Outcome A
  err : PelicanError → Outcome A
  panic : Outcome A
  diverges : Outcome A

-- A result of a library call, with the library's text of an error.
pub data Fallible {ℓ} (A : Type ℓ) : Type ℓ where
  done : A → Fallible A
  failed : Bytes → Fallible A
