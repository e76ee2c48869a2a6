-- ===== src/Engine.antt =====
-- pelicanq-core/src/queue.rs: the queue engine, `QueueManager`, over a sled database.
pub mod Keys
pub mod Calls
pub mod Declare
pub mod Publish
pub mod Consume
pub mod Nack
pub mod Promote
pub mod Recover
pub mod Retain
pub mod View
pub mod Sound
pub mod Effect
