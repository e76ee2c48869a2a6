-- ===== src/Platform.antt =====
-- What the engine calls and does not implement: the sled database and the bincode encoding.
-- The laws are their documented behaviour: a tree is an ordered map that `iter` walks in key order,
-- trees of one database do not share entries, ids grow, and decoding undoes encoding.
pub mod Memory
use pelican_q.Base.{ℕ, ◌*◌, ◌≤◌, ◌<◌, ◌≡◌, Option, length, if◌then◌else◌}
use pelican_q.Bytes.{Bytes, same}
use pelican_q.Tree.{Tree, lookup, put, without, IsOrdered}
use pelican_q.Failure.{Fallible, done}
use pelican_q.Message.{Message, RetentionPolicy}

pub record Platform : Type 1 where
  pub Db : Type 0
  -- `open_tree(name).iter()`
  pub entries : Bytes → Db → Tree
  pub get : Bytes → Bytes → Db → Option Bytes
  pub insert : Bytes → Bytes → Bytes → Db → Db
  pub remove : Bytes → Bytes → Db → Db
  pub generate_id : Db → ℕ × Db
  -- one above every id that the database has given out
  pub issued : Db → ℕ
  pub serialize_message : Message → Fallible Bytes
  pub deserialize_message : Bytes → Fallible Message
  pub serialize_policy : RetentionPolicy → Fallible Bytes
  pub deserialize_policy : Bytes → Fallible RetentionPolicy
  -- `size_of` of a tag with its message, which Rust leaves open; 2 ^ 32 of them are within the
  -- bytes that a `Vec` may have
  pub delivery_size : ℕ
  pub delivery_size-fits : delivery_size * 4294967296 ≤ 9223372036854775807
  pub entries-IsOrdered : (n : Bytes) (d : Db) → IsOrdered (entries n d)
  pub get-entries : (n k : Bytes) (d : Db) → get n k d ≡ lookup k (entries n d)
  pub entries-insert :
      (n k v m : Bytes) (d : Db)
      → entries m (insert n k v d) ≡ (if same n m then put k v (entries m d) else entries m d)
  pub entries-remove :
      (n k m : Bytes) (d : Db)
      → entries m (remove n k d) ≡ (if same n m then without k (entries m d) else entries m d)
  pub entries-generate_id : (n : Bytes) (d : Db) → entries n (generate_id d).1 ≡ entries n d
  pub issued-insert : (n k v : Bytes) (d : Db) → issued (insert n k v d) ≡ issued d
  pub issued-remove : (n k : Bytes) (d : Db) → issued (remove n k d) ≡ issued d
  pub issued-le-generate_id : (d : Db) → issued d ≤ (generate_id d).0
  pub generate_id-lt-issued : (d : Db) → (generate_id d).0 < issued (generate_id d).1
  pub message_round_trip :
      (m : Message) (b : Bytes) → serialize_message m ≡ done b → deserialize_message b ≡ done m
  pub policy_round_trip :
      (r : RetentionPolicy) (b : Bytes)
      → serialize_policy r ≡ done b
      → deserialize_policy b ≡ done r
  -- a u32 takes four bytes, whatever its value
  pub serialize_message_attempts :
      (m : Message) (n : ℕ) (b : Bytes)
      → serialize_message m ≡ done b
      → (c : Bytes) × (serialize_message (record m { delivery_attempts = n }) ≡ done c)
        × (length c ≡ length b)
