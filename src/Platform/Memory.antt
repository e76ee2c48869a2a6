-- ===== src/Platform/Memory.antt =====
-- A platform that meets the laws: trees in memory, ids from a counter, and an encoding of the
-- messages without headers. It stands in for sled and bincode in the tests.
use native.Mathlib.Nat.{le_refl}
use pelican_q.Base.{
  ℕ, zero, suc, ◌≡◌, refl, sym, ap, subst, ◌∙◌, Bool, true, false, List, [], ◌∷◌, ◌++◌, Option,
  none, some, arith, length, take, drop, if◌then◌else◌,
}
use pelican_q.Bytes.{Bytes, same}
use pelican_q.Bytes.Order.{same→eq}
use pelican_q.Tree.{Tree, lookup, put, without, IsOrdered}
use pelican_q.Tree.Ordered.{put-IsOrdered, without-IsOrdered}
use pelican_q.Failure.{Fallible, done, failed}
use pelican_q.Message.{Message, RetentionPolicy}
use pelican_q.Platform.{Platform}

abbrev OrderedTree : Type 0
OrderedTree = (t : Tree) × IsOrdered t

pub record MemoryDb : Type 0 where
  pub trees : Bytes → OrderedTree
  pub next : ℕ

abbrev pub empty_db : MemoryDb
empty_db = record { trees = λ n. ([], tt); next = 0 }

abbrev entries : Bytes → MemoryDb → Tree
entries n d = (d.trees n).0

abbrev choose : Bool → OrderedTree → OrderedTree → OrderedTree
choose true s t = s
choose false s t = t

abbrev update : Bytes → OrderedTree → MemoryDb → MemoryDb
update n t d = record d { trees = λ m. choose (same n m) t (d.trees m) }

abbrev insert : Bytes → Bytes → Bytes → MemoryDb → MemoryDb
insert n k v d = update n (put k v (entries n d), put-IsOrdered k v (entries n d) (d.trees n).1) d

abbrev remove : Bytes → Bytes → MemoryDb → MemoryDb
remove n k d = update n (without k (entries n d), without-IsOrdered k (entries n d) (d.trees n).1) d

choose-tree :
    (b : Bool) (s t : OrderedTree) (u : Tree)
    → (b ≡ true → s.0 ≡ u)
    → (choose b s t).0 ≡ (if b then u else t.0)
choose-tree true s t u h = h refl
choose-tree false s t u h = refl

pub entries-insert :
    (n k v m : Bytes) (d : MemoryDb)
    → entries m (insert n k v d) ≡ (if same n m then put k v (entries m d) else entries m d)
entries-insert n k v m d =
    choose-tree (same n m) _ (d.trees m) _
      (λ e. ap (λ (x : Bytes). put k v (entries x d)) (same→eq n m e))

pub entries-remove :
    (n k m : Bytes) (d : MemoryDb)
    → entries m (remove n k d) ≡ (if same n m then without k (entries m d) else entries m d)
entries-remove n k m d =
    choose-tree (same n m) _ (d.trees m) _
      (λ e. ap (λ (x : Bytes). without k (entries x d)) (same→eq n m e))

abbrev encode_option : Option ℕ → ℕ
encode_option none = 0
encode_option (some n) = suc n

abbrev decode_option : ℕ → Option ℕ
decode_option zero = none
decode_option (suc n) = some n

decode-encode_option : (o : Option ℕ) → decode_option (encode_option o) ≡ o
decode-encode_option none = refl
decode-encode_option (some n) = refl

-- The key, with its length before it, and what follows.
abbrev encode_key : Option Bytes → Bytes → Bytes
encode_key none rest = 0 ∷ rest
encode_key (some k) rest = suc (length k) ∷ (k ++ rest)

abbrev decode_key : Bytes → Option (Option Bytes × Bytes)
decode_key [] = none
decode_key (zero ∷ rest) = some (none, rest)
decode_key (suc n ∷ rest) = some (some (take n rest), drop n rest)

take-length : (k rest : Bytes) → take (length k) (k ++ rest) ≡ k
take-length [] rest = refl
take-length (x ∷ k) rest = ap (◌∷◌ x) (take-length k rest)

drop-length : (k rest : Bytes) → drop (length k) (k ++ rest) ≡ rest
drop-length [] rest = refl
drop-length (x ∷ k) rest = drop-length k rest

decode-encode_key :
    (o : Option Bytes) (rest : Bytes) → decode_key (encode_key o rest) ≡ some (o, rest)
decode-encode_key none rest = refl
decode-encode_key (some k) rest = rw (take-length k rest, drop-length k rest) refl

abbrev encode_fields : List (Bytes × Bytes) → Message → Fallible Bytes
encode_fields [] m = done (
    m.id
    ∷ m.timestamp
    ∷ m.delivery_attempts
    ∷ m.priority
    ∷ encode_option m.deliver_at
    ∷ encode_key m.dedup_key m.payload)
encode_fields (h ∷ hs) m = failed []

abbrev bytes_of : Fallible Bytes → Bytes
bytes_of (done b) = b
bytes_of (failed e) = e

abbrev encode_message : Message → Fallible Bytes
encode_message m = encode_fields m.headers m

abbrev with_key : ℕ → ℕ → ℕ → ℕ → ℕ → Option (Option Bytes × Bytes) → Fallible Message
with_key id timestamp attempts priority at none = failed []
with_key id timestamp attempts priority at (some (key, payload)) = done (record {
  id = id;
  payload = payload;
  headers = [];
  timestamp = timestamp;
  delivery_attempts = attempts;
  priority = priority;
  deliver_at = decode_option at;
  dedup_key = key;
})

abbrev decode_message : Bytes → Fallible Message
decode_message (id ∷ timestamp ∷ attempts ∷ priority ∷ at ∷ rest) =
    with_key id timestamp attempts priority at (decode_key rest)
decode_message _ = failed []

pub message_round_trip :
    (m : Message) (b : Bytes) → encode_message m ≡ done b → decode_message b ≡ done m
message_round_trip m b h = go m.headers refl h
  where
    back :
        decode_message (
          m.id
          ∷ m.timestamp
          ∷ m.delivery_attempts
          ∷ m.priority
          ∷ encode_option m.deliver_at
          ∷ encode_key m.dedup_key m.payload)
        ≡ done (record m { headers = [] })
    back =
        rw (decode-encode_key m.dedup_key m.payload) (rw (decode-encode_option m.deliver_at) refl)

    go :
        (hs : List (Bytes × Bytes))
        → m.headers ≡ hs
        → encode_fields hs m ≡ done b
        → decode_message b ≡ done m
    go [] e g =
        subst (λ x. decode_message x ≡ done m) (ap bytes_of g)
          (back ∙ ap (λ (hs : List (Bytes × Bytes)). done (record m { headers = hs })) (sym e))
    go (x ∷ xs) e g = cc

abbrev encode_policy : RetentionPolicy → Bytes
encode_policy r =
    encode_option r.max_age_secs
    ∷ encode_option r.max_messages
    ∷ encode_option r.max_delivery_attempts
    ∷ encode_option r.dedup_window_secs
    ∷ []

abbrev decode_policy : Bytes → Fallible RetentionPolicy
decode_policy (a ∷ m ∷ d ∷ w ∷ rest) = done (record {
  max_age_secs = decode_option a;
  max_messages = decode_option m;
  max_delivery_attempts = decode_option d;
  dedup_window_secs = decode_option w;
})
decode_policy _ = failed []

decode-encode_policy : (r : RetentionPolicy) → decode_policy (encode_policy r) ≡ done r
decode-encode_policy r = ground (
  arith,
  decode-encode_option r.max_age_secs,
  decode-encode_option r.max_messages,
  decode-encode_option r.max_delivery_attempts,
  decode-encode_option r.dedup_window_secs,
)

pub policy_round_trip :
    (r : RetentionPolicy) (b : Bytes) → done (encode_policy r) ≡ done b → decode_policy b ≡ done r
policy_round_trip r b h =
    subst (λ x. decode_policy x ≡ done r) (ap bytes_of h) (decode-encode_policy r)

-- The encoding of a message has one place for the attempts.
pub serialize_attempts :
    (m : Message) (n : ℕ) (b : Bytes)
    → encode_message m ≡ done b
    → (c : Bytes) × (encode_message (record m { delivery_attempts = n }) ≡ done c)
      × (length c ≡ length b)
serialize_attempts m n b h = go m.headers refl h
  where
    go :
        (hs : List (Bytes × Bytes))
        → m.headers ≡ hs
        → encode_fields hs m ≡ done b
        → (c : Bytes) × (encode_fields hs (record m { delivery_attempts = n }) ≡ done c)
          × (length c ≡ length b)
    go [] e g = (
      m.id
          ∷ m.timestamp
          ∷ n
          ∷ m.priority
          ∷ encode_option m.deliver_at
          ∷ encode_key m.dedup_key m.payload,
      refl,
      ap (λ x. length (bytes_of x)) g,
    )
    go (x ∷ xs) e g = cc

-- The platform, as the engine takes it.
abbrev pub memory : Platform
memory = record {
  Db = MemoryDb;
  entries = entries;
  get = λ n k d. lookup k (entries n d);
  insert = insert;
  remove = remove;
  generate_id = λ d. (d.next, record d { next = suc d.next });
  issued = λ d. d.next;
  serialize_message = encode_message;
  deserialize_message = decode_message;
  serialize_policy = λ r. done (encode_policy r);
  deserialize_policy = decode_policy;
  delivery_size = 168;
  delivery_size-fits = omega arith;
  entries-IsOrdered = λ n d. (d.trees n).1;
  get-entries = λ n k d. refl;
  entries-insert = entries-insert;
  entries-remove = entries-remove;
  entries-generate_id = λ n d. refl;
  issued-insert = λ n k v d. refl;
  issued-remove = λ n k d. refl;
  issued-le-generate_id = λ d. le_refl d.next;
  generate_id-lt-issued = λ d. le_refl (suc d.next);
  message_round_trip = message_round_trip;
  policy_round_trip = policy_round_trip;
  serialize_message_attempts = serialize_attempts;
}
