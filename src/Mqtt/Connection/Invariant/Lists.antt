-- ===== src/Mqtt/Connection/Invariant/Lists.antt =====
-- The lists of a connection: packets written, packet ids and topics.
use pelican_q.Base.{
  ℕ, ◌+◌, ◌≡◌, refl, Bool-cases, inl, inr, true, ◌==◌, List, [], ◌∷◌, ◌++◌, none, arith, All, subst,
}
use pelican_q.Bytes.{Bytes, same}
use pelican_q.Bytes.Order.{same→eq}
use pelican_q.Message.{DeliveryTag}
use pelican_q.Mqtt.Connection.{
  Written, publish_out, Inflight, find_pkid, remove_pkid, insert_pkid, contains_topic, remove_topic,
  remove_topics,
}

abbrev pub counts : Written → ℕ
counts (publish_out topic pkid payload) = 1
counts _ = 0

-- How many messages were written to the client.
abbrev pub published : List Written → ℕ
published [] = 0
published (w ∷ ws) = counts w + published ws

pub published-append :
    (ws : List Written) (w : Written) (n : ℕ)
    → counts w ≡ n
    → published (ws ++ (w ∷ [])) ≡ n + published ws
published-append [] w n h = omega arith
published-append (x ∷ ws) w n h = omega (arith, published-append ws w n h)

-- Each packet id stands once.
abbrev pub Unique : Inflight → Type 0
Unique [] = Unit
Unique ((k, v) ∷ inflight) = (find_pkid k inflight ≡ none) × Unique inflight

find-remove_pkid :
    (j pkid : ℕ) (inflight : Inflight)
    → find_pkid j inflight ≡ none
    → find_pkid j (remove_pkid pkid inflight) ≡ none
unfolding find_pkid remove_pkid
find-remove_pkid j pkid [] h = refl
find-remove_pkid j pkid ((k, v) ∷ inflight) h = elim (Bool-cases (k == pkid)) [
  | inl e ↦ elim (Bool-cases (k == j)) [
    | inl g ↦ absurd (ground arith)
    | inr g ↦ rw e (find-remove_pkid j pkid inflight (ground arith))
  ]
  | inr e ↦ elim (Bool-cases (k == j)) [
    | inl g ↦ absurd (ground arith)
    | inr g ↦ rw e (rw g (find-remove_pkid j pkid inflight (ground arith)))
  ]
]

pub find_pkid-remove_pkid :
    (pkid : ℕ) (inflight : Inflight) → find_pkid pkid (remove_pkid pkid inflight) ≡ none
unfolding find_pkid remove_pkid
find_pkid-remove_pkid pkid [] = refl
find_pkid-remove_pkid pkid ((k, v) ∷ inflight) = elim (Bool-cases (k == pkid)) [
  | inl e ↦ rw e (find_pkid-remove_pkid pkid inflight)
  | inr e ↦ rw e (rw e (find_pkid-remove_pkid pkid inflight))
]

pub Unique-remove_pkid :
    (pkid : ℕ) (inflight : Inflight) → Unique inflight → Unique (remove_pkid pkid inflight)
unfolding remove_pkid
Unique-remove_pkid pkid [] u = tt
Unique-remove_pkid pkid ((k, v) ∷ inflight) u = elim (Bool-cases (k == pkid)) [
  | inl e ↦ rw e (Unique-remove_pkid pkid inflight u.1)
  | inr e ↦ rw e (find-remove_pkid k pkid inflight u.0, Unique-remove_pkid pkid inflight u.1)
]

pub Unique-insert_pkid :
    (pkid : ℕ) (v : Bytes × DeliveryTag) (inflight : Inflight)
    → Unique inflight
    → Unique (insert_pkid pkid v inflight)
unfolding insert_pkid
Unique-insert_pkid pkid v inflight u =
    (find_pkid-remove_pkid pkid inflight, Unique-remove_pkid pkid inflight u)

module _ (P : ℕ × (Bytes × DeliveryTag) → Type 0) where
  pub All-remove_pkid :
      (pkid : ℕ) (inflight : Inflight) → All P inflight → All P (remove_pkid pkid inflight)
  unfolding remove_pkid
  All-remove_pkid pkid [] h = tt
  All-remove_pkid pkid ((k, v) ∷ inflight) h = elim (Bool-cases (k == pkid)) [
    | inl e ↦ rw e (All-remove_pkid pkid inflight h.1)
    | inr e ↦ rw e (h.0, All-remove_pkid pkid inflight h.1)
  ]

  pub All-insert_pkid :
      (pkid : ℕ) (v : Bytes × DeliveryTag) (inflight : Inflight)
      → P (pkid, v)
      → All P inflight
      → All P (insert_pkid pkid v inflight)
  unfolding insert_pkid
  All-insert_pkid pkid v inflight here h = (here, All-remove_pkid pkid inflight h)

module _ {A : Type 0} (P : A → Type 0) where
  pub All-append : (xs : List A) (x : A) → All P xs → P x → All P (xs ++ (x ∷ []))
  All-append [] x h here = (here, tt)
  All-append (y ∷ xs) x h here = (h.0, All-append xs x h.1 here)

module _ (P : Bytes → Type 0) where
  All-remove_topic :
      (topic : Bytes) (topics : List Bytes) → All P topics → All P (remove_topic topic topics)
  unfolding remove_topic
  All-remove_topic topic [] h = tt
  All-remove_topic topic (t ∷ topics) h = elim (Bool-cases (same t topic)) [
    | inl e ↦ rw e (All-remove_topic topic topics h.1)
    | inr e ↦ rw e (h.0, All-remove_topic topic topics h.1)
  ]

  pub All-remove_topics :
      (topics subscriptions : List Bytes)
      → All P subscriptions
      → All P (remove_topics topics subscriptions)
  unfolding remove_topics
  All-remove_topics [] subscriptions h = h
  All-remove_topics (t ∷ topics) subscriptions h =
      All-remove_topics topics (remove_topic t subscriptions) (All-remove_topic t subscriptions h)

  -- A topic that is found has what all of them have.
  pub All-contains :
      (topic : Bytes) (topics : List Bytes)
      → contains_topic topic topics ≡ true
      → All P topics
      → P topic
  unfolding contains_topic
  All-contains topic [] e h = cc
  All-contains topic (t ∷ topics) e h = elim (Bool-cases (same t topic)) [
    | inl g ↦ subst P (same→eq t topic g) h.0
    | inr g ↦ All-contains topic topics (ground arith) h.1
  ]
