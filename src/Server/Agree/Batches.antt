-- ===== src/Server/Agree/Batches.antt =====
-- The batches of the gRPC service: its loops on a manager and those of the replicated log.
use pelican_q.Base.{ℕ, zero, suc, ◌≡◌, refl, List, [], ◌∷◌, Option, none, some, map}
use pelican_q.Bytes.{Bytes}
use pelican_q.Failure.{Outcome, ok, err, panic, diverges}
use pelican_q.Message.{Message}
use pelican_q.Platform.{Platform}
use pelican_q.Exec.{Manager, Exec, ◌>>=◌, pure, continue}
use pelican_q.Engine.Publish.{publish}
use pelican_q.Engine.Consume.{Delivery, consume}
use pelican_q.Replica.{respond, publish_each, collect_delivery, consume_each}
use pelican_q.Server.{Formats}
use pelican_q.Server.Proto.{ConsumedMessage, consumed_message}
use pelican_q.Server.Rpc.{answered, publish_response}
use pelican_q.Server.Rpc.Handlers.{publish_results, collect_consumed, consume_messages}

module _ ⦃p : Platform⦄ where
  open p use {Db}

  abbrev pub mapped : {A B : Type 0} → (A → B) → Outcome A × Manager Db → Outcome B × Manager Db
  mapped f (ok a, w) = (ok (f a), w)
  mapped f (err e, w) = (err e, w)
  mapped f (panic, w) = (panic, w)
  mapped f (diverges, w) = (diverges, w)

  pub respond-mapped :
      {A B : Type 0} (f : A → B) (m : Exec Db A) (n : Exec Db B) (v : Manager Db)
      → n v ≡ mapped f (m v)
      → respond (answered (λ b. b)) n v ≡ respond (answered f) m v
  unfolding respond answered
  respond-mapped f m n v h = rw h (go (m v))
    where
      go :
          (x : Outcome _ × Manager Db)
          → respond (answered (λ b. b)) (λ u. mapped f x) v ≡ respond (answered f) (λ u. x) v
      go (ok a, w) = refl
      go (err e, w) = refl
      go (panic, w) = refl
      go (diverges, w) = refl

  mapped-cons :
      {A B : Type 0} (f : A → B) (a : A) (x : Outcome (List A) × Manager Db)
      → continue (mapped (map f) x) (λ bs. pure (f a ∷ bs))
        ≡ mapped (map f) (continue x (λ xs. pure (a ∷ xs)))
  unfolding pure
  mapped-cons f a (ok xs, w) = refl
  mapped-cons f a (err e, w) = refl
  mapped-cons f a (panic, w) = refl
  mapped-cons f a (diverges, w) = refl

  mapped-continue :
      {A B C : Type 0} (f : A → B) (x : Outcome C × Manager Db) (m : C → Exec Db A)
      (n : C → Exec Db B)
      → ((c : C) (w : Manager Db) → n c w ≡ mapped f (m c w))
      → continue x n ≡ mapped f (continue x m)
  mapped-continue f (ok c, w) m n h = h c w
  mapped-continue f (err e, w) m n h = refl
  mapped-continue f (panic, w) m n h = refl
  mapped-continue f (diverges, w) m n h = refl

module _ ⦃p : Platform⦄ ⦃f : Formats⦄ where
  open p use {Db}

  pub publish_results-each :
      (queue : Bytes) (messages : List Message) (v : Manager Db)
      → publish_results queue messages v
        ≡ mapped (map publish_response) (publish_each queue messages v)
  unfolding publish_results publish_each ◌>>=◌
  publish_results-each queue [] v = refl
  publish_results-each queue (message ∷ messages) v =
      mapped-continue (map publish_response) (publish queue message v) _ _ (λ outcome w.
        rw (publish_results-each queue messages w)
          (mapped-cons publish_response outcome (publish_each queue messages w)))

  collect-mapped :
      (m : Exec Db (List Delivery)) (n : Exec Db (List ConsumedMessage)) (w : Manager Db)
      (delivered : Option Delivery)
      → n w ≡ mapped (map consumed_message) (m w)
      → collect_consumed n delivered w
        ≡ mapped (map consumed_message) (collect_delivery m delivered w)
  unfolding collect_consumed collect_delivery ◌>>=◌
  collect-mapped m n w none h = refl
  collect-mapped m n w (some delivery) h = rw h (mapped-cons consumed_message delivery (m w))

  pub consume_messages-each :
      (queue : Bytes) (max : ℕ) (v : Manager Db)
      → consume_messages queue max v ≡ mapped (map consumed_message) (consume_each queue max v)
  unfolding consume_messages consume_each ◌>>=◌
  consume_messages-each queue zero v = refl
  consume_messages-each queue (suc max) v =
      mapped-continue (map consumed_message) (consume queue v) _ _
        (λ delivered w. collect-mapped _ _ w delivered (consume_messages-each queue max w))
