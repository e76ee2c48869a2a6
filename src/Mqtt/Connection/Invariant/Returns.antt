-- ===== src/Mqtt/Connection/Invariant/Returns.antt =====
-- Handlers whose results have a property.
use pelican_q.Base.{◌≡◌, subst}
use pelican_q.Failure.{Outcome, ok, err, panic, diverges}
use pelican_q.Server.{AppEngine, and_then, and_return}

abbrev pub Holds :
    {Db Cluster A : Type 0} → (A → Type 0) → Outcome A × AppEngine Db Cluster → Type 0
Holds P (ok a, engine) = P a
Holds P _ = Unit

-- What a handler returns has the property, if it returns.
pub record Returns {Db Cluster A : Type 0} (P : A → Type 0) (r : Outcome A × AppEngine Db Cluster)
    : Type 0 where
  pub it : Holds P r

module _ {Db Cluster : Type 0} where
  and_then-Holds :
      {A B : Type 0} (Q : A → Type 0) (P : B → Type 0) (r : Outcome A × AppEngine Db Cluster)
      (f : A → AppEngine Db Cluster → Outcome B × AppEngine Db Cluster)
      → Holds Q r
      → ((a : A) (engine : AppEngine Db Cluster) → Q a → Returns P (f a engine))
      → Holds P (and_then r f)
  unfolding and_then
  and_then-Holds Q P (ok a, engine) f q h = (h a engine q).it
  and_then-Holds Q P (err e, engine) f q h = tt
  and_then-Holds Q P (panic, engine) f q h = tt
  and_then-Holds Q P (diverges, engine) f q h = tt

  pub and_then-Returns :
      {A B : Type 0} {Q : A → Type 0} {P : B → Type 0} {r : Outcome A × AppEngine Db Cluster}
      {f : A → AppEngine Db Cluster → Outcome B × AppEngine Db Cluster}
      → Returns Q r
      → ((a : A) (engine : AppEngine Db Cluster) → Q a → Returns P (f a engine))
      → Returns P (and_then r f)
  and_then-Returns {Q = Q} {P = P} {r = r} {f = f} q h = record {
    it = and_then-Holds Q P r f q.it h;
  }

  any-Holds : {A : Type 0} (r : Outcome A × AppEngine Db Cluster) → Holds (λ a. Unit {0}) r
  any-Holds (ok a, engine) = tt
  any-Holds (err e, engine) = tt
  any-Holds (panic, engine) = tt
  any-Holds (diverges, engine) = tt

  pub any-Returns : {A : Type 0} {r : Outcome A × AppEngine Db Cluster} → Returns (λ a. Unit {0}) r
  any-Returns {r = r} = record { it = any-Holds r }

  and_return-Holds :
      {A B : Type 0} (Q : A → Type 0) (P : B → Type 0) (r : Outcome A × AppEngine Db Cluster)
      (f : A → B)
      → Holds Q r
      → ((a : A) → Q a → P (f a))
      → Holds P (and_return r f)
  unfolding and_return
  and_return-Holds Q P r f q h = and_then-Holds Q P r _ q (λ a engine qa. record { it = h a qa })

  pub and_return-Returns :
      {A B : Type 0} {Q : A → Type 0} {P : B → Type 0} {r : Outcome A × AppEngine Db Cluster}
      (f : A → B)
      → Returns Q r
      → ((a : A) → Q a → P (f a))
      → Returns P (and_return r f)
  and_return-Returns {Q = Q} {P = P} {r = r} f q h = record { it = and_return-Holds Q P r f q.it h }

  pub returned :
      {A : Type 0} {P : A → Type 0} (r : Outcome A × AppEngine Db Cluster) (a : A)
      (after : AppEngine Db Cluster)
      → Returns P r
      → r ≡ (ok a, after)
      → P a
  returned {P = P} r a after h e = subst (Holds P) e h.it
