-- ===== src/Exec.antt =====
-- Methods of `QueueManager`: they change the manager, may fail, and read the clock.
-- `db`, `current_bytes` and `max_bytes` are the fields of the struct; the meta and retention trees
-- are trees of `db`. The environment is the rest: `faults` says of each coming call of sled whether
-- it fails, and `clock` gives the time in milliseconds at each reading.
pub mod Ensures
use pelican_q.Base.{ℕ, suc, Bool, true, false, List, [], ◌∷◌, Option, none, some}
use pelican_q.Bytes.{Bytes}
use pelican_q.Failure.{
  PelicanError, storage, serialization, Outcome, ok, err, panic, diverges, Fallible, done, failed,
}

pub record Manager (Db : Type 0) : Type 0 where
  pub db : Db
  pub current_bytes : ℕ
  pub max_bytes : Option ℕ
  pub faults : List (Option Bytes)
  pub clock : ℕ → ℕ
  pub reads : ℕ

abbrev pub Exec : Type 0 → Type 0 → Type 0
Exec Db A = Manager Db → Outcome A × Manager Db

module _ {Db A : Type 0} where
  unfoldable pub pure : A → Exec Db A
  pure a w = (ok a, w)

  unfoldable pub raise : PelicanError → Exec Db A
  raise e w = (err e, w)

  unfoldable pub panics : Exec Db A
  panics w = (panic, w)

  unfoldable pub loops : Exec Db A
  loops w = (diverges, w)

  unfoldable pub gets : (Manager Db → A) → Exec Db A
  gets f w = (ok (f w), w)

  -- `Result::ok`: an error becomes `none`.
  abbrev attempted : Outcome A × Manager Db → Outcome (Option A) × Manager Db
  attempted (ok a, w) = (ok (some a), w)
  attempted (err e, w) = (ok none, w)
  attempted (panic, w) = (panic, w)
  attempted (diverges, w) = (diverges, w)

  unfoldable pub attempt : Exec Db A → Exec Db (Option A)
  attempt m w = attempted (m w)

  -- A bincode error is reported as a serialization error.
  unfoldable pub encoded : Fallible A → Exec Db A
  unfolding pure raise
  encoded (done a) = pure a
  encoded (failed e) = raise (serialization e)

module _ {Db : Type 0} where
  unfoldable pub require : Bool → PelicanError → Exec Db Unit
  unfolding pure raise
  require true e = pure tt
  require false e = raise e

  abbrev pub check_on : List (Option Bytes) → Exec Db Unit
  check_on [] w = (ok tt, w)
  check_on (none ∷ fs) w = (ok tt, record w { faults = fs })
  check_on (some e ∷ fs) w = (err (storage e), record w { faults = fs })

  -- One call of sled, which may fail and then has no effect.
  unfoldable pub check : Exec Db Unit
  check w = check_on w.faults w

  unfoldable pub now_ms : Exec Db ℕ
  now_ms w = (ok (w.clock w.reads), record w { reads = suc w.reads })

  unfoldable pub set_bytes : ℕ → Exec Db Unit
  set_bytes n w = (ok tt, record w { current_bytes = n })

  unfoldable pub update_db : (Db → Db) → Exec Db Unit
  update_db f w = (ok tt, record w { db = f w.db })

module _ {Db A B : Type 0} where
  abbrev pub continue : Outcome A × Manager Db → (A → Exec Db B) → Outcome B × Manager Db
  continue (ok a, w) f = f a w
  continue (err e, w) f = (err e, w)
  continue (panic, w) f = (panic, w)
  continue (diverges, w) f = (diverges, w)

  infixl 10 ◌>>=◌ ◌>>◌
  -- To open this is to open all that a method is made of.
  unfoldable pub ◌>>=◌ : Exec Db A → (A → Exec Db B) → Exec Db B
  unfolding pure raise panics loops gets attempt encoded require check now_ms set_bytes update_db
  ◌>>=◌ m f w = continue (m w) f

  abbrev pub ◌>>◌ : Exec Db A → Exec Db B → Exec Db B
  m >> n = m >>= λ _. n

unfoldable pub open_tree : {Db : Type 0} → Bytes → Exec Db Bytes
open_tree n = do check; pure n
