-- ===== src/Exec/Ensures.antt =====
-- Methods that keep an invariant `I` of the database, whichever calls of sled fail, and never
-- panic or loop. A method that returns also establishes `Q` of its result and the database.
use pelican_q.Base.{
  ℕ, ◌≡◌, refl, sym, subst, Bool, true, false, List, [], ◌∷◌, Option, none, some, if◌then◌else◌,
}
use pelican_q.Bytes.{Bytes}
use pelican_q.Failure.{PelicanError, Outcome, ok, err, panic, diverges, Fallible, done, failed}
use pelican_q.Exec.{
  Manager, Exec, continue, ◌>>=◌, pure, raise, gets, attempt, encoded, require, check_on, check,
  now_ms, set_bytes, update_db, open_tree,
}

abbrev pub Ends :
    {Db A : Type 0} → (Db → Type 0) → (A → Db → Type 0) → Outcome A × Manager Db → Type 0
Ends I Q (ok a, w) = I w.db × Q a w.db
Ends I Q (err e, w) = I w.db
Ends I Q (panic, w) = ⊥
Ends I Q (diverges, w) = ⊥

pub record Ensures {Db A : Type 0} (I X : Db → Type 0) (m : Exec Db A) (Q : A → Db → Type 0)
    : Type 0 where
  pub at : (w : Manager Db) → I w.db → X w.db → Ends I Q (m w)

Ends-weaken :
    {Db A : Type 0} (I : Db → Type 0) (Q R : A → Db → Type 0) (r : Outcome A × Manager Db)
    → ((a : A) (d : Db) → Q a d → R a d)
    → Ends I Q r
    → Ends I R r
Ends-weaken I Q R (ok a, w) f h = (h.0, f a w.db h.1)
Ends-weaken I Q R (err e, w) f h = h
Ends-weaken I Q R (panic, w) f h = h
Ends-weaken I Q R (diverges, w) f h = h

module _ {Db : Type 0} {I : Db → Type 0} where
  Ends-continue :
      {A B : Type 0} (Q : A → Db → Type 0) (R : B → Db → Type 0) (r : Outcome A × Manager Db)
      (f : A → Exec Db B)
      → Ends I Q r
      → ((a : A) → Ensures I (Q a) (f a) R)
      → Ends I R (continue r f)
  Ends-continue Q R (ok a, w) f h k = (k a).at w h.0 h.1
  Ends-continue Q R (err e, w) f h k = h
  Ends-continue Q R (panic, w) f h k = absurd h
  Ends-continue Q R (diverges, w) f h k = absurd h

  -- One step, then the rest from what the step has established.
  pub next :
      {A B : Type 0} {X : Db → Type 0} {Q : A → Db → Type 0} {R : B → Db → Type 0} {m : Exec Db A}
      {f : A → Exec Db B}
      → Ensures I X m Q
      → ((a : A) → Ensures I (Q a) (f a) R)
      → Ensures I X (m >>= f) R
  unfolding ◌>>=◌
  next {Q = Q} {R = R} {m = m} {f = f} h k = record {
    at = λ w i x. Ends-continue Q R (m w) f (h.at w i x) k;
  }

  pub weaken :
      {A : Type 0} {X : Db → Type 0} {Q R : A → Db → Type 0} {m : Exec Db A}
      → Ensures I X m Q
      → ((a : A) (d : Db) → Q a d → R a d)
      → Ensures I X m R
  weaken {Q = Q} {R = R} {m = m} h f = record {
    at = λ w i x. Ends-weaken I Q R (m w) f (h.at w i x);
  }

  pub from_less :
      {A : Type 0} {X Y : Db → Type 0} {Q : A → Db → Type 0} {m : Exec Db A}
      → ((d : Db) → I d → X d → Y d)
      → Ensures I Y m Q
      → Ensures I X m Q
  from_less f h = record { at = λ w i x. h.at w i (f w.db i x) }

  module _ {A : Type 0} {X : Db → Type 0} where
    pub pure-Ensures :
        (Q : A → Db → Type 0) (a : A) → ((d : Db) → I d → X d → Q a d) → Ensures I X (pure a) Q
    unfolding pure
    pure-Ensures Q a h = record { at = λ w i x. (i, h w.db i x) }

    pub if-Ensures :
        {Q : A → Db → Type 0} (b : Bool) (m n : Exec Db A)
        → Ensures I X m Q
        → Ensures I X n Q
        → Ensures I X (if b then m else n) Q
    if-Ensures true m n h k = h
    if-Ensures false m n h k = k

    pub raise-Ensures : (Q : A → Db → Type 0) (e : PelicanError) → Ensures I X (raise e) Q
    unfolding raise
    raise-Ensures Q e = record { at = λ w i x. i }

    pub encoded-Ensures : (r : Fallible A) → Ensures I X (encoded r) (λ a d. (r ≡ done a) × X d)
    unfolding encoded
    encoded-Ensures (done a) = record { at = λ w i x. (i, (refl, x)) }
    encoded-Ensures (failed e) = record { at = λ w i x. i }

    -- A value that is read off the database.
    pub gets-Ensures : (f : Db → A) → Ensures I X (gets (λ w. f w.db)) (λ a d. (a ≡ f d) × X d)
    unfolding gets
    gets-Ensures f = record { at = λ w i x. (i, (refl, x)) }

    -- A value that is read off the other fields.
    pub reads-Ensures : (f : Manager Db → A) → Ensures I X (gets f) (λ a d. X d)
    unfolding gets
    reads-Ensures f = record { at = λ w i x. (i, x) }

  module _ {X : Db → Type 0} where
    check_on-Ensures : (fs : List (Option Bytes)) → Ensures I X (check_on fs) (λ a d. X d)
    check_on-Ensures [] = record { at = λ w i x. (i, x) }
    check_on-Ensures (none ∷ fs) = record { at = λ w i x. (i, x) }
    check_on-Ensures (some e ∷ fs) = record { at = λ w i x. i }

    pub check-Ensures : Ensures I X check (λ a d. X d)
    unfolding check
    check-Ensures = record { at = λ w. (check_on-Ensures w.faults).at w }

    attempt_on-Ensures :
        (fs : List (Option Bytes)) → Ensures I X (attempt (check_on fs)) (λ a d. X d)
    unfolding attempt
    attempt_on-Ensures [] = record { at = λ w i x. (i, x) }
    attempt_on-Ensures (none ∷ fs) = record { at = λ w i x. (i, x) }
    attempt_on-Ensures (some e ∷ fs) = record { at = λ w i x. (i, x) }

    pub attempt-Ensures : Ensures I X (attempt check) (λ a d. X d)
    unfolding attempt check
    attempt-Ensures = record { at = λ w. (attempt_on-Ensures w.faults).at w }

    pub require-Ensures :
        (b : Bool) (e : PelicanError) → Ensures I X (require b e) (λ a d. (b ≡ true) × X d)
    unfolding require
    require-Ensures true e = record { at = λ w i x. (i, (refl, x)) }
    require-Ensures false e = record { at = λ w i x. i }

    pub now_ms-Ensures : Ensures I X now_ms (λ a d. X d)
    unfolding now_ms
    now_ms-Ensures = record { at = λ w i x. (i, x) }

    pub set_bytes-Ensures : (n : ℕ) → Ensures I X (set_bytes n) (λ a d. X d)
    unfolding set_bytes
    set_bytes-Ensures n = record { at = λ w i x. (i, x) }

    pub open_tree-Ensures : (n : Bytes) → Ensures I X (open_tree n) (λ a d. (a ≡ n) × X d)
    unfolding open_tree
    open_tree-Ensures n = next check-Ensures (λ _. pure-Ensures _ n (λ d i x. (refl, x)))

    -- The handle of a tree is its name.
    pub open_then :
        {B : Type 0} {R : B → Db → Type 0} (n : Bytes) (f : Bytes → Exec Db B)
        → Ensures I X (f n) R
        → Ensures I X (open_tree n >>= f) R
    open_then {R = R} n f h =
        next (open_tree-Ensures n)
          (λ a. record { at = λ w i x. subst (λ k. Ends I R (f k w)) (sym x.0) (h.at w i x.1) })

    -- The one step that has to prove the invariant again.
    pub update_db-Ensures :
        (Y : Db → Type 0) (f : Db → Db)
        → ((d : Db) → I d → X d → I (f d) × Y (f d))
        → Ensures I X (update_db f) (λ a d. Y d)
    unfolding update_db
    update_db-Ensures Y f h = record { at = λ w i x. h w.db i x }

-- A method keeps the invariant on each of its endings, and has no other.
abbrev pub Settles : {Db A : Type 0} → (Db → Type 0) → Outcome A × Manager Db → Type 0
Settles I r = Ends I (λ a d. Unit {0}) r
