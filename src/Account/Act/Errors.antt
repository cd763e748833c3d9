-- ===== src/Account/Act/Errors.antt =====
-- Which errors a call returns: a test that the errors of each part meet is met by those of the whole.
use tidewise_ai.Prelude.{
  ℕ, ◌≡◌, Bool, true, false, Option, none, some, Result, ok, err, if◌then◌else◌,
}
use tidewise_ai.Account.{Error, unavailable, conflict}
use tidewise_ai.Account.Act.{
  Tables, World, Environment, DatabaseError, database_error, unique_violation, other_failure, Act,
  next, ◌>>=◌, pure, fail, lift, asks, fail_if, outcome, statement, within, begun, committed,
  finished,
}

-- All errors of a result, and of a call, meet a test.
abbrev pub Meets : {A : Type 0} → (Error → Bool) → Result Error A → Type 0
Meets p (ok a) = Unit
Meets p (err e) = p e ≡ true

pub record Raises {A : Type 0} (p : Error → Bool) (m : Act A) : Type 0 where
  pub at : (w : World) → Meets p (m w).0

module _ {p : Error → Bool} where
  pub Raises-pure : {A : Type 0} (a : A) → Raises p (pure a)
  unfolding pure
  Raises-pure a = record { at = λ w. tt }

  pub Raises-fail : {A : Type 0} (e : Error) → p e ≡ true → Raises p (fail {A = A} e)
  unfolding fail
  Raises-fail e h = record { at = λ w. h }

  pub Raises-lift : {A : Type 0} (r : Result Error A) → Meets p r → Raises p (lift r)
  unfolding lift
  Raises-lift r h = record { at = λ w. h }

  pub Raises-asks : {A : Type 0} (f : ℕ → A) → Raises p (asks f)
  unfolding asks
  Raises-asks f = record { at = λ w. tt }

  pub Raises-fail_if : (b : Bool) (e : Error) → p e ≡ true → Raises p (fail_if b e)
  unfolding fail_if
  Raises-fail_if true e h = record { at = λ w. h }
  Raises-fail_if false e h = record { at = λ w. tt }

  Meets-next :
      {A B : Type 0} (x : Result Error A × World) (f : A → Act B)
      → Meets p x.0
      → ((a : A) → Raises p (f a))
      → Meets p (next x f).0
  Meets-next (ok a, w) f h k = (k a).at w
  Meets-next (err e, w) f h k = h

  pub Raises-bind :
      {A B : Type 0} {m : Act A} {f : A → Act B}
      → Raises p m
      → ((a : A) → Raises p (f a))
      → Raises p (m >>= f)
  unfolding ◌>>=◌
  Raises-bind {m} {f} h k = record { at = λ w. Meets-next (m w) f (h.at w) k }

  pub Raises-choice :
      {A : Type 0} (b : Bool) {m n : Act A}
      → Raises p m
      → Raises p n
      → Raises p (if b then m else n)
  Raises-choice true h k = h
  Raises-choice false h k = k

-- Statements and transactions also return what becomes of a database error.
module _ (p : Error → Bool) (c : p conflict ≡ true) (d : p unavailable ≡ true) where
  Meets-database : (e : DatabaseError) → p (database_error e) ≡ true
  Meets-database unique_violation = c
  Meets-database other_failure = d

  Meets-outcome :
      {A : Type 0} (o : Option DatabaseError) (r : Result Error (A × Tables)) (w : World)
      → Meets p r
      → Meets p (outcome o r w).0
  Meets-outcome (some e) r w h = Meets-database e
  Meets-outcome none (err e) w h = h
  Meets-outcome none (ok (a, t)) w h = tt

  pub Raises-statement :
      {A : Type 0} (env : Environment) (q : Tables → Result Error (A × Tables))
      → ((t : Tables) → Meets p (q t))
      → Raises p (statement env q)
  unfolding statement
  Raises-statement env q h = record {
    at = λ w. Meets-outcome (env.fault w.tick) (q w.tables) _ (h w.tables);
  }

  Meets-finished :
      {A : Type 0} (o : Option DatabaseError) (v : World) (a : A) (w : World)
      → Meets p (finished o v a w).0
  Meets-finished (some e) v a w = Meets-database e
  Meets-finished none v a w = tt

  Meets-committed :
      {A : Type 0} (env : Environment) (v : World) (x : Result Error A × World)
      → Meets p x.0
      → Meets p (committed env v x).0
  Meets-committed env v (err e, w) h = h
  Meets-committed env v (ok a, w) h = Meets-finished (env.fault w.tick) v a w

  Meets-begun :
      {A : Type 0} (env : Environment) (o : Option DatabaseError) (m : Act A) (w : World)
      → Raises p m
      → Meets p (begun env o m w).0
  Meets-begun env (some e) m w h = Meets-database e
  Meets-begun env none m w h = Meets-committed env w (m w) (h.at w)

  pub Raises-within :
      {A : Type 0} (env : Environment) (m : Act A) → Raises p m → Raises p (within env m)
  unfolding within
  Raises-within env m h = record { at = λ w. Meets-begun env (env.fault w.tick) m _ h }
