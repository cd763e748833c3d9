-- ===== src/Account/Act/Laws.antt =====
-- What a call does to the tables, step by step: a relation that every statement keeps is kept by a
-- transaction and by a call, and a transaction that fails leaves the tables as they were.
use tidewise_ai.Prelude.{
  if◌then◌else◌, ℕ, ◌≡◌, refl, Bool, true, false, Option, none, some, Result, ok, err,
}
use tidewise_ai.Account.{Error}
use tidewise_ai.Account.Act.{
  Tables, World, Environment, DatabaseError, Act, next, ◌>>=◌, pure, fail, lift, asks, fail_if,
  outcome, statement, committed, begun, within, finished, ticked,
}

-- A call whose tables before and after are in a relation that is reflexive and transitive.
pub record Moves {A : Type 0} (R : Tables → Tables → Type 0) (m : Act A) : Type 0 where
  pub at : (w : World) → R w.tables (m w).1.tables

-- A reflexive and transitive relation.
pub record Order (R : Tables → Tables → Type 0) : Type 0 where
  pub same : (t : Tables) → R t t
  pub both : (t u v : Tables) → R t u → R u v → R t v

pub Moves-choice :
    {A : Type 0} {R : Tables → Tables → Type 0} (b : Bool) {m n : Act A}
    → Moves R m
    → Moves R n
    → Moves R (if b then m else n)
Moves-choice true h g = h
Moves-choice false h g = g

module _ {R : Tables → Tables → Type 0} (o : Order R) where
  pub Moves-pure : {A : Type 0} (a : A) → Moves R (pure a)
  unfolding pure
  Moves-pure a = record { at = λ w. o.same w.tables }

  pub Moves-fail : {A : Type 0} (e : Error) → Moves R (fail {A = A} e)
  unfolding fail
  Moves-fail e = record { at = λ w. o.same w.tables }

  pub Moves-lift : {A : Type 0} (r : Result Error A) → Moves R (lift r)
  unfolding lift
  Moves-lift r = record { at = λ w. o.same w.tables }

  pub Moves-asks : {A : Type 0} (f : ℕ → A) → Moves R (asks f)
  unfolding asks
  Moves-asks f = record { at = λ w. o.same w.tables }

  pub Moves-fail_if : (b : Bool) (e : Error) → Moves R (fail_if b e)
  unfolding fail_if
  Moves-fail_if true e = record { at = λ w. o.same w.tables }
  Moves-fail_if false e = record { at = λ w. o.same w.tables }

  Moves-next :
      {A B : Type 0} (t : Tables) (x : Result Error A × World) (f : A → Act B)
      → R t x.1.tables
      → ((a : A) → Moves R (f a))
      → R t (next x f).1.tables
  Moves-next t (ok a, w) f h k = o.both t w.tables _ h ((k a).at w)
  Moves-next t (err e, w) f h k = h

  pub Moves-bind :
      {A B : Type 0} {m : Act A} {f : A → Act B}
      → Moves R m
      → ((a : A) → Moves R (f a))
      → Moves R (m >>= f)
  unfolding ◌>>=◌
  Moves-bind {m} {f} h k = record { at = λ w. Moves-next w.tables (m w) f (h.at w) k }

  Moves-outcome :
      {A : Type 0} (fault : Option DatabaseError) (r : Result Error (A × Tables)) (w : World)
      → ((a : A) (u : Tables) → r ≡ ok (a, u) → R w.tables u)
      → R w.tables (outcome fault r w).1.tables
  Moves-outcome (some e) r w h = o.same w.tables
  Moves-outcome none (err e) w h = o.same w.tables
  Moves-outcome none (ok (a, u)) w h = h a u refl

  pub Moves-statement :
      {A : Type 0} (env : Environment) (q : Tables → Result Error (A × Tables))
      → ((t u : Tables) (a : A) → q t ≡ ok (a, u) → R t u)
      → Moves R (statement env q)
  unfolding statement
  Moves-statement env q h = record {
    at = λ w. Moves-outcome (env.fault w.tick) (q w.tables) (ticked w) λ a u. h w.tables u a;
  }

  Moves-finished :
      {A : Type 0} (fault : Option DatabaseError) (before : World) (a : A) (w : World)
      → R before.tables w.tables
      → R before.tables (finished fault before a w).1.tables
  Moves-finished (some e) before a w h = o.same before.tables
  Moves-finished none before a w h = h

  Moves-committed :
      {A : Type 0} (env : Environment) (before : World) (x : Result Error A × World)
      → R before.tables x.1.tables
      → R before.tables (committed env before x).1.tables
  Moves-committed env before (err e, w) h = o.same before.tables
  Moves-committed env before (ok a, w) h = Moves-finished (env.fault w.tick) before a w h

  Moves-begun :
      {A : Type 0} (env : Environment) (fault : Option DatabaseError) (m : Act A)
      → Moves R m
      → (w : World) → R w.tables (begun env fault m w).1.tables
  Moves-begun env (some e) m h w = o.same w.tables
  Moves-begun env none m h w = Moves-committed env w (m w) (h.at w)

  pub Moves-within :
      {A : Type 0} (env : Environment) (m : Act A) → Moves R m → Moves R (within env m)
  unfolding within
  Moves-within env m h = record { at = λ w. Moves-begun env (env.fault w.tick) m h (ticked w) }

abbrev pub Failed : {A : Type 0} → Result Error A → Type 0
Failed (ok a) = ⊥
Failed (err e) = Unit

finished-Failed :
    {A : Type 0} (fault : Option DatabaseError) (before : World) (a : A) (w : World)
    → Failed (finished fault before a w).0
    → (finished fault before a w).1.tables ≡ before.tables
finished-Failed (some e) before a w h = refl
finished-Failed none before a w h = absurd h

committed-Failed :
    {A : Type 0} (env : Environment) (before : World) (x : Result Error A × World)
    → Failed (committed env before x).0
    → (committed env before x).1.tables ≡ before.tables
committed-Failed env before (err e, w) h = refl
committed-Failed env before (ok a, w) h = finished-Failed (env.fault w.tick) before a w h

begun-Failed :
    {A : Type 0} (env : Environment) (fault : Option DatabaseError) (m : Act A) (w : World)
    → Failed (begun env fault m w).0
    → (begun env fault m w).1.tables ≡ w.tables
begun-Failed env (some e) m w h = refl
begun-Failed env none m w h = committed-Failed env w (m w) h

-- A transaction that fails leaves the tables as they were.
pub within-Failed :
    {A : Type 0} (env : Environment) (m : Act A) (w : World)
    → Failed (within env m w).0
    → (within env m w).1.tables ≡ w.tables
unfolding within
within-Failed env m w h = begun-Failed env (env.fault w.tick) m (ticked w) h
