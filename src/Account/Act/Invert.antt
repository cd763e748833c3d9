-- ===== src/Account/Act/Invert.antt =====
-- What a call did that succeeded, step by step.
use tidewise_ai.Prelude.{ℕ, ◌≡◌, refl, ap, Bool, true, false, Option, none, some, Result, ok, err}
use tidewise_ai.Account.{Error}
use tidewise_ai.Account.Act.{
  Tables, World, Environment, DatabaseError, database_error, Act, next, ◌>>=◌, pure, lift, asks,
  fail_if, outcome, statement, ticked, within, begun, committed, finished,
}

next-ok :
    {A B : Type 0} (x : Result Error A × World) (f : A → Act B) {b : B} {v : World}
    → next x f ≡ (ok b, v)
    → (a : A) × (y : World) × (x ≡ (ok a, y)) × (f a y ≡ (ok b, v))
next-ok (ok a, w) f h = (a, w, refl, h)
next-ok (err e, w) f {b} {v} h = absurd (let bad : err e ≡ ok b = ap (λ r. r.0) h in cc)

pub bind-ok :
    {A B : Type 0} (m : Act A) (f : A → Act B) (w : World) {b : B} {v : World}
    → (m >>= f) w ≡ (ok b, v)
    → (a : A) × (y : World) × (m w ≡ (ok a, y)) × (f a y ≡ (ok b, v))
unfolding ◌>>=◌
bind-ok m f w h = next-ok (m w) f h

-- The parts of a pair with a successful result.
pub pair-ok :
    {A : Type 0} {a b : A} {w v : World}
    → ◌≡◌ {A = Result Error A × World} (ok a, w) (ok b, v)
    → (a ≡ b) × (w ≡ v)
pair-ok {A} {a} {b} h =
    let first : ◌≡◌ {A = Result Error A} (ok a) (ok b) = ap (λ r. r.0) h in
    let same : a ≡ b = cc in (same, ap (λ r. r.1) h)

pub pure-ok :
    {A : Type 0} (a : A) (w : World) {b : A} {v : World} → pure a w ≡ (ok b, v) → (a ≡ b) × (w ≡ v)
unfolding pure
pure-ok a w h = pair-ok h

pub lift-ok :
    {A : Type 0} (r : Result Error A) (w : World) {a : A} {v : World}
    → lift r w ≡ (ok a, v)
    → (r ≡ ok a) × (w ≡ v)
unfolding lift
lift-ok r w h = (ap (λ x. x.0) h, ap (λ x. x.1) h)

pub asks-ok :
    {A : Type 0} (f : ℕ → A) (w : World) {a : A} {v : World}
    → asks f w ≡ (ok a, v)
    → (f w.tick ≡ a) × (ticked w ≡ v)
unfolding asks
asks-ok f w h = pair-ok h

pub fail_if-ok :
    (b : Bool) (e : Error) (w : World) {a : Unit {0}} {v : World}
    → fail_if b e w ≡ (ok a, v)
    → (b ≡ false) × (w ≡ v)
unfolding fail_if
fail_if-ok true e w {a} h = absurd (let bad : err e ≡ ok a = ap (λ r. r.0) h in cc)
fail_if-ok false e w h = (refl, ap (λ r. r.1) h)

outcome-ok :
    {A : Type 0} (o : Option DatabaseError) (r : Result Error (A × Tables)) (w : World) {a : A}
    {v : World}
    → outcome o r w ≡ (ok a, v)
    → r ≡ ok (a, v.tables)
outcome-ok (some e) r w {a} h =
    absurd (let bad : err (database_error e) ≡ ok a = ap (λ x. x.0) h in cc)
outcome-ok none (err e) w {a} h = absurd (let bad : err e ≡ ok a = ap (λ x. x.0) h in cc)
outcome-ok none (ok (b, t)) w {a} {v} h =
    let (p, q) = pair-ok h in let r : t ≡ v.tables = ap (λ x. x.tables) q in rw (p, r)

pub statement-ok :
    {A : Type 0} (env : Environment) (q : Tables → Result Error (A × Tables)) (w : World) {a : A}
    {v : World}
    → statement env q w ≡ (ok a, v)
    → q w.tables ≡ ok (a, v.tables)
unfolding statement
statement-ok env q w h = outcome-ok (env.fault w.tick) (q w.tables) (ticked w) h

finished-ok :
    {A : Type 0} (o : Option DatabaseError) (w : World) (b : A) (x : World) {a : A} {v : World}
    → finished o w b x ≡ (ok a, v)
    → (b ≡ a) × (ticked x ≡ v)
finished-ok (some e) w b x {a} h =
    absurd (let bad : err (database_error e) ≡ ok a = ap (λ r. r.0) h in cc)
finished-ok none w b x h = pair-ok h

committed-ok :
    {A : Type 0} (env : Environment) (w : World) (r : Result Error A × World) {a : A} {v : World}
    → committed env w r ≡ (ok a, v)
    → (x : World) × (r ≡ (ok a, x)) × (ticked x ≡ v)
committed-ok env w (err e, x) {a} h = absurd (let bad : err e ≡ ok a = ap (λ r. r.0) h in cc)
committed-ok env w (ok b, x) h =
    let (p, q) = finished-ok (env.fault x.tick) w b x h in (x, ap (λ c. (ok c, x)) p, q)

begun-ok :
    {A : Type 0} (env : Environment) (o : Option DatabaseError) (m : Act A) (w : World) {a : A}
    {v : World}
    → begun env o m w ≡ (ok a, v)
    → (x : World) × (m w ≡ (ok a, x)) × (ticked x ≡ v)
begun-ok env (some e) m w {a} h =
    absurd (let bad : err (database_error e) ≡ ok a = ap (λ r. r.0) h in cc)
begun-ok env none m w h = committed-ok env w (m w) h

-- A transaction that succeeds did what its callback did.
pub within-ok :
    {A : Type 0} (env : Environment) (m : Act A) (w : World) {a : A} {v : World}
    → within env m w ≡ (ok a, v)
    → (x : World) × (m (ticked w) ≡ (ok a, x)) × (ticked x ≡ v)
unfolding within
within-ok env m w h = begun-ok env (env.fault w.tick) m (ticked w) h
