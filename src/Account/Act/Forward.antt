-- ===== src/Account/Act/Forward.antt =====
-- What a call does, step by step, where no statement fails.
use tidewise_ai.Prelude.{ℕ, ◌≡◌, refl, Bool, false, none, Result, ok, ap, ◌∙◌}
use tidewise_ai.Account.{Error}
use tidewise_ai.Account.Act.{
  Tables, World, Environment, Act, next, ◌>>=◌, pure, lift, asks, fail_if, statement, ticked,
  within,
}

pub bind-is :
    {A B : Type 0} (m : Act A) (f : A → Act B) {w x : World} {a : A} {r : Result Error B × World}
    → m w ≡ (ok a, x)
    → f a x ≡ r
    → (m >>= f) w ≡ r
unfolding ◌>>=◌
bind-is m f h k = ap (λ y. next y f) h ∙ k

pub pure-is : {A : Type 0} (a : A) (w : World) → pure a w ≡ (ok a, w)
unfolding pure
pure-is a w = refl

pub lift-is :
    {A : Type 0} (r : Result Error A) (w : World) {a : A} → r ≡ ok a → lift r w ≡ (ok a, w)
unfolding lift
lift-is r w h = ap (λ x. (x, w)) h

pub asks-is : {A : Type 0} (f : ℕ → A) (w : World) → asks f w ≡ (ok (f w.tick), ticked w)
unfolding asks
asks-is f w = refl

pub fail_if-is : (b : Bool) (e : Error) (w : World) → b ≡ false → fail_if b e w ≡ (ok tt, w)
unfolding fail_if
fail_if-is b e w h = rw h

pub statement-is :
    {A : Type 0} (env : Environment) (q : Tables → Result Error (A × Tables)) (w : World) {a : A}
    {t : Tables}
    → env.fault w.tick ≡ none
    → q w.tables ≡ ok (a, t)
    → statement env q w ≡ (ok a, record (ticked w) { tables = t })
unfolding statement
statement-is env q w h k = rw (h, k)

-- A transaction whose callback succeeds, and which then commits.
pub within-is :
    {A : Type 0} (env : Environment) (m : Act A) (w : World) {a : A} {x : World}
    → env.fault w.tick ≡ none
    → m (ticked w) ≡ (ok a, x)
    → env.fault x.tick ≡ none
    → within env m w ≡ (ok a, ticked x)
unfolding within
within-is env m w h k l = rw (h, k, l)
