-- ===== src/Account/UseCase/Rollback.antt =====
-- What a failed call of user-service/backend/internal/biz/identity/biz.go leaves behind.
use mathlib.Core.Path.{subst}
use tidewise_ai.Prelude.{
  ℕ, zero, suc, ◌≡◌, refl, sym, ap, ◌∙◌, true, String, Option, none, some, Result, ok, err,
  Bool-cases, inl, inr, str_eq,
}
use tidewise_ai.Account.{Error, Bytes, LoginOptions}
use tidewise_ai.Account.Act.{Tables, World, Act, next, ◌>>=◌, pure, within}
use tidewise_ai.Account.Act.Laws.{
  Order, Moves, Moves-bind, Moves-choice, Moves-pure, Moves-fail, Moves-lift, Moves-asks,
  Moves-fail_if, Failed, within-Failed,
}
use tidewise_ai.Account.Wechat.Moves.{Moves-exchange, Moves-phone}
use tidewise_ai.Account.UseCase.{
  Service, Login, attempt, attempts, admitted, is_conflict, conflict_unavailable, raw_token, login,
  update_nickname,
}

abbrev Same : Tables → Tables → Type 0
Same t u = u ≡ t

Same-order : Order Same
Same-order = record { same = λ t. refl; both = λ t u v p q. q ∙ p }

-- A call that changes nothing where it fails.
pub record Undone {A : Type 0} (m : Act A) : Type 0 where
  pub at : (w : World) → Failed (m w).0 → (m w).1.tables ≡ w.tables

next-Undone :
    {A B : Type 0} (t : Tables) (x : Result Error A × World) (f : A → Act B)
    → x.1.tables ≡ t
    → ((a : A) → Undone (f a))
    → Failed (next x f).0
    → (next x f).1.tables ≡ t
next-Undone t (ok a, w) f e k h = (k a).at w h ∙ e
next-Undone t (err e, w) f p k h = p

-- Reads and effects outside the tables, and then a call that undoes.
Undone-after :
    {A B : Type 0} {m : Act A} {f : A → Act B}
    → Moves Same m
    → ((a : A) → Undone (f a))
    → Undone (m >>= f)
unfolding ◌>>=◌
Undone-after {m} {f} h k = record { at = λ w. next-Undone w.tables (m w) f (h.at w) k }

next-pure :
    {A B : Type 0} (t : Tables) (x : Result Error A × World) (f : A → B)
    → (Failed x.0 → x.1.tables ≡ t)
    → Failed (next x (λ a. pure (f a))).0
    → (next x (λ a. pure (f a))).1.tables ≡ t
unfolding pure
next-pure t (ok a, w) f k h = absurd h
next-pure t (err e, w) f k h = k tt

Undone-pure : {A B : Type 0} {m : Act A} (f : A → B) → Undone m → Undone (m >>= λ a. pure (f a))
unfolding ◌>>=◌
Undone-pure {m} f h = record { at = λ w. next-pure w.tables (m w) f (h.at w) }

conflict-Failed : {A : Type 0} (r : Result Error A) → is_conflict r ≡ true → Failed r
conflict-Failed (ok a) h = cc
conflict-Failed (err e) h = tt

Undone-attempts : {A : Type 0} (n : ℕ) (m : Act A) → Undone m → Undone (attempts n m)
unfolding attempts
Undone-attempts zero m h = record { at = λ w f. refl }
Undone-attempts (suc n) m h = record {
  at = λ w. elim (Bool-cases (is_conflict (m w).0)) [
    | inl e ↦ rw e λ f. (Undone-attempts n m h).at (m w).1 f ∙ h.at w (conflict-Failed (m w).0 e)
    | inr e ↦ rw e (h.at w)
  ];
}

unavailable-Failed : {A : Type 0} (r : Result Error A) → Failed (conflict_unavailable r) → Failed r
unavailable-Failed (ok a) h = h
unavailable-Failed (err e) h = tt

Undone-admitted : (u : Service) (l : Login) → Undone (admitted u l)
unfolding admitted
Undone-admitted u l = record {
  at = λ w h.
      (Undone-attempts 3 (within u.env (attempt u l))
          (record { at = within-Failed u.env (attempt u l) })).at
        w (unavailable-Failed _ h);
}

Moves-raw_token : (o : Option Bytes) → Moves Same (raw_token o)
Moves-raw_token none = Moves-fail Same-order _
Moves-raw_token (some raw) = Moves-pure Same-order raw

Undone-login :
    (u : Service) (js_code previous : String) (opt : LoginOptions)
    → Undone (login u js_code previous opt)
unfolding login
Undone-login u js_code previous opt = Undone-after (Moves-fail_if Same-order _ _) λ _.
    Undone-after (Moves-lift Same-order _) λ hash.
      Undone-after (Moves-exchange Same-order u.client js_code) λ who.
        Undone-after
          (Moves-choice (str_eq opt.phone_code "") (Moves-pure Same-order "")
            (Moves-phone Same-order u.client opt.phone_code))
          λ number.
            Undone-after (Moves-bind Same-order (Moves-asks Same-order _) Moves-raw_token)
              λ raw. Undone-pure _ (Undone-admitted u _)

undone :
    {A : Type 0} {m : Act A}
    → Undone m
    → (w v : World) {e : Error} → m w ≡ (err e, v)
    → v.tables ≡ w.tables
undone {m} k w v {e} h = ap (λ r. r.1.tables) (sym h) ∙ k.at w (subst (λ r. Failed r.0) (sym h) tt)

-- A login that returns an error leaves the users, identities and sessions as they were.
pub login-rolled_back :
    (u : Service) (js_code previous : String) (opt : LoginOptions) (w v : World) {e : Error}
    → login u js_code previous opt w ≡ (err e, v)
    → v.tables ≡ w.tables
login-rolled_back u js_code previous opt w v {e} h =
    undone (Undone-login u js_code previous opt) w v h

Undone-within : {A : Type 0} (u : Service) (m : Act A) → Undone (within u.env m)
Undone-within u m = record { at = within-Failed u.env m }

Undone-update :
    (u : Service) (word nickname : String) (o : Option Bytes)
    → Undone (update_nickname u word nickname o)
unfolding update_nickname
Undone-update u word nickname o = Undone-after (Moves-fail_if Same-order _ _) λ _.
    Undone-after (Moves-lift Same-order _)
      λ hash. Undone-after (Moves-lift Same-order _) λ image. Undone-within u _

-- A change of nickname and avatar that returns an error changes neither.
pub update_nickname-rolled_back :
    (u : Service) (word nickname : String) (o : Option Bytes) (w v : World) {e : Error}
    → update_nickname u word nickname o w ≡ (err e, v)
    → v.tables ≡ w.tables
update_nickname-rolled_back u word nickname o w v {e} h =
    undone (Undone-update u word nickname o) w v h
