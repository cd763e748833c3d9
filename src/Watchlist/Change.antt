-- ===== src/Watchlist/Change.antt =====
-- `Change` of user-service/backend/internal/biz/watchlist/biz.go: what an accepted change does to the
-- watch lists.
use mathlib.Core.Path.{subst}
use tidewise_ai.Prelude.{
  ◌≡◌, refl, sym, ap, ◌∙◌, Bool, true, false, not, ◌&&◌, ◌||◌, String, List, [], ◌∷◌, ◌++◌, ok,
  Bool-cases, inl, inr, str_eq, str_eq_to, str_eq_self, arith,
}
use tidewise_ai.Account.{Bytes, Time, invalid_request}
use tidewise_ai.Account.Act.{
  Tables, World, WatchRow, Act, statement, lift, asks, fail_if, ◌>>=◌, ticked,
}
use tidewise_ai.Account.Act.Invert.{bind-ok, lift-ok, asks-ok, fail_if-ok, statement-ok, within-ok}
use tidewise_ai.Account.Tables.{kept}
use tidewise_ai.Account.UseCase.{token_hash}
use tidewise_ai.Account.UseCase.Accepted.{kept-ok}
use tidewise_ai.Watchlist.{Watch, Owner, quiet, owner_of, bad_owner, checked, authorized, valid_id}
use tidewise_ai.Watchlist.Calls.{change, change_row, changed, add_row, has_row, is_row, select}

-- The rows of one user and one stock after a change are there or gone; all other rows are as before.
unfoldable pub IsChange : String → String → Bool → List WatchRow → List WatchRow → Type 0
IsChange user id add before after =
    (has_row user id after ≡ add)
    × ((other stock : String)
        → (str_eq user other && str_eq id stock) ≡ false
        → has_row other stock after ≡ has_row other stock before)

has_row-append :
    (user id : String) (rows : List WatchRow) (r : WatchRow)
    → has_row user id (rows ++ r ∷ []) ≡ (has_row user id rows || is_row user id r)
unfolding has_row
has_row-append user id [] r = ground arith
has_row-append user id (x ∷ xs) r = ground (arith, has_row-append user id xs r)

other_row :
    (user id other stock : String) (now : Time)
    → (str_eq user other && str_eq id stock) ≡ false
    → is_row other stock (record { user_id = user; stock_id = id; added_at = now }) ≡ false
other_row user id other stock now h = h

or_false : (b : Bool) → (b || false) ≡ b
or_false true = refl
or_false false = refl

add-IsChange :
    (user id : String) (now : Time) (rows : List WatchRow)
    → IsChange user id true rows (add_row user id now rows)
unfolding IsChange
add-IsChange user id now rows = elim (Bool-cases (has_row user id rows)) [
  | inl e ↦ rw e (e, λ other stock h. refl)
  | inr e ↦ rw e (
    has_row-append user id rows _ ∙ rw (e, str_eq_self user, str_eq_self id),
    λ other stock h. has_row-append other stock rows _ ∙ (rw h (or_false _)),
  )
]

gone :
    (user id : String) (rows : List WatchRow)
    → has_row user id (select (λ r. not (is_row user id r)) rows) ≡ false
unfolding has_row select
gone user id [] = refl
gone user id (r ∷ rs) = elim (Bool-cases (is_row user id r)) [
  | inl e ↦ rw e (gone user id rs)
  | inr e ↦ rw (e, e) (gone user id rs)
]

apart :
    (user id other stock : String) (r : WatchRow)
    → is_row user id r ≡ true
    → (str_eq user other && str_eq id stock) ≡ false
    → is_row other stock r ≡ false
apart user id other stock r e h =
    let p : r.user_id ≡ user = str_eq_to (ground arith) in
    let q : r.stock_id ≡ id = str_eq_to (ground arith) in rw (p, q) h

remaining :
    (user id other stock : String) (rows : List WatchRow)
    → (str_eq user other && str_eq id stock) ≡ false
    → has_row other stock (select (λ r. not (is_row user id r)) rows) ≡ has_row other stock rows
unfolding has_row select
remaining user id other stock [] h = refl
remaining user id other stock (r ∷ rs) h = elim (Bool-cases (is_row user id r)) [
  | inl e ↦ rw (e, apart user id other stock r e h) (remaining user id other stock rs h)
  | inr e ↦ rw e (ap (λ b. is_row other stock r || b) (remaining user id other stock rs h))
]

changed-IsChange :
    (user id : String) (add : Bool) (now : Time) (rows : List WatchRow)
    → IsChange user id add rows (changed user id add now rows)
unfolding IsChange
changed-IsChange user id true now rows = add-IsChange user id now rows
changed-IsChange user id false now rows =
    (gone user id rows, λ other stock h. remaining user id other stock rows h)

flipped : (b : Bool) → not b ≡ false → b ≡ true
flipped b h = ground arith

-- Whose rows an authorized callback works on.
pub record Authorized (u : Watch) (token : String) (t : Tables) (user : String) : Type 0 where
  pub hash : Bytes
  pub owner : Owner
  pub hashed : token_hash u.env token ≡ ok hash
  pub owned : owner_of t hash ≡ ok owner
  pub is_user : owner.user_id ≡ user
  pub now : Time
  pub passes : bad_owner u owner now ≡ false
  pub active : not (str_eq owner.status "active") ≡ false

checked-ok :
    {A : Type 0} (u : Watch) (hash : Bytes) (f : String → Act A) (w v : World) {a : A}
    → checked u hash f w ≡ (ok a, v)
    → (owner : Owner) × (now : Time) × (x : World) × (owner_of w.tables hash ≡ ok owner)
      × (bad_owner u owner now ≡ false)
      × (not (str_eq owner.status "active") ≡ false)
      × (f owner.user_id x ≡ (ok a, v))
      × (w.tables ≡ x.tables)
checked-ok u hash f w v h =
    let (owner, w1, e1, k1) =
      bind-ok (statement (quiet u.env) (λ t. kept t (owner_of t hash))) _ w h in
    let (p, same) = kept-ok _ _ (statement-ok (quiet u.env) _ w e1) in
    let (now, w2, e2, k2) = bind-ok (asks u.env.now) _ w1 k1 in
    let (_, tick) = asks-ok u.env.now w1 e2 in
    let (_, w3, e3, k3) = bind-ok _ _ w2 k2 in
    let (q, x) = fail_if-ok _ _ w2 e3 in
    let (_, w4, e4, k4) = bind-ok _ _ w3 k3 in
    let (r, y) = fail_if-ok _ _ w3 e4 in
    (
      owner,
      now,
      w4,
      p,
      q,
      r,
      k4,
      same ∙ ap (λ z. z.tables) tick ∙ ap (λ z. z.tables) x ∙ ap (λ z. z.tables) y,
    )

apply-IsChange :
    (u : Watch) (user id : String) (add : Bool) (w v : World) {a : Unit {0}}
    → (asks u.env.now >>= change_row u user id add) w ≡ (ok a, v)
    → IsChange user id add w.tables.watchlist v.tables.watchlist
apply-IsChange u user id add w v {a} h =
    let (now, x, e, k) = bind-ok (asks u.env.now) _ w h in
    let (_, tick) = asks-ok u.env.now w e in
    let next = record x.tables { watchlist = changed user id add now x.tables.watchlist } in
    let f : next ≡ v.tables = (kept-ok next (ok tt) (statement-ok (quiet u.env) _ x k)).1 in
    subst (λ t. IsChange user id add t.watchlist v.tables.watchlist) (sym (ap (λ z. z.tables) tick))
      (subst (λ t. IsChange user id add x.tables.watchlist t.watchlist) f
        (changed-IsChange user id add now x.tables.watchlist))

-- A change that succeeds is one of the user whose session the token is of, an active user of this app:
-- the stock is then on that user's list, or off it, and no other stock and no other user's list has
-- changed.
pub change-IsChange :
    (u : Watch) (token id : String) (add : Bool) (w v : World) {a : Unit {0}}
    → change u token id add w ≡ (ok a, v)
    → (user : String) × Authorized u token w.tables user
      × (valid_id id ≡ true)
      × IsChange user id add w.tables.watchlist v.tables.watchlist
unfolding change authorized
change-IsChange u token id add w v h =
    let (_, w1, e1, k1) = bind-ok (fail_if (not (valid_id id)) invalid_request) _ w h in
    let (valid, x1) = fail_if-ok _ _ w e1 in
    let (hash, w2, e2, k2) = bind-ok (lift (token_hash u.env token)) _ w1 k1 in
    let (hashed, x2) = lift-ok _ w1 e2 in
    let (w3, k3, x3) = within-ok (quiet u.env) _ w2 k2 in
    let (owner, now, w4, p, q, r, k4, x4) =
      checked-ok u hash (λ user. asks u.env.now >>= change_row u user id add) (ticked w2) w3 k3 in
    let before : w.tables ≡ w2.tables = ap (λ z. z.tables) x1 ∙ ap (λ z. z.tables) x2 in
    let after : w3.tables ≡ v.tables = ap (λ z. z.tables) x3 in
    let done = apply-IsChange u owner.user_id id add w4 w3 k4 in
    (
      owner.user_id,
      subst (λ t. Authorized u token t owner.user_id) (sym before)
          (record {
            hash = hash;
            owner = owner;
            hashed = hashed;
            owned = p;
            is_user = refl;
            now = now;
            passes = q;
            active = r;
          }),
      flipped _ valid,
      subst (λ t. IsChange owner.user_id id add t.watchlist v.tables.watchlist) (sym (before ∙ x4))
          (subst (λ t. IsChange owner.user_id id add w4.tables.watchlist t.watchlist) after done),
    )
