-- ===== src/Watchlist/Listed.antt =====
-- What `List` of user-service/backend/internal/biz/watchlist/biz.go returns to a user whose session
-- lasts, while the database answers.
use tidewise_ai.Prelude.{
  ℕ, ◌+◌, ◌≤◌, ◌≡◌, refl, ap, ◌∙◌, true, false, not, ◌||◌, String, none, List, Result, ok, str_eq,
  arith,
}
use tidewise_ai.Prelude.Int.{pos, ltb_ℤ}
use tidewise_ai.Account.{Bytes, unauthenticated, disabled, invalid_request}
use tidewise_ai.Account.Act.{Tables, World, ticked, Act, statement, lift}
use tidewise_ai.Account.Act.Forward.{
  bind-is, pure-is, lift-is, asks-is, fail_if-is, statement-is, within-is,
}
use tidewise_ai.Account.Tables.{kept}
use tidewise_ai.Account.UseCase.{token_hash}
use tidewise_ai.Watchlist.{
  Entry, Cursor, Page, Watch, Owner, quiet, owner_of, bad_owner, checked, authorized,
}
use tidewise_ai.Watchlist.Calls.{
  list, list_rows, cut, counted, selected, cursor_of, take, select, is_after, watched, all_valid,
}

-- The session of a token is one of an active user and of this app at every reading of the clock, and
-- no statement fails.
pub record Serves (u : Watch) (token user : String) (t : Tables) : Type 0 where
  pub hash : Bytes
  pub owner : Owner
  pub hashed : token_hash u.env token ≡ ok hash
  pub owned : owner_of t hash ≡ ok owner
  pub is_user : owner.user_id ≡ user
  pub lasts : (n : ℕ) → bad_owner u owner (u.env.now n) ≡ false
  pub active : not (str_eq owner.status "active") ≡ false
  pub answers : (n : ℕ) → u.env.fault n ≡ none

-- The page behind a cursor.
abbrev pub page_at : Watch → ℕ → ℕ → List Entry → Cursor → Page
page_at u limit total entries after = cut u limit (record {
  items = take (limit + 1) (select (is_after after) entries);
  total = total;
  next_cursor = "";
})

module _ (u : Watch) (token user : String) (t : Tables) (s : Serves u token user t) where
  no_fault : (n : ℕ) → (quiet u.env).fault n ≡ none
  no_fault n = rw (s.answers n)

  reads-is :
      {A : Type 0} (q : Tables → Result _ A) (w : World) {a : A}
      → w.tables ≡ t
      → q t ≡ ok a
      → statement (quiet u.env) (λ x. kept x (q x)) w ≡ (ok a, ticked w)
  reads-is q w {a} h k =
      statement-is (quiet u.env) (λ x. kept x (q x)) w (no_fault w.tick)
        (let e : q w.tables ≡ ok a = rw h k in rw e)

  authorized-is :
      {A : Type 0} (f : String → Act A) (w : World) {a : A} {x : World}
      → w.tables ≡ t
      → f user (ticked (ticked (ticked w))) ≡ (ok a, x)
      → authorized u token f w ≡ (ok a, ticked x)
  unfolding authorized
  authorized-is f w {a} {x} h k =
      bind-is (lift (token_hash u.env token)) _ (lift-is _ w s.hashed)
        (within-is (quiet u.env) (checked u s.hash f) w (no_fault w.tick) steps (no_fault x.tick))
    where
      steps : checked u s.hash f (ticked w) ≡ (ok a, x)
      steps = bind-is _ _ (reads-is (λ y. owner_of y s.hash) (ticked w) h s.owned) (
          bind-is _ _ (asks-is u.env.now (ticked (ticked w))) (
            bind-is _ _
              (fail_if-is (bad_owner u s.owner (u.env.now _)) unauthenticated _ (s.lasts _))
              (bind-is _ _ (fail_if-is (not (str_eq s.owner.status "active")) disabled _ s.active)
                (ap (λ q. f q (ticked (ticked (ticked w)))) s.is_user ∙ k))))

  list_rows-is :
      (after : Cursor) (n : ℕ) (w : World)
      → w.tables ≡ t
      → all_valid (take n (select (is_after after) (watched user t))) ≡ true
      → list_rows u user after n w ≡ (
        ok (record {
          items = take n (select (is_after after) (watched user t));
          total = counted user t;
          next_cursor = "";
        }),
        ticked (ticked w),
      )
  unfolding list_rows
  list_rows-is after n w h v =
      bind-is _ _ (reads-is (λ x. ok (counted user x)) w h refl)
        (bind-is _ _ (reads-is (selected user after n) (ticked w) h (rw v)) (pure-is _ _))

  pub list-is :
      (cursor : String) (limit : ℕ) (after : Cursor) (w : World)
      → 1 ≤ limit
      → limit ≤ 100
      → w.tables ≡ t
      → cursor_of u cursor ≡ ok after
      → all_valid (take (limit + 1) (select (is_after after) (watched user t))) ≡ true
      → (v : World) × (list u token cursor (pos limit) w
          ≡ (ok (page_at u limit (counted user t) (watched user t) after), v))
        × (v.tables ≡ t)
  unfolding list
  list-is cursor limit after w p q h c v = (
    _,
    bind-is _ _
        (fail_if-is (ltb_ℤ (pos limit) (pos 1) || ltb_ℤ (pos 100) (pos limit)) invalid_request w
          (ground arith))
        (bind-is _ _ (lift-is (cursor_of u cursor) w c) (
          authorized-is _ w h (
            bind-is _ _ (list_rows-is after (limit + 1) (ticked (ticked (ticked w))) h v)
              (pure-is _ _)))),
    h,
  )
